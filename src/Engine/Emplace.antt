-- ===== src/Engine/Emplace.antt =====
-- `emplace_impl` where memory is granted and the constructor succeeds: both ways it ends.
use cpp_unordered_map.Prelude.{
  to_nat, length, ℕ, ◌+◌, ◌≤◌, ◌<◌, ◌^◌, ◌≡◌, ◌⊎◌, ◌↔◌, refl, ◌∙◌, ap, inl, inr, true, false, Bool,
  some, none, ltb, ◌&&◌, ◌==◌, if◌then◌else◌, arith, if_true, if_false,
}
use cpp_unordered_map.Hash.{Traits}
use cpp_unordered_map.Index.{null_index}
use cpp_unordered_map.Load.{FloatOps}
use cpp_unordered_map.Outcome.{returned, bind-returned, read, require, pure, Action, ◌>>=◌, ◌>>◌}
use cpp_unordered_map.Table.{
  Table, Memory, acquire_node, destroy_value, release_node, construct_value,
}
use cpp_unordered_map.Valid.{IsValid, Stores}
use cpp_unordered_map.Growth.{Grows, Keeps-Grows}
use cpp_unordered_map.Arena.{Acquires, acquire_node-Acquires}
use cpp_unordered_map.Engine.{key_at, find_key, node_of_bucket, commit_node, emplace_impl}
use cpp_unordered_map.Engine.Lookup.{IsAbsent, find_key-FindsKey}
use cpp_unordered_map.Engine.Reserve.{IsGranted}
use cpp_unordered_map.Engine.Commit.{commit_node-Gains}
use cpp_unordered_map.Engine.Pending.{
  held, Stores-held, held-IsPending, dropped, Stores-dropped, dropped-IsValid,
}

module _ {ℓ} {F : Type 0} {K V : Type ℓ} (traits : Traits K V) where
  -- An element with an equal key lives at the node.
  abbrev pub HoldsKey : Table F K V → K → ℕ → Type ℓ
  HoldsKey t key x = (w : V) × Stores t x w × (t.policy.key_equal key (traits.key_of w) ≡ true)

  -- Either the key was absent and `v` is added at the returned node, or its element was there, is
  -- returned, and nothing is added.
  pub record Emplaces (float : FloatOps F) (t : Table F K V) (v : V) (r : ℕ × Bool)
      (t' : Table F K V) : Type ℓ where
    pub valid : IsValid traits t'
    pub growth : Grows float t t'
    pub grows : length t'.iteration ≡ length t.iteration + to_nat r.1
    pub outcome :
        (r.1 ≡ true)
          × IsAbsent traits t (traits.key_of v)
          × ((x : ℕ) (w : V) → Stores t' x w ↔ Stores t x w ⊎ (x ≡ r.0) × (w ≡ v))
        ⊎ (r.1 ≡ false)
          × HoldsKey t (traits.key_of v) r.0
          × ((x : ℕ) (w : V) → Stores t' x w ↔ Stores t x w)

  module _ (float : FloatOps F) (memory : Memory) (granted : IsGranted memory) where
    -- The run, from what each of its steps does.
    emplace_of :
        (t : Table F K V) (valid : IsValid traits t) (a : Acquires memory t t.iteration) (v : V)
        → t.bucket_count ≤ 2 ^ 22
        → (r : ℕ × Bool) × (t' : Table F K V) × (emplace_impl traits float memory (some v) t
            ≡ returned r t')
          × Emplaces float t v r t'
    unfolding emplace_impl acquire_node construct_value release_node destroy_value
    emplace_of t valid a v small =
        let s = a.slot in
        let h = held traits memory t valid a v in
        let p = held-IsPending traits memory t valid a v in
        let key = traits.key_of v in
        let inserted : Action (Table F K V) (ℕ × Bool) =
          commit_node traits float memory s >>= (λ _. pure (s, true)) in
        let found : ℕ → Action (Table F K V) (ℕ × Bool) = λ existing.
          node_of_bucket existing
          >>= (λ m. destroy_value s >> (release_node s >> pure (m, false))) in
        let decide : ℕ → Action (Table F K V) (ℕ × Bool) = λ existing.
          read (λ t. existing == t.bucket_count)
          >>= (λ absent. if absent then inserted else found existing) in
        let search : K → Action (Table F K V) (ℕ × Bool) = λ key. find_key traits key >>= decide in
        let (r, run, finds) = find_key-FindsKey traits p.searchable key in
        let start : emplace_impl traits float memory (some v) t ≡ decide r h =
          bind-returned (acquire_node memory) _ t a.run
          ∙ bind-returned (read (λ t. key_at traits t s) >>= require) search h (
              ap (λ o. require (elim o [ none ↦ none | some w ↦ some (traits.key_of w) ]) h)
                p.value)
          ∙ bind-returned (find_key traits key) decide h run in
        elim finds [
          | inl l ↦
              let m = (h.index.buckets r).node_index in
              let present : (r == h.bucket_count) ≡ false = ground (arith, l.inside, l.present) in
              let inside : h.has_buckets && ltb r h.bucket_count ≡ true =
                ground (arith, l.inside, l.present) in
              (
                (m, false),
                dropped traits memory t valid a v,
                start
                    ∙ ap (λ f. f h) (if_false inserted (found r) present)
                    ∙ bind-returned (node_of_bucket r)
                        (λ m. destroy_value s >> (release_node s >> pure (m, false))) h
                        (if_true _ _ inside),
                record {
                  valid = dropped-IsValid traits memory t valid a v;
                  growth = Keeps-Grows float (record {
                    policy = refl;
                    factor = refl;
                    high = a.most;
                    size = omega arith;
                    count = refl;
                    capacity = refl;
                  });
                  grows = omega arith;
                  outcome = inr (
                    refl,
                    (
                      l.value,
                      (Stores-held traits memory t valid a v m l.value).0 l.stored,
                      l.equal,
                    ),
                    Stores-dropped traits memory t valid a v,
                  );
                },
              )
          | inr (e, absent) ↦
              let missing : (r == h.bucket_count) ≡ true = ground (arith, e) in
              let (t', run', g) =
                commit_node-Gains traits float memory granted h s v p small absent in
              let same = Stores-held traits memory t valid a v in
              (
                (s, true),
                t',
                start
                    ∙ ap (λ f. f h) (if_true inserted (found r) missing)
                    ∙ bind-returned (commit_node traits float memory s) (λ _. pure (s, true)) h
                        run',
                record {
                  valid = g.valid;
                  growth = record {
                    policy = g.growth.policy;
                    factor = g.growth.factor;
                    high = omega (arith, g.high, a.most);
                    size = g.growth.size;
                    shape = g.growth.shape;
                  };
                  grows = omega (arith, g.grows);
                  outcome = inl (
                    refl,
                    λ x w st. absent x w ((same x w).1 st),
                    λ x w. (
                      (λ st. elim ((g.stores x w).0 st) [
                        | inl old ↦ inl ((same x w).0 old)
                        | inr new ↦ inr new
                      ]),
                      λ st.
                          (g.stores x w).1
                            (elim st [ inl old ↦ inl ((same x w).1 old) | inr new ↦ inr new ]),
                    ),
                  );
                },
              )
        ]

    -- Where every allocation and the construction succeed, and the container is valid, with its
    -- arena below the largest size and at most 2^22 buckets, `emplace_impl` returns and leaves a
    -- valid container. Either the key was absent, and the new element is stored at the returned node
    -- beside the others; or an element with an equal key is at the returned node, and the same
    -- elements are stored at the same nodes as before. The number of elements grows by one exactly
    -- if the flag says that the element is new; the policy and the load factor stay, and the array
    -- grows by one step at most.
    pub emplace_impl-Emplaces :
        (t : Table F K V) (v : V)
        → IsValid traits t
        → t.arena_high_water < null_index
        → t.bucket_count ≤ 2 ^ 22
        → (r : ℕ × Bool) × (t' : Table F K V) × (emplace_impl traits float memory (some v) t
            ≡ returned r t')
          × Emplaces float t v r t'
    emplace_impl-Emplaces t v valid below small =
        elim (acquire_node-Acquires memory t t.iteration valid.arena below) [
          | inl a ↦ emplace_of t valid a v small
          | inr (denied, _) ↦ absurd (ground (arith, denied, granted.chunk t.chunks))
        ]
