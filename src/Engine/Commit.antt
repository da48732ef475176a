-- ===== src/Engine/Commit.antt =====
-- `commit_node` where memory is granted: a fresh node with a new key joins the container.
use cpp_unordered_map.Prelude.{
  ℕ, ◌+◌, ◌%◌, ◌≤◌, ◌<◌, ◌^◌, ◌≡◌, ◌≢◌, ◌⊎◌, ◌↔◌, refl, sym, ◌∙◌, ap, inl, inr, true, Option, some,
  none, [], ◌∷◌, ◌++◌, length, count, get_or, to_nat, ◌==◌, arith, ==-cases, if_true, if_false,
  length-append, count-append,
}
use cpp_unordered_map.Prelude.Swap.{get_or-append_left, get_or-append_end, count-get_or}
use cpp_unordered_map.Hash.{Traits, storage_hash}
use cpp_unordered_map.Index
use cpp_unordered_map.Index.{Index}
use cpp_unordered_map.Index.Invariant.{Holds, Holds-congr}
use cpp_unordered_map.Index.Ring.{bucket_count_bounds}
use cpp_unordered_map.Index.Place.{Places}
use cpp_unordered_map.Index.Insert.{insert_known_absent-Places}
use cpp_unordered_map.Load.{FloatOps}
use cpp_unordered_map.Outcome.{returned, bind-returned, rethrowing-returned, rethrowing, ◌>>◌}
use cpp_unordered_map.Table.{
  Table, Memory, set_aux, storage-set_aux, aux-set_aux, link_into_iteration, destroy_value,
  release_node,
}
use cpp_unordered_map.Valid.{IsSearchable, IsValid, Stores, ArenaOf}
use cpp_unordered_map.Arena.{IsArena-congr, IsArena-owned}
use cpp_unordered_map.Growth.{Grows}
use cpp_unordered_map.Engine
use cpp_unordered_map.Engine.{hash_at, on_index, on_index_lem, reserve_for_one_more, commit_node}
use cpp_unordered_map.Engine.Rehash.{hash_at-lt}
use cpp_unordered_map.Engine.Lookup.{IsAbsent}
use cpp_unordered_map.Engine.Reserve.{
  IsGranted, Reserves, rearranged, reserve_for_one_more-Reserves,
}

-- A container that is valid but for a node `s`, constructed and not yet linked.
pub record IsPending {ℓ} {F : Type 0} {K V : Type ℓ} (traits : Traits K V) (t : Table F K V) (s : ℕ)
    (v : V) : Type ℓ where
  pub searchable : IsSearchable traits t
  pub arena : ArenaOf t (s ∷ t.iteration)
  pub fresh : count s t.iteration ≡ 0
  pub value : (t.nodes s).storage ≡ some v
  pub raw : (x : ℕ) → count x t.iteration ≡ 0 → x ≢ s → (t.nodes x).storage ≡ none
  pub linked : (p : ℕ) → p < length t.iteration → (t.nodes (get_or t.iteration p 0)).aux ≡ p
  pub distinct :
      (x y : ℕ) (v w : V)
      → Stores t x v
      → Stores t y w
      → t.policy.key_equal (traits.key_of v) (traits.key_of w) ≡ true
      → x ≡ y

module _ {ℓ} {F : Type 0} {K V : Type ℓ} (traits : Traits K V) (float : FloatOps F)
    (memory : Memory) (granted : IsGranted memory) (t : Table F K V) (s : ℕ) (v : V)
    (p : IsPending traits t s v) where
  -- The container that gained `v` at `s`.
  pub record Gains (t' : Table F K V) : Type ℓ where
    pub valid : IsValid traits t'
    pub stores : (x : ℕ) (w : V) → Stores t' x w ↔ Stores t x w ⊎ (x ≡ s) × (w ≡ v)
    pub grows : length t'.iteration ≡ length t.iteration + 1
    pub growth : Grows float t t'
    pub high : t'.arena_high_water ≡ t.arena_high_water

  module _ (r : Reserves traits float memory granted t) where
    abbrev roomy : Table F K V
    roomy = rearranged traits float memory granted t r.present r.index r.cap

    abbrev joined : Table F K V
    joined = record (set_aux s (length t.iteration % 2 ^ 32) roomy) {
      iteration = t.iteration ++ (s ∷ []);
    }

    value_joined : (x : ℕ) → (joined.nodes x).storage ≡ (t.nodes x).storage
    value_joined x = storage-set_aux roomy s x (length t.iteration % 2 ^ 32)

    holds_joined : Holds (hash_at traits joined) t.iteration r.index
    holds_joined =
        Holds-congr r.holds (hash_at traits joined) (hash_at-lt traits joined)
          (λ x q. ap (storage_hash traits t.policy) (sym (value_joined x)))

    counts : (x : ℕ) → count x joined.iteration ≡ count x t.iteration + to_nat (x == s)
    counts x = omega (arith, count-append x t.iteration (s ∷ []))

    size : length joined.iteration ≡ length t.iteration + 1
    size = length-append t.iteration (s ∷ [])

    abbrev indexed : Index → Table F K V
    indexed index = record joined { index = index }

    holds_indexed :
        (index : Index)
        → Places (hash_at traits joined) r.index s index
        → Holds (hash_at traits (indexed index)) joined.iteration index
    holds_indexed index q = record {
      valid = q.valid;
      copied = λ x. omega (arith, q.holds x, r.holds.copied x, counts x);
      filled = omega (arith, q.fills, r.holds.filled, size);
      roomy = omega (arith, q.count, r.room, size);
    }

    joined-aux : (x : ℕ) → x ≢ s → (joined.nodes x).aux ≡ (t.nodes x).aux
    joined-aux x apart =
        aux-set_aux roomy s x (length t.iteration % 2 ^ 32)
        ∙ if_false {b = s == x} _ _ (ground arith)

    arena_joined : ArenaOf joined joined.iteration
    arena_joined =
        let kept =
          IsArena-congr p.arena joined.nodes
            (λ x z. sym (joined-aux x (λ e. absurd (ground (arith, e, z))))) in
        IsArena-owned kept joined.iteration (λ x. ground (arith, counts x))

    linked_joined :
        (q : ℕ) → q < length joined.iteration → (joined.nodes (get_or joined.iteration q 0)).aux ≡ q
    linked_joined q l = elim (==-cases q (length t.iteration)) [
      | inl e ↦
          let here : get_or joined.iteration q 0 ≡ s =
            ap (λ k. get_or joined.iteration k 0) e ∙ get_or-append_end t.iteration s 0 in
          let word : length t.iteration % 2 ^ 32 ≡ length t.iteration =
            omega (arith, r.room, bucket_count_bounds r.index r.holds.valid.sized) in
          ap (λ k. (joined.nodes k).aux) here
          ∙ aux-set_aux roomy s s (length t.iteration % 2 ^ 32)
          ∙ if_true {b = s == s} _ _ (ground arith)
          ∙ word
          ∙ sym e
      | inr apart ↦
          let inside : q < length t.iteration = ground (arith, size) in
          let same = get_or-append_left t.iteration s q 0 inside in
          let live = count-get_or t.iteration q 0 inside in
          ap (λ k. (joined.nodes k).aux) same
          ∙ joined-aux (get_or t.iteration q 0) (λ e. absurd (ground (arith, e, live, p.fresh)))
          ∙ p.linked q inside
    ]

    -- A live node of the new container is an old one or `s`.
    Stores-joined : (x : ℕ) (w : V) → Stores joined x w ↔ Stores t x w ⊎ (x ≡ s) × (w ≡ v)
    Stores-joined x w = (
      (λ a. elim (==-cases x s) [
        | inl e ↦
            let at_s : some w ≡ some v =
              sym (sym (value_joined x) ∙ a.1) ∙ ap (λ k. (t.nodes k).storage) e ∙ p.value in
            inr (e, ap (λ (o : Option V). elim o [ none ↦ w | some u ↦ u ]) at_s)
        | inr apart ↦ inl (ground (arith, counts x, a.0), sym (value_joined x) ∙ a.1)
      ]),
      λ a. elim a [
        | inl b ↦ (omega (arith, counts x, b.0), value_joined x ∙ b.1)
        | inr (e, same) ↦ (
          ground (arith, counts x, e),
          value_joined x ∙ ap (λ k. (t.nodes k).storage) e ∙ p.value ∙ ap some (sym same),
        )
      ],
    )

    module _ (absent : IsAbsent traits t (traits.key_of v)) where
      distinct_joined :
          (x y : ℕ) (w u : V)
          → Stores joined x w
          → Stores joined y u
          → t.policy.key_equal (traits.key_of w) (traits.key_of u) ≡ true
          → x ≡ y
      distinct_joined x y w u a b same = elim ((Stores-joined x w).0 a) [
        | inl old ↦ elim ((Stores-joined y u).0 b) [
          | inl old' ↦ p.distinct x y w u old old' same
          | inr (e, new) ↦
              let turned =
                p.searchable.lawful.equal_symm (traits.key_of w) (traits.key_of v)
                  (rw new at same) in
              absurd (ground (arith, absent x w old, turned))
        ]
        | inr (e, new) ↦ elim ((Stores-joined y u).0 b) [
          | inl old' ↦ absurd (ground (arith, absent y u old', rw new at same))
          | inr (e', _) ↦ e ∙ sym e'
        ]
      ]

      indexed-IsValid :
          (index : Index)
          → Places (hash_at traits joined) r.index s index
          → IsValid traits (indexed index)
      indexed-IsValid index q = record {
        searchable = record {
          lawful = p.searchable.lawful;
          built = λ x live. elim (==-cases x s) [
            | inl e ↦ (v, ((Stores-joined x v).1 (inr (e, refl))).1)
            | inr apart ↦
                let (w, e) = p.searchable.built x (ground (arith, counts x)) in
                (w, value_joined x ∙ e)
          ];
          indexed = inr (r.has, rw q.count r.below, holds_indexed index q);
        };
        arena = arena_joined;
        raw = λ x z.
            value_joined x
            ∙ p.raw x (omega (arith, counts x)) (λ e. absurd (ground (arith, counts x, e, z)));
        linked = linked_joined;
        distinct = distinct_joined;
      }

      commit-Gains :
          (t' : Table F K V) × (commit_node traits float memory s t ≡ returned tt t') × Gains t'
      unfolding commit_node link_into_iteration Engine.insert_known_absent
      commit-Gains =
          let (index, run, q) =
            insert_known_absent-Places holds_joined.valid
              (omega (arith, holds_joined.filled, r.room)) s in
          let reserve = reserve_for_one_more traits float memory in
          let link = link_into_iteration memory s in
          let linked : (reserve >> link) t ≡ returned tt joined =
            bind-returned reserve (λ _. link) t r.run
            ∙ if_true _ _ (granted.push_back (length t.iteration)) in
          let place = λ (i : Index). Index.insert_known_absent i s (hash_at traits joined s) in
          (
            indexed index,
            bind-returned (rethrowing (reserve >> link) (destroy_value s >> release_node s))
                  (λ _. Engine.insert_known_absent traits s) t
                  (rethrowing-returned (reserve >> link) (destroy_value s >> release_node s) t
                    linked)
                ∙ on_index_lem place joined r.has run,
            record {
              valid = indexed-IsValid index q;
              stores = Stores-joined;
              grows = size;
              growth = record {
                policy = refl;
                factor = refl;
                high = omega arith;
                size = omega (arith, size);
                shape = rw (q.count, size) r.shape;
              };
              high = refl;
            },
          )

  -- The whole of `commit_node`.
  pub commit_node-Gains :
      t.bucket_count ≤ 2 ^ 22
      → IsAbsent traits t (traits.key_of v)
      → (t' : Table F K V) × (commit_node traits float memory s t ≡ returned tt t') × Gains t'
  commit_node-Gains small absent =
      commit-Gains (reserve_for_one_more-Reserves traits float memory granted t p.searchable small)
        absent
