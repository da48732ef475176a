-- ===== src/Engine/Add.antt =====
-- Acquiring a slot, constructing an element whose key is absent, and committing it: what
-- `try_emplace_impl` and `insert(node_type&&)` do once the key is known to be new.
use cpp_unordered_map.Prelude.{
  ℕ, ◌+◌, ◌≤◌, ◌<◌, ◌^◌, ◌≡◌, ◌⊎◌, ◌↔◌, ◌∙◌, inl, inr, some, length, arith,
}
use cpp_unordered_map.Hash.{Traits}
use cpp_unordered_map.Index.{null_index}
use cpp_unordered_map.Load.{FloatOps}
use cpp_unordered_map.Outcome.{Action, returned, bind-returned, pure, rethrowing, ◌>>=◌, ◌>>◌}
use cpp_unordered_map.Table.{Table, Memory, acquire_node, construct_value, release_node}
use cpp_unordered_map.Valid.{IsValid, Stores}
use cpp_unordered_map.Growth.{Grows}
use cpp_unordered_map.Arena.{acquire_node-Acquires}
use cpp_unordered_map.Engine.{commit_node}
use cpp_unordered_map.Engine.Lookup.{IsAbsent}
use cpp_unordered_map.Engine.Reserve.{IsGranted}
use cpp_unordered_map.Engine.Commit.{commit_node-Gains}
use cpp_unordered_map.Engine.Pending.{held, Stores-held, held-IsPending}

module _ {ℓ} {F : Type 0} {K V : Type ℓ} (traits : Traits K V) (float : FloatOps F) where
  -- The container with one element more.
  pub record Adds (t : Table F K V) (v : V) (s : ℕ) (t' : Table F K V) : Type ℓ where
    pub valid : IsValid traits t'
    pub stores : (x : ℕ) (w : V) → Stores t' x w ↔ Stores t x w ⊎ (x ≡ s) × (w ≡ v)
    pub grows : length t'.iteration ≡ length t.iteration + 1
    pub growth : Grows float t t'

  module _ (memory : Memory) where
    abbrev pub add_new {κ} :
        {A : Type κ}
        → (ℕ → Action (Table F K V) A)
        → (ℕ → Action (Table F K V) (Unit {0}))
        → Action (Table F K V) A
    add_new k build = acquire_node memory >>= (λ i.
        rethrowing (build i) (release_node i) >> (commit_node traits float memory i >> k i))

    pub add_new-Adds {κ} :
        {A : Type κ} (k : ℕ → A)
        → IsGranted memory
        → (t : Table F K V) (v : V) → IsValid traits t
        → t.arena_high_water < null_index
        → t.bucket_count ≤ 2 ^ 22
        → IsAbsent traits t (traits.key_of v)
        → (s : ℕ) × (t' : Table F K V) × (add_new
              (λ i. pure (k i))
              (λ i. construct_value i (some v))
              t
            ≡ returned (k s) t')
          × Adds t v s t'
    unfolding construct_value
    add_new-Adds k granted t v valid below small absent =
        elim (acquire_node-Acquires memory t t.iteration valid.arena below) [
          | inr (denied, _) ↦ absurd (ground (arith, denied, granted.chunk t.chunks))
          | inl a ↦
              let s = a.slot in
              let h = held traits memory t valid a v in
              let same = Stores-held traits memory t valid a v in
              let (t', run, g) =
                commit_node-Gains traits float memory granted h s v
                  (held-IsPending traits memory t valid a v) small
                  (λ x w st. absent x w ((same x w).0 st)) in
              (
                s,
                t',
                bind-returned (acquire_node memory) _ t a.run
                    ∙ bind-returned (commit_node traits float memory s) (λ _. pure (k s)) h run,
                record {
                  valid = g.valid;
                  stores = λ x w. (
                    (λ st. elim ((g.stores x w).0 st) [
                      | inl old ↦ inl ((same x w).0 old)
                      | inr new ↦ inr new
                    ]),
                    λ st.
                        (g.stores x w).1
                          (elim st [ inl old ↦ inl ((same x w).1 old) | inr new ↦ inr new ]),
                  );
                  grows = g.grows;
                  growth = record {
                    policy = g.growth.policy;
                    factor = g.growth.factor;
                    high = omega (arith, g.high, a.most);
                    size = g.growth.size;
                    shape = g.growth.shape;
                  };
                },
              )
        ]
