-- ===== src/Fuzz/Subscript.antt =====
-- `map[key] = value` in the tested map.
use cpp_unordered_map.Prelude.{
  ℕ, ◌≤◌, ◌<◌, ◌^◌, ◌≡◌, ◌≢◌, ◌⊎◌, ◌↔◌, refl, sym, ◌∙◌, ap, inl, inr, Bool, Option, none, some,
  arith,
}
use cpp_unordered_map.Hash.{Traits, Policy}
use cpp_unordered_map.Index.{null_index}
use cpp_unordered_map.Load.{FloatOps}
use cpp_unordered_map.Outcome.{returned, bind-returned}
use cpp_unordered_map.Table.{Table, Memory}
use cpp_unordered_map.Valid.{IsValid, Stores}
use cpp_unordered_map.Engine.Reserve.{IsGranted}
use cpp_unordered_map.Growth.{Grows}
use cpp_unordered_map.Engine.Lookup.{IsAbsent}
use cpp_unordered_map.Adapters.{map_traits, try_emplace_impl, assign_mapped}
use cpp_unordered_map.Adapters.Emplace.{try_emplace_impl-Emplaces}
use cpp_unordered_map.Adapters.Assign.{
  Assigns, assigned, assigned-IsValid, Stores-assigned, assign_mapped_lem,
}
use cpp_unordered_map.Fuzz.{Oracle, subscript_assign}

module _ {F O : Type 0} (standard : Oracle O) (is_avalanching : Bool) (float : FloatOps F)
    (memory : Memory) (node_granted : Bool) (policy : Policy ℕ) (granted : IsGranted memory) where
  abbrev traits : Traits ℕ (ℕ × ℕ)
  traits = map_traits is_avalanching

  grown :
      (t t1 : Table F ℕ (ℕ × ℕ)) (v w : ℕ × ℕ) (x : ℕ) (valid : IsValid traits t1)
      (st : Stores t1 x v) (same : w.0 ≡ v.0)
      → Grows float t t1
      → Grows float t (assigned traits t1 valid x v w st same)
  grown t t1 v w x valid st same g = record {
    policy = g.policy;
    factor = g.factor;
    high = g.high;
    size = g.size;
    shape = g.shape;
  }

  -- A new node is written over.
  overwrites_new :
      (t t1 : Table F ℕ (ℕ × ℕ)) (s : ℕ) (v w : ℕ × ℕ) (valid : IsValid traits t)
      (valid1 : IsValid traits t1) (st : Stores t1 s v) (same : w.0 ≡ v.0)
      → IsAbsent traits t v.0
      → ((x : ℕ) (u : ℕ × ℕ) → Stores t1 x u ↔ Stores t x u ⊎ (x ≡ s) × (u ≡ v))
      → (x : ℕ) (u : ℕ × ℕ)
      → Stores (assigned traits t1 valid1 s v w st same) x u ↔ Stores t x u ⊎ (x ≡ s) × (u ≡ w)
  overwrites_new t t1 s v w valid valid1 st same absent stores x u =
      let change = Stores-assigned traits t1 valid1 s v w st same x u in
      (
        λ st'. elim (change.0 st') [
          | inl (before, apart) ↦ elim ((stores x u).0 before) [
            | inl old ↦ inl old
            | inr (at_s, _) ↦ absurd (apart at_s)
          ]
          | inr new ↦ inr new
        ],
        λ st'. elim st' [
          | inl old ↦
              let apart : x ≢ s = λ at_s.
                let there : Stores t1 s u = rw at_s at ((stores x u).1 (inl old)) in
                let joined : some u ≡ some v = sym there.1 ∙ st.1 in
                let equal = ap (λ (o : Option (ℕ × ℕ)). elim o [ none ↦ v | some z ↦ z ]) joined in
                absurd (
                  ground (
                    arith,
                    absent x u old,
                    valid.searchable.lawful.equal_refl v.0,
                    ap (λ (z : ℕ × ℕ). t.policy.key_equal v.0 z.0) equal,
                  )) in
              change.1 (inl ((stores x u).1 (inl old), apart))
          | inr new ↦ change.1 (inr new)
        ],
      )

  pub subscript_assign-Assigns :
      (t : Table F ℕ (ℕ × ℕ)) (key value : ℕ)
      → IsValid traits t
      → t.arena_high_water < null_index
      → t.bucket_count ≤ 2 ^ 22
      → (r : ℕ × Bool) × (t' : Table F ℕ (ℕ × ℕ)) × (subscript_assign standard is_avalanching float
            memory node_granted policy key value t
          ≡ returned tt t')
        × Assigns is_avalanching float t key value r t'
  unfolding subscript_assign
  subscript_assign-Assigns t key value valid below small =
      let (r, t1, run, e) =
        try_emplace_impl-Emplaces is_avalanching float memory granted t key 0 valid below small in
      let write = λ (placed : ℕ × Bool). assign_mapped traits float memory placed.0 (some value) in
      let start = bind-returned (try_emplace_impl traits float memory key (some 0)) write t run in
      elim e.outcome [
        | inl (flag, absent, stores) ↦
            let st = (stores r.0 (key, 0)).1 (inr (refl, refl)) in
            let t' = assigned traits t1 e.valid r.0 (key, 0) (key, value) st refl in
            (
              r,
              t',
              start ∙ assign_mapped_lem is_avalanching float memory t1 r.0 (key, 0) value st,
              record {
                valid = assigned-IsValid traits t1 e.valid r.0 (key, 0) (key, value) st refl;
                growth = grown t t1 (key, 0) (key, value) r.0 e.valid st refl e.growth;
                grows = e.grows;
                outcome = inl (
                  flag,
                  absent,
                  overwrites_new t t1 r.0 (key, 0) (key, value) valid e.valid st refl absent stores,
                );
              },
            )
        | inr (flag, (w, there, same), stores) ↦
            let st = (stores r.0 w).1 there in
            let new : ℕ × ℕ = (w.0, value) in
            let change = Stores-assigned traits t1 e.valid r.0 w new st refl in
            (
              r,
              assigned traits t1 e.valid r.0 w new st refl,
              start ∙ assign_mapped_lem is_avalanching float memory t1 r.0 w value st,
              record {
                valid = assigned-IsValid traits t1 e.valid r.0 w new st refl;
                growth = grown t t1 w new r.0 e.valid st refl e.growth;
                grows = e.grows;
                outcome = inr (
                  flag,
                  (
                    w,
                    there,
                    same,
                    λ x u. (
                      (λ s. elim ((change x u).0 s) [
                        | inl (before, apart) ↦ inl ((stores x u).0 before, apart)
                        | inr at_r ↦ inr at_r
                      ]),
                      λ s. (change x u).1 (elim s [
                        | inl (before, apart) ↦ inl ((stores x u).1 before, apart)
                        | inr at_r ↦ inr at_r
                      ]),
                    ),
                  ),
                );
              },
            )
      ]
