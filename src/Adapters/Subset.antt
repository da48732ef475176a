-- ===== src/Adapters/Subset.antt =====
-- `operator==` of the set.
use cpp_unordered_map.Prelude.{
  ℕ, suc, ◌+◌, ◌^◌, ◌≤◌, ◌<◌, ◌≡◌, ◌⊎◌, refl, ◌∙◌, inl, inr, Bool, true, false, not, some, length,
  ◌==◌, if◌then◌else◌, arith, Bool-cases, if_true,
}
use cpp_unordered_map.Hash.{Traits}
use cpp_unordered_map.Index.{null_index}
use cpp_unordered_map.Outcome.{Action, returned, bind-returned, pure}
use cpp_unordered_map.Table.{Table}
use cpp_unordered_map.Valid.{IsValid, Stores}
use cpp_unordered_map.Iterator.{element_at, next_index, begin_index}
use cpp_unordered_map.Contents.{view, has_some}
use cpp_unordered_map.Container.{contains}
use cpp_unordered_map.Container.Find.{contains-view}
use cpp_unordered_map.Adapters.{set_equal, contains_from}
use cpp_unordered_map.Adapters.Each.{Compares, loop-Compares}

module _ {ℓ} {F : Type 0} {K : Type ℓ} (traits : Traits K K) (lhs rhs : Table F K K)
    (valid : IsValid traits lhs) (valid' : IsValid traits rhs)
    (small : length lhs.iteration < 2 ^ 32) where
  abbrev held_by_other : K → Bool
  held_by_other key = has_some (view traits rhs key)

  -- One round of the loop.
  contains_from_round :
      (fuel x : ℕ) (key : K)
      → (x == null_index) ≡ false
      → (lhs.nodes x).storage ≡ some key
      → contains_from traits (suc fuel) lhs x rhs ≡ (
          if held_by_other key
          then contains_from traits fuel lhs (next_index lhs x) rhs
          else returned false rhs)
  unfolding contains_from
  contains_from_round fuel x key other e =
      let rest = contains_from traits fuel lhs (next_index lhs x) in
      let decide : Bool → Action (Table F K K) Bool =
        λ held s. if not held then pure false s else rest s in
      rw (other, e)
        (bind-returned (contains traits key) decide rhs (contains-view traits rhs valid' key)
          ∙ elim (Bool-cases (held_by_other key)) [ inl h ↦ rw h refl | inr h ↦ rw h refl ])

  contains_from-Compares :
      (fuel p : ℕ)
      → p ≤ length lhs.iteration
      → length lhs.iteration < fuel + p
      → (b : Bool) × (contains_from traits fuel lhs (element_at lhs p) rhs ≡ returned b rhs)
        × Compares traits lhs held_by_other p b
  unfolding contains_from
  contains_from-Compares =
      loop-Compares traits lhs held_by_other valid small rhs
        (λ fuel x. contains_from traits fuel lhs x rhs)
        (λ fuel x e. if_true {b = x == null_index} _ _ e) contains_from_round

  pub set_equal-Compares :
      (b : Bool) × (set_equal traits lhs rhs ≡ returned b rhs)
      × ((b ≡ true)
            × (length lhs.iteration ≡ length rhs.iteration)
            × ((x : ℕ) (key : K) → Stores lhs x key → has_some (view traits rhs key) ≡ true)
          ⊎ (b ≡ false)
            × ((length lhs.iteration == length rhs.iteration) ≡ false
                ⊎ ((x : ℕ) × (key : K) × Stores lhs x key
                    × (has_some (view traits rhs key) ≡ false))))
  unfolding set_equal begin_index
  set_equal-Compares = elim (Bool-cases (length lhs.iteration == length rhs.iteration)) [
    | inl sizes ↦
        let (b, run, c) =
          contains_from-Compares (length lhs.iteration + 1) 0 (omega arith) (omega arith) in
        (
          b,
          rw sizes run,
          elim c [
            | inl (yes_all, all) ↦ inl (yes_all, ground arith, λ x v st. all x v st (omega arith))
            | inr (differs, witness) ↦ inr (differs, inr witness)
          ],
        )
    | inr sizes ↦ (false, rw sizes refl, inr (refl, inl sizes))
  ]
