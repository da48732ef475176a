-- ===== src/Adapters/Equal.antt =====
-- `operator==` of the map.
use cpp_unordered_map.Prelude.{
  ℕ, suc, ◌+◌, ◌^◌, ◌≤◌, ◌<◌, ◌≡◌, ◌⊎◌, refl, ◌∙◌, inl, inr, Bool, true, false, not, Option, some,
  none, length, ◌==◌, if◌then◌else◌, arith, Bool-cases, if_true,
}
use cpp_unordered_map.Hash.{Traits}
use cpp_unordered_map.Index.{null_index}
use cpp_unordered_map.Outcome.{Outcome, Action, returned, bind-returned, pure}
use cpp_unordered_map.Table.{Table}
use cpp_unordered_map.Valid.{IsValid, Stores}
use cpp_unordered_map.Iterator.{element_at, next_index, begin_index}
use cpp_unordered_map.Contents.{view}
use cpp_unordered_map.Container.{find}
use cpp_unordered_map.Container.Find.{PointsTo, find-PointsTo}
use cpp_unordered_map.Adapters.{map_equal, equal_from}
use cpp_unordered_map.Adapters.Each.{Compares, loop-Compares}

-- Whether a map has an element's key with the same mapped value.
abbrev pub has_same {ℓ} : {K M : Type ℓ} → (M → M → Bool) → Option (K × M) → K × M → Bool
has_same same none v = false
has_same same (some w) v = same w.1 v.1

module _ {ℓ} {F : Type 0} {K M : Type ℓ} (traits : Traits K (K × M)) (same : M → M → Bool) where
  module _ (lhs rhs : Table F K (K × M)) (valid : IsValid traits lhs) (valid' : IsValid traits rhs)
      (small : length lhs.iteration < 2 ^ 32) where
    abbrev after : Action (Table F K (K × M)) Bool → K × M → ℕ → Action (Table F K (K × M)) Bool
    after rest element other s =
        if other == null_index then pure false s else elim (s.nodes other).storage [
          | none ↦ Outcome.undefined
          | some v ↦ if not (same v.1 element.1) then pure false s else rest s
        ]

    after_lem :
        (rest : Action (Table F K (K × M)) Bool) (v : K × M) (x : ℕ) (o : Option (K × M))
        → PointsTo traits rhs valid' v.0 x o
        → after rest v x rhs ≡ (if has_same same o v then rest rhs else returned false rhs)
    after_lem rest v x none (e, _) =
        let test : (x == null_index) ≡ true = ground (arith, e) in rw test refl
    after_lem rest v x (some w) (ne, st, _) =
        let test : (x == null_index) ≡ false = ground arith in
        elim (Bool-cases (same w.1 v.1)) [
          | inl e ↦ rw (test, st.1, e) refl
          | inr e ↦ rw (test, st.1, e) refl
        ]

    -- One round of the loop.
    equal_from_round :
        (fuel x : ℕ) (v : K × M)
        → (x == null_index) ≡ false
        → (lhs.nodes x).storage ≡ some v
        → equal_from traits same (suc fuel) lhs x rhs ≡ (
            if has_same same (view traits rhs v.0) v
            then equal_from traits same fuel lhs (next_index lhs x) rhs
            else returned false rhs)
    unfolding equal_from
    equal_from_round fuel x v other e =
        let rest = equal_from traits same fuel lhs (next_index lhs x) in
        let (y, run, p) = find-PointsTo traits rhs valid' v.0 in
        rw (other, e)
          (bind-returned (find traits v.0) (after rest v) rhs run
            ∙ after_lem rest v y (view traits rhs v.0) p)

    abbrev accepts : K × M → Bool
    accepts v = has_same same (view traits rhs v.0) v

    equal_from-Compares :
        (fuel p : ℕ)
        → p ≤ length lhs.iteration
        → length lhs.iteration < fuel + p
        → (b : Bool) × (equal_from traits same fuel lhs (element_at lhs p) rhs ≡ returned b rhs)
          × Compares traits lhs accepts p b
    unfolding equal_from
    equal_from-Compares =
        loop-Compares traits lhs accepts valid small rhs
          (λ fuel x. equal_from traits same fuel lhs x rhs)
          (λ fuel x e. if_true {b = x == null_index} _ _ e) equal_from_round

    -- On two valid containers, of which the left one's size fits 32 bits, equality of maps returns
    -- and changes nothing. Either it is true, the sizes are equal, and at the key of each element of
    -- the left one the view of the right one has an element with the same mapped value; or it is
    -- false, and the sizes differ or some element of the left one has no such element in the right
    -- one.
    pub map_equal-Compares :
        (b : Bool) × (map_equal traits same lhs rhs ≡ returned b rhs)
        × ((b ≡ true)
              × (length lhs.iteration ≡ length rhs.iteration)
              × ((x : ℕ) (v : K × M)
                  → Stores lhs x v
                  → has_same same (view traits rhs v.0) v ≡ true)
            ⊎ (b ≡ false)
              × ((length lhs.iteration == length rhs.iteration) ≡ false
                  ⊎ ((x : ℕ) × (v : K × M) × Stores lhs x v
                      × (has_same same (view traits rhs v.0) v ≡ false))))
    unfolding map_equal begin_index
    map_equal-Compares = elim (Bool-cases (length lhs.iteration == length rhs.iteration)) [
      | inl sizes ↦
          let (b, run, c) =
            equal_from-Compares (length lhs.iteration + 1) 0 (omega arith) (omega arith) in
          (
            b,
            rw sizes run,
            elim c [
              | inl (yes_all, all) ↦ inl (yes_all, ground arith, λ x v st. all x v st (omega arith))
              | inr (differs, witness) ↦ inr (differs, inr witness)
            ],
          )
      | inr sizes ↦ (false, rw sizes refl, inr (refl, inl sizes))
    ]
