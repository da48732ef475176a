-- ===== src/Container/Growing.antt =====
-- A run of insertions, with the array resized before them or between them, and the load it keeps.
use cpp_unordered_map.Prelude.{ℕ, ◌≤◌, ◌≡◌, ◌⊎◌, inl, inr, length, arith, refl, sym, ap, ◌∙◌}
use cpp_unordered_map.Hash.{Traits}
use cpp_unordered_map.Load.{FloatOps, compute_load_capacity}
use cpp_unordered_map.Table.{Table}
use cpp_unordered_map.Growth.{Grows, IsRoomy, IsLoaded, Grows-IsLoaded}
use cpp_unordered_map.Container.Rehash.{Rehashes}

module _ {ℓ} {F : Type 0} {K V : Type ℓ} (traits : Traits K V) (float : FloatOps F) where
  -- A resized array has the capacity for its elements, if its container had it before.
  pub Rehashes-IsLoaded :
      (k : ℕ) (low : 3 ≤ k) (high : k ≤ 23) (t : Table F K V) (least : ℕ) (t' : Table F K V)
      → Rehashes traits float k low high t least t'
      → (length t.iteration ≡ 0)
        ⊎ (length t.iteration ≤ compute_load_capacity float t.max_load_factor t'.bucket_count)
      → IsLoaded float t
      → IsLoaded float t'
  Rehashes-IsLoaded k low high t least t' r room loaded =
      let factor = ap (λ f. compute_load_capacity float f t'.bucket_count) r.factor in
      let size = ap length r.iteration in
      elim r.shape [
        | inl (some_there, _, computed) ↦
            inr (computed ∙ sym factor, some_there, ground (arith, room, size, computed))
        | inr (inl (count, capacity)) ↦ elim loaded [
          | inl none_there ↦ inl (count ∙ none_there)
          | inr (computed, some_there, fits) ↦ inr (
            capacity
                ∙ computed
                ∙ ap (compute_load_capacity float t.max_load_factor) (sym count)
                ∙ sym factor,
            omega (arith, count, some_there),
            omega (arith, size, fits, capacity),
          )
        ]
        | inr (inr none_there) ↦ inl none_there
      ]

  -- One container after another, each at most one element larger, or an empty one resized.
  pub data GrowsAll : Table F K V → Table F K V → Type ℓ where
    done : {t : Table F K V} → GrowsAll t t
    step : {t t1 t' : Table F K V} → Grows float t t1 → GrowsAll t1 t' → GrowsAll t t'
    resize :
        {t t1 t' : Table F K V} (k : ℕ) (low : 3 ≤ k) (high : k ≤ 23) (least : ℕ)
        → Rehashes traits float k low high t least t1
        → length t.iteration ≡ 0
        → GrowsAll t1 t'
        → GrowsAll t t'

  pub GrowsAll-IsLoaded :
      {t t' : Table F K V}
      → IsRoomy float t.max_load_factor
      → IsLoaded float t
      → GrowsAll t t'
      → IsLoaded float t'
  GrowsAll-IsLoaded roomy loaded done = loaded
  GrowsAll-IsLoaded roomy loaded (step g rest) =
      GrowsAll-IsLoaded (rw g.factor roomy) (Grows-IsLoaded float roomy loaded g) rest
  GrowsAll-IsLoaded {t} roomy loaded (resize {t1 = t1} k low high least r empty rest) =
      GrowsAll-IsLoaded (rw r.factor roomy)
        (Rehashes-IsLoaded k low high t least t1 r (inl empty) loaded) rest

  pub GrowsAll-factor :
      {t t' : Table F K V} → GrowsAll t t' → t'.max_load_factor ≡ t.max_load_factor
  GrowsAll-factor done = refl
  GrowsAll-factor (step g rest) = GrowsAll-factor rest ∙ g.factor
  GrowsAll-factor (resize k low high least r empty rest) = GrowsAll-factor rest ∙ r.factor
