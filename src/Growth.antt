-- ===== src/Growth.antt =====
-- How far an operation may enlarge a container, and a budget that a run of operations keeps.
use cpp_unordered_map.Prelude.{
  ℕ, ◌+◌, ◌*◌, ◌≤◌, ◌≡◌, ◌⊎◌, inl, inr, length, arith, refl, sym, ap, ◌∙◌,
}
use cpp_unordered_map.Load.{FloatOps, compute_load_capacity}
use cpp_unordered_map.Load.Sizes.{compute_load_capacity-lt}
use cpp_unordered_map.Table.{Table}

-- The load factor leaves room for half of the buckets at least.
pub record IsAmple {F : Type 0} (float : FloatOps F) (factor : F) : Type 0 where
  pub half : (n : ℕ) → n ≤ float.scale n factor * 2 + 2

pub compute_load_capacity_ample :
    {F : Type 0} (float : FloatOps F) (factor : F) (n : ℕ)
    → IsAmple float factor
    → n ≤ compute_load_capacity float factor n * 2 + 2
unfolding compute_load_capacity
compute_load_capacity_ample float factor n a = ground (arith, a.half n)

-- From eight buckets on, half of them.
pub record IsRoomy {F : Type 0} (float : FloatOps F) (factor : F) : Type 0 where
  pub half : (n : ℕ) → 8 ≤ n → n ≤ float.scale n factor * 2

compute_load_capacity_roomy :
    {F : Type 0} (float : FloatOps F) (factor : F) (n : ℕ)
    → IsRoomy float factor
    → 8 ≤ n
    → n ≤ compute_load_capacity float factor n * 2
unfolding compute_load_capacity
compute_load_capacity_roomy float factor n a h = ground (arith, a.half n h)

module _ {ℓ} {F : Type 0} {K V : Type ℓ} where
  -- The sizes of a container, its policy and its load factor stay.
  pub record Keeps (t t' : Table F K V) : Type ℓ where
    pub policy : t'.policy ≡ t.policy
    pub factor : t'.max_load_factor ≡ t.max_load_factor
    pub high : t'.arena_high_water ≤ t.arena_high_water + 1
    pub size : length t'.iteration ≤ length t.iteration
    pub count : t'.bucket_count ≡ t.bucket_count
    pub capacity : t'.max_load_capacity ≡ t.max_load_capacity

  -- The bucket array that an insertion leaves: as it was, or the first one, or a full one doubled.
  abbrev pub Reshaped : FloatOps F → Table F K V → ℕ → ℕ → ℕ → Type 0
  Reshaped float t size count capacity =
      (count ≡ t.bucket_count)
        × (capacity ≡ t.max_load_capacity)
        × ((size ≤ length t.iteration) ⊎ (size ≤ t.max_load_capacity))
      ⊎ (capacity ≡ compute_load_capacity float t.max_load_factor count)
        × ((count ≡ 8) × (size ≤ 1)
            ⊎ (count ≡ t.bucket_count * 2) × (t.max_load_capacity ≤ length t.iteration))

  -- At most one slot and one element more, and the array reshaped.
  pub record Grows (float : FloatOps F) (t t' : Table F K V) : Type ℓ where
    pub policy : t'.policy ≡ t.policy
    pub factor : t'.max_load_factor ≡ t.max_load_factor
    pub high : t'.arena_high_water ≤ t.arena_high_water + 1
    pub size : length t'.iteration ≤ length t.iteration + 1
    pub shape : Reshaped float t (length t'.iteration) t'.bucket_count t'.max_load_capacity

  pub Keeps-refl : (t : Table F K V) → Keeps t t
  Keeps-refl t = record {
    policy = refl;
    factor = refl;
    high = omega arith;
    size = omega arith;
    count = refl;
    capacity = refl;
  }

  pub Keeps-Grows : (float : FloatOps F) {t t' : Table F K V} → Keeps t t' → Grows float t t'
  Keeps-Grows float k = record {
    policy = k.policy;
    factor = k.factor;
    high = k.high;
    size = omega (arith, k.size);
    shape = inl (k.count, k.capacity, inl k.size);
  }

  -- After `n` steps of growth, under a bound on the number of buckets.
  pub record IsWithin (float : FloatOps F) (buckets n : ℕ) (t : Table F K V) : Type 0 where
    pub ample : IsAmple float t.max_load_factor
    pub high : t.arena_high_water ≤ n
    pub size : length t.iteration ≤ n
    pub count : t.bucket_count ≤ buckets
    pub capped : t.bucket_count ≤ t.max_load_capacity * 2 + 2

  pub Grows-IsWithin :
      (float : FloatOps F) (buckets n : ℕ) {t t' : Table F K V}
      → IsWithin float buckets n t
      → 4 * n + 8 ≤ buckets
      → Grows float t t'
      → IsWithin float buckets (n + 1) t'
  Grows-IsWithin float buckets n {t} {t'} w room g =
      let ample : IsAmple float t'.max_load_factor = rw g.factor w.ample in
      let cap = compute_load_capacity_ample float t.max_load_factor t'.bucket_count w.ample in
      record {
        ample = ample;
        high = omega (arith, g.high, w.high);
        size = omega (arith, g.size, w.size);
        count = ground (arith, g.shape, w.count, w.capped, w.size);
        capped = ground (arith, g.shape, w.capped, cap);
      }

  -- No more elements than the capacity, which is the load factor's share of the buckets.
  abbrev pub IsLoaded : FloatOps F → Table F K V → Type 0
  IsLoaded float t =
      (t.bucket_count ≡ 0)
      ⊎ (t.max_load_capacity ≡ compute_load_capacity float t.max_load_factor t.bucket_count)
        × (8 ≤ t.bucket_count)
        × (length t.iteration ≤ t.max_load_capacity)

  pub Grows-IsLoaded :
      (float : FloatOps F) {t t' : Table F K V}
      → IsRoomy float t.max_load_factor
      → IsLoaded float t
      → Grows float t t'
      → IsLoaded float t'
  Grows-IsLoaded float {t} {t'} roomy loaded g =
      let factor = ap (λ f. compute_load_capacity float f t'.bucket_count) g.factor in
      let room = compute_load_capacity_roomy float t.max_load_factor t'.bucket_count roomy in
      let below = compute_load_capacity-lt float t.max_load_factor t.bucket_count in
      elim g.shape [
        | inl (count, capacity, size) ↦ elim loaded [
          | inl none_yet ↦ inl (count ∙ none_yet)
          | inr (computed, least, fits) ↦ inr (
            capacity
                ∙ computed
                ∙ ap (compute_load_capacity float t.max_load_factor) (sym count)
                ∙ sym factor,
            omega (arith, count, least),
            ground (arith, size, fits, capacity),
          )
        ]
        | inr (computed, inl (first, size)) ↦ inr (
          computed ∙ sym factor,
          omega (arith, first),
          omega (arith, computed, first, size, room (omega (arith, first))),
        )
        | inr (computed, inr (double, full)) ↦ elim loaded [
          | inl none_yet ↦ inl (omega (arith, double, none_yet))
          | inr (old, least, fits) ↦ inr (
            computed ∙ sym factor,
            omega (arith, double, least),
            omega (
              arith,
              g.size,
              fits,
              old,
              below (omega (arith, least)),
              computed,
              double,
              room (omega (arith, double, least)),
            ),
          )
        ]
      ]
