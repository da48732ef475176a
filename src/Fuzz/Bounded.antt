-- ===== src/Fuzz/Bounded.antt =====
-- The bounds that a run of operations keeps on a container, and the operations that resize it or
-- copy it.
use cpp_unordered_map.Prelude.{
  ℕ, ◌+◌, ◌*◌, ◌≤◌, ◌<◌, ◌^◌, ◌≡◌, refl, sym, ◌∙◌, ap, inl, inr, Bool, true, false, some, [],
  length, ◌==◌, arith, if_true, if_false,
}
use cpp_unordered_map.Hash.{Policy, Traits}
use cpp_unordered_map.Index.{null_index}
use cpp_unordered_map.Load.{FloatOps, compute_load_capacity}
use cpp_unordered_map.Outcome.{returned}
use cpp_unordered_map.Table.{Table, Memory}
use cpp_unordered_map.Valid.{IsValid}
use cpp_unordered_map.Growth.{
  Grows, IsAmple, IsRoomy, IsLoaded, IsWithin, Grows-IsWithin, Grows-IsLoaded,
}
use cpp_unordered_map.Contents.{view}
use cpp_unordered_map.Engine.Reserve.{IsGranted}
use cpp_unordered_map.Container.{rehash, reserve, load_factor}
use cpp_unordered_map.Container.Rehash.{IsTight, Rehashes, rehash-Rehashes, reserve-Rehashes}
use cpp_unordered_map.Container.Bulk.{Rehashes-IsWithin}
use cpp_unordered_map.Container.Growing.{Rehashes-IsLoaded, GrowsAll-factor, GrowsAll-IsLoaded}
use cpp_unordered_map.Lifecycle.{fresh, copy_construct, copy_assign}
use cpp_unordered_map.Lifecycle.Copy.{IsCopyable, copy_construct-view, copy_assign-view}

-- What `float` arithmetic does with the default load factor of 0.8.
pub record IsEightTenths {F : Type 0} (float : FloatOps F) (factor : F) : Type 0 where
  pub ample : IsAmple float factor
  pub tight : IsTight float factor
  pub roomy : IsRoomy float factor
  pub less : float.one_or_more factor ≡ false
  pub quotient_small : (n : ℕ) → n ≤ 2 ^ 20 → float.quotient n factor < 2 ^ 22
  pub quotient-scale :
      (n m : ℕ) → m ≤ 2 ^ 22 → float.quotient n factor < m → n ≤ float.scale m factor

capacity_fits :
    {F : Type 0} (float : FloatOps F) (factor : F)
    → IsEightTenths float factor
    → (n m : ℕ) → m ≤ 2 ^ 22
    → float.quotient n factor < m
    → n ≤ compute_load_capacity float factor m
unfolding compute_load_capacity
capacity_fits float factor f n m small h =
    rw f.less (ground (arith, f.quotient-scale n m small h, f.tight.fits n, h))

-- The comparison of a load factor with the greatest one allows what the capacity allows.
pub record IsTolerant {F : Type 0} (float : FloatOps F) (factor : F) (within : F → F → Bool)
    : Type 0 where
  pub nothing : within float.zero_factor factor ≡ true
  pub share :
      (n m : ℕ)
      → 0 < m
      → m ≤ 2 ^ 22
      → n ≤ float.scale m factor
      → within (float.ratio n m) factor ≡ true

capacity-le-scale :
    {F : Type 0} (float : FloatOps F) (factor : F) (m : ℕ)
    → float.one_or_more factor ≡ false
    → compute_load_capacity float factor m ≤ float.scale m factor
unfolding compute_load_capacity
capacity-le-scale float factor m less = rw less (ground arith)

pub low : 3 ≤ 22
low = omega arith

pub high : 22 ≤ 23
high = omega arith

same_buckets : 2 ^ 22 ≤ 2 ^ 22
same_buckets = omega arith

module _ {ℓ} {F : Type 0} {K V : Type ℓ} where
  Copyable : Traits K V → FloatOps F → (memory : Memory) → IsGranted memory → Table F K V → Type 0
  Copyable traits float memory granted =
      IsCopyable traits float memory granted (2 ^ 22) same_buckets 22 low high same_buckets

  pub more_IsWithin :
      (float : FloatOps F) (buckets m n : ℕ) (t : Table F K V)
      → m ≤ n
      → IsWithin float buckets m t
      → IsWithin float buckets n t
  more_IsWithin float buckets m n t le w = record {
    ample = w.ample;
    high = omega (arith, w.high);
    size = omega (arith, w.size);
    count = w.count;
    capped = w.capped;
  }

  -- A container with the default load factor after `n` operations.
  pub record IsBounded (float : FloatOps F) (n : ℕ) (t : Table F K V) : Type 0 where
    pub factor : t.max_load_factor ≡ float.default_max_load_factor
    pub within : IsWithin float (2 ^ 22) n t
    pub loaded : IsLoaded float t

  pub fresh-IsBounded :
      (float : FloatOps F)
      → IsEightTenths float float.default_max_load_factor
      → (policy : Policy K) → IsBounded float 0 (fresh float.default_max_load_factor policy)
  fresh-IsBounded float default policy = record {
    factor = refl;
    within = record {
      ample = default.ample;
      high = omega arith;
      size = omega arith;
      count = omega arith;
      capped = omega arith;
    };
    loaded = inl refl;
  }

  module _ (float : FloatOps F) (default : IsEightTenths float float.default_max_load_factor)
      (n : ℕ) (budget : 4 * n + 8 ≤ 2 ^ 22) (t : Table F K V) (b : IsBounded float n t) where
    pub bounded_slots : t.arena_high_water < null_index
    bounded_slots = omega (arith, b.within.high, budget)

    pub Grows-IsBounded : (t' : Table F K V) → Grows float t t' → IsBounded float (n + 1) t'
    Grows-IsBounded t' g = record {
      factor = g.factor ∙ b.factor;
      within = Grows-IsWithin float (2 ^ 22) n b.within budget g;
      loaded = Grows-IsLoaded float (rw b.factor default.roomy) b.loaded g;
    }

    module _ (traits : Traits K V) where
      Rehashes-IsBounded :
          (t' : Table F K V) (least : ℕ)
          → Rehashes traits float 22 low high t least t'
          → IsBounded float (n + 1) t'
      Rehashes-IsBounded t' least r =
          let within =
            Rehashes-IsWithin traits float 22 low high t least t' (2 ^ 22) n r b.within
              (omega arith) in
          record {
            factor = r.factor ∙ b.factor;
            within = more_IsWithin float (2 ^ 22) n (n + 1) t' (omega arith) within;
            loaded =
                Rehashes-IsLoaded traits float 22 low high t least t' r
                  (elim r.spacious [
                    | inl empty ↦ inl empty
                    | inr space ↦ inr (
                        capacity_fits float t.max_load_factor (rw b.factor default)
                          (length t.iteration) t'.bucket_count within.count space)
                  ])
                  b.loaded;
          }

      quotient_fits : float.quotient (length t.iteration) t.max_load_factor < 2 ^ 22
      quotient_fits =
          rw b.factor (default.quotient_small (length t.iteration) (omega (arith, b.within.size)))

      module _ (memory : Memory) (granted : IsGranted memory) (valid : IsValid traits t) where
        pub rehash-IsBounded :
            (request : ℕ)
            → request ≤ 2 ^ 20
            → (t' : Table F K V) × (rehash traits float memory request t ≡ returned tt t')
              × Rehashes traits float 22 low high t request t'
              × IsBounded float (n + 1) t'
        rehash-IsBounded request small =
            let (t', run, r) =
              rehash-Rehashes traits float 22 low high memory granted t request valid
                (rw b.factor default.tight) (omega (arith, small)) quotient_fits in
            (t', run, r, Rehashes-IsBounded t' request r)

        pub reserve-IsBounded :
            (request : ℕ)
            → request ≤ 2 ^ 20
            → (t' : Table F K V) × (reserve traits float memory request t ≡ returned tt t')
              × Rehashes traits float 22 low high t request t'
              × IsBounded float (n + 1) t'
        reserve-IsBounded request small =
            let (t', run, r) =
              reserve-Rehashes traits float 22 low high memory granted t request valid
                (rw b.factor default.tight) (rw b.factor (default.quotient_small request small))
                quotient_fits in
            (t', run, r, Rehashes-IsBounded t' request r)

        copyable :
            (other : Table F K V)
            → length other.iteration ≤ n
            → other.max_load_factor ≡ float.default_max_load_factor
            → Copyable traits float memory granted other
        unfolding Copyable
        copyable other size factor = record {
          ample = rw factor default.ample;
          tight = rw factor default.tight;
          room = omega (arith, size);
          fits = rw factor (default.quotient_small (length other.iteration) (omega (arith, size)));
          fits_none = rw factor (default.quotient_small 0 (omega arith));
        }

        -- An emptied container keeps its share.
        start-IsLoaded :
            (start : Table F K V)
            → start.iteration ≡ []
            → start.bucket_count ≡ t.bucket_count
            → start.max_load_capacity ≡ t.max_load_capacity
            → start.max_load_factor ≡ t.max_load_factor
            → IsLoaded float start
        start-IsLoaded start empty count capacity factor = elim b.loaded [
          | inl none_there ↦ inl (count ∙ none_there)
          | inr (computed, least, fits) ↦
              let same =
                ap (λ f. compute_load_capacity float f t.bucket_count) (sym factor)
                ∙ ap (compute_load_capacity float start.max_load_factor) (sym count) in
              inr (
                capacity ∙ computed ∙ same,
                omega (arith, count, least),
                omega (arith, ap length empty),
              )
        ]

        -- A copy, and the container after the copy is assigned back.
        pub record CopiesBack (c t' : Table F K V) : Type ℓ where
          pub made : copy_construct traits float memory (λ v. some v) t ≡ returned tt c
          pub valid_copy : IsValid traits c
          pub size : length c.iteration ≡ length t.iteration
          pub small : length c.iteration < 2 ^ 32
          pub shown_copy : view traits c ≡ view traits t
          pub assigned :
              copy_assign traits float memory false true (λ v. some v) c t ≡ returned tt t'
          pub valid_back : IsValid traits t'
          pub policy : t'.policy ≡ t.policy
          pub shown : view traits t' ≡ view traits t
          pub bounded : IsBounded float (n + 1) t'

        pub copies_back_lem : (c t' : Table F K V) × CopiesBack c t'
        unfolding Copyable
        copies_back_lem =
            let (c, made, first) =
              copy_construct-view traits float memory granted (2 ^ 22) same_buckets 22 low high
                same_buckets t valid (copyable t b.within.size b.factor) in
            let factor_c : c.max_load_factor ≡ float.default_max_load_factor =
              GrowsAll-factor traits float first.growth ∙ b.factor in
            let (start, t', assigned, empty, count, capacity, factor, second) =
              copy_assign-view traits float memory granted (2 ^ 22) same_buckets 22 low high
                same_buckets c t n false true first.valid valid refl b.within
                (copyable c (omega (arith, first.size, b.within.size)) factor_c) in
            (
              c,
              t',
              record {
                made = made;
                valid_copy = first.valid;
                size = first.size;
                small = omega (arith, first.size, b.within.size);
                shown_copy = first.shown;
                assigned = assigned;
                valid_back = second.valid;
                policy = second.policy ∙ first.policy;
                shown = second.shown ∙ first.shown;
                bounded = record {
                  factor = GrowsAll-factor traits float second.growth ∙ factor ∙ factor_c;
                  within =
                      more_IsWithin float (2 ^ 22) (length c.iteration) (n + 1) t'
                        (omega (arith, first.size, b.within.size)) second.within;
                  loaded =
                      GrowsAll-IsLoaded traits float (rw (factor ∙ factor_c) default.roomy)
                        (start-IsLoaded start empty count capacity
                          (factor ∙ factor_c ∙ sym b.factor))
                        second.growth;
                };
              },
            )

  -- The load factor passes the comparison with its maximum.
  pub bounded_load :
      (float : FloatOps F)
      → IsEightTenths float float.default_max_load_factor
      → (n : ℕ) (t : Table F K V) → IsBounded float n t
      → (within : F → F → Bool) → IsTolerant float float.default_max_load_factor within
      → within (load_factor float t) t.max_load_factor ≡ true
  unfolding load_factor
  bounded_load float default n t b within tolerant =
      let size = length t.iteration in
      rw b.factor (elim b.loaded [
        | inl none_there ↦
            let test : (t.bucket_count == 0) ≡ true = ground (arith, none_there) in
            ap (λ f. within f float.default_max_load_factor) (if_true _ _ test) ∙ tolerant.nothing
        | inr (computed, least, fits) ↦
            let test : (t.bucket_count == 0) ≡ false = ground (arith, least) in
            let scaled =
              capacity-le-scale float float.default_max_load_factor t.bucket_count default.less in
            let same = ap (λ f. compute_load_capacity float f t.bucket_count) b.factor in
            ap (λ f. within f float.default_max_load_factor) (if_false _ _ test)
            ∙ tolerant.share size t.bucket_count (omega (arith, least)) b.within.count
                (omega (arith, fits, computed, same, scaled))
      ])
