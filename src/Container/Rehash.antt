-- ===== src/Container/Rehash.antt =====
-- `rehash` and `reserve`.
use cpp_unordered_map.Prelude.{
  ℕ, suc, ◌+◌, ◌*◌, ◌≤◌, ◌<◌, ◌^◌, ◌≡◌, ◌⊎◌, refl, sym, ◌∙◌, ap, inl, inr, Bool, true, false, not,
  ◌&&◌, [], length, ltb, ◌==◌, if◌then◌else◌, arith, if_true, if_false, Bool-cases,
}
use native.Mathlib.Nat.{pow-le-pow_right, pow-suc}
use cpp_unordered_map.Hash.{Traits}
use cpp_unordered_map.Load.{
  FloatOps, bucket_count_for_elements, round_up_to_power_of_two, compute_load_capacity,
}
use cpp_unordered_map.Load.Sizes.{
  round_up_to_power_of_two-IsRoundedUp, compute_load_capacity-lt, pow_lt,
}
use cpp_unordered_map.Outcome.{returned}
use cpp_unordered_map.Table.{Table, Memory}
use cpp_unordered_map.Valid.{IsSearchable, IsValid}
use cpp_unordered_map.Engine.{rehash_to, deallocate_buckets}
use cpp_unordered_map.Engine.Reserve.{IsGranted}
use cpp_unordered_map.Index.{Index}
use cpp_unordered_map.Container.Clear.{empty_of_length}
use cpp_unordered_map.Engine.Rehash.{rehash_to-Holds}
use cpp_unordered_map.Container.{rehash, reserve}

-- As many buckets are asked for as there are elements, at least.
pub record IsTight {F : Type 0} (float : FloatOps F) (factor : F) : Type 0 where
  pub fits : (n : ℕ) → n ≤ float.quotient n factor

round_up-bounds :
    (k : ℕ)
    → 3 ≤ k
    → k ≤ 23
    → (value : ℕ) → value ≤ 2 ^ k
    → (value ≤ round_up_to_power_of_two value)
      × (round_up_to_power_of_two value ≤ 2 ^ k)
      × ((bits : ℕ) × (3 ≤ bits) × (bits ≤ 23) × (round_up_to_power_of_two value ≡ 2 ^ bits))
round_up-bounds k low most_bits value le =
    let double : 2 ^ suc k ≡ 2 ^ k * 2 = pow-suc 2 k in
    let bound : 2 ^ k ≤ 2 ^ 23 =
      pow-le-pow_right {n = 2} (omega arith) {i = k} {j = 23} most_bits in
    let u = round_up_to_power_of_two-IsRoundedUp value (omega arith) in
    let eight : 2 ^ 3 ≤ 2 ^ k = pow-le-pow_right {n = 2} (omega arith) {i = 3} {j = k} low in
    let below : u.power < suc k = pow_lt u.power (suc k) (omega (arith, u.tight, u.eq)) in
    let top : 2 ^ u.power ≤ 2 ^ k =
      pow-le-pow_right {n = 2} (omega arith) {i = u.power} {j = k} (omega arith) in
    (u.above, rw (← u.eq) at top, (u.power, u.least, omega arith, u.eq))

module _ {F : Type 0} (float : FloatOps F) (factor : F) (k : ℕ) (low : 3 ≤ k)
    (most_bits : k ≤ 23) where
  pub bucket_count_for_elements_fits :
      IsTight float factor
      → (n : ℕ) → float.quotient n factor < 2 ^ k
      → (n ≤ bucket_count_for_elements float factor n)
        × (bucket_count_for_elements float factor n ≤ 2 ^ k)
        × ((n ≡ 0)
            ⊎ (n < bucket_count_for_elements float factor n)
              × (float.quotient n factor < bucket_count_for_elements float factor n))
  unfolding bucket_count_for_elements
  bucket_count_for_elements_fits tight n le =
      let (above, below, shape) =
        round_up-bounds k low most_bits (float.quotient n factor + 1) (omega arith) in
      elim (Bool-cases (n == 0)) [
        | inl e ↦ rw e (ground arith, omega arith, inl (ground arith))
        | inr e ↦ rw e (
          omega (arith, above, tight.fits n),
          below,
          inr (omega (arith, above, tight.fits n), omega (arith, above)),
        )
      ]

module _ {ℓ} {F : Type 0} {K V : Type ℓ} (traits : Traits K V) (float : FloatOps F) (k : ℕ)
    (low : 3 ≤ k) (most_bits : k ≤ 23) where
  -- A container after a rehash: valid, with the same elements at the same nodes in the same order.
  pub record Rehashes (t : Table F K V) (least : ℕ) (t' : Table F K V) : Type ℓ where
    pub valid : IsValid traits t'
    pub nodes : t'.nodes ≡ t.nodes
    pub iteration : t'.iteration ≡ t.iteration
    pub policy : t'.policy ≡ t.policy
    pub factor : t'.max_load_factor ≡ t.max_load_factor
    pub high : t'.arena_high_water ≡ t.arena_high_water
    pub enough : least ≤ t'.bucket_count
    pub spacious :
        (length t.iteration ≡ 0)
        ⊎ (float.quotient (length t.iteration) t.max_load_factor < t'.bucket_count)
    pub shape :
        (8 ≤ t'.bucket_count)
          × (t'.bucket_count ≤ 2 ^ k)
          × (t'.max_load_capacity ≡ compute_load_capacity float t.max_load_factor t'.bucket_count)
        ⊎ (t'.bucket_count ≡ t.bucket_count) × (t'.max_load_capacity ≡ t.max_load_capacity)
        ⊎ (t'.bucket_count ≡ 0)

  -- Nothing but the array changes.
  reindexed-IsValid :
      (t : Table F K V) (has : Bool) (index : Index) (cap : ℕ)
      → IsValid traits t
      → IsSearchable traits (record t { has_buckets = has; index = index; max_load_capacity = cap })
      → IsValid traits (record t { has_buckets = has; index = index; max_load_capacity = cap })
  reindexed-IsValid t has index cap valid s = record {
    searchable = s;
    arena = valid.arena;
    raw = valid.raw;
    linked = valid.linked;
    distinct = valid.distinct;
  }

  module _ (memory : Memory) (granted : IsGranted memory) where
    eight : (bits : ℕ) → 3 ≤ bits → 8 ≤ 2 ^ bits
    eight bits least = pow-le-pow_right {n = 2} (omega arith) {i = 3} {j = bits} least

    rehash_to-Rehashes :
        (t : Table F K V) (target : ℕ)
        → IsValid traits t
        → target ≤ 2 ^ k
        → length t.iteration < round_up_to_power_of_two target
        → (length t.iteration ≡ 0)
          ⊎ (float.quotient (length t.iteration) t.max_load_factor < target)
        → (t' : Table F K V) × (rehash_to traits float memory (round_up_to_power_of_two target) t
            ≡ returned tt t')
          × Rehashes t target t'
    rehash_to-Rehashes t target valid small room space =
        let n = round_up_to_power_of_two target in
        let (above, below, (bits, least, most, power)) =
          round_up-bounds k low most_bits target small in
        let (index, run, same, h) =
          rehash_to-Holds traits float memory t n bits least most power room
            (granted.bucket_array n) in
        let cap = compute_load_capacity float t.max_load_factor n in
        let fits : cap < index.bucket_count =
          rw same (compute_load_capacity-lt float t.max_load_factor n (omega arith)) in
        let t' : Table F K V = record t {
          has_buckets = true;
          index = index;
          max_load_capacity = cap;
        } in
        (
          t',
          run,
          record {
            valid = reindexed-IsValid t true index cap valid (record {
              lawful = valid.searchable.lawful;
              built = valid.searchable.built;
              indexed = inr (refl, fits, h);
            });
            nodes = refl;
            iteration = refl;
            policy = refl;
            factor = refl;
            high = refl;
            enough = rw same above;
            spacious = rw same (ground (arith, space, above));
            shape = inl (
              rw same (omega (arith, power, eight bits least)),
              rw same below,
              ap (compute_load_capacity float t.max_load_factor) (sym same),
            );
          },
        )

    dropped-Rehashes :
        (t : Table F K V)
        → IsValid traits t
        → t.iteration ≡ []
        → Rehashes t 0 (record t {
          has_buckets = false;
          index = record { buckets = t.index.buckets; bucket_count = 0; bucket_shift = 64 };
          max_load_capacity = 0;
        })
    dropped-Rehashes t valid empty = record {
      valid =
          reindexed-IsValid t false
            (record { buckets = t.index.buckets; bucket_count = 0; bucket_shift = 64 }) 0 valid
            (record {
              lawful = valid.searchable.lawful;
              built = valid.searchable.built;
              indexed = inl (refl, empty);
            });
      nodes = refl;
      iteration = refl;
      policy = refl;
      factor = refl;
      high = refl;
      enough = omega arith;
      spacious = inl (rw empty refl);
      shape = inr (inr refl);
    }

    same-Rehashes : (t : Table F K V) → IsValid traits t → length t.iteration ≡ 0 → Rehashes t 0 t
    same-Rehashes t valid empty = record {
      valid = valid;
      nodes = refl;
      iteration = refl;
      policy = refl;
      factor = refl;
      high = refl;
      enough = omega arith;
      spacious = inl empty;
      shape = inr (inl (refl, refl));
    }

    -- Where memory is granted, the load factor asks for no fewer buckets than elements (IsTight) and
    -- the sizes fit 2^k buckets with k from 3 to 23, `rehash` on a valid container returns a valid
    -- container with the same nodes in the same order and at least as many buckets as requested.
    -- Either the array has at least 8 and at most 2^k buckets and its capacity is computed afresh,
    -- or it is as it was, or it is gone.
    pub rehash-Rehashes :
        (t : Table F K V) (requested : ℕ)
        → IsValid traits t
        → IsTight float t.max_load_factor
        → requested ≤ 2 ^ k
        → float.quotient (length t.iteration) t.max_load_factor < 2 ^ k
        → (t' : Table F K V) × (rehash traits float memory requested t ≡ returned tt t')
          × Rehashes t requested t'
    unfolding rehash deallocate_buckets
    rehash-Rehashes t requested valid tight small fits =
        let minimum = bucket_count_for_elements float t.max_load_factor (length t.iteration) in
        let target = if ltb requested minimum then minimum else requested in
        let (most, below, enough) =
          bucket_count_for_elements_fits float t.max_load_factor k low most_bits tight
            (length t.iteration) fits in
        let at_least : (requested ≤ target) × (minimum ≤ target) × (target ≤ 2 ^ k) =
          ground arith in
        elim (Bool-cases (target == 0)) [
          | inl z ↦
              let nothing : requested ≡ 0 = ground arith in
              let empty : length t.iteration ≡ 0 = ground arith in
              elim (Bool-cases (not (t.bucket_count == 0) && (length t.iteration == 0))) [
                | inl d ↦ (
                  record t {
                    has_buckets = false;
                    index = record {
                      buckets = t.index.buckets;
                      bucket_count = 0;
                      bucket_shift = 64;
                    };
                    max_load_capacity = 0;
                  },
                  if_true _ _ z ∙ if_true _ _ d,
                  rw nothing (dropped-Rehashes t valid (empty_of_length t.iteration empty)),
                )
                | inr d ↦
                    (t, if_true _ _ z ∙ if_false _ _ d, rw nothing (same-Rehashes t valid empty))
              ]
          | inr nz ↦
              let (above, _, _) = round_up-bounds k low most_bits target at_least.2 in
              let (t', run, r) =
                rehash_to-Rehashes t target valid at_least.2 (ground (arith, above, enough))
                  (ground (arith, enough)) in
              (
                t',
                if_false _ _ nz ∙ run,
                record {
                  valid = r.valid;
                  nodes = r.nodes;
                  iteration = r.iteration;
                  policy = r.policy;
                  factor = r.factor;
                  high = r.high;
                  enough = omega (arith, r.enough, at_least.0);
                  spacious = r.spacious;
                  shape = r.shape;
                },
              )
        ]

    -- Where memory is granted, the load factor asks for no fewer buckets than elements and the sizes
    -- fit 2^k buckets with k from 3 to 23, `reserve` on a valid container returns a valid container
    -- with the same nodes in the same order and at least as many buckets as elements asked for.
    pub reserve-Rehashes :
        (t : Table F K V) (n : ℕ)
        → IsValid traits t
        → IsTight float t.max_load_factor
        → float.quotient n t.max_load_factor < 2 ^ k
        → float.quotient (length t.iteration) t.max_load_factor < 2 ^ k
        → (t' : Table F K V) × (reserve traits float memory n t ≡ returned tt t') × Rehashes t n t'
    unfolding reserve
    reserve-Rehashes t n valid tight wanted fits =
        let (most, below, _) =
          bucket_count_for_elements_fits float t.max_load_factor k low most_bits tight n wanted in
        let (t', run, r) =
          rehash-Rehashes t (bucket_count_for_elements float t.max_load_factor n) valid tight below
            fits in
        (
          t',
          run,
          record {
            valid = r.valid;
            nodes = r.nodes;
            iteration = r.iteration;
            policy = r.policy;
            factor = r.factor;
            high = r.high;
            enough = omega (arith, r.enough, most);
            spacious = r.spacious;
            shape = r.shape;
          },
        )
