-- ===== src/Load/Sizes.antt =====
-- Powers of two: the sizes that the code asks for, and the capacity below them.
use cpp_unordered_map.Prelude.{
  ℕ, zero, suc, ◌+◌, ◌*◌, ◌/◌, ◌%◌, ◌^◌, ◌≤◌, ◌<◌, ◌≡◌, ◌⊎◌, inl, inr, refl, arith, ltb, ◌==◌,
  Bool-cases, false,
}
use native.Mathlib.Nat.{pow-suc, zero-add, pow-le-pow_right}
use native.Mathlib.Decide.{dec_lt}
use cpp_unordered_map.Load.{
  FloatOps, bit_ceil_from, bit_ceil, countr_zero_from, countr_zero, round_up_to_power_of_two,
  compute_load_capacity,
}

countr_zero_from-pow : (fuel k : ℕ) → k < fuel → countr_zero_from fuel (2 ^ k) ≡ k
unfolding countr_zero_from
countr_zero_from-pow zero k h = elim h [ ]
countr_zero_from-pow (suc fuel) zero h = refl
countr_zero_from-pow (suc fuel) (suc k) h =
    let p : 2 ^ suc k ≡ 2 ^ k * 2 = pow-suc 2 k in
    let half : 2 ^ suc k / 2 ≡ 2 ^ k = omega arith in
    let even : (2 ^ suc k % 2 == 1) ≡ false = ground arith in
    rw (even, half, countr_zero_from-pow fuel k (omega arith))

-- `countr_zero` undoes a power of two.
pub countr_zero-pow : (k : ℕ) → k < 64 → countr_zero (2 ^ k) ≡ k
unfolding countr_zero
countr_zero-pow k h = countr_zero_from-pow 64 k h

-- A power of two that is no less than the value, and the least such from `2 ^ j` on.
record IsCeil (j value r : ℕ) : Type 0 where
  power : ℕ
  from : j ≤ power
  eq : r ≡ 2 ^ power
  above : value ≤ r
  least : (j ≡ power) ⊎ (r < 2 * value)

bit_ceil_from_lem :
    (fuel j value : ℕ) → value ≤ 2 ^ (fuel + j) → IsCeil j value (bit_ceil_from fuel (2 ^ j) value)
unfolding bit_ceil_from
bit_ceil_from_lem zero j value h = record {
  power = j;
  from = omega arith;
  eq = refl;
  above = rw (zero-add j) at h;
  least = inl refl;
}
bit_ceil_from_lem (suc fuel) j value h = elim (Bool-cases (ltb (2 ^ j) value)) [
  | inl p ↦
      let double : 2 ^ suc j ≡ 2 ^ j * 2 = pow-suc 2 j in
      let shifted : fuel + suc j ≡ suc fuel + j = omega arith in
      let c = bit_ceil_from_lem fuel (suc j) value (rw shifted h) in
      rw (p, ← double)
        (record {
          power = c.power;
          from = omega (arith, c.from);
          eq = c.eq;
          above = c.above;
          least = inr (elim c.least [ inl e ↦ rw (c.eq, ← e, double) (ground arith) | inr l ↦ l ]);
        })
  | inr p ↦
      rw p (record {
        power = j;
        from = omega arith;
        eq = refl;
        above = ground arith;
        least = inl refl;
      })
]

bit_ceil_lem : (value : ℕ) → value ≤ 2 ^ 63 → IsCeil 0 value (bit_ceil value)
unfolding bit_ceil
bit_ceil_lem value h = bit_ceil_from_lem 64 0 value (omega arith)

pub pow_lt : (j k : ℕ) → 2 ^ j < 2 ^ k → j < k
pow_lt j k h = elim (dec_lt j k) [
  | yes p ↦ p
  | no p ↦
      absurd (omega (arith, pow-le-pow_right {n = 2} (omega arith) {i = k} {j = j} (omega arith)))
]

-- A requested size is rounded up to a power of two from 8 on, and less than doubled beyond that.
pub record IsRoundedUp (value r : ℕ) : Type 0 where
  pub power : ℕ
  pub eq : r ≡ 2 ^ power
  pub least : 3 ≤ power
  pub above : value ≤ r
  pub tight : (r ≡ 8) ⊎ (r < 2 * value)

-- A requested size of at most 2^63 is rounded up to a power of two that is at least 8 and no less
-- than the request, and that is 8 or less than twice the request.
pub round_up_to_power_of_two-IsRoundedUp :
    (value : ℕ) → value ≤ 2 ^ 63 → IsRoundedUp value (round_up_to_power_of_two value)
unfolding round_up_to_power_of_two
round_up_to_power_of_two-IsRoundedUp value h = elim (Bool-cases (ltb value 8)) [
  | inl p ↦
      rw p (record {
        power = 3;
        eq = refl;
        least = omega arith;
        above = ground arith;
        tight = inl refl;
      })
  | inr p ↦
      let c = bit_ceil_lem value h in
      let eight : 2 ^ 2 < 2 ^ c.power = rw (← c.eq) (ground (arith, c.above)) in
      rw p (record {
        power = c.power;
        eq = c.eq;
        least = pow_lt 2 c.power eight;
        above = c.above;
        tight =
            inr (elim c.least [ inl e ↦ absurd (ground (arith, e, c.eq, c.above)) | inr l ↦ l ]);
      })
]

module _ {F : Type 0} (float : FloatOps F) where
  -- Whatever the load factor, the capacity of an array with at least one bucket is less than the
  -- number of its buckets.
  pub compute_load_capacity-lt :
      (factor : F) (count : ℕ) → 0 < count → compute_load_capacity float factor count < count
  unfolding compute_load_capacity
  compute_load_capacity-lt factor count h = ground arith
