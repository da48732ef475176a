-- ===== src/Load.antt =====
-- include/fum/detail/hash_table.hpp: array sizes and load factors.
-- The language's `float` is a parameter: its comparisons and the roundings that the code makes.
pub mod Sizes
use cpp_unordered_map.Prelude.{
  ℕ, zero, suc, ◌+◌, ◌-◌, ◌*◌, ◌/◌, ◌%◌, Bool, ltb, ◌==◌, if◌then◌else◌,
}

-- `float` as the code uses it; `scale` and `quotient` end in a cast to `size_type`.
pub record FloatOps (F : Type 0) : Type 0 where
  -- `f >= 1.0f` and `f > 0.0f`
  pub one_or_more : F → Bool
  pub positive : F → Bool
  -- `static_cast<float>(n) * f` and `static_cast<float>(n) / f`, truncated
  pub scale : ℕ → F → ℕ
  pub quotient : ℕ → F → ℕ
  -- `static_cast<float>(n) / static_cast<float>(m)`
  pub ratio : ℕ → ℕ → F
  -- `0.8f` and `0.0f`
  pub default_max_load_factor : F
  pub zero_factor : F

abbrev pub initial_bucket_count : ℕ
initial_bucket_count = 8

abbrev pub chunk_size : ℕ
chunk_size = 1024

-- `std::bit_ceil`: the least power of two that is no less.
bit_ceil_from : ℕ → ℕ → ℕ → ℕ
bit_ceil_from zero p value = p
bit_ceil_from (suc fuel) p value =
    let rest = bit_ceil_from fuel (p * 2) value in if ltb p value then rest else p

unfoldable pub bit_ceil : ℕ → ℕ
unfolding bit_ceil_from
bit_ceil value = bit_ceil_from 64 1 value

-- `std::countr_zero` on a 64-bit word.
countr_zero_from : ℕ → ℕ → ℕ
countr_zero_from zero value = 0
countr_zero_from (suc fuel) value =
    let rest = countr_zero_from fuel (value / 2) in if value % 2 == 1 then 0 else suc rest

unfoldable pub countr_zero : ℕ → ℕ
unfolding countr_zero_from
countr_zero value = countr_zero_from 64 value

unfoldable pub round_up_to_power_of_two : ℕ → ℕ
round_up_to_power_of_two value =
    if ltb value initial_bucket_count then initial_bucket_count else bit_ceil value

module _ {F : Type 0} (float : FloatOps F) where
  -- `count` is never 0 where this is called.
  unfoldable pub compute_load_capacity : F → ℕ → ℕ
  compute_load_capacity factor count =
      if float.one_or_more factor
      then count - 1
      else (let capacity = float.scale count factor in
          if ltb capacity count then capacity else count - 1)

  unfoldable pub bucket_count_for_elements : F → ℕ → ℕ
  unfolding round_up_to_power_of_two
  bucket_count_for_elements factor element_count =
      if element_count == 0
      then 0
      else round_up_to_power_of_two (float.quotient element_count factor + 1)
