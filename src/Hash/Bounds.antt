-- ===== src/Hash/Bounds.antt =====
-- The mixed hash is a 64-bit word.
use cpp_unordered_map.Prelude.{
  ℕ, ◌/◌, ◌^◌, ◌<◌, ◌≡◌, arith, inl, inr, Bool-cases, true, Option, none, some,
}
use cpp_unordered_map.Prelude.Bits.{bit_xor-lt}
use cpp_unordered_map.Hash.{
  Traits, Policy, IsLawful, fold_bits, mul64, mix_bits, mixed_hash, storage_hash,
}

fold_bits-lt : (a : ℕ) → a < 2 ^ 64 → fold_bits a < 2 ^ 64
fold_bits-lt a h = bit_xor-lt 64 a (a / 2 ^ 33) h (omega arith)

mul64-lt : (a b : ℕ) → mul64 a b < 2 ^ 64
mul64-lt a b = omega arith

pub mix_bits-lt : (a : ℕ) → mix_bits a < 2 ^ 64
unfolding mix_bits
mix_bits-lt a =
    fold_bits-lt _
      (mul64-lt (fold_bits (mul64 (fold_bits a) 0xff51afd7ed558ccd)) 0xc4ceb9fe1a85ec53)

module _ {ℓ} {K V : Type ℓ} (traits : Traits K V) (policy : Policy K) where
  -- The hash of any key, mixed or not, is a 64-bit word.
  pub mixed_hash-lt : (key : K) → mixed_hash traits policy key < 2 ^ 64
  unfolding mixed_hash
  mixed_hash-lt key = elim (Bool-cases traits.is_avalanching) [
    | inl e ↦ rw e (omega arith)
    | inr e ↦ rw e (mix_bits-lt _)
  ]

  -- Equal keys have one mixed hash.
  pub mixed_hash-equal :
      IsLawful policy
      → (a b : K) → policy.key_equal a b ≡ true
      → mixed_hash traits policy a ≡ mixed_hash traits policy b
  unfolding mixed_hash
  mixed_hash-equal lawful a b e = rw (lawful.hash-equal a b e)

  pub storage_hash-lt : (o : Option V) → storage_hash traits policy o < 2 ^ 64
  storage_hash-lt none = omega arith
  storage_hash-lt (some v) = mixed_hash-lt (traits.key_of v)
