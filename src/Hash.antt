-- ===== src/Hash.antt =====
-- include/fum/detail/hash_table.hpp: the hash finalizer and the template parameters for keys.
-- A hasher and a key comparison are code of the program's user, so they are parameters.
pub mod Bounds
use Prim.Native.Nat.{bit_xor}
use cpp_unordered_map.Prelude.{
  ℕ, ◌*◌, ◌/◌, ◌%◌, ◌^◌, Bool, true, if◌then◌else◌, ◌≡◌, Option, none, some, false, sym, ◌∙◌, inl,
  inr, arith, Bool-cases,
}

-- `value ^= value >> 33`
abbrev pub fold_bits : ℕ → ℕ
fold_bits value = bit_xor value (value / 2 ^ 33)

-- `value *= factor` on a 64-bit word
abbrev pub mul64 : ℕ → ℕ → ℕ
mul64 value factor = value * factor % 2 ^ 64

-- The splitmix64 finalizer.
unfoldable pub mix_bits : ℕ → ℕ
mix_bits value =
    let a = fold_bits value in
    let b = mul64 a 0xff51afd7ed558ccd in
    let c = fold_bits b in let d = mul64 c 0xc4ceb9fe1a85ec53 in fold_bits d

-- `hash_function_` and `key_equal_`, which each container keeps.
pub record Policy {ℓ} (K : Type ℓ) : Type ℓ where
  pub hash_function : K → ℕ
  pub key_equal : K → K → Bool

-- `Traits`: the key of a stored value, and whether the hasher is marked `is_avalanching`.
pub record Traits {ℓ} (K V : Type ℓ) : Type ℓ where
  pub key_of : V → K
  pub is_avalanching : Bool

-- The cast to 64 bits, and the finalizer unless the hasher opts out.
unfoldable pub mixed_hash {ℓ} : {K V : Type ℓ} → Traits K V → Policy K → K → ℕ
mixed_hash traits policy key =
    let raw = policy.hash_function key % 2 ^ 64 in
    if traits.is_avalanching then raw else mix_bits raw

module _ {ℓ} {K V : Type ℓ} (traits : Traits K V) where
  -- The mixed hash of a stored key, and the comparison of a key with a stored one. Both give a
  -- fixed answer for a slot with no value, where the code would read raw memory.
  abbrev pub storage_hash : Policy K → Option V → ℕ
  storage_hash policy none = 0
  storage_hash policy (some v) = mixed_hash traits policy (traits.key_of v)

  abbrev pub storage_equal : Policy K → K → Option V → Bool
  storage_equal policy key none = false
  storage_equal policy key (some v) = policy.key_equal key (traits.key_of v)

-- What the standard asks of a hasher and a key comparison.
pub record IsLawful {ℓ} {K : Type ℓ} (policy : Policy K) : Type ℓ where
  pub equal_refl : (a : K) → policy.key_equal a a ≡ true
  pub equal_symm : (a b : K) → policy.key_equal a b ≡ true → policy.key_equal b a ≡ true
  pub equal_trans :
      (a b c : K)
      → policy.key_equal a b ≡ true
      → policy.key_equal b c ≡ true
      → policy.key_equal a c ≡ true
  pub hash-equal :
      (a b : K) → policy.key_equal a b ≡ true → policy.hash_function a ≡ policy.hash_function b

module _ {ℓ} {K : Type ℓ} {policy : Policy K} (lawful : IsLawful policy) where
  pub key_equal_symm : (a b : K) → policy.key_equal a b ≡ policy.key_equal b a
  key_equal_symm a b = elim (Bool-cases (policy.key_equal a b)) [
    | inl p ↦ p ∙ sym (lawful.equal_symm a b p)
    | inr p ↦ elim (Bool-cases (policy.key_equal b a)) [
      | inl q ↦ absurd (ground (arith, p, lawful.equal_symm b a q))
      | inr q ↦ p ∙ sym q
    ]
  ]

  -- Equal keys compare alike.
  pub key_equal_congr :
      (a b c : K) → policy.key_equal a b ≡ true → policy.key_equal a c ≡ policy.key_equal b c
  key_equal_congr a b c e = elim (Bool-cases (policy.key_equal b c)) [
    | inl p ↦ lawful.equal_trans a b c e p ∙ sym p
    | inr p ↦ elim (Bool-cases (policy.key_equal a c)) [
      | inl q ↦ absurd (ground (arith, p, lawful.equal_trans b a c (lawful.equal_symm a b e) q))
      | inr q ↦ q ∙ sym p
    ]
  ]
