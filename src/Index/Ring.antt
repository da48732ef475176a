-- ===== src/Index/Ring.antt =====
-- Addressing: the masked step and the shifted hash as arithmetic on a ring of buckets.
use cpp_unordered_map.Prelude.{
  ℕ, suc, ◌+◌, ◌-◌, ◌*◌, ◌%◌, ◌^◌, ◌≤◌, ◌<◌, ◌≡◌, ◌≢◌, sym, ap, ◌∙◌, inl, inr, arith, leb, ◌==◌,
  if◌then◌else◌,
}
use native.Mathlib.Nat.{pow-le-pow_right, div-lt_iff_lt-mul}
use cpp_unordered_map.Prelude.Bits.{pow_pos, pow-add, bit_and-low_byte, bit_and-next, bit_or-byte}
use cpp_unordered_map.Index.{
  Index, dist_and_fingerprint_from_hash, home_from_hash, next_bucket, add32,
}

-- The bucket after `i` in a ring of `n`.
abbrev pub next : ℕ → ℕ → ℕ
next n i = if i + 1 == n then 0 else i + 1

-- The steps from `a` to `b`.
abbrev pub offset : ℕ → ℕ → ℕ → ℕ
offset n a b = if leb a b then b - a else b + n - a

abbrev pub prev : ℕ → ℕ → ℕ
prev n j = if j == 0 then n - 1 else j - 1

-- The array sizes that the code uses: powers of two from 8 on, and few enough buckets for a
-- distance to fit its 24 bits.
pub record IsSized (t : Index) : Type 0 where
  pub bits : ℕ
  pub least : 3 ≤ bits
  pub most : bits ≤ 23
  pub count : t.bucket_count ≡ 2 ^ bits
  pub shift : t.bucket_shift ≡ 64 - bits

pow_le : (j k : ℕ) → j ≤ k → 2 ^ j ≤ 2 ^ k
pow_le j k h = pow-le-pow_right (omega arith) h

-- The bucket count is between 8 and 2 ^ 23.
pub bucket_count_bounds : (t : Index) → IsSized t → (8 ≤ t.bucket_count) × (t.bucket_count ≤ 2 ^ 23)
bucket_count_bounds t s =
    rw s.count (omega (arith, pow_le 3 s.bits s.least, pow_le s.bits 23 s.most))

pub next_bucket_lem :
    (t : Index) (i : ℕ) → IsSized t → i < t.bucket_count → next_bucket t i ≡ next t.bucket_count i
unfolding next_bucket
next_bucket_lem t i s h = rw s.count (elim (bit_and-next s.bits i (rw s.count at h)) [
  | inl (e, m) ↦ ground arith
  | inr (l, m) ↦ ground arith
])

-- Where the shift fits the size of the array, the home bucket of a 64-bit hash is inside the array.
pub home_from_hash-lt :
    (t : Index) (hash : ℕ) → IsSized t → hash < 2 ^ 64 → home_from_hash t hash < t.bucket_count
unfolding home_from_hash
home_from_hash-lt t hash s h =
    let bits : s.bits + (64 - s.bits) ≡ 64 = omega arith in
    let whole : 2 ^ s.bits * 2 ^ (64 - s.bits) ≡ 2 ^ 64 =
      sym (pow-add s.bits (64 - s.bits)) ∙ ap (λ k. 2 ^ k) bits in
    rw (s.count, s.shift) ((div-lt_iff_lt-mul (pow_pos (64 - s.bits))).1 (rw whole h))

pub dist_and_fingerprint_from_hash_lem :
    (hash : ℕ) → dist_and_fingerprint_from_hash hash ≡ 256 + hash % 256
unfolding dist_and_fingerprint_from_hash
dist_and_fingerprint_from_hash_lem hash =
    rw bit_and-low_byte (bit_or-byte (hash % 256) (omega arith))

pub add32_lem : (a : ℕ) → a + 256 < 2 ^ 32 → add32 a 256 ≡ a + 256
add32_lem a h = omega arith

pub offset_self : (n a : ℕ) → offset n a a ≡ 0
offset_self n a = ground arith

module _ {n : ℕ} where
  pub prev-next : (i : ℕ) → i < n → prev n (next n i) ≡ i
  prev-next i h = ground arith

  pub next-ne : (i : ℕ) → i < n → 2 ≤ n → next n i ≢ i
  next-ne i h two = ground arith

  pub next-lt : (i : ℕ) → i < n → next n i < n
  next-lt i h = ground arith

  pub prev-lt : (i : ℕ) → i < n → prev n i < n
  prev-lt i h = ground arith

  pub next-prev : (j : ℕ) → j < n → next n (prev n j) ≡ j
  next-prev j h = ground arith

  pub offset-lt : (a b : ℕ) → a < n → b < n → offset n a b < n
  offset-lt a b p q = ground arith

  pub offset-eq-zero : (a b : ℕ) → a < n → b < n → offset n a b ≡ 0 → a ≡ b
  offset-eq-zero a b p q h = ground arith

  -- A step away from `a`, unless it comes back to `a`.
  pub offset-next_right :
      (a i : ℕ) → a < n → i < n → offset n a i + 1 < n → offset n a (next n i) ≡ offset n a i + 1
  offset-next_right a i p q h = ground arith

  pub offset-of_next :
      (a i : ℕ)
      → a < n
      → i < n
      → 0 < offset n a (next n i)
      → offset n a i + 1 ≡ offset n a (next n i)
  offset-of_next a i p q h = ground arith

  pub offset-prev_right :
      (a j s : ℕ) → a < n → j < n → offset n a j ≡ suc s → offset n a (prev n j) ≡ s
  offset-prev_right a j s p q h = ground arith

  -- A step towards `b`.
  pub offset-next_left :
      (i b : ℕ) → i < n → b < n → i ≢ b → offset n (next n i) b + 1 ≡ offset n i b
  offset-next_left i b p q h = ground arith

  -- Distances from `a` add up along the ring, and tell buckets apart.
  pub offset-add :
      (a i j : ℕ)
      → a < n
      → i < n
      → j < n
      → offset n a i ≤ offset n a j
      → offset n a j ≡ offset n a i + offset n i j
  offset-add a i j p q r h = ground arith

  pub offset-injective : (a i j : ℕ) → a < n → i < n → j < n → offset n a i ≡ offset n a j → i ≡ j
  offset-injective a i j p q r h = ground arith
