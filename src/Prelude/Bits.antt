-- ===== src/Prelude/Bits.antt =====
-- Masks and fields at every width, from the digit recursion of the native operations.
use Prim.Native.Nat.{
  ℕ, zero, suc, ◌+◌, ◌-◌, ◌*◌, ◌/◌, ◌%◌, ◌^◌, ◌≤◌, ◌<◌, min, bit_and, digits, bit_and-bitwise,
}
use mathlib.Core.Path.{◌≡◌, refl}
use native.Mathlib.Omega.{arith}
use native.Mathlib.Nat.{pow-suc, zero-add, suc-add}
use native.Mathlib.Decide.{dec_lt}
use mathlib.Core.Logic.{◌⊎◌, inl, inr}
use mathlib.Core.Bool.{Bool, true, ◌&&◌}
use Prim.Native.Nat.{bit_or, bit_xor, differ, bit_xor-bitwise}
use cpp_unordered_map.Prelude.Tests.{◌==◌, ==→eq}

abbrev conj_digits : ℕ → ℕ → ℕ → ℕ
conj_digits = digits (λ b. zero) min

-- More fuel than the first operand needs changes no digit.
conj_digits-fuel :
    (less more left right : ℕ)
    → left ≤ less
    → left ≤ more
    → conj_digits more left right ≡ conj_digits less left right
conj_digits-fuel (suc less) (suc more) (suc left) right fits fits' =
    omega (arith, conj_digits-fuel less more (suc left / 2) (right / 2) (omega arith) (omega arith))
conj_digits-fuel (suc less) (suc more) zero right fits fits' = refl
conj_digits-fuel (suc less) zero (suc left) right fits fits' = absurd (omega arith)
conj_digits-fuel (suc less) zero zero right fits fits' = refl
conj_digits-fuel zero more (suc left) right fits fits' = absurd (omega arith)
conj_digits-fuel zero (suc more) zero right fits fits' = refl
conj_digits-fuel zero zero zero right fits fits' = refl

bit_and-split : (a b : ℕ) → bit_and a b ≡ 2 * bit_and (a / 2) (b / 2) + min (a % 2) (b % 2)
bit_and-split zero b = omega (arith, bit_and-bitwise 0 b, bit_and-bitwise 0 (b / 2))
bit_and-split (suc a) b =
    let half = suc a / 2 in
    let tail = conj_digits-fuel half a half (b / 2) (omega arith) (omega arith) in
    omega (arith, tail, bit_and-bitwise half (b / 2), bit_and-bitwise (suc a) b)

-- By the digits of a bound.
bit_and-zero_below : (bound value : ℕ) → value ≤ bound → bit_and value 0 ≡ 0
bit_and-zero_below (suc bound) (suc value) h =
    omega
      (arith, bit_and-split (suc value) 0, bit_and-zero_below bound (suc value / 2) (omega arith))
bit_and-zero_below zero (suc value) h = absurd (omega arith)
bit_and-zero_below bound zero h = refl

pub pow_pos : (k : ℕ) → 1 ≤ 2 ^ k
pow_pos zero = omega arith
pow_pos (suc k) = omega (arith, pow-suc 2 k, pow_pos k)

pub pow-add : (j k : ℕ) → 2 ^ (j + k) ≡ 2 ^ j * 2 ^ k
pow-add zero k = rw zero-add (omega arith)
pow-add (suc j) k = rw (suc-add, pow-suc 2 (j + k), pow-suc 2 j, pow-add j k) (omega arith)

-- A mask of `k` ones keeps the low field.
pub bit_and-mask : (k q r : ℕ) → r < 2 ^ k → bit_and (q * 2 ^ k + r) (2 ^ k - 1) ≡ r
bit_and-mask zero q r h =
    rw (bit_and-zero_below (q * 1 + r) (q * 1 + r) (omega arith)) (omega arith)
bit_and-mask (suc k) q r h =
    let p : 2 ^ suc k ≡ 2 ^ k * 2 = pow-suc 2 k in
    let n : q * 2 ^ suc k ≡ q * 2 ^ k * 2 = rw p (omega arith) in
    let a : (q * 2 ^ suc k + r) / 2 ≡ q * 2 ^ k + r / 2 = omega arith in
    let m : (2 ^ suc k - 1) / 2 ≡ 2 ^ k - 1 = omega (arith, pow_pos k) in
    rw (bit_and-split, a, m, bit_and-mask k q (r / 2) (omega arith)) (omega (arith, pow_pos k))

-- A low mask is a remainder, as for `hash & kFingerprintMask`.
pub bit_and-low_byte : (a : ℕ) → bit_and a 255 ≡ a % 256
bit_and-low_byte a =
    let e : a / 256 * 256 + a % 256 ≡ a = omega arith in
    rw e at (bit_and-mask 8 (a / 256) (a % 256) (omega arith))

-- One added to a number of `k` bits and masked: it wraps at the end.
pub bit_and-next :
    (k i : ℕ)
    → i < 2 ^ k
    → (i + 1 ≡ 2 ^ k) × (bit_and (i + 1) (2 ^ k - 1) ≡ 0)
      ⊎ (i + 1 < 2 ^ k) × (bit_and (i + 1) (2 ^ k - 1) ≡ i + 1)
bit_and-next k i h = elim (dec_lt (i + 1) (2 ^ k)) [
  | yes p ↦
      let e : 0 * 2 ^ k + (i + 1) ≡ i + 1 = omega arith in
      inr (p, rw e at (bit_and-mask k 0 (i + 1) p))
  | no p ↦
      let e : i + 1 ≡ 2 ^ k = omega arith in
      let e' : 1 * 2 ^ k + 0 ≡ i + 1 = omega arith in
      inl (e, rw e' at (bit_and-mask k 1 0 (pow_pos k)))
]

-- A test that holds of each number below a bound, by evaluation.
every : (ℕ → Bool) → ℕ → Bool
every test zero = true
every test (suc bound) = every test bound && test bound

every-at :
    (test : ℕ → Bool) (bound value : ℕ)
    → value < bound
    → every test bound ≡ true
    → test value ≡ true
unfolding every
every-at test (suc bound) value below all = ground (arith, every-at test bound value)
every-at test zero value below all = absurd (omega arith)

or_table : every (λ x. bit_or 256 x == 256 + x) 256 ≡ true
unfolding every
or_table = refl

-- `kDistInc | fingerprint` adds, since the fields are apart.
pub bit_or-byte : (x : ℕ) → x < 256 → bit_or 256 x ≡ 256 + x
bit_or-byte x h = ==→eq _ _ (every-at _ 256 x h or_table)

differ-le : (x y : ℕ) → x ≤ 1 → y ≤ 1 → differ x y ≤ 1
differ-le zero y p q = q
differ-le (suc x) zero p q = p
differ-le (suc x) (suc y) p q = differ-le x y (omega arith) (omega arith)

digits_xor-lt : (n k a b : ℕ) → a < 2 ^ k → b < 2 ^ k → digits (λ y. y) differ n a b < 2 ^ k
digits_xor-lt zero k a b p q = q
digits_xor-lt (suc n) k zero b p q = q
digits_xor-lt (suc n) zero (suc a) b p q = absurd (omega arith)
digits_xor-lt (suc n) (suc k) (suc a) b p q =
    let e : 2 ^ suc k ≡ 2 ^ k * 2 = pow-suc 2 k in
    let d : differ (suc a % 2) (b % 2) ≤ 1 =
      differ-le (suc a % 2) (b % 2) (omega arith) (omega arith) in
    omega (arith, digits_xor-lt n k (suc a / 2) (b / 2) (omega arith) (omega arith))

-- Exclusive or stays within the width of its operands.
pub bit_xor-lt : (k a b : ℕ) → a < 2 ^ k → b < 2 ^ k → bit_xor a b < 2 ^ k
bit_xor-lt k a b p q = rw bit_xor-bitwise (digits_xor-lt a k a b p q)
