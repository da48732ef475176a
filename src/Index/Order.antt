-- ===== src/Index/Order.antt =====
-- The Robin Hood order: from one bucket to the next, a distance grows by at most one unit, and a
-- displaced bucket is at most one unit beyond the bucket before it.
use cpp_unordered_map.Prelude.{
  ℕ, zero, suc, ◌+◌, ◌*◌, ◌≤◌, ◌<◌, ◌≡◌, inl, inr, max, arith, update, ==-cases,
}
use cpp_unordered_map.Index.{Bucket}
use cpp_unordered_map.Index.Ring.{
  next, prev, offset, next-prev, prev-next, next-ne, prev-lt, offset-prev_right, offset-eq-zero,
}

abbrev pub df : (ℕ → Bucket) → ℕ → ℕ
df b i = (b i).dist_and_fingerprint

abbrev pub IsOrdered : ℕ → (ℕ → Bucket) → Type 0
IsOrdered n b = (i : ℕ) → i < n → df b (next n i) ≤ max (df b i) 255 + 256

module _ {n : ℕ} (b : ℕ → Bucket) (ordered : IsOrdered n b) where
  before : (j : ℕ) → j < n → df b j ≤ max (df b (prev n j)) 255 + 256
  before j h = rw (next-prev j h) at (ordered (prev n j) (prev-lt j h))

  -- A bucket is no farther from home than from an empty bucket before it.
  pub df-lt_of_empty :
      (s e j : ℕ) → e < n → j < n → offset n e j ≡ s → df b e ≡ 0 → df b j < 256 * (s + 1)
  df-lt_of_empty zero e j he hj o z = rw (← offset-eq-zero e j he hj o) (omega arith)
  df-lt_of_empty (suc s) e j he hj o z = omega (
    arith,
    before j hj,
    df-lt_of_empty s e (prev n j) he (prev-lt j hj) (offset-prev_right e j s he hj o) z,
  )

  -- Along the way from home to a bucket, every resident is at least as far from its own home.
  pub df-le_of_displaced :
      (s i j : ℕ)
      → i < n
      → j < n
      → offset n i j ≡ s
      → 256 * (s + 1) ≤ df b j
      → df b j ≤ df b i + 256 * s
  df-le_of_displaced zero i j hi hj o far = rw (← offset-eq-zero i j hi hj o) (omega arith)
  df-le_of_displaced (suc s) i j hi hj o far =
      let p = before j hj in
      omega (
        arith,
        p,
        df-le_of_displaced s i (prev n j) hi (prev-lt j hj) (offset-prev_right i j s hi hj o)
            (omega arith),
      )

-- A write keeps the order if it fits the bucket before it and the bucket after it fits it.
pub update-IsOrdered :
    {n : ℕ} (b : ℕ → Bucket) (i : ℕ) (v : Bucket)
    → IsOrdered n b
    → i < n
    → 2 ≤ n
    → v.dist_and_fingerprint ≤ max (df b (prev n i)) 255 + 256
    → df b (next n i) ≤ max v.dist_and_fingerprint 255 + 256
    → IsOrdered n (update b i v)
update-IsOrdered {n} b i v ordered hi two fits follows q hq = elim (==-cases i q) [
  | inl e ↦ rw (← e) (ground (arith, next-ne i hi two))
  | inr apart ↦ elim (==-cases i (next n q)) [
    | inl e ↦
        let p : prev n i ≡ q = rw e (prev-next q hq) in
        let fits' : v.dist_and_fingerprint ≤ max (df b q) 255 + 256 = rw p at fits in ground arith
    | inr apart' ↦ ground (arith, ordered q hq)
  ]
]
