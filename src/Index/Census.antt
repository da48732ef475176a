-- ===== src/Index/Census.antt =====
-- How many buckets pass a test: occupied buckets, and buckets that hold a given node.
use cpp_unordered_map.Prelude.{
  ℕ, zero, suc, ◌+◌, ◌≤◌, ◌<◌, ◌≡◌, refl, inl, inr, Bool, true, false, not, ◌&&◌, arith, ◌==◌,
  to_nat, update, Bool-cases, ==-cases,
}
use cpp_unordered_map.Index.{Bucket, Index}

module _ (test : Bucket → Bool) where
  pub tally : (ℕ → Bucket) → ℕ → ℕ
  tally b zero = 0
  tally b (suc n) = to_nat (test (b n)) + tally b n

  tally-update_above :
      (b : ℕ → Bucket) (i n : ℕ) (v : Bucket) → n ≤ i → tally (update b i v) n ≡ tally b n
  unfolding tally
  tally-update_above b i zero v h = omega arith
  tally-update_above b i (suc n) v h = ground (arith, tally-update_above b i n v (omega arith))

  pub tally-update :
      (b : ℕ → Bucket) (i n : ℕ) (v : Bucket)
      → i < n
      → tally (update b i v) n + to_nat (test (b i)) ≡ tally b n + to_nat (test v)
  unfolding tally
  tally-update b i zero v h = elim h [ ]
  tally-update b i (suc n) v h = elim (==-cases i n) [
    | inl e ↦ rw (← e) (ground (arith, tally-update_above b i i v (omega arith)))
    | inr apart ↦ rw apart (omega (arith, tally-update b i n v (ground arith)))
  ]

  -- A test that some bucket passes.
  pub tally_pos : (b : ℕ → Bucket) (i n : ℕ) → i < n → test (b i) ≡ true → 0 < tally b n
  unfolding tally
  tally_pos b i zero h p = elim h [ ]
  tally_pos b i (suc n) h p = elim (==-cases i n) [
    | inl e ↦ rw (← e, p) (omega arith)
    | inr apart ↦ omega (arith, tally_pos b i n (ground arith) p)
  ]

  pub tally_witness :
      (b : ℕ → Bucket) (n : ℕ) → 0 < tally b n → (i : ℕ) × (i < n) × (test (b i) ≡ true)
  unfolding tally
  tally_witness b zero h = elim h [ ]
  tally_witness b (suc n) h = elim (Bool-cases (test (b n))) [
    | inl p ↦ (n, omega arith, p)
    | inr p ↦
        let h' : 0 < tally b n = ground arith in
        let (i, l, q) = tally_witness b n h' in (i, omega arith, q)
  ]

  -- A test that some bucket fails.
  pub tally_gap :
      (b : ℕ → Bucket) (n : ℕ) → tally b n < n → (i : ℕ) × (i < n) × (test (b i) ≡ false)
  unfolding tally
  tally_gap b zero h = elim h [ ]
  tally_gap b (suc n) h = elim (Bool-cases (test (b n))) [
    | inl p ↦
        let h' : tally b n < n = ground arith in
        let (i, l, q) = tally_gap b n h' in (i, omega arith, q)
    | inr p ↦ (n, omega arith, p)
  ]

  pub tally-zero : (b : ℕ → Bucket) (n : ℕ) → ((i : ℕ) → test (b i) ≡ false) → tally b n ≡ 0
  unfolding tally
  tally-zero b zero h = refl
  tally-zero b (suc n) h = rw (h n) (omega (arith, tally-zero b n h))

abbrev pub is_occupied : Bucket → Bool
is_occupied b = not (b.dist_and_fingerprint == 0)

abbrev pub is_node : ℕ → Bucket → Bool
is_node m b = not (b.dist_and_fingerprint == 0) && (m == b.node_index)

-- The buckets in use, and those that hold node `m`.
unfoldable pub occupied : Index → ℕ
unfolding tally
occupied t = tally is_occupied t.buckets t.bucket_count

unfoldable pub copies : Index → ℕ → ℕ
unfolding tally
copies t m = tally (is_node m) t.buckets t.bucket_count

-- A cleared array holds nothing.
pub occupied-zero :
    (t : Index) → ((i : ℕ) → (t.buckets i).dist_and_fingerprint ≡ 0) → occupied t ≡ 0
unfolding occupied
occupied-zero t h = tally-zero is_occupied t.buckets t.bucket_count (λ i. rw (h i))

pub copies-zero :
    (t : Index) (m : ℕ) → ((i : ℕ) → (t.buckets i).dist_and_fingerprint ≡ 0) → copies t m ≡ 0
unfolding copies
copies-zero t m h = tally-zero (is_node m) t.buckets t.bucket_count (λ i. rw (h i))
