-- ===== src/Iterator/Buckets.antt =====
-- The bucket interface: every element is in one bucket.
use cpp_unordered_map.Prelude.{
  inl, inr, ℕ, zero, suc, ◌+◌, ◌<◌, ◌≡◌, refl, List, [], ◌∷◌, length, ltb, ◌==◌, if◌then◌else◌,
  arith,
}
use cpp_unordered_map.Hash.{Traits}
use cpp_unordered_map.Index.Ring.{home_from_hash-lt}
use cpp_unordered_map.Table.{Table}
use cpp_unordered_map.Valid.{IsSearchable}
use cpp_unordered_map.Engine.{hash_at}
use cpp_unordered_map.Engine.Rehash.{hash_at-lt}
use cpp_unordered_map.Iterator.{home_bucket_of, bucket_size_of, bucket_size}

-- `f 0 + … + f (n - 1)`
abbrev pub total : (ℕ → ℕ) → ℕ → ℕ
total f zero = 0
total f (suc n) = total f n + f n

total-bump :
    (f : ℕ → ℕ) (h n : ℕ)
    → total (λ k. if h == k then f k + 1 else f k) n ≡ total f n + (if ltb h n then 1 else 0)
total-bump f h zero = ground arith
total-bump f h (suc n) = ground (arith, total-bump f h n)

total_zero : (n : ℕ) → total (λ _. 0) n ≡ 0
total_zero zero = refl
total_zero (suc n) = omega (arith, total_zero n)

module _ {ℓ} {F : Type 0} {K V : Type ℓ} (traits : Traits K V) (t : Table F K V) where
  total-bucket_size_of :
      (n : ℕ) (nodes : List ℕ) (f : ℕ → ℕ)
      → ((m : ℕ) → home_bucket_of traits t m < n)
      → total (λ k. bucket_size_of traits t k nodes (f k)) n ≡ total f n + length nodes
  unfolding bucket_size_of
  total-bucket_size_of n [] f inside = omega arith
  total-bucket_size_of n (m ∷ nodes) f inside =
      let h = home_bucket_of traits t m in
      let step = total-bump f h n in
      let later = total-bucket_size_of n nodes (λ k. if h == k then f k + 1 else f k) inside in
      ground (arith, step, later, inside m)

  -- In a container that a search can read, the sizes of all buckets add up to the number of
  -- elements.
  pub total-bucket_size :
      IsSearchable traits t → total (bucket_size traits t) t.bucket_count ≡ length t.iteration
  unfolding bucket_size home_bucket_of
  total-bucket_size s = elim s.indexed [
    | inl (z, e) ↦ rw (z, e) refl
    | inr (_, _, h) ↦ omega (
      arith,
      total-bucket_size_of t.bucket_count t.iteration (λ _. 0)
          (λ m.
            home_from_hash-lt t.index (hash_at traits t m) h.valid.sized (hash_at-lt traits t m)),
      total_zero t.bucket_count,
    )
  ]
