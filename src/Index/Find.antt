-- ===== src/Index/Find.antt =====
-- `find_bucket`: the probe ends, what it returns is a match, and it misses no match.
use cpp_unordered_map.Prelude.{
  ℕ, zero, suc, ◌+◌, ◌^◌, ◌≤◌, ◌<◌, ◌≡◌, ◌≢◌, ◌⊎◌, refl, ap, ◌∙◌, sym, inl, inr, Bool, true, false,
  Bool-cases, arith, ltb, ◌==◌,
}
use cpp_unordered_map.Index.{
  Index, find_from, find_bucket, home_from_hash, dist_and_fingerprint_from_hash,
}
use cpp_unordered_map.Index.Ring.{
  next, offset, next_bucket_lem, add32_lem, next-lt, offset-next_left, offset-lt, offset_self,
  offset-add, offset-injective, home_from_hash-lt, dist_and_fingerprint_from_hash_lem,
}
use cpp_unordered_map.Index.Order.{df, df-le_of_displaced}
use cpp_unordered_map.Index.Census.{occupied}
use cpp_unordered_map.Index.Invariant.{IsRobinHood, slot_df, Returns, empty_witness}
use cpp_unordered_map.Index.Place.{slot_df-next, slot_df-lt}

-- A bucket whose element has the hash and passes the comparison.
pub record IsMatch (t : Index) (same : ℕ → Bool) (hash j : ℕ) : Type 0 where
  pub inside : j < t.bucket_count
  pub stands : df t.buckets j ≡ slot_df t hash j
  pub equal : same (t.buckets j).node_index ≡ true

-- A search that returned `r`: a match, or `bucket_count` where there is none.
abbrev pub Finds : Index → (ℕ → Bool) → ℕ → ℕ → Type 0
Finds t same hash r =
    IsMatch t same hash r ⊎ (r ≡ t.bucket_count) × ((j : ℕ) → ¬ IsMatch t same hash j)

module _ {hash_of : ℕ → ℕ} {t : Index} (inv : IsRobinHood hash_of t) (same : ℕ → Bool) (hash : ℕ)
    (bound : hash < 2 ^ 64) where
  abbrev home : ℕ
  home = home_from_hash t hash

  home-lt : home < t.bucket_count
  home-lt = home_from_hash-lt t hash inv.sized bound

  slot_df_pos : (i : ℕ) → 256 ≤ slot_df t hash i
  unfolding slot_df
  slot_df_pos i = omega arith

  -- Every bucket between home and a match is at least as far from its home as the probe is.
  df-le_of_match :
      (i j : ℕ)
      → i < t.bucket_count
      → IsMatch t same hash j
      → offset t.bucket_count home i ≤ offset t.bucket_count home j
      → slot_df t hash i ≤ df t.buckets i
  unfolding slot_df
  df-le_of_match i j hi m le =
      let n = t.bucket_count in
      let sum = offset-add home i j home-lt hi m.inside le in
      omega (
        arith,
        m.stands,
        sum,
        df-le_of_displaced t.buckets inv.ordered (offset n i j) i j hi m.inside refl
            (omega (arith, m.stands)),
      )

  -- Every match is at or after bucket `i` of the probe.
  abbrev IsAhead : ℕ → Type 0
  IsAhead i =
      (j : ℕ) → IsMatch t same hash j → offset t.bucket_count home i ≤ offset t.bucket_count home j

  next-IsAhead :
      (i e : ℕ)
      → i < t.bucket_count
      → e < t.bucket_count
      → df t.buckets e ≡ 0
      → slot_df t hash i ≤ df t.buckets i
      → ¬ IsMatch t same hash i
      → IsAhead i
      → IsAhead (next t.bucket_count i)
  unfolding slot_df
  next-IsAhead i e hi he z le miss ahead j m =
      let n = t.bucket_count in
      let step = slot_df-next inv hash i e bound hi he z le in
      let other : offset n home i ≢ offset n home j =
        λ eq. miss (rw (sym (offset-injective home i j home-lt hi m.inside eq)) at m) in
      omega (arith, ahead j m)

  find_from_lem :
      (fuel i d e : ℕ)
      → i < t.bucket_count
      → e < t.bucket_count
      → df t.buckets e ≡ 0
      → offset t.bucket_count i e < fuel
      → d ≡ slot_df t hash i
      → IsAhead i
      → Returns (find_from fuel t same d i) (Finds t same hash)
  unfolding find_from
  find_from_lem zero i d e hi he z enough stands ahead = absurd (omega arith)
  find_from_lem (suc fuel) i d e hi he z enough stands ahead =
      let on = λ (le : d ≤ df t.buckets i) (miss : ¬ IsMatch t same hash i).
        let apart : i ≢ e = ground (arith, slot_df_pos i) in
        let le' = rw stands at le in
        let closer = offset-next_left i e hi he apart in
        find_from_lem fuel (next t.bucket_count i) (d + 256) e (next-lt i hi) he z (omega arith)
          (ap (λ k. k + 256) stands ∙ sym (slot_df-next inv hash i e bound hi he z le'))
          (next-IsAhead i e hi he z le' miss ahead) in
      let step = next_bucket_lem t i inv.sized hi in
      let plus = add32_lem d (rw stands (slot_df-lt inv hash i bound hi)) in
      elim (Bool-cases (d == df t.buckets i)) [
        | inl p ↦ elim (Bool-cases (same (t.buckets i).node_index)) [
          | inl q ↦ (i, rw (p, q), inl (record { inside = hi; stands = ground arith; equal = q }))
          | inr q ↦
              let (r, run, finds) = on (ground arith) (λ m. cc (m.equal)) in
              (r, rw (p, q, step, plus) run, finds)
        ]
        | inr p ↦ elim (Bool-cases (ltb (df t.buckets i) d)) [
          | inl q ↦ (
            t.bucket_count,
            rw (p, q),
            inr (refl, λ j m. absurd (ground (arith, df-le_of_match i j hi m (ahead j m)))),
          )
          | inr q ↦
              let (r, run, finds) = on (ground arith) (λ m. ground (arith, m.stands)) in
              (r, rw (p, q, step, plus) run, finds)
        ]
      ]

-- In a valid bucket array with an empty bucket, the search for a 64-bit hash ends within its fuel.
-- It returns a bucket whose element stands where that hash puts it and passes the comparison, or
-- `bucket_count`, and then no bucket holds such an element.
pub find_bucket-Finds :
    {hash_of : ℕ → ℕ} {t : Index}
    → IsRobinHood hash_of t
    → occupied t < t.bucket_count
    → (same : ℕ → Bool) (hash : ℕ) → hash < 2 ^ 64
    → Returns (find_bucket t same hash) (Finds t same hash)
unfolding find_bucket slot_df
find_bucket-Finds {hash_of} {t} inv room same hash bound =
    let (e, he, z) = empty_witness t room in
    let home = home_from_hash t hash in
    let inside = home_from_hash-lt t hash inv.sized bound in
    let stands : dist_and_fingerprint_from_hash hash ≡ slot_df t hash home =
      rw (dist_and_fingerprint_from_hash_lem hash, offset_self) (omega arith) in
    let (r, run, finds) =
      find_from_lem inv same hash bound (t.bucket_count + 1) home
        (dist_and_fingerprint_from_hash hash) e inside he z
        (omega (arith, offset-lt home e inside he)) stands (λ j m. rw offset_self (omega arith)) in
    let some_buckets : (t.bucket_count == 0) ≡ false = ground arith in
    (r, rw (some_buckets, run), finds)
