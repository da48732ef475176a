-- ===== src/Index/Erase.antt =====
-- `erase_bucket`: backward-shift deletion ends, keeps the invariant, and takes out one element.
use cpp_unordered_map.Prelude.{
  ℕ, zero, suc, ◌+◌, ◌-◌, ◌≤◌, ◌<◌, ◌≡◌, ◌≢◌, ◌^◌, refl, ap, sym, ◌∙◌, inl, inr, Bool-cases, max,
  arith, to_nat, ◌==◌, leb, update,
}
use cpp_unordered_map.Index.{
  Index, Bucket, write_bucket, empty_bucket, erase_from, erase_bucket, home_from_hash,
}
use cpp_unordered_map.Index.Ring.{
  next, prev, offset, next_bucket_lem, next-lt, next-ne, prev-lt, next-prev, offset-next_left,
  offset-of_next, offset-lt, home_from_hash-lt, bucket_count_bounds,
}
use cpp_unordered_map.Index.Order.{df}
use cpp_unordered_map.Index.Census.{occupied, copies}
use cpp_unordered_map.Index.Invariant.{
  IsRobinHood, slot_df, write_bucket-IsRobinHood, copies-write, occupied-write, Returns,
  empty_witness,
}
use cpp_unordered_map.Index.Place.{carried, resident-slot_df}

-- The array `t'` holds what `t` holds but for one copy of node `m`.
pub record Erases (hash_of : ℕ → ℕ) (t : Index) (m : ℕ) (t' : Index) : Type 0 where
  pub valid : IsRobinHood hash_of t'
  pub count : t'.bucket_count ≡ t.bucket_count
  pub shift : t'.bucket_shift ≡ t.bucket_shift
  pub holds : (x : ℕ) → copies t' x + to_nat (x == m) ≡ copies t x
  pub frees : occupied t' + 1 ≡ occupied t

module _ {hash_of : ℕ → ℕ} {t : Index} (inv : IsRobinHood hash_of t) (i : ℕ)
    (hi : i < t.bucket_count) where
  abbrev follower : ℕ
  follower = next t.bucket_count i

  -- The bucket after the hole, moved into the hole.
  abbrev shifted : Bucket
  shifted = carried (df t.buckets follower - 256) (t.buckets follower).node_index

  fits_before : df t.buckets i ≤ max (df t.buckets (prev t.bucket_count i)) 255 + 256
  fits_before = rw (next-prev i hi) at (inv.ordered (prev t.bucket_count i) (prev-lt i hi))

  slot_df-prev :
      (hash : ℕ)
      → hash < 2 ^ 64
      → 512 ≤ slot_df t hash follower
      → slot_df t hash i ≡ slot_df t hash follower - 256
  unfolding slot_df
  slot_df-prev hash h far =
      let home = home_from_hash-lt t hash inv.sized h in
      omega (arith, offset-of_next (home_from_hash t hash) i home hi (omega arith))

  shift-IsRobinHood : 512 ≤ df t.buckets follower → IsRobinHood hash_of (write_bucket t i shifted)
  shift-IsRobinHood far =
      let after = inv.ordered i hi in
      let hash = hash_of (t.buckets follower).node_index in
      let stands : df t.buckets follower ≡ slot_df t hash follower =
        resident-slot_df inv follower (next-lt i hi) (omega arith) in
      write_bucket-IsRobinHood t i shifted inv hi (omega (arith, fits_before)) (omega arith)
        (inr (ap (λ k. k - 256) stands ∙ sym (slot_df-prev hash (inv.hashed _) (omega arith))))

  clear-Erases :
      df t.buckets i ≢ 0
      → df t.buckets follower < 512
      → Erases hash_of t (t.buckets i).node_index (write_bucket t i empty_bucket)
  clear-Erases nz near = record {
    valid = write_bucket-IsRobinHood t i empty_bucket inv hi (omega arith) (omega arith) (inl refl);
    count = refl;
    shift = refl;
    holds = λ x. ground (arith, copies-write t i empty_bucket x hi);
    frees = ground (arith, occupied-write t i empty_bucket hi);
  }

  shift-Erases :
      (t' : Index)
      → df t.buckets i ≢ 0
      → 512 ≤ df t.buckets follower
      → Erases hash_of (write_bucket t i shifted) (t.buckets follower).node_index t'
      → Erases hash_of t (t.buckets i).node_index t'
  shift-Erases t' nz far w = record {
    valid = w.valid;
    count = w.count;
    shift = w.shift;
    holds = λ x. ground (arith, copies-write t i shifted x hi, w.holds x);
    frees = ground (arith, occupied-write t i shifted hi, w.frees);
  }

erase_from_lem :
    {hash_of : ℕ → ℕ} (fuel : ℕ) {t : Index} (inv : IsRobinHood hash_of t) (i e : ℕ)
    → i < t.bucket_count
    → e < t.bucket_count
    → df t.buckets e ≡ 0
    → df t.buckets i ≢ 0
    → offset t.bucket_count i e < fuel
    → Returns (erase_from fuel t i) (Erases hash_of t (t.buckets i).node_index)
unfolding erase_from
erase_from_lem zero inv i e hi he z nz enough = absurd (omega arith)
erase_from_lem {hash_of} (suc fuel) {t} inv i e hi he z nz enough =
    let n = t.bucket_count in
    let step = next_bucket_lem t i inv.sized hi in
    let two : 2 ≤ n = omega (arith, bucket_count_bounds t inv.sized) in
    let away = next-ne i hi two in
    elim (Bool-cases (leb 512 (df t.buckets (next n i)))) [
      | inl p ↦
          let far : 512 ≤ df t.buckets (next n i) = ground arith in
          let apart : i ≢ e = ground arith in
          let closer = offset-next_left i e hi he apart in
          let v = shifted inv i hi in
          let same : update t.buckets i v (next n i) ≡ t.buckets (next n i) = ground arith in
          let (t', run, erased) =
            erase_from_lem fuel (shift-IsRobinHood inv i hi far) (next n i) e (next-lt i hi) he
              (ground arith) (ground arith) (omega arith) in
          (
            t',
            rw (step, p) run,
            shift-Erases inv i hi t' nz far (rw (ap (λ b. b.node_index) same) at erased),
          )
      | inr p ↦
          (write_bucket t i empty_bucket, rw (step, p), clear-Erases inv i hi nz (ground arith))
    ]

-- In a valid bucket array with an empty bucket, taking out an occupied bucket ends within its fuel,
-- keeps the array valid and its size unchanged, and loses one copy of its node and of no other.
pub erase_bucket-Erases :
    {hash_of : ℕ → ℕ} {t : Index}
    → IsRobinHood hash_of t
    → occupied t < t.bucket_count
    → (i : ℕ) → i < t.bucket_count
    → df t.buckets i ≢ 0
    → Returns (erase_bucket t i) (Erases hash_of t (t.buckets i).node_index)
unfolding erase_bucket
erase_bucket-Erases {hash_of} {t} inv room i hi nz =
    let (e, he, z) = empty_witness t room in
    erase_from_lem (t.bucket_count + 1) inv i e hi he z nz (omega (arith, offset-lt i e hi he))
