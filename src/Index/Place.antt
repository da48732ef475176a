-- ===== src/Index/Place.antt =====
-- `place_and_shift_up`: it ends, keeps the invariant, and adds the placed node to the array.
use cpp_unordered_map.Prelude.{
  ℕ, zero, suc, ◌+◌, ◌≤◌, ◌<◌, ◌≡◌, refl, ◌≢◌, sym, ap, ◌∙◌, ◌^◌, inl, inr, Bool-cases, max, arith,
  to_nat, ◌==◌, ltb,
}
use cpp_unordered_map.Index.{Index, Bucket, write_bucket, place_from, home_from_hash}
use cpp_unordered_map.Index.Ring.{
  next, prev, offset, bucket_count_bounds, next_bucket_lem, add32_lem, next-lt, prev-next,
  offset-next_right, offset-next_left, offset-lt, home_from_hash-lt,
}
use cpp_unordered_map.Index.Order.{df, df-lt_of_empty}
use cpp_unordered_map.Index.Census.{occupied, copies}
use cpp_unordered_map.Index.Invariant.{
  IsRobinHood, slot_df, slot_df-write, write_bucket-IsRobinHood, copies-write, occupied-write,
  Returns,
}

-- The array `t'` holds what `t` holds and node `m`, and its size is unchanged.
pub record Places (hash_of : ℕ → ℕ) (t : Index) (m : ℕ) (t' : Index) : Type 0 where
  pub valid : IsRobinHood hash_of t'
  pub count : t'.bucket_count ≡ t.bucket_count
  pub shift : t'.bucket_shift ≡ t.bucket_shift
  pub holds : (x : ℕ) → copies t' x ≡ copies t x + to_nat (x == m)
  pub fills : occupied t' ≡ occupied t + 1

module _ {hash_of : ℕ → ℕ} {t : Index} (inv : IsRobinHood hash_of t) where
  -- One step on, an element that is not next to an empty bucket is one unit farther from home.
  pub slot_df-next :
      (hash i e : ℕ)
      → hash < 2 ^ 64
      → i < t.bucket_count
      → e < t.bucket_count
      → df t.buckets e ≡ 0
      → slot_df t hash i ≤ df t.buckets i
      → slot_df t hash (next t.bucket_count i) ≡ slot_df t hash i + 256
  unfolding slot_df
  slot_df-next hash i e hh hi he z le =
      let n = t.bucket_count in
      let near = df-lt_of_empty t.buckets inv.ordered (offset n e i) e i he hi refl z in
      let h = home_from_hash-lt t hash inv.sized hh in
      let room = offset-lt e i he hi in
      rw (offset-next_right (home_from_hash t hash) i h hi (omega arith)) (omega arith)

  pub slot_df-lt :
      (hash i : ℕ) → hash < 2 ^ 64 → i < t.bucket_count → slot_df t hash i + 256 < 2 ^ 32
  unfolding slot_df
  slot_df-lt hash i hh hi = omega (
    arith,
    offset-lt (home_from_hash t hash) i (home_from_hash-lt t hash inv.sized hh) hi,
    bucket_count_bounds t inv.sized,
  )

  pub resident-slot_df :
      (i : ℕ)
      → i < t.bucket_count
      → df t.buckets i ≢ 0
      → df t.buckets i ≡ slot_df t (hash_of (t.buckets i).node_index) i
  resident-slot_df i hi nz = ground (arith, inv.placed i hi)

abbrev pub carried : ℕ → ℕ → Bucket
carried d m = record { dist_and_fingerprint = d; node_index = m }

module _ {hash_of : ℕ → ℕ} {t : Index} (inv : IsRobinHood hash_of t) (i d m : ℕ)
    (hi : i < t.bucket_count) (stands : d ≡ slot_df t (hash_of m) i)
    (fits : d ≤ max (df t.buckets (prev t.bucket_count i)) 255 + 256) where
  -- The carried bucket may be written over a resident that is not farther from home.
  write_carried : df t.buckets i ≤ d → IsRobinHood hash_of (write_bucket t i (carried d m))
  write_carried le =
      let after = inv.ordered i hi in
      write_bucket-IsRobinHood t i (carried d m) inv hi fits (omega arith) (inr stands)

  carried_pos : 256 ≤ d
  unfolding slot_df
  carried_pos = omega arith

  vacant-Places : df t.buckets i ≡ 0 → Places hash_of t m (write_bucket t i (carried d m))
  vacant-Places z = record {
    valid = write_carried (omega arith);
    count = refl;
    shift = refl;
    holds = λ x. ground (arith, copies-write t i (carried d m) x hi, carried_pos);
    fills = ground (arith, occupied-write t i (carried d m) hi, carried_pos);
  }

  -- What is placed after a swap makes up for the resident that was taken out.
  steal-Places :
      (t' : Index)
      → df t.buckets i ≢ 0
      → Places hash_of (write_bucket t i (carried d m)) (t.buckets i).node_index t'
      → Places hash_of t m t'
  steal-Places t' nz w = record {
    valid = w.valid;
    count = w.count;
    shift = w.shift;
    holds = λ x. ground (arith, copies-write t i (carried d m) x hi, carried_pos, w.holds x);
    fills = ground (arith, occupied-write t i (carried d m) hi, carried_pos, w.fills);
  }

-- The loop ends within as many rounds as there are steps to an empty bucket.
pub place_from_lem :
    {hash_of : ℕ → ℕ} (fuel : ℕ) {t : Index} (inv : IsRobinHood hash_of t) (i d m e : ℕ)
    → i < t.bucket_count
    → e < t.bucket_count
    → df t.buckets e ≡ 0
    → offset t.bucket_count i e < fuel
    → d ≡ slot_df t (hash_of m) i
    → d ≤ max (df t.buckets (prev t.bucket_count i)) 255 + 256
    → Returns (place_from fuel t d i m) (Places hash_of t m)
unfolding place_from
place_from_lem zero inv i d m e hi he z enough stands fits = absurd (omega arith)
place_from_lem {hash_of} (suc fuel) {t} inv i d m e hi he z enough stands fits =
    elim (Bool-cases (df t.buckets i == 0)) [
      | inl p ↦ (
        write_bucket t i (carried d m),
        rw p,
        vacant-Places inv i d m hi stands fits (ground arith),
      )
      | inr p ↦
          let apart : i ≢ e = ground arith in
          let closer = offset-next_left i e hi he apart in
          elim (Bool-cases (ltb (df t.buckets i) d)) [
            | inl q ↦
                let w = write_carried inv i d m hi stands fits (ground arith) in
                let rich = resident-slot_df inv i hi (ground arith) in
                let hash = hash_of (t.buckets i).node_index in
                let one_on = slot_df-next inv hash i e (inv.hashed _) hi he z (omega arith) in
                let onward =
                  ap (λ k. k + 256) rich ∙ sym (slot_df-write t i (carried d m) hash _ ∙ one_on) in
                let small : df t.buckets i + 256 < 2 ^ 32 =
                  rw rich (slot_df-lt inv hash i (inv.hashed _) hi) in
                let (t', run, placed) =
                  place_from_lem fuel w (next t.bucket_count i) (df t.buckets i + 256)
                    (t.buckets i).node_index e (next-lt i hi) he (ground arith) (omega arith) onward
                    (rw (prev-next i hi) (ground arith)) in
                (
                  t',
                  rw (p, q, next_bucket_lem t i inv.sized hi, add32_lem (df t.buckets i) small) run,
                  steal-Places inv i d m hi stands fits t' (ground arith) placed,
                )
            | inr q ↦
                let (t', run, placed) =
                  place_from_lem fuel inv (next t.bucket_count i) (d + 256) m e (next-lt i hi) he z
                    (omega arith)
                    (rw (slot_df-next inv (hash_of m) i e (inv.hashed m) hi he z (ground arith))
                      (omega arith))
                    (rw (prev-next i hi) (ground arith)) in
                (
                  t',
                  rw
                      (
                        p,
                        q,
                        next_bucket_lem t i inv.sized hi,
                        add32_lem d (rw stands (slot_df-lt inv (hash_of m) i (inv.hashed m) hi)),
                      )
                      run,
                  placed,
                )
          ]
    ]
