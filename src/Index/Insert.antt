-- ===== src/Index/Insert.antt =====
-- `insert_known_absent` and `place_and_shift_up` from the home bucket.
use cpp_unordered_map.Prelude.{
  ℕ, zero, suc, ◌+◌, ◌≤◌, ◌<◌, ◌^◌, ◌≡◌, refl, ◌≢◌, ◌∙◌, inl, inr, Bool-cases, Option, none, some,
  max, arith, ltb, ◌==◌, if◌then◌else◌,
}
use cpp_unordered_map.Index.{
  Index, ProbeState, probe_from, place_from, place_and_shift_up, insert_known_absent,
  home_from_hash, write_bucket, next_bucket, add32, dist_inc, dist_and_fingerprint_from_hash,
}
use cpp_unordered_map.Index.Ring.{
  next, prev, offset, next_bucket_lem, add32_lem, next-lt, prev-next, offset-next_left, offset-lt,
  offset_self, home_from_hash-lt, dist_and_fingerprint_from_hash_lem,
}
use cpp_unordered_map.Index.Order.{df}
use cpp_unordered_map.Index.Census.{occupied}
use cpp_unordered_map.Index.Invariant.{IsRobinHood, slot_df, Returns, empty_witness}
use cpp_unordered_map.Index.Place.{Places, slot_df-next, slot_df-lt, place_from_lem, carried}

-- One round of the loop, over what the rest of it does.
abbrev place_round : (Index → ℕ → ℕ → ℕ → Option Index) → Index → ℕ → ℕ → ℕ → Option Index
place_round rest t d i m =
    if df t.buckets i == 0
    then some (write_bucket t i (carried d m))
    else (if ltb (df t.buckets i) d
        then rest (write_bucket t i (carried d m)) (add32 (df t.buckets i) dist_inc)
            (next_bucket t i) (t.buckets i).node_index
        else rest t (add32 d dist_inc) (next_bucket t i) m)

place_from-round :
    (fuel : ℕ) (t : Index) (d i m : ℕ)
    → place_from (suc fuel) t d i m ≡ place_round (place_from fuel) t d i m
unfolding place_from
place_from-round fuel t d i m = refl

place_from-zero : (t : Index) (d i m : ℕ) → place_from zero t d i m ≡ none
unfolding place_from
place_from-zero t d i m = refl

-- More fuel does not change a run that has ended.
place_from-suc :
    (fuel : ℕ) (t : Index) (d i m : ℕ) (r : Index)
    → place_from fuel t d i m ≡ some r
    → place_from (suc fuel) t d i m ≡ some r
place_from-suc zero t d i m r h = cc (place_from-zero t d i m)
place_from-suc (suc fuel) t d i m r h = ground (
  arith,
  place_from-round (suc fuel) t d i m,
  place_from-round fuel t d i m,
  place_from-suc fuel (write_bucket t i (carried d m)) (add32 (df t.buckets i) dist_inc)
      (next_bucket t i) (t.buckets i).node_index r,
  place_from-suc fuel t (add32 d dist_inc) (next_bucket t i) m r,
)

-- A place where an element may be put: its distance is right and fits the bucket before.
record IsCandidate (t : Index) (hash d i : ℕ) : Type 0 where
  inside : i < t.bucket_count
  stands : d ≡ slot_df t hash i
  fits : d ≤ max (df t.buckets (prev t.bucket_count i)) 255 + 256

module _ {hash_of : ℕ → ℕ} {t : Index} (inv : IsRobinHood hash_of t) where
  home-IsCandidate :
      (hash : ℕ)
      → hash < 2 ^ 64
      → IsCandidate t hash (dist_and_fingerprint_from_hash hash) (home_from_hash t hash)
  unfolding slot_df
  home-IsCandidate hash h = rw (dist_and_fingerprint_from_hash_lem hash) (record {
    inside = home_from_hash-lt t hash inv.sized h;
    stands = rw offset_self (omega arith);
    fits = omega arith;
  })

  next-IsCandidate :
      (hash d i e : ℕ)
      → hash < 2 ^ 64
      → IsCandidate t hash d i
      → e < t.bucket_count
      → df t.buckets e ≡ 0
      → d ≤ df t.buckets i
      → IsCandidate t hash (d + 256) (next t.bucket_count i)
  next-IsCandidate hash d i e h c he z le = record {
    inside = next-lt i c.inside;
    stands =
        rw (slot_df-next inv hash i e h c.inside he z (rw c.stands at le))
          (omega (arith, c.stands));
    fits = rw (prev-next i c.inside) (omega arith);
  }

  -- From any candidate for its hash a node is placed.
  candidate-Places :
      (m d i e : ℕ)
      → IsCandidate t (hash_of m) d i
      → e < t.bucket_count
      → df t.buckets e ≡ 0
      → Returns (place_and_shift_up t d i m) (Places hash_of t m)
  unfolding place_and_shift_up
  candidate-Places m d i e c he z =
      place_from_lem (t.bucket_count + 1) inv i d m e c.inside he z
        (omega (arith, offset-lt i e c.inside he)) c.stands c.fits

  small_of : (m d i : ℕ) → IsCandidate t (hash_of m) d i → d + 256 < 2 ^ 32
  small_of m d i c = rw c.stands (slot_df-lt inv (hash_of m) i (inv.hashed m) c.inside)

  -- The probe ends at a candidate whose resident is not farther from home, and placing from there
  -- is placing from where the probe began.
  record IsProbed (m d i : ℕ) (s : ProbeState) : Type 0 where
    candidate : IsCandidate t (hash_of m) s.dist_and_fingerprint s.bucket_index
    richer : df t.buckets s.bucket_index ≤ s.dist_and_fingerprint
    same : place_and_shift_up t s.dist_and_fingerprint s.bucket_index m ≡ place_and_shift_up t d i m

  -- While the resident is farther from home, one step of the probe changes nothing in the result.
  probe-place :
      (m d i e : ℕ)
      → IsCandidate t (hash_of m) d i
      → e < t.bucket_count
      → df t.buckets e ≡ 0
      → d < df t.buckets i
      → place_and_shift_up t (d + 256) (next t.bucket_count i) m ≡ place_and_shift_up t d i m
  unfolding place_and_shift_up
  probe-place m d i e c he z lt =
      let (r, run, _) = candidate-Places m d i e c he z in
      let on = next-IsCandidate (hash_of m) d i e (inv.hashed m) c he z (omega arith) in
      let (r', run', _) = candidate-Places m (d + 256) (next t.bucket_count i) e on he z in
      let n = t.bucket_count + 1 in
      ground (
        arith,
        place_from-suc n t d i m r,
        place_from-round n t d i m,
        next_bucket_lem t i inv.sized c.inside,
        add32_lem d (small_of m d i c),
      )

  probe_from_lem :
      (fuel m d i e : ℕ)
      → IsCandidate t (hash_of m) d i
      → e < t.bucket_count
      → df t.buckets e ≡ 0
      → offset t.bucket_count i e < fuel
      → Returns
          (probe_from fuel t (record { dist_and_fingerprint = d; bucket_index = i }))
          (IsProbed m d i)
  unfolding probe_from
  probe_from_lem zero m d i e c he z enough = absurd (omega arith)
  probe_from_lem (suc fuel) m d i e c he z enough = elim (Bool-cases (ltb d (df t.buckets i))) [
    | inl p ↦
        let on = next-IsCandidate (hash_of m) d i e (inv.hashed m) c he z (ground arith) in
        let apart : i ≢ e = ground arith in
        let closer = offset-next_left i e c.inside he apart in
        let (s, run, probed) =
          probe_from_lem fuel m (d + 256) (next t.bucket_count i) e on he z (omega arith) in
        (
          s,
          rw (p, next_bucket_lem t i inv.sized c.inside, add32_lem d (small_of m d i c)) run,
          record {
            candidate = probed.candidate;
            richer = probed.richer;
            same = probed.same ∙ probe-place m d i e c he z (ground arith);
          },
        )
    | inr p ↦ (
      record { dist_and_fingerprint = d; bucket_index = i },
      rw p,
      record { candidate = c; richer = ground arith; same = refl },
    )
  ]

-- In a valid bucket array with an empty bucket, probing first and placing from where the probe
-- stopped gives the same array as placing from the home bucket of the hash.
pub insert_known_absent-eq-place_and_shift_up :
    {hash_of : ℕ → ℕ} {t : Index}
    → IsRobinHood hash_of t
    → occupied t < t.bucket_count
    → (m : ℕ)
    → insert_known_absent t m (hash_of m)
      ≡ place_and_shift_up t
          (dist_and_fingerprint_from_hash (hash_of m))
          (home_from_hash t (hash_of m))
          m
unfolding insert_known_absent
insert_known_absent-eq-place_and_shift_up {hash_of} {t} inv room m =
    let (e, he, z) = empty_witness t room in
    let hash = hash_of m in
    let home = home-IsCandidate inv hash (inv.hashed m) in
    let (s, run, probed) =
      probe_from_lem inv (t.bucket_count + 1) m (dist_and_fingerprint_from_hash hash)
        (home_from_hash t hash) e home he z
        (omega (arith, offset-lt (home_from_hash t hash) e home.inside he)) in
    rw (run, insert_known_absent) probed.same

-- From the home bucket of its hash a node is placed: the loop ends, the array stays valid, and it
-- holds that node once more and every other as before.
pub place_and_shift_up-Places :
    {hash_of : ℕ → ℕ} {t : Index}
    → IsRobinHood hash_of t
    → occupied t < t.bucket_count
    → (m : ℕ)
    → Returns
        (place_and_shift_up t
          (dist_and_fingerprint_from_hash (hash_of m))
          (home_from_hash t (hash_of m))
          m)
        (Places hash_of t m)
place_and_shift_up-Places {hash_of} {t} inv room m =
    let (e, he, z) = empty_witness t room in
    let hash = hash_of m in
    candidate-Places inv m (dist_and_fingerprint_from_hash hash) (home_from_hash t hash) e
      (home-IsCandidate inv hash (inv.hashed m)) he z

-- In a valid bucket array with an empty bucket, inserting a node with its hash ends within its fuel,
-- keeps the array valid and its size unchanged, and adds one copy of that node and of no other.
pub insert_known_absent-Places :
    {hash_of : ℕ → ℕ} {t : Index}
    → IsRobinHood hash_of t
    → occupied t < t.bucket_count
    → (m : ℕ) → Returns (insert_known_absent t m (hash_of m)) (Places hash_of t m)
insert_known_absent-Places inv room m =
    rw (insert_known_absent-eq-place_and_shift_up inv room m) (place_and_shift_up-Places inv room m)
