-- ===== src/Index.antt =====
-- include/fum/detail/hash_table.hpp: the bucket array, its addressing and the Robin Hood loops.
-- The array is a store of buckets with its length beside it; a loop takes fuel, and `none` means
-- that the fuel ran out. An element is known here by its node index alone: a key comparison is a
-- test on node indices.
pub mod Ring
pub mod Order
pub mod Census
pub mod Invariant
pub mod Place
pub mod Insert
pub mod Find
pub mod Erase
use Prim.Native.Nat.{bit_and, bit_or}
use cpp_unordered_map.Prelude.{
  ℕ, zero, suc, ◌+◌, ◌-◌, ◌*◌, ◌/◌, ◌%◌, ◌^◌, Bool, Option, none, some, ltb, leb, ◌==◌,
  if◌then◌else◌, update,
}

pub record Bucket : Type 0 where
  pub dist_and_fingerprint : ℕ
  pub node_index : ℕ

-- The members `buckets_`, `bucket_count_` and `bucket_shift_`.
pub record Index : Type 0 where
  pub buckets : ℕ → Bucket
  pub bucket_count : ℕ
  pub bucket_shift : ℕ

abbrev pub null_index : ℕ
null_index = 2 ^ 32 - 1

abbrev pub dist_inc : ℕ
dist_inc = 256

abbrev pub fingerprint_mask : ℕ
fingerprint_mask = dist_inc - 1

-- `+=` on a 32-bit word
abbrev pub add32 : ℕ → ℕ → ℕ
add32 a b = (a + b) % 2 ^ 32

abbrev pub empty_bucket : Bucket
empty_bucket = record { dist_and_fingerprint = 0; node_index = null_index }

-- What `memset` to zero leaves in each bucket.
abbrev pub zero_bucket : Bucket
zero_bucket = record { dist_and_fingerprint = 0; node_index = 0 }

unfoldable pub dist_and_fingerprint_from_hash : ℕ → ℕ
dist_and_fingerprint_from_hash hash = bit_or dist_inc (bit_and hash fingerprint_mask)

-- A shift by the word size, at no buckets, is undefined behaviour: callers test for it.
unfoldable pub home_from_hash : Index → ℕ → ℕ
home_from_hash t hash = hash / 2 ^ t.bucket_shift

unfoldable pub next_bucket : Index → ℕ → ℕ
next_bucket t index = bit_and (index + 1) (t.bucket_count - 1)

pub record ProbeState : Type 0 where
  pub dist_and_fingerprint : ℕ
  pub bucket_index : ℕ

-- The loop of `probe_start`.
unfoldable pub probe_from : ℕ → Index → ProbeState → Option ProbeState
probe_from zero t state = none
probe_from (suc fuel) t state =
    let rest = probe_from fuel t (record {
      dist_and_fingerprint = add32 state.dist_and_fingerprint dist_inc;
      bucket_index = next_bucket t state.bucket_index;
    }) in
    if ltb state.dist_and_fingerprint (t.buckets state.bucket_index).dist_and_fingerprint
    then rest
    else some state

unfoldable pub probe_start : Index → ℕ → Option ProbeState
unfolding probe_from
probe_start t hash = probe_from (t.bucket_count + 1) t (record {
  dist_and_fingerprint = dist_and_fingerprint_from_hash hash;
  bucket_index = home_from_hash t hash;
})

abbrev pub write_bucket : Index → ℕ → Bucket → Index
write_bucket t i b = record t { buckets = update t.buckets i b }

-- Each round either swaps the carried bucket with a richer resident or passes it.
unfoldable pub place_from : ℕ → Index → ℕ → ℕ → ℕ → Option Index
place_from zero t df i node = none
place_from (suc fuel) t df i node =
    let resident = t.buckets i in
    let steal =
      place_from fuel (write_bucket t i (record { dist_and_fingerprint = df; node_index = node }))
        (add32 resident.dist_and_fingerprint dist_inc) (next_bucket t i) resident.node_index in
    let pass = place_from fuel t (add32 df dist_inc) (next_bucket t i) node in
    if resident.dist_and_fingerprint == 0
    then some (write_bucket t i (record { dist_and_fingerprint = df; node_index = node }))
    else (if ltb resident.dist_and_fingerprint df then steal else pass)

unfoldable pub place_and_shift_up : Index → ℕ → ℕ → ℕ → Option Index
unfolding place_from
place_and_shift_up t df i node = place_from (t.bucket_count + 1) t df i node

-- The loop of `find_bucket`; `same` is `key_equal_(key, key_at(node_index))`.
unfoldable pub find_from : ℕ → Index → (ℕ → Bool) → ℕ → ℕ → Option ℕ
find_from zero t same df i = none
find_from (suc fuel) t same df i =
    let bucket = t.buckets i in
    let rest = find_from fuel t same (add32 df dist_inc) (next_bucket t i) in
    if df == bucket.dist_and_fingerprint
    then (if same bucket.node_index then some i else rest)
    else (if ltb bucket.dist_and_fingerprint df then some t.bucket_count else rest)

-- The bucket of a key, or `bucket_count` if it is absent.
unfoldable pub find_bucket : Index → (ℕ → Bool) → ℕ → Option ℕ
unfolding find_from
find_bucket t same hash =
    let probed =
      find_from (t.bucket_count + 1) t same (dist_and_fingerprint_from_hash hash)
        (home_from_hash t hash) in
    if t.bucket_count == 0 then some t.bucket_count else probed

-- The loop of `erase_bucket`: `i` is the hole.
unfoldable pub erase_from : ℕ → Index → ℕ → Option Index
erase_from zero t i = none
erase_from (suc fuel) t i =
    let next = next_bucket t i in
    let follower = t.buckets next in
    let rest =
      erase_from fuel
        (write_bucket t i (record {
          dist_and_fingerprint = follower.dist_and_fingerprint - dist_inc;
          node_index = follower.node_index;
        }))
        next in
    if leb (2 * dist_inc) follower.dist_and_fingerprint
    then rest
    else some (write_bucket t i empty_bucket)

unfoldable pub erase_bucket : Index → ℕ → Option Index
unfolding erase_from
erase_bucket t i = erase_from (t.bucket_count + 1) t i

-- Probe to the first bucket that is no poorer, and place from there.
unfoldable pub insert_known_absent : Index → ℕ → ℕ → Option Index
unfolding probe_start place_and_shift_up
insert_known_absent t node hash = elim (probe_start t hash) [
  | none ↦ none
  | some state ↦ place_and_shift_up t state.dist_and_fingerprint state.bucket_index node
]
