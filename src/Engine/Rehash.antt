-- ===== src/Engine/Rehash.antt =====
-- `rehash_to`: the index table is rebuilt from the live nodes, and no node is touched.
use cpp_unordered_map.Prelude.{
  ℕ, ◌+◌, ◌-◌, ◌^◌, ◌≤◌, ◌<◌, ◌≡◌, refl, ◌∙◌, inl, true, false, List, [], ◌∷◌, length, count, arith,
  if_true, if_false,
}
use cpp_unordered_map.Hash.{Traits}
use cpp_unordered_map.Hash.Bounds.{storage_hash-lt}
use cpp_unordered_map.Index.{Index, zero_bucket}
use cpp_unordered_map.Index.Census.{occupied, copies, occupied-zero, copies-zero}
use cpp_unordered_map.Index.Invariant.{IsRobinHood, Holds}
use cpp_unordered_map.Index.Insert.{place_and_shift_up-Places}
use cpp_unordered_map.Load.{FloatOps, countr_zero, compute_load_capacity}
use cpp_unordered_map.Load.Sizes.{countr_zero-pow}
use cpp_unordered_map.Outcome.{returned, threw, bind-returned, bind-threw, read, ◌>>=◌}
use cpp_unordered_map.Table.{Table, Memory}
use cpp_unordered_map.Engine.{
  hash_at, place_node, place_hashed, on_index_lem, place_all, rehash_to, allocate_buckets,
}

-- A freshly cleared array of `n` buckets.
abbrev pub cleared : ℕ → Index
cleared n = record {
  buckets = λ _. zero_bucket;
  bucket_count = n;
  bucket_shift = 64 - countr_zero n;
}

pub cleared-IsRobinHood :
    (hash_of : ℕ → ℕ) (n bits : ℕ)
    → ((m : ℕ) → hash_of m < 2 ^ 64)
    → 3 ≤ bits
    → bits ≤ 23
    → n ≡ 2 ^ bits
    → IsRobinHood hash_of (cleared n)
cleared-IsRobinHood hash_of n bits hashed least most size = record {
  sized = record {
    bits = bits;
    least = least;
    most = most;
    count = size;
    shift = rw size (omega (arith, countr_zero-pow bits (omega arith)));
  };
  hashed = hashed;
  ordered = λ i h. omega arith;
  placed = λ i h. inl refl;
}

module _ {ℓ} {F : Type 0} {K V : Type ℓ} (traits : Traits K V) where
  pub hash_at-lt : (t : Table F K V) (m : ℕ) → hash_at traits t m < 2 ^ 64
  hash_at-lt t m = storage_hash-lt traits t.policy (t.nodes m).storage

  -- The loop puts every node of the list into the array, and changes nothing else.
  place_all_lem :
      (nodes : List ℕ) (t : Table F K V)
      → t.has_buckets ≡ true
      → IsRobinHood (hash_at traits t) t.index
      → occupied t.index + length nodes < t.bucket_count
      → (index : Index) × (place_all traits nodes t ≡ returned tt (record t { index = index }))
        × IsRobinHood (hash_at traits t) index
        × (index.bucket_count ≡ t.bucket_count)
        × ((x : ℕ) → copies index x ≡ copies t.index x + count x nodes)
        × (occupied index ≡ occupied t.index + length nodes)
  unfolding place_all
  place_all_lem [] t has inv room = (t.index, refl, inv, refl, λ x. omega arith, omega arith)
  place_all_lem (m ∷ nodes) t has inv room =
      let (index, run, p) = place_and_shift_up-Places inv (omega arith) m in
      let (index', run', valid, count, copied, filled) =
        place_all_lem nodes (record t { index = index }) has p.valid
          (omega (arith, room, p.fills, p.count)) in
      (
        index',
        bind-returned (place_node traits m) (λ _. place_all traits nodes) t
              (on_index_lem (place_hashed (hash_at traits t m) m) t has run)
            ∙ run',
        valid,
        count ∙ p.count,
        λ x. ground (arith, copied x, p.holds x),
        omega (arith, filled, p.fills),
      )

  module _ (float : FloatOps F) (memory : Memory) (t : Table F K V) (n : ℕ) where
    abbrev gone : Table F K V
    gone = record t { has_buckets = false }

    -- Where the allocation of the new bucket array fails, a rehash throws and leaves the container
    -- without a bucket array, and otherwise as it was, its bucket count included.
    pub rehash_to-failure :
        memory.bucket_array n ≡ false
        → rehash_to traits float memory n t ≡ threw (record t { has_buckets = false })
    unfolding rehash_to
    rehash_to-failure h =
        bind-threw (allocate_buckets traits float memory n)
          (λ _. read (λ t. t.iteration) >>= place_all traits) gone (if_false _ _ h)

    -- Where the allocation succeeds, a rehash to a power of two from 8 to 2^23 that exceeds the
    -- number of elements returns: the new array is valid and holds exactly the live nodes, the
    -- capacity is computed afresh, and nothing else has changed.
    pub rehash_to-Holds :
        (bits : ℕ)
        → 3 ≤ bits
        → bits ≤ 23
        → n ≡ 2 ^ bits
        → length t.iteration < n
        → memory.bucket_array n ≡ true
        → (index : Index) × (rehash_to traits float memory n t
            ≡ returned tt (record t {
              has_buckets = true;
              index = index;
              max_load_capacity = compute_load_capacity float t.max_load_factor n;
            }))
          × (index.bucket_count ≡ n)
          × Holds (hash_at traits t) t.iteration index
    unfolding rehash_to
    rehash_to-Holds bits least most size room ok =
        let fresh = cleared n in
        let empty = occupied-zero fresh (λ i. refl) in
        let start : Table F K V = record t {
          has_buckets = true;
          index = fresh;
          max_load_capacity = compute_load_capacity float t.max_load_factor n;
        } in
        let (index, run, valid, count, copied, filled) =
          place_all_lem t.iteration start refl
            (cleared-IsRobinHood (hash_at traits t) n bits (hash_at-lt t) least most size)
            (omega (arith, empty)) in
        (
          index,
          bind-returned (allocate_buckets traits float memory n)
                (λ _. read (λ t. t.iteration) >>= place_all traits) gone (if_true _ _ ok)
              ∙ run,
          omega (arith, count, size),
          record {
            valid = valid;
            copied = λ x. omega (arith, copied x, copies-zero fresh x (λ i. refl));
            filled = omega (arith, filled, empty);
            roomy = omega (arith, count, size, room);
          },
        )
