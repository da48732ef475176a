-- ===== src/Lib.antt =====
-- The hash table behind `fum::unordered_map` and `fum::unordered_set`: a Robin Hood table of
-- buckets over an arena of nodes, with a dense vector of the live nodes for iteration.
--
-- Parts, all of include/fum/detail/hash_table.hpp unless another file is named:
--   Prelude      lists, tests and word operations that the modules share
--   Hash         `mix_bits`, `mixed_hash`; the hasher and the key comparison are parameters
--   Load         bucket counts and load factors; `float` is a parameter
--   Index        the bucket array: `probe_start`, `place_and_shift_up`, `find_bucket`,
--                `erase_bucket`, `insert_known_absent`; its children hold the invariant
--                (Index/Invariant) and one proof per loop
--   Outcome      how a member function ends: it returns, throws, or is undefined
--   Table        the data members and the operations on the arena and the iteration vector
--   Engine       operations on the whole container: lookup, `rehash_to`, `emplace_impl`,
--                `erase_located`, `erase(const key_type&)`
--   Valid        the invariant of a container;  Arena: the free list keeps every slot
--   Growth       how far one operation enlarges a container, and a budget for a run of them
--   Contents     the abstract view: a container as a function from keys to elements, by a search
--                through the live nodes one by one that reads neither buckets nor hashes
--   Iterator     iterators, local iterators and the bucket interface
--   Container    the public operations that the map and the set share
--   Lifecycle    construction, copy, move and swap;  Handles: node handles and `merge`
--   Adapters     include/fum/unordered_map.hpp and include/fum/unordered_set.hpp
--   Fuzz         fuzz/differential_fuzz.cpp, a run of operations on a map and on the standard one,
--                which is a parameter
--   FuzzSet      fuzz/differential_fuzz_set.cpp, the same for the set; its text that repeats the
--                other program's (the stream, `check`) is that of Fuzz, and the proofs share
--                Fuzz/Bounded (sizes), Fuzz/Steps (one operation) and Fuzz/Loop (a run)
--   Tests        the theorems at concrete data
--
-- The container is a record of its data members. `buckets_`, `bucket_count_` and `bucket_shift_`
-- are the record Index inside it, `buckets_ != nullptr` is `has_buckets`. A node is a slot of a
-- store by index, with no value while its storage is raw; an iterator is a node index. A member
-- function takes the container and returns an Outcome with the container as it left it. Where an
-- allocation is made, the parameter Memory says whether it succeeds; where a constructor runs,
-- its argument says what it makes, or that it throws.
--
-- Words: hashes are below 2^64, `dist_and_fingerprint` and node indices below 2^32, and their
-- sums are taken modulo these. Sizes are unbounded. A valid bucket array has 2^3 to 2^23 buckets:
-- beyond that the 24-bit probe distance can run over. The loops on the bucket array have one unit
-- of fuel more than there are buckets, which is enough as one bucket is empty; a loop over the
-- elements by iterators has one unit more than there are elements. An insertion may double the
-- array, so its theorems ask for at most 2^22 buckets and a slot index below the largest; a run of
-- insertions keeps a budget (Growth.IsWithin) by which these hold at each step. What `float`
-- arithmetic does is asked of the load factor where a theorem needs it: IsAmple, that a capacity is
-- half of the buckets or more, as for a factor of a half at least; IsRoomy, the same before the cut
-- that keeps a bucket empty; IsTight, that no fewer buckets than elements are asked for, as for a
-- factor of 0.8.
--
-- An operation of the fuzzer of the map takes nine bytes, one of the set's five, so that 9,000,000
-- bytes, or 5,000,000, are at most 10^6 operations; n of them keep the budget of 4 * n + 8 buckets,
-- at most 2^22. Their theorems ask of `float` that it treats the default load factor as eight
-- tenths (IsEightTenths), and of the tolerance of the cross-check that it allows a full array
-- (IsTolerant), which is asked of arrays with a bucket at least. IsStandard is what the C++ standard says of the members of its map, or set, that
-- the fuzzer calls.
--
-- Not modelled: which allocator a container holds; the accessors of a node handle; the values that
-- moved-from elements keep; a chunk that leaks when the vector of chunks cannot grow; deduction
-- guides, tests, benchmarks and scripts.
pub mod Prelude
pub mod Hash
pub mod Index
pub mod Load
pub mod Outcome
pub mod Table
pub mod Engine
pub mod Valid
pub mod Growth
pub mod Fuzz
pub mod FuzzSet
pub mod Contents
pub mod Arena
pub mod Iterator
pub mod Container
pub mod Adapters
pub mod Lifecycle
pub mod Handles
pub mod Tests
