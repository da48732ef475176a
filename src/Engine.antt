-- ===== src/Engine.antt =====
-- include/fum/detail/hash_table.hpp: lookup, insertion, erasure and rehashing over the members.
pub mod Rehash
pub mod Lookup
pub mod Unlink
pub mod Erase
pub mod Remove
pub mod Reserve
pub mod Commit
pub mod Emplace
pub mod Pending
pub mod Throwing
pub mod Failing
pub mod Add
pub mod OnKey
use cpp_unordered_map.Prelude.{
  ◌≡◌, ℕ, zero, suc, ◌+◌, ◌-◌, ◌*◌, ◌%◌, ◌^◌, Bool, true, false, not, ◌&&◌, Option, none, some,
  List, [], ◌∷◌, length, ltb, ◌==◌, if◌then◌else◌,
}
use mathlib.Core.Path.{ap₂}
use cpp_unordered_map.Hash.{Traits, Policy, mixed_hash, storage_hash, storage_equal}
use cpp_unordered_map.Index
use cpp_unordered_map.Index.{
  Index, Bucket, null_index, zero_bucket, home_from_hash, dist_and_fingerprint_from_hash,
}
use cpp_unordered_map.Load.{FloatOps, initial_bucket_count, countr_zero, compute_load_capacity}
use cpp_unordered_map.Outcome.{
  Outcome, Action, pure, ◌>>=◌, ◌>>◌, rethrowing, read, modify, throw, require,
}
use cpp_unordered_map.Table.{
  Table, Node, Memory, acquire_node, release_node, construct_value, destroy_value,
  link_into_iteration, unlink_from_iteration,
}

-- A step of the index table, under a test that the bucket array is there.
abbrev pub store_index {ℓ} :
    {F : Type 0} {K V : Type ℓ}
    → Bool
    → Option Index
    → Table F K V
    → Outcome (Table F K V) (Unit {0})
store_index false o t = Outcome.undefined
store_index true none t = Outcome.undefined
store_index true (some index) t = Outcome.returned tt (record t { index = index })

abbrev pub on_index {ℓ} :
    {F : Type 0} {K V : Type ℓ} → (Index → Option Index) → Action (Table F K V) (Unit {0})
on_index f t = store_index t.has_buckets (f t.index) t

pub on_index_lem {ℓ} :
    {F : Type 0} {K V : Type ℓ} (f : Index → Option Index) (t : Table F K V) {index : Index}
    → t.has_buckets ≡ true
    → f t.index ≡ some index
    → on_index f t ≡ Outcome.returned tt (record t { index = index })
on_index_lem f t has run = ap₂ (λ b o. store_index b o t) has run

-- Placing a node from the home bucket of its hash.
abbrev pub place_hashed : ℕ → ℕ → Index → Option Index
place_hashed hash node_index index =
    Index.place_and_shift_up index (dist_and_fingerprint_from_hash hash) (home_from_hash index hash)
      node_index

module _ {ℓ} {F : Type 0} {K V : Type ℓ} where
  -- `buckets_[i].node_index`, inside the array.
  unfoldable pub node_of_bucket : ℕ → Action (Table F K V) ℕ
  node_of_bucket i t =
      if t.has_buckets && ltb i t.bucket_count
      then pure (t.index.buckets i).node_index t
      else Outcome.undefined

  unfoldable pub erase_located : ℕ → Action (Table F K V) (Unit {0})
  unfolding node_of_bucket destroy_value unlink_from_iteration release_node
  erase_located bucket_index = do
    node_index ← node_of_bucket bucket_index
    on_index (λ index. Index.erase_bucket index bucket_index)
    destroy_value node_index
    unlink_from_iteration node_index
    release_node node_index

  unfoldable pub deallocate_buckets : Action (Table F K V) (Unit {0})
  deallocate_buckets t = pure tt (record t { has_buckets = false })

module _ {ℓ} {F : Type 0} {K V : Type ℓ} (traits : Traits K V) where
  -- `none` on a slot with no value.
  abbrev pub key_at : Table F K V → ℕ → Option K
  key_at t i = elim (t.nodes i).storage [ none ↦ none | some v ↦ some (traits.key_of v) ]

  -- The mixed hash of the key at a slot, and the comparison of a key with the key at a slot.
  abbrev pub hash_at : Table F K V → ℕ → ℕ
  hash_at t i = storage_hash traits t.policy (t.nodes i).storage

  abbrev pub equal_at : Table F K V → K → ℕ → Bool
  equal_at t key i = storage_equal traits t.policy key (t.nodes i).storage

  -- `find_bucket(key, mixed_hash(key))`.
  unfoldable pub find_key : K → Action (Table F K V) ℕ
  find_key key t =
      if t.bucket_count == 0
      then Outcome.returned t.bucket_count t
      else (if t.has_buckets
          then require (Index.find_bucket t.index (equal_at t key) (mixed_hash traits t.policy key))
              t
          else Outcome.undefined)

  unfoldable pub insert_known_absent : ℕ → Action (Table F K V) (Unit {0})
  insert_known_absent node_index = do
    hash ← read (λ t. hash_at t node_index)
    on_index (λ index. Index.insert_known_absent index node_index hash)

  -- The body of the loop of `rehash_to`.
  abbrev pub place_node : ℕ → Action (Table F K V) (Unit {0})
  place_node node_index t = on_index (place_hashed (hash_at t node_index) node_index) t

  -- The loop, over the nodes still to place.
  unfoldable pub place_all : List ℕ → Action (Table F K V) (Unit {0})
  place_all [] = pure tt
  place_all (node_index ∷ rest) = do place_node node_index; place_all rest

  module _ (float : FloatOps F) (memory : Memory) where
    -- A failing allocation leaves the members as they are after the deallocation.
    unfoldable pub allocate_buckets : ℕ → Action (Table F K V) (Unit {0})
    allocate_buckets new_bucket_count t =
        if memory.bucket_array new_bucket_count
        then pure tt (record t {
          has_buckets = true;
          index = record {
            buckets = λ _. zero_bucket;
            bucket_count = new_bucket_count;
            bucket_shift = 64 - countr_zero new_bucket_count;
          };
          max_load_capacity = compute_load_capacity float t.max_load_factor new_bucket_count;
        })
        else throw t

    unfoldable pub rehash_to : ℕ → Action (Table F K V) (Unit {0})
    unfolding deallocate_buckets allocate_buckets place_all
    rehash_to new_bucket_count = do
      deallocate_buckets
      allocate_buckets new_bucket_count
      nodes ← read (λ t. t.iteration)
      place_all nodes

    unfoldable pub reserve_for_one_more : Action (Table F K V) (Unit {0})
    unfolding rehash_to
    reserve_for_one_more t =
        if t.bucket_count == 0
        then rehash_to initial_bucket_count t
        else (if ltb t.max_load_capacity (length t.iteration + 1)
            then rehash_to (t.bucket_count * 2) t
            else pure tt t)

    -- What follows the construction of a node whose key is absent: make room, link it, and put it
    -- into the index; a failure gives the slot back.
    unfoldable pub commit_node : ℕ → Action (Table F K V) (Unit {0})
    unfolding reserve_for_one_more link_into_iteration destroy_value release_node
        insert_known_absent
    commit_node node_index = do
      rethrowing (reserve_for_one_more >> link_into_iteration memory node_index)
          (destroy_value node_index >> release_node node_index)
      insert_known_absent node_index

    -- The node that holds the key afterwards, and whether it is new.
    unfoldable pub emplace_impl : Option V → Action (Table F K V) (ℕ × Bool)
    unfolding acquire_node construct_value find_key node_of_bucket destroy_value release_node
        commit_node
    emplace_impl args = do
      node_index ← acquire_node memory
      rethrowing (construct_value node_index args) (release_node node_index)
      key ← read (λ t. key_at t node_index) >>= require
      existing ← find_key key
      absent ← read (λ t. existing == t.bucket_count)
      let inserted = (do commit_node node_index; pure (node_index, true)) in
          let found = (do
            existing_node ← node_of_bucket existing
            destroy_value node_index
            release_node node_index
            pure (existing_node, false)) in
          if absent then inserted else found

  -- `erase(const key_type&)`: how many elements went.
  unfoldable pub erase_key : K → Action (Table F K V) ℕ
  unfolding find_key erase_located
  erase_key key = do
    bucket_index ← find_key key
    absent ← read (λ t. bucket_index == t.bucket_count)
    if absent then pure 0 else (do erase_located bucket_index; pure 1)
