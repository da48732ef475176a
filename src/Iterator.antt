-- ===== src/Iterator.antt =====
-- include/fum/detail/hash_table.hpp: iterators, local iterators and the bucket interface.
-- An iterator of a container is the index of its node; the end is `null_index`.
pub mod Traversal
pub mod Buckets
pub mod Visit
use cpp_unordered_map.Prelude.{
  ℕ, zero, suc, ◌+◌, ◌-◌, ◌%◌, ◌^◌, Option, none, some, List, [], ◌∷◌, length, get_or, ◌==◌,
  if◌then◌else◌,
}
use mathlib.Core.Option.{map}
use cpp_unordered_map.Hash.{Traits, mixed_hash}
use cpp_unordered_map.Index.{null_index, home_from_hash}
use cpp_unordered_map.Table.{Table}
use cpp_unordered_map.Engine.{hash_at}

module _ {ℓ} {F : Type 0} {K V : Type ℓ} where
  -- The node at a position, or the end past the last one.
  unfoldable pub element_at : Table F K V → ℕ → ℕ
  element_at t position = get_or t.iteration position null_index

  unfoldable pub begin_index : Table F K V → ℕ
  unfolding element_at
  begin_index t = element_at t 0

  -- `operator++`
  unfoldable pub next_index : Table F K V → ℕ → ℕ
  unfolding element_at
  next_index t node_index = element_at t (((t.nodes node_index).aux + 1) % 2 ^ 32)

  -- The nodes that a client's loop from an iterator to the end sees; `none` where the fuel runs out.
  unfoldable pub visit : ℕ → Table F K V → ℕ → Option (List ℕ)
  unfolding next_index
  visit zero t node_index = none
  visit (suc fuel) t node_index =
      let rest = visit fuel t (next_index t node_index) in
      if node_index == null_index then some [] else map (λ nodes. node_index ∷ nodes) rest

  module _ (traits : Traits K V) where
    unfoldable pub home_bucket_of : Table F K V → ℕ → ℕ
    home_bucket_of t node_index = home_from_hash t.index (hash_at traits t node_index)

    -- The loop of `bucket_size`, over the nodes still to see.
    unfoldable pub bucket_size_of : Table F K V → ℕ → List ℕ → ℕ → ℕ
    unfolding home_bucket_of
    bucket_size_of t n [] total = total
    bucket_size_of t n (node_index ∷ rest) total =
        bucket_size_of t n rest (if home_bucket_of t node_index == n then total + 1 else total)

    unfoldable pub bucket_size : Table F K V → ℕ → ℕ
    unfolding bucket_size_of
    bucket_size t n = bucket_size_of t n t.iteration 0

    unfoldable pub bucket : Table F K V → K → ℕ
    bucket t key =
        if t.bucket_count == 0 then 0 else home_from_hash t.index (mixed_hash traits t.policy key)

    -- The loop of `advance_to_match` of a local iterator, over the positions left.
    unfoldable pub advance_from : ℕ → Table F K V → ℕ → ℕ → ℕ
    unfolding home_bucket_of
    advance_from zero t home position = position
    advance_from (suc fuel) t home position =
        let rest = advance_from fuel t home (position + 1) in
        if home_bucket_of t (get_or t.iteration position 0) == home then position else rest

    unfoldable pub advance_to_match : Table F K V → ℕ → ℕ → ℕ
    unfolding advance_from
    advance_to_match t home position = advance_from (length t.iteration - position) t home position

    unfoldable pub next_local : Table F K V → ℕ → ℕ → ℕ
    unfolding advance_to_match
    next_local t home position = advance_to_match t home (position + 1)
