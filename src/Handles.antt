-- ===== src/Handles.antt =====
-- include/fum/detail/hash_table.hpp: node handles and `merge`.
-- A handle is the value it owns, if it owns one. What a move makes of a value is an argument.
pub mod Extract
pub mod RoundTrip
use cpp_unordered_map.Prelude.{
  ℕ, Bool, true, false, not, ◌||◌, Option, none, some, List, [], ◌∷◌, length, ◌==◌, if◌then◌else◌,
}
use cpp_unordered_map.Hash.{Traits}
use cpp_unordered_map.Index.{null_index}
use cpp_unordered_map.Load.{FloatOps}
use cpp_unordered_map.Outcome.{
  Outcome, Action, pure, ◌>>=◌, ◌>>◌, rethrowing, read, throw, require, returned, threw, undefined,
}
use cpp_unordered_map.Table.{Table, Memory, acquire_node, release_node, construct_value}
use cpp_unordered_map.Engine.{
  key_at, find_key, node_of_bucket, erase_located, commit_node, emplace_impl,
}
use cpp_unordered_map.Container.{contains, locate}

-- `insert_return_type`
pub record InsertReturn {ℓ} (V : Type ℓ) : Type ℓ where
  pub position : ℕ
  pub inserted : Bool
  pub node : Option V

-- A member function of one of two containers.
module _ {ℓ κ} {S T : Type ℓ} {A : Type κ} where
  abbrev pub left_of : T → Outcome S A → Outcome (S × T) A
  left_of other (returned a s) = returned a (s, other)
  left_of other (threw s) = threw (s, other)
  left_of other undefined = undefined

  abbrev pub right_of : S → Outcome T A → Outcome (S × T) A
  right_of other (returned a s) = returned a (other, s)
  right_of other (threw s) = threw (other, s)
  right_of other undefined = undefined

module _ {ℓ} {F : Type 0} {K V : Type ℓ} (traits : Traits K V) (transfer : V → Option V) where
  -- `granted`: the allocation of the stand-alone value.
  unfoldable pub extract_located : Bool → ℕ → Action (Table F K V) (Option V)
  unfolding node_of_bucket erase_located
  extract_located granted bucket_index = do
    node_index ← node_of_bucket bucket_index
    value ← read (λ t. (t.nodes node_index).storage) >>= require
    let moved : Action (Table F K V) (Option V) = elim (transfer value) [
      | none ↦ throw
      | some standalone ↦ (do erase_located bucket_index; pure (some standalone))
    ] in
        if granted then moved else throw

  unfoldable pub extract_key : Bool → K → Action (Table F K V) (Option V)
  unfolding find_key extract_located
  extract_key granted key = do
    bucket_index ← find_key traits key
    absent ← read (λ t. bucket_index == t.bucket_count)
    if absent then pure none else extract_located granted bucket_index

  unfoldable pub extract_at : Bool → ℕ → Action (Table F K V) (Option V)
  unfolding locate extract_located
  extract_at granted node_index = do
    bucket_index ← locate traits node_index
    extract_located granted bucket_index

  module _ (float : FloatOps F) (memory : Memory) where
    -- An element whose key is absent; the handle is empty afterwards.
    unfoldable pub insert_moved : V → Action (Table F K V) (InsertReturn V)
    unfolding acquire_node construct_value release_node commit_node
    insert_moved value = do
      node_index ← acquire_node memory
      rethrowing (construct_value node_index (transfer value)) (release_node node_index)
      commit_node traits float memory node_index
      pure (record { position = node_index; inserted = true; node = none })

    -- `insert(node_type&&)`
    unfoldable pub insert_handle : Option V → Action (Table F K V) (InsertReturn V)
    unfolding find_key node_of_bucket insert_moved
    insert_handle none = pure (record { position = null_index; inserted = false; node = none })
    insert_handle (some value) = do
      existing ← find_key traits (traits.key_of value)
      present ← read (λ t. not (existing == t.bucket_count))
      let found = (do
        node_index ← node_of_bucket existing
        pure (record { position = node_index; inserted = false; node = some value })) in
          if present then found else insert_moved value

    -- The last loop of `merge_from`, over the nodes of the source still to see. The source may have
    -- other traits and another hasher.
    unfoldable pub merge_nodes : Traits K V → List ℕ → Action (Table F K V × Table F K V) (Unit {0})
    unfolding contains find_key emplace_impl erase_located
    merge_nodes source_traits [] = pure tt
    merge_nodes source_traits (source_node ∷ rest) = do
      key ← λ s. right_of s.0 ((read (λ t. key_at source_traits t source_node) >>= require) s.1)
      held ← λ s. left_of s.1 (contains traits key s.0)
      let move = (do
        source_bucket ← λ s. right_of s.0 (find_key source_traits key s.1)
        value ← λ s. right_of s.0 ((read (λ t. (t.nodes source_node).storage) >>= require) s.1)
        placed ← λ s. left_of s.1 (emplace_impl traits float memory (transfer value) s.0)
        λ s. right_of s.0 (erase_located source_bucket s.1)
        merge_nodes source_traits rest) in
          if held then merge_nodes source_traits rest else move

    -- The nodes are copied to a vector first, for which memory is wanted if there are any.
    unfoldable pub merge_from : Traits K V → Action (Table F K V × Table F K V) (Unit {0})
    unfolding merge_nodes
    merge_from source_traits s =
        let nodes = s.1.iteration in
        if (length nodes == 0) || memory.push_back (length nodes)
        then merge_nodes source_traits nodes s
        else throw s
