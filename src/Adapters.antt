-- ===== src/Adapters.antt =====
-- include/fum/unordered_map.hpp and include/fum/unordered_set.hpp: the two containers over the
-- shared table, and the operations of the table that only the map has.
pub mod Emplace
pub mod Assign
pub mod Access
pub mod View
pub mod Each
pub mod Equal
pub mod Subset
use cpp_unordered_map.Prelude.{
  ℕ, zero, suc, Bool, true, false, not, Option, none, some, length, ◌==◌, if◌then◌else◌, ◌+◌,
}
use mathlib.Core.Option.{map}
use cpp_unordered_map.Hash.{Traits}
use cpp_unordered_map.Index.{null_index}
use cpp_unordered_map.Load.{FloatOps}
use cpp_unordered_map.Outcome.{Outcome, Action, pure, ◌>>=◌, ◌>>◌, rethrowing, read, throw, require}
use cpp_unordered_map.Table.{
  Table, Memory, acquire_node, release_node, construct_value, set_storage,
}
use cpp_unordered_map.Engine.{find_key, node_of_bucket, commit_node}
use cpp_unordered_map.Iterator.{begin_index, next_index}
use cpp_unordered_map.Container.{find, contains}

-- Whether the element type has a hash that the container need not mix is the hasher's to say.
abbrev pub map_traits {ℓ} : {K M : Type ℓ} → Bool → Traits K (K × M)
map_traits is_avalanching = record { key_of = λ v. v.0; is_avalanching = is_avalanching }

abbrev pub set_traits {ℓ} : {K : Type ℓ} → Bool → Traits K K
set_traits is_avalanching = record { key_of = λ v. v; is_avalanching = is_avalanching }

module _ {ℓ} {F : Type 0} {K M : Type ℓ} (traits : Traits K (K × M)) where
  module _ (float : FloatOps F) (memory : Memory) where
    -- The mapped value is what its constructor makes of the arguments.
    unfoldable pub try_emplace_impl : K → Option M → Action (Table F K (K × M)) (ℕ × Bool)
    unfolding find_key node_of_bucket acquire_node construct_value release_node commit_node
    try_emplace_impl key args = do
      existing ← find_key traits key
      present ← read (λ t. not (existing == t.bucket_count))
      let found = (do existing_node ← node_of_bucket existing; pure (existing_node, false)) in
          let inserted = (do
            node_index ← acquire_node memory
            rethrowing (construct_value node_index (map (λ m. (key, m)) args))
                (release_node node_index)
            commit_node traits float memory node_index
            pure (node_index, true)) in
          if present then found else inserted

    -- `obj` is what its assignment or its conversion makes; `none` where that throws.
    unfoldable pub assign_mapped : ℕ → Option M → Action (Table F K (K × M)) (Unit {0})
    assign_mapped node_index none t = throw t
    assign_mapped node_index (some m) t = elim (t.nodes node_index).storage [
      | none ↦ Outcome.undefined
      | some v ↦ pure tt (set_storage node_index (some (v.0, m)) t)
    ]

    unfoldable pub insert_or_assign_impl : K → Option M → Action (Table F K (K × M)) (ℕ × Bool)
    unfolding find_key node_of_bucket assign_mapped try_emplace_impl
    insert_or_assign_impl key obj = do
      existing ← find_key traits key
      present ← read (λ t. not (existing == t.bucket_count))
      let found = (do
        node_index ← node_of_bucket existing
        assign_mapped node_index obj
        pure (node_index, false)) in
          if present then found else try_emplace_impl key obj

    -- `operator[]`, with what the default constructor makes.
    unfoldable pub subscript : K → Option M → Action (Table F K (K × M)) M
    unfolding try_emplace_impl
    subscript key initial = do
      placed ← try_emplace_impl key initial
      value ← read (λ t. (t.nodes placed.0).storage) >>= require
      pure value.1

  -- Throws `std::out_of_range` where the key is absent.
  unfoldable pub at : K → Action (Table F K (K × M)) M
  unfolding find
  at key = do
    it ← find traits key
    value ← read (λ t. (t.nodes it).storage)
    if it == null_index then throw else (do v ← require value; pure v.1)

  -- The loop of `operator==` over the nodes of `lhs`, run on `rhs`.
  unfoldable pub equal_from :
      (M → M → Bool) → ℕ → Table F K (K × M) → ℕ → Action (Table F K (K × M)) Bool
  unfolding find next_index
  equal_from same zero lhs it rhs = Outcome.undefined
  equal_from same (suc fuel) lhs it rhs =
      let rest : Action (Table F K (K × M)) Bool = equal_from same fuel lhs (next_index lhs it) in
      let compare : K × M → Action (Table F K (K × M)) Bool = (λ element.
        find traits element.0 >>= (λ other s.
          if other == null_index then pure false s else elim (s.nodes other).storage [
            | none ↦ Outcome.undefined
            | some v ↦ if not (same v.1 element.1) then pure false s else rest s
          ])) in
      if it == null_index
      then pure true rhs
      else elim (lhs.nodes it).storage [ none ↦ Outcome.undefined | some v ↦ compare v rhs ]

  unfoldable pub map_equal : (M → M → Bool) → Table F K (K × M) → Action (Table F K (K × M)) Bool
  unfolding equal_from begin_index
  map_equal same lhs rhs =
      if not (length lhs.iteration == length rhs.iteration)
      then pure false rhs
      else equal_from same (length lhs.iteration + 1) lhs (begin_index lhs) rhs

-- `operator==` of the set.
module _ {ℓ} {F : Type 0} {K : Type ℓ} (traits : Traits K K) where
  unfoldable pub contains_from : ℕ → Table F K K → ℕ → Action (Table F K K) Bool
  unfolding contains next_index
  contains_from zero lhs it rhs = Outcome.undefined
  contains_from (suc fuel) lhs it rhs =
      let rest : Action (Table F K K) Bool = contains_from fuel lhs (next_index lhs it) in
      let compare : K → Action (Table F K K) Bool =
        (λ key. contains traits key >>= (λ held s. if not held then pure false s else rest s)) in
      if it == null_index
      then pure true rhs
      else elim (lhs.nodes it).storage [ none ↦ Outcome.undefined | some key ↦ compare key rhs ]

  unfoldable pub set_equal : Table F K K → Action (Table F K K) Bool
  unfolding contains_from begin_index
  set_equal lhs rhs =
      if not (length lhs.iteration == length rhs.iteration)
      then pure false rhs
      else contains_from (length lhs.iteration + 1) lhs (begin_index lhs) rhs
