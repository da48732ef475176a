-- ===== src/Container.antt =====
-- include/fum/detail/hash_table.hpp: the public operations that the map and the set share.
pub mod Clear
pub mod Find
pub mod Bulk
pub mod Rehash
pub mod Growing
pub mod EraseIf
pub mod Positions
pub mod Locate
use cpp_unordered_map.Prelude.{
  ℕ, zero, suc, ◌+◌, Bool, true, false, not, ◌&&◌, Option, none, some, List, [], ◌∷◌, length, ltb,
  ◌==◌, if◌then◌else◌,
}
use cpp_unordered_map.Hash.{Traits}
use cpp_unordered_map.Index.{null_index, zero_bucket}
use cpp_unordered_map.Load.{
  FloatOps, compute_load_capacity, bucket_count_for_elements, round_up_to_power_of_two,
}
use cpp_unordered_map.Outcome.{Outcome, Action, pure, ◌>>=◌, ◌>>◌, read, modify, throw, require}
use cpp_unordered_map.Table.{Table, Memory, destroy_value}
use cpp_unordered_map.Engine.{
  key_at, find_key, node_of_bucket, erase_located, deallocate_buckets, rehash_to, emplace_impl,
}
use cpp_unordered_map.Iterator.{element_at, begin_index, next_index}

module _ {ℓ} {F : Type 0} {K V : Type ℓ} where
  -- The loop of `destroy_all_values`, over the nodes still to destroy.
  unfoldable pub destroy_values : List ℕ → Action (Table F K V) (Unit {0})
  unfolding destroy_value
  destroy_values [] = pure tt
  destroy_values (node_index ∷ rest) = do destroy_value node_index; destroy_values rest

  -- The members that `clear` resets.
  abbrev pub emptied : Table F K V → Table F K V
  emptied t = record t {
    iteration = [];
    arena_high_water = 0;
    free_list_head = null_index;
    index =
        if t.has_buckets
        then record {
          buckets = λ _. zero_bucket;
          bucket_count = t.bucket_count;
          bucket_shift = t.bucket_shift;
        }
        else t.index;
  }

  unfoldable pub clear : Action (Table F K V) (Unit {0})
  unfolding destroy_values
  clear t =
      if (length t.iteration == 0) && (t.free_list_head == null_index) && (t.arena_high_water == 0)
      then pure tt t
      else (destroy_values t.iteration >> modify emptied) t

  unfoldable pub max_load_factor_is : FloatOps F → F → Action (Table F K V) (Unit {0})
  max_load_factor_is float new_factor t =
      let factor =
        if float.positive new_factor then new_factor else float.default_max_load_factor in
      pure tt (record t {
        max_load_factor = factor;
        max_load_capacity =
            if not (t.bucket_count == 0)
            then compute_load_capacity float factor t.bucket_count
            else t.max_load_capacity;
      })

  unfoldable pub load_factor : FloatOps F → Table F K V → F
  load_factor float t =
      if t.bucket_count == 0
      then float.zero_factor
      else float.ratio (length t.iteration) t.bucket_count

  module _ (traits : Traits K V) where
    unfoldable pub count_key : K → Action (Table F K V) ℕ
    unfolding find_key
    count_key key = do
      bucket_index ← find_key traits key
      read (λ t. if bucket_index == t.bucket_count then 0 else 1)

    unfoldable pub contains : K → Action (Table F K V) Bool
    unfolding find_key
    contains key = do
      bucket_index ← find_key traits key
      read (λ t. not (bucket_index == t.bucket_count))

    unfoldable pub find : K → Action (Table F K V) ℕ
    unfolding find_key node_of_bucket
    find key = do
      bucket_index ← find_key traits key
      absent ← read (λ t. bucket_index == t.bucket_count)
      if absent then pure null_index else node_of_bucket bucket_index

    unfoldable pub equal_range : K → Action (Table F K V) (ℕ × ℕ)
    unfolding find next_index
    equal_range key = do
      it ← find key
      read (λ t. (it, if it == null_index then it else next_index t it))

    -- `find_bucket(key_at(node_index), mixed_hash(key_at(node_index)))`
    unfoldable pub locate : ℕ → Action (Table F K V) ℕ
    unfolding find_key
    locate node_index = do
      key ← read (λ t. key_at traits t node_index) >>= require
      find_key traits key

    -- `erase(iterator)`: the iterator after the erased element's position.
    unfoldable pub erase_at : ℕ → Action (Table F K V) ℕ
    unfolding locate erase_located element_at
    erase_at node_index = do
      bucket_index ← locate node_index
      position ← read (λ t. (t.nodes node_index).aux)
      erase_located bucket_index
      read (λ t. element_at t position)

    -- The nodes of a range, copied to a vector of `n` so far; a range that does not reach its end
    -- is undefined.
    unfoldable pub collect : Memory → ℕ → ℕ → ℕ → ℕ → Action (Table F K V) (List ℕ)
    unfolding next_index
    collect memory zero first last n t = Outcome.undefined
    collect memory (suc fuel) first last n t =
        let rest = collect memory fuel (next_index t first) last (n + 1) t in
        if first == last
        then pure [] t
        else (if first == null_index
            then Outcome.undefined
            else (if memory.push_back n
                then ((λ _. rest) >>= (λ nodes. pure (first ∷ nodes))) t
                else throw t))

    unfoldable pub erase_each : List ℕ → Action (Table F K V) (Unit {0})
    unfolding locate erase_located
    erase_each [] = pure tt
    erase_each (node_index ∷ rest) = do
      bucket_index ← locate node_index
      erase_located bucket_index
      erase_each rest

    -- `erase(const_iterator first, const_iterator last)`
    unfoldable pub erase_range : Memory → ℕ → ℕ → Action (Table F K V) ℕ
    unfolding collect erase_each
    erase_range memory first last = do
      size ← read (λ t. length t.iteration)
      doomed ← collect memory (size + 1) first last 0
      erase_each doomed
      pure last

    -- The loop of `erase_if`, over the elements still to see.
    unfoldable pub erase_if_from : (V → Bool) → ℕ → ℕ → ℕ → Action (Table F K V) ℕ
    unfolding erase_at next_index
    erase_if_from predicate zero it erased t = Outcome.undefined
    erase_if_from predicate (suc fuel) it erased t =
        let after : ℕ → Action (Table F K V) ℕ =
          (λ next. erase_if_from predicate fuel next (erased + 1)) in
        let skip = erase_if_from predicate fuel (next_index t it) erased t in
        if it == null_index then pure erased t else elim (t.nodes it).storage [
          | none ↦ Outcome.undefined
          | some v ↦ if predicate v then (erase_at it >>= after) t else skip
        ]

    unfoldable pub erase_if : (V → Bool) → Action (Table F K V) ℕ
    unfolding erase_if_from begin_index
    erase_if predicate t = erase_if_from predicate (length t.iteration + 1) (begin_index t) 0 t

    module _ (float : FloatOps F) (memory : Memory) where
      unfoldable pub rehash : ℕ → Action (Table F K V) (Unit {0})
      unfolding rehash_to bucket_count_for_elements round_up_to_power_of_two deallocate_buckets
      rehash requested_bucket_count t =
          let minimum_for_size =
            bucket_count_for_elements float t.max_load_factor (length t.iteration) in
          let target =
            if ltb requested_bucket_count minimum_for_size
            then minimum_for_size
            else requested_bucket_count in
          let drop =
            deallocate_buckets
            >> modify (λ s. record s {
              index = record { buckets = s.index.buckets; bucket_count = 0; bucket_shift = 64 };
              max_load_capacity = 0;
            }) in
          if target == 0
          then (if not (t.bucket_count == 0) && (length t.iteration == 0)
              then drop t
              else pure tt t)
          else rehash_to traits float memory (round_up_to_power_of_two target) t

      unfoldable pub reserve : ℕ → Action (Table F K V) (Unit {0})
      unfolding rehash bucket_count_for_elements
      reserve element_count t =
          rehash (bucket_count_for_elements float t.max_load_factor element_count) t

      -- The loop of `insert(first, last)`; an element is what the constructor makes of it.
      unfoldable pub insert_all : List (Option V) → Action (Table F K V) (Unit {0})
      unfolding emplace_impl
      insert_all [] = pure tt
      insert_all (value ∷ rest) = do
        placed ← emplace_impl traits float memory value
        insert_all rest

      -- `copy_contents_from`, with the elements of the other container as their copies are made.
      unfoldable pub copy_contents_from : List (Option V) → Action (Table F K V) (Unit {0})
      unfolding reserve insert_all
      copy_contents_from values =
          if length values == 0 then pure tt else (do reserve (length values); insert_all values)
