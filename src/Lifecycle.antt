-- ===== src/Lifecycle.antt =====
-- include/fum/detail/hash_table.hpp: construction, copy, move and swap of containers.
-- Whether two allocators are equal, and whether assignment propagates them, are arguments; which
-- allocator a container holds is not recorded. Two containers are two objects here: assignment to
-- itself, which returns at once, has no case.
pub mod Move
pub mod Copy
pub mod MoveAssign
use cpp_unordered_map.Prelude.{
  ℕ, ◌+◌, Bool, true, false, not, ◌&&◌, ◌||◌, Option, none, some, List, [], ◌∷◌, map, length, ltb,
  if◌then◌else◌,
}
use cpp_unordered_map.Hash.{Traits, Policy}
use cpp_unordered_map.Index.{null_index, zero_bucket}
use cpp_unordered_map.Load.{FloatOps, round_up_to_power_of_two}
use cpp_unordered_map.Outcome.{Outcome, Action, pure, resume, ◌>>=◌, ◌>>◌, read, modify}
use cpp_unordered_map.Table.{Table, Node, Memory}
use cpp_unordered_map.Engine.{deallocate_buckets, rehash_to}
use cpp_unordered_map.Container.{destroy_values, clear, reserve, insert_all, copy_contents_from}

-- Slots of no chunk.
abbrev pub no_nodes {ℓ} : {V : Type ℓ} → ℕ → Node V
no_nodes _ = record { storage = none; aux = 0 }

module _ {ℓ} {F : Type 0} {K V : Type ℓ} where
  -- The members' initial values.
  abbrev pub fresh : F → Policy K → Table F K V
  fresh max_load_factor policy = record {
    index = record { buckets = λ _. zero_bucket; bucket_count = 0; bucket_shift = 64 };
    has_buckets = false;
    max_load_capacity = 0;
    chunks = 0;
    arena_high_water = 0;
    free_list_head = null_index;
    nodes = no_nodes;
    iteration = [];
    max_load_factor = max_load_factor;
    policy = policy;
  }

  unfoldable pub deallocate_chunks : Action (Table F K V) (Unit {0})
  deallocate_chunks t = pure tt (record t { chunks = 0 })

  unfoldable pub destroy_everything : Action (Table F K V) (Unit {0})
  unfolding destroy_values deallocate_buckets deallocate_chunks
  destroy_everything = do
    nodes ← read (λ t. t.iteration)
    destroy_values nodes
    deallocate_buckets
    deallocate_chunks

  abbrev pub reset : Table F K V → Table F K V
  reset t = record t {
    has_buckets = false;
    index = record { buckets = t.index.buckets; bucket_count = 0; bucket_shift = 64 };
    max_load_capacity = 0;
    arena_high_water = 0;
    free_list_head = null_index;
    iteration = [];
  }

  unfoldable pub reset_to_empty_state : Action (Table F K V) (Unit {0})
  reset_to_empty_state t = pure tt (reset t)

  -- A container whose vectors, and with them its nodes, were moved from.
  abbrev pub moved_from : Table F K V → Table F K V
  moved_from other = record (reset other) { chunks = 0; nodes = no_nodes }

  -- The container that takes the members over, and the other one afterwards.
  unfoldable pub steal_storage_from : Table F K V → Action (Table F K V) (Table F K V)
  steal_storage_from other t = pure (moved_from other) (record t {
    index = other.index;
    has_buckets = other.has_buckets;
    max_load_capacity = other.max_load_capacity;
    chunks = other.chunks;
    arena_high_water = other.arena_high_water;
    free_list_head = other.free_list_head;
    nodes = other.nodes;
    iteration = other.iteration;
    max_load_factor = other.max_load_factor;
    policy = other.policy;
  })

  -- `hash_table(hash_table&&)`
  unfoldable pub move_construct : Table F K V → Outcome (Table F K V) (Table F K V)
  unfolding steal_storage_from
  move_construct other = steal_storage_from other (fresh other.max_load_factor other.policy)

  -- The two containers after `swap`.
  unfoldable pub swap : Table F K V × Table F K V → Table F K V × Table F K V
  swap (a, b) =
      let give : Table F K V → Table F K V → Table F K V = λ to from. record to {
        index = from.index;
        has_buckets = from.has_buckets;
        max_load_capacity = from.max_load_capacity;
        chunks = from.chunks;
        arena_high_water = from.arena_high_water;
        free_list_head = from.free_list_head;
        nodes = from.nodes;
        iteration = from.iteration;
        max_load_factor = from.max_load_factor;
        policy = from.policy;
      } in
      (give a b, give b a)

  -- What a copy or a move makes of each element, in the order of iteration.
  abbrev pub elements : (V → Option V) → Table F K V → List (Option V)
  elements transfer t =
      map (λ i. elim (t.nodes i).storage [ none ↦ none | some v ↦ transfer v ]) t.iteration

  -- The members that assignment takes from the other container before its elements.
  abbrev pub adopt : Table F K V → Table F K V → Table F K V
  adopt other t = record t { max_load_factor = other.max_load_factor; policy = other.policy }

  module _ (traits : Traits K V) (float : FloatOps F) (memory : Memory) where
    -- `hash_table(bucket_count, hash, equal, alloc)`
    unfoldable pub construct : ℕ → Policy K → Outcome (Table F K V) (Unit {0})
    unfolding rehash_to round_up_to_power_of_two
    construct bucket_count policy =
        let start = fresh float.default_max_load_factor policy in
        if ltb 0 bucket_count
        then rehash_to traits float memory (round_up_to_power_of_two bucket_count) start
        else pure tt start

    -- From a range or an initializer list.
    unfoldable pub construct_range :
        List (Option V) → ℕ → Policy K → Outcome (Table F K V) (Unit {0})
    unfolding construct insert_all
    construct_range values bucket_count policy =
        resume (construct bucket_count policy) (λ _. insert_all traits float memory values)

    unfoldable pub copy_construct : (V → Option V) → Table F K V → Outcome (Table F K V) (Unit {0})
    unfolding copy_contents_from
    copy_construct copy other =
        copy_contents_from traits float memory (elements copy other)
          (fresh other.max_load_factor other.policy)

    -- Elements moved one by one; the other container is cleared, which always returns.
    unfoldable pub move_elements : (V → Option V) → Table F K V → Action (Table F K V) (Table F K V)
    unfolding reserve insert_all clear
    move_elements transfer other = do
      reserve traits float memory (length other.iteration)
      insert_all traits float memory (elements transfer other)
      λ t. resume (clear other) (λ _ cleared. pure cleared t)

    -- `hash_table(hash_table&&, const allocator_type&)`
    unfoldable pub move_construct_with :
        Bool → (V → Option V) → Table F K V → Outcome (Table F K V) (Table F K V)
    unfolding steal_storage_from move_elements
    move_construct_with equal transfer other =
        let start = fresh other.max_load_factor other.policy in
        if equal then steal_storage_from other start else move_elements transfer other start

    -- `operator=(const hash_table&)`
    unfoldable pub copy_assign :
        Bool → Bool → (V → Option V) → Table F K V → Action (Table F K V) (Unit {0})
    unfolding destroy_everything reset_to_empty_state clear copy_contents_from
    copy_assign propagate equal copy other =
        let copy_in =
          modify (adopt other) >> copy_contents_from traits float memory (elements copy other) in
        if propagate && not equal
        then destroy_everything >> (reset_to_empty_state >> copy_in)
        else clear >> copy_in

    -- `operator=(hash_table&&)`: the other container afterwards.
    unfoldable pub move_assign :
        Bool → Bool → (V → Option V) → Table F K V → Action (Table F K V) (Table F K V)
    unfolding destroy_everything reset_to_empty_state steal_storage_from clear move_elements
    move_assign propagate equal transfer other =
        if propagate || equal
        then destroy_everything >> (reset_to_empty_state >> steal_storage_from other)
        else clear >> (modify (adopt other) >> move_elements transfer other)

    -- `operator=(std::initializer_list<value_type>)`
    unfoldable pub assign_list : List (Option V) → Action (Table F K V) (Unit {0})
    unfolding clear insert_all
    assign_list values = clear >> insert_all traits float memory values
