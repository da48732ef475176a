-- ===== src/Table.antt =====
-- include/fum/detail/hash_table.hpp: the container's members and its protected operations.
-- The arena is a store of nodes by index; the chunk that a node lies in is `index / chunk_size`.
-- What the allocator grants at a call is a parameter of the call.
use native.Mathlib.Omega.{arith}
use cpp_unordered_map.Prelude.{
  ◌≡◌, ℕ, ◌+◌, ◌*◌, ◌%◌, ◌^◌, Bool, not, Option, none, some, List, [], ◌∷◌, ◌++◌, length, set, back,
  pop_back, ltb, ◌==◌, if◌then◌else◌, update,
}
use cpp_unordered_map.Hash.{Policy}
use cpp_unordered_map.Index.{Index, null_index}
use cpp_unordered_map.Load.{chunk_size}
use cpp_unordered_map.Outcome.{Outcome, Action, pure, ◌>>◌, throw}

-- A slot of the arena: `storage` is empty while no value is constructed in it. `aux` is the
-- position of a live element in `iteration`, and the next link of a free slot.
pub record Node {ℓ} (V : Type ℓ) : Type ℓ where
  pub storage : Option V
  pub aux : ℕ

-- The data members. `has_buckets` is `buckets_ != nullptr`.
pub record Table {ℓ} (F : Type 0) (K V : Type ℓ) : Type ℓ where
  pub index : Index
  pub open index use {bucket_count, bucket_shift}
  pub has_buckets : Bool
  pub max_load_capacity : ℕ
  pub chunks : ℕ
  pub arena_high_water : ℕ
  pub free_list_head : ℕ
  pub nodes : ℕ → Node V
  pub iteration : List ℕ
  pub max_load_factor : F
  pub policy : Policy K

-- Which allocations succeed: a bucket array of a size, one more arena chunk beside the present
-- ones, one more element in a vector of a size.
pub record Memory : Type 0 where
  pub bucket_array : ℕ → Bool
  pub chunk : ℕ → Bool
  pub push_back : ℕ → Bool

module _ {ℓ} {F : Type 0} {K V : Type ℓ} where
  abbrev pub write_node : Table F K V → ℕ → Node V → Table F K V
  write_node t i n = record t { nodes = update t.nodes i n }

  abbrev pub set_aux : ℕ → ℕ → Table F K V → Table F K V
  set_aux i aux t = write_node t i (record (t.nodes i) { aux = aux })

  abbrev pub set_storage : ℕ → Option V → Table F K V → Table F K V
  set_storage i v t = write_node t i (record (t.nodes i) { storage = v })

  -- A new chunk, if neither the free list nor the last chunk has a slot.
  unfoldable pub ensure_arena_slot : Memory → Action (Table F K V) (Unit {0})
  ensure_arena_slot memory t =
      if not (t.free_list_head == null_index)
      then pure tt t
      else (if ltb t.arena_high_water (t.chunks * chunk_size)
          then pure tt t
          else (if memory.chunk t.chunks
              then pure tt (record t { chunks = t.chunks + 1 })
              else throw t))

  unfoldable pub take_slot : Action (Table F K V) ℕ
  take_slot t =
      if not (t.free_list_head == null_index)
      then pure t.free_list_head (record t { free_list_head = (t.nodes t.free_list_head).aux })
      else pure t.arena_high_water
          (record t { arena_high_water = (t.arena_high_water + 1) % 2 ^ 32 })

  unfoldable pub acquire_node : Memory → Action (Table F K V) ℕ
  unfolding ensure_arena_slot take_slot
  acquire_node memory = do ensure_arena_slot memory; take_slot

  unfoldable pub release_node : ℕ → Action (Table F K V) (Unit {0})
  release_node i t = pure tt (record (set_aux i t.free_list_head t) { free_list_head = i })

  -- The value that the constructor makes of its arguments; it throws where there is none.
  unfoldable pub construct_value : ℕ → Option V → Action (Table F K V) (Unit {0})
  construct_value i none t = throw t
  construct_value i (some v) t = pure tt (set_storage i (some v) t)

  unfoldable pub destroy_value : ℕ → Action (Table F K V) (Unit {0})
  destroy_value i t = pure tt (set_storage i none t)

  -- `aux` is written before the vector grows.
  unfoldable pub link_into_iteration : Memory → ℕ → Action (Table F K V) (Unit {0})
  link_into_iteration memory i t =
      let linked = set_aux i (length t.iteration % 2 ^ 32) t in
      if memory.push_back (length t.iteration)
      then pure tt (record linked { iteration = t.iteration ++ (i ∷ []) })
      else throw linked

  -- Swap with the back and pop; `last` is `iteration_.back()`, which an empty vector lacks.
  abbrev pub unlink_of : ℕ → Table F K V → Option ℕ → Outcome (Table F K V) (Unit {0})
  unlink_of i t none = Outcome.undefined
  unlink_of i t (some last) = pure tt (record (set_aux last (t.nodes i).aux t) {
    iteration = pop_back (set t.iteration (t.nodes i).aux last);
  })

  unfoldable pub unlink_from_iteration : ℕ → Action (Table F K V) (Unit {0})
  unlink_from_iteration i t = unlink_of i t (back t.iteration)

-- What the writes to a node leave.
module _ {ℓ} {F : Type 0} {K V : Type ℓ} (t : Table F K V) (i x : ℕ) where
  pub storage-set_aux : (aux : ℕ) → ((set_aux i aux t).nodes x).storage ≡ (t.nodes x).storage
  storage-set_aux aux = ground arith

  pub aux-set_aux :
      (aux : ℕ) → ((set_aux i aux t).nodes x).aux ≡ (if i == x then aux else (t.nodes x).aux)
  aux-set_aux aux = ground arith

  pub storage-set_storage :
      (v : Option V)
      → ((set_storage i v t).nodes x).storage ≡ (if i == x then v else (t.nodes x).storage)
  storage-set_storage v = ground arith

  pub aux-set_storage : (v : Option V) → ((set_storage i v t).nodes x).aux ≡ (t.nodes x).aux
  aux-set_storage v = ground arith
