-- ===== src/Fuzz.antt =====
-- fuzz/differential_fuzz.cpp: a stream of operations on a map and on the standard library's map.
-- A failed check ends the program, as does an exception that nothing catches: both are `threw`. An
-- `int` is its 32-bit word. The standard map is a parameter, by the operations that are called.
pub mod Stream
pub mod Run
pub mod Standard
pub mod Agree
pub mod Follow
pub mod Found
pub mod Bounded
pub mod Synced
pub mod Copied
pub mod Operate
pub mod Reads
pub mod Steps
pub mod Loop
pub mod Cross
pub mod Passes
pub mod Subscript
use cpp_unordered_map.Prelude.{
  ℕ, zero, suc, ◌+◌, ◌%◌, Bool, true, false, not, ◌||◌, Option, none, some, List, [], ◌∷◌, length,
  ◌==◌, leb, if◌then◌else◌,
}
use cpp_unordered_map.Hash.{Traits, Policy}
use cpp_unordered_map.Index.{null_index}
use cpp_unordered_map.Load.{FloatOps}
use cpp_unordered_map.Outcome.{
  Outcome, Action, returned, threw, undefined, pure, read, require, ◌>>=◌, ◌>>◌,
}
use cpp_unordered_map.Table.{Table, Memory}
use cpp_unordered_map.Engine.{erase_key, emplace_impl}
use cpp_unordered_map.Iterator.{begin_index, next_index}
use cpp_unordered_map.Container.{
  clear, contains, count_key, find, erase_at, rehash, reserve, load_factor,
}
use cpp_unordered_map.Adapters.{
  map_traits, at, try_emplace_impl, assign_mapped, insert_or_assign_impl, map_equal,
}
use cpp_unordered_map.Lifecycle.{fresh, swap, copy_construct, copy_assign}
use cpp_unordered_map.Handles.{extract_key, insert_handle, left_of}
use cpp_unordered_map.Fuzz.Stream.{ByteStream, exhausted, next_byte, next_u32}

-- `std::unordered_map<int, int>` as the fuzzer uses it; `value_at` is what `find` points to.
pub record Oracle (O : Type 0) : Type 0 where
  pub empty : O
  pub size : O → ℕ
  pub value_at : O → ℕ → Option ℕ
  pub count_of : O → ℕ → ℕ
  pub entries : O → List (ℕ × ℕ)
  pub assign : ℕ → ℕ → O → O
  pub insert : ℕ → ℕ → O → Bool × O
  pub emplace : ℕ → ℕ → O → Bool × O
  pub try_emplace : ℕ → ℕ → O → Bool × O
  pub insert_or_assign : ℕ → ℕ → O → Bool × O
  pub erase : ℕ → O → ℕ × O
  pub rehash_to : ℕ → O → O
  pub reserve_for : ℕ → O → O
  pub cleared : O → O

-- Keys are kept in a small range.
abbrev pub key_domain : ℕ
key_domain = 256

abbrev pub same_flag : Bool → Bool → Bool
same_flag true b = b
same_flag false b = not b

-- The two maps.
abbrev pub Pair : Type 0 → Type 0 → Type 0
Pair F O = Table F ℕ (ℕ × ℕ) × O

-- The tested container and the oracle.
module _ {S O : Type 0} where
  unfoldable pub check : Bool → Action (S × O) (Unit {0})
  check condition s = if condition then returned tt s else threw s

  -- A call of the tested container, of the oracle, and one on a local container.
  abbrev pub on_tested {ℓ} : {A : Type ℓ} → Action S A → Action (S × O) A
  on_tested m s = left_of s.1 (m s.0)

  abbrev pub on_oracle {ℓ} : {A : Type ℓ} → (O → A × O) → Action (S × O) A
  on_oracle f s = let (a, o) = f s.1 in returned a (s.0, o)

  abbrev pub change_oracle : (O → O) → Action (S × O) (Unit {0})
  change_oracle f s = returned tt (s.0, f s.1)

  abbrev pub with_local {ℓ} :
      {A : Type ℓ} → Outcome S A → (S → Action (S × O) (Unit {0})) → Action (S × O) (Unit {0})
  with_local (returned a local) f s = f local s
  with_local (threw local) f s = threw s
  with_local undefined f s = undefined

-- The mapped value that an iterator points to.
unfoldable pub mapped_at : {F : Type 0} → ℕ → Action (Table F ℕ (ℕ × ℕ)) ℕ
mapped_at it = do element ← read (λ t. (t.nodes it).storage) >>= require; pure element.1

abbrev pub is_value : Option ℕ → ℕ → Bool
is_value none value = false
is_value (some found) value = found == value

module _ {F O : Type 0} (standard : Oracle O) (is_avalanching : Bool) (float : FloatOps F)
    (memory : Memory) (node_granted : Bool) (policy : Policy ℕ) where
  abbrev traits : Traits ℕ (ℕ × ℕ)
  traits = map_traits is_avalanching

  -- `map[key] = value`
  unfoldable pub subscript_assign : ℕ → ℕ → Action (Table F ℕ (ℕ × ℕ)) (Unit {0})
  unfolding try_emplace_impl assign_mapped
  subscript_assign key value = do
    placed ← try_emplace_impl traits float memory key (some 0)
    assign_mapped traits float memory placed.0 (some value)

  unfoldable pub assign_both : ℕ → ℕ → Action (Pair F O) (Unit {0})
  unfolding subscript_assign
  assign_both key value = do
    on_tested (subscript_assign key value)
    change_oracle (standard.assign key value)

  -- An insertion in both maps, whose flags have to agree.
  unfoldable pub insert_both :
      Action (Table F ℕ (ℕ × ℕ)) (ℕ × Bool) → (O → Bool × O) → Action (Pair F O) (Unit {0})
  unfolding check
  insert_both tested oracle = do a ← on_tested tested; b ← on_oracle oracle; check (same_flag a.1 b)

  unfoldable pub erase_both : ℕ → Action (Pair F O) (Unit {0})
  unfolding erase_key check
  erase_both key = do
    a ← on_tested (erase_key traits key)
    b ← on_oracle (standard.erase key)
    check (a == b)

  -- Erasure by iterator, where the key is present.
  unfoldable pub erase_found : ℕ → Action (Pair F O) (Unit {0})
  unfolding find erase_at
  erase_found key = do
    it ← on_tested (find traits key)
    let erase : Action (Pair F O) (Unit {0}) = (do
      next ← on_tested (erase_at traits it)
      erased ← on_oracle (standard.erase key)
      pure tt) in
        if not (it == null_index) then erase else pure tt

  unfoldable pub find_both : ℕ → Action (Pair F O) (Unit {0})
  unfolding find mapped_at check
  find_both key = do
    it ← on_tested (find traits key)
    present ← read (λ s. not (standard.count_of s.1 key == 0))
    check (same_flag (not (it == null_index)) present)
    let compare = (do
      value ← on_tested (mapped_at it)
      expected ← read (λ s. standard.value_at s.1 key)
      check (is_value expected value)) in
        if present then compare else pure tt

  unfoldable pub extract_and_reinsert : ℕ → Action (Pair F O) (Unit {0})
  unfolding extract_key insert_handle check
  extract_and_reinsert key = do
    node ← on_tested (extract_key traits some node_granted key)
    count ← read (λ s. standard.count_of s.1 key)
    let put_back : Action (Pair F O) (Unit {0}) = (do
      check (count == 1)
      placed ← on_tested (insert_handle traits some float memory node)
      pure tt) in
        elim node [ none ↦ check (count == 0) | some value ↦ put_back ]

  -- A copy that is compared and assigned back.
  unfoldable pub copy_round_trip : Action (Pair F O) (Unit {0})
  unfolding copy_construct map_equal copy_assign check
  copy_round_trip s =
      with_local (copy_construct traits float memory (λ v. some v) s.0)
        (λ copy. do
          equal ← on_tested (map_equal traits ◌==◌ copy)
          check equal
          on_tested (copy_assign traits float memory false true (λ v. some v) copy))
        s

  -- The map is swapped with a temporary one and back.
  unfoldable pub swap_round_trip : ℕ → ℕ → Action (Pair F O) (Unit {0})
  unfolding subscript_assign swap
  swap_round_trip key value s =
      with_local (subscript_assign key value (fresh float.default_max_load_factor policy))
        (λ other s. let (tested, _) = swap (swap (s.0, other)) in returned tt (tested, s.1)) s

  -- The request of `rehash` and of `reserve` is read from the stream.
  unfoldable pub operate : ℕ → ℕ → ℕ → ByteStream → Action (Pair F O) ByteStream
  unfolding assign_both insert_both erase_both erase_found find_both extract_and_reinsert
      copy_round_trip swap_round_trip emplace_impl try_emplace_impl insert_or_assign_impl rehash
      reserve clear next_u32
  operate opcode key value stream =
      let keep : Action (Pair F O) (Unit {0}) → Action (Pair F O) ByteStream =
        (λ m. m >> pure stream) in
      let (word, later) = next_u32 stream in
      let request = word % 4096 in
      if leb opcode 1
      then keep (assign_both key value)
      else (if opcode == 2
          then keep (
              insert_both (emplace_impl traits float memory (some (key, value)))
                (standard.insert key value))
          else (if opcode == 3
              then keep (
                  insert_both (emplace_impl traits float memory (some (key, value)))
                    (standard.emplace key value))
              else (if opcode == 4
                  then keep (
                      insert_both (try_emplace_impl traits float memory key (some value))
                        (standard.try_emplace key value))
                  else (if opcode == 5
                      then keep (
                          insert_both (insert_or_assign_impl traits float memory key (some value))
                            (standard.insert_or_assign key value))
                      else (if leb opcode 7
                          then keep (erase_both key)
                          else (if opcode == 8
                              then keep (erase_found key)
                              else (if opcode == 9
                                  then keep (find_both key)
                                  else (if opcode == 10
                                      then (on_tested (rehash traits float memory request)
                                          >> change_oracle (standard.rehash_to request))
                                        >> pure later
                                      else (if opcode == 11
                                          then (on_tested (reserve traits float memory request)
                                              >> change_oracle (standard.reserve_for request))
                                            >> pure later
                                          else (if opcode == 12
                                              then keep (
                                                  if value % 64 == 0
                                                  then on_tested clear
                                                    >> change_oracle standard.cleared
                                                  else pure tt)
                                              else (if opcode == 13
                                                  then keep (extract_and_reinsert key)
                                                  else (if opcode == 14
                                                      then keep copy_round_trip
                                                      else keep
                                                          (swap_round_trip key value)))))))))))))
