-- ===== src/FuzzSet.antt =====
-- fuzz/differential_fuzz_set.cpp: a stream of operations on a set and on the standard library's set.
-- The stream and the checks are those of the fuzzer of the map, whose text they share.
pub mod Run
pub mod Standard
pub mod Agree
pub mod Synced
pub mod Resize
pub mod Copied
pub mod Operate
pub mod Cross
pub mod Passes
use cpp_unordered_map.Prelude.{
  ℕ, ◌%◌, Bool, true, false, not, Option, none, some, List, ◌==◌, leb, if◌then◌else◌,
}
use cpp_unordered_map.Hash.{Traits, Policy}
use cpp_unordered_map.Index.{null_index}
use cpp_unordered_map.Load.{FloatOps}
use cpp_unordered_map.Outcome.{Outcome, Action, returned, pure, read, ◌>>=◌, ◌>>◌}
use cpp_unordered_map.Table.{Table, Memory}
use cpp_unordered_map.Engine.{erase_key, emplace_impl}
use cpp_unordered_map.Container.{contains, find, erase_at, rehash}
use cpp_unordered_map.Adapters.{set_traits, set_equal}
use cpp_unordered_map.Lifecycle.{fresh, swap, copy_construct, copy_assign}
use cpp_unordered_map.Handles.{extract_key, insert_handle}
use cpp_unordered_map.Fuzz.{check, on_tested, on_oracle, change_oracle, with_local, same_flag}
use cpp_unordered_map.Fuzz.Stream.{ByteStream, next_u32}

-- `std::unordered_set<int>` as the fuzzer uses it.
pub record SetOracle (O : Type 0) : Type 0 where
  pub empty : O
  pub size : O → ℕ
  pub count_of : O → ℕ → ℕ
  pub keys : O → List ℕ
  pub insert : ℕ → O → Bool × O
  pub emplace : ℕ → O → Bool × O
  pub erase : ℕ → O → ℕ × O
  pub rehash_to : ℕ → O → O

-- The two sets.
abbrev pub Pair : Type 0 → Type 0 → Type 0
Pair F O = Table F ℕ ℕ × O

module _ {F O : Type 0} (standard : SetOracle O) (is_avalanching : Bool) (float : FloatOps F)
    (memory : Memory) (node_granted : Bool) (policy : Policy ℕ) where
  abbrev traits : Traits ℕ ℕ
  traits = set_traits is_avalanching

  -- An insertion in both sets, whose flags have to agree.
  unfoldable pub insert_both : ℕ → (O → Bool × O) → Action (Pair F O) (Unit {0})
  unfolding emplace_impl check
  insert_both key oracle = do
    a ← on_tested (emplace_impl traits float memory (some key))
    b ← on_oracle oracle
    check (same_flag a.1 b)

  unfoldable pub erase_both : ℕ → Action (Pair F O) (Unit {0})
  unfolding erase_key check
  erase_both key = do
    a ← on_tested (erase_key traits key)
    b ← on_oracle (standard.erase key)
    check (a == b)

  -- Erasure by iterator, where the key is present.
  unfoldable pub erase_found : ℕ → Action (Pair F O) (Unit {0})
  unfolding find erase_at
  erase_found key = do
    it ← on_tested (find traits key)
    let erase : Action (Pair F O) (Unit {0}) = (do
      next ← on_tested (erase_at traits it)
      erased ← on_oracle (standard.erase key)
      pure tt) in
        if not (it == null_index) then erase else pure tt

  unfoldable pub contains_both : ℕ → Action (Pair F O) (Unit {0})
  unfolding contains check
  contains_both key = do
    held ← on_tested (contains traits key)
    present ← read (λ s. not (standard.count_of s.1 key == 0))
    check (same_flag held present)

  unfoldable pub extract_and_reinsert : ℕ → Action (Pair F O) (Unit {0})
  unfolding extract_key insert_handle check
  extract_and_reinsert key = do
    node ← on_tested (extract_key traits some node_granted key)
    count ← read (λ s. standard.count_of s.1 key)
    let put_back : Action (Pair F O) (Unit {0}) = (do
      check (count == 1)
      placed ← on_tested (insert_handle traits some float memory node)
      pure tt) in
        elim node [ none ↦ check (count == 0) | some value ↦ put_back ]

  -- A copy that is compared and assigned back.
  unfoldable pub copy_round_trip : Action (Pair F O) (Unit {0})
  unfolding copy_construct set_equal copy_assign check
  copy_round_trip s =
      with_local (copy_construct traits float memory (λ v. some v) s.0)
        (λ copy. do
          equal ← on_tested (set_equal traits copy)
          check equal
          on_tested (copy_assign traits float memory false true (λ v. some v) copy))
        s

  -- The set is swapped with a temporary one and back.
  unfoldable pub swap_round_trip : ℕ → Action (Pair F O) (Unit {0})
  unfolding emplace_impl swap
  swap_round_trip key s =
      with_local
        (emplace_impl traits float memory (some key) (fresh float.default_max_load_factor policy))
        (λ other s. let (tested, _) = swap (swap (s.0, other)) in returned tt (tested, s.1)) s

  -- The request of `rehash` is read from the stream.
  unfoldable pub operate : ℕ → ℕ → ByteStream → Action (Pair F O) ByteStream
  unfolding insert_both erase_both erase_found contains_both extract_and_reinsert copy_round_trip
      swap_round_trip rehash next_u32
  operate opcode key stream =
      let keep : Action (Pair F O) (Unit {0}) → Action (Pair F O) ByteStream =
        (λ m. m >> pure stream) in
      let (word, later) = next_u32 stream in
      let request = word % 4096 in
      if leb opcode 2
      then keep (insert_both key (standard.insert key))
      else (if opcode == 3
          then keep (insert_both key (standard.emplace key))
          else (if leb opcode 5
              then keep (erase_both key)
              else (if opcode == 6
                  then keep (erase_found key)
                  else (if opcode == 7
                      then keep (contains_both key)
                      else (if opcode == 8
                          then (on_tested (rehash traits float memory request)
                              >> change_oracle (standard.rehash_to request))
                            >> pure later
                          else (if opcode == 9
                              then keep (extract_and_reinsert key)
                              else (if opcode == 10
                                  then keep copy_round_trip
                                  else keep (swap_round_trip key))))))))
