-- ===== src/FuzzSet/Run.antt =====
-- fuzz/differential_fuzz_set.cpp: `apply_one_operation`, `full_cross_check` and `run_operations`.
use cpp_unordered_map.Prelude.{
  ℕ, zero, suc, ◌+◌, ◌%◌, Bool, not, Option, none, some, List, [], ◌∷◌, length, ◌==◌, if◌then◌else◌,
}
use cpp_unordered_map.Hash.{Traits, Policy}
use cpp_unordered_map.Index.{null_index}
use cpp_unordered_map.Load.{FloatOps}
use cpp_unordered_map.Outcome.{Outcome, Action, returned, undefined, pure, read, ◌>>=◌, ◌>>◌}
use cpp_unordered_map.Table.{Memory}
use cpp_unordered_map.Iterator.{begin_index, next_index}
use cpp_unordered_map.Container.{contains, count_key, find, load_factor}
use cpp_unordered_map.Adapters.{set_traits}
use cpp_unordered_map.Lifecycle.{fresh}
use cpp_unordered_map.Fuzz.{check, on_tested, key_domain}
use cpp_unordered_map.Fuzz.Stream.{ByteStream, exhausted, next_byte, next_u32}
use cpp_unordered_map.FuzzSet.{SetOracle, Pair, operate, contains_both}

module _ {F O : Type 0} (standard : SetOracle O) (is_avalanching : Bool) (float : FloatOps F)
    (memory : Memory) (node_granted : Bool) (policy : Policy ℕ) where
  abbrev traits : Traits ℕ ℕ
  traits = set_traits is_avalanching

  -- The part of `apply_one_operation` that follows the switch.
  unfoldable pub agree : ℕ → Action (Pair F O) (Unit {0})
  unfolding contains_both check
  agree key = do
    same_size ← read (λ s. length s.0.iteration == standard.size s.1)
    check same_size
    contains_both standard is_avalanching float memory node_granted policy key

  -- The stream afterwards, or nothing where it had come to its end.
  unfoldable pub apply_one_operation : ByteStream → Action (Pair F O) (Option ByteStream)
  unfolding next_byte next_u32 operate agree
  apply_one_operation stream =
      let (opcode, at_key) = next_byte stream in
      let (key_word, rest) = next_u32 at_key in
      let key = key_word % key_domain in
      let run : Action (Pair F O) (Option ByteStream) = (do
        stream' ←
            operate standard is_avalanching float memory node_granted policy (opcode % 12) key rest
        agree key
        pure (some stream')) in
      if exhausted stream then pure none else run

  -- The first loop of `full_cross_check`, over the oracle's keys still to see.
  unfoldable pub check_keys : List ℕ → Action (Pair F O) (Unit {0})
  unfolding find contains count_key check
  check_keys [] = pure tt
  check_keys (key ∷ rest) = do
    held ← on_tested (contains traits key)
    check held
    count ← on_tested (count_key traits key)
    check (count == 1)
    it ← on_tested (find traits key)
    check (not (it == null_index))
    check_keys rest

  -- The second loop, from an iterator of the tested set, with the count so far.
  unfoldable pub check_tested : ℕ → ℕ → ℕ → Action (Pair F O) ℕ
  unfolding next_index check
  check_tested zero it iterated s = undefined
  check_tested (suc fuel) it iterated s =
      let rest : Action (Pair F O) ℕ =
        (λ s'. check_tested fuel (next_index s'.0 it) (iterated + 1) s') in
      let compare : ℕ → Action (Pair F O) ℕ =
        (λ key. check (standard.count_of s.1 key == 1) >> rest) in
      if it == null_index
      then returned iterated s
      else elim (s.0.nodes it).storage [ none ↦ undefined | some key ↦ compare key s ]

  -- `within` is the comparison of the load factor with its maximum and the tolerance.
  unfoldable pub full_cross_check : (F → F → Bool) → Action (Pair F O) (Unit {0})
  unfolding check_keys check_tested begin_index load_factor check
  full_cross_check within s =
      let size = length s.0.iteration in
      (do
        check (size == standard.size s.1)
        check_keys (standard.keys s.1)
        iterated ← check_tested (size + 1) (begin_index s.0) 0
        check (iterated == size)
        check (within (load_factor float s.0) s.0.max_load_factor))
        s

  -- The loop of `run_operations`, with the number of operations so far.
  unfoldable pub run_from : (F → F → Bool) → ℕ → ℕ → ByteStream → Action (Pair F O) (Unit {0})
  unfolding apply_one_operation full_cross_check
  run_from within zero operations stream = λ s. undefined
  run_from within (suc fuel) operations stream =
      let again : ByteStream → Action (Pair F O) (Unit {0}) =
        run_from within fuel (operations + 1) in
      let cross : Action (Pair F O) (Unit {0}) =
        if (operations + 1) % 1024 == 0 then full_cross_check within else pure tt in
      apply_one_operation stream
      >>= (λ next. elim next [ none ↦ full_cross_check within | some rest ↦ cross >> again rest ])

  unfoldable pub run_operations : (F → F → Bool) → List ℕ → Outcome (Pair F O) (Unit {0})
  unfolding run_from
  run_operations within data_ =
      run_from within (length data_ + 1) 0 (record { data_ = data_; cursor = 0 })
        (fresh float.default_max_load_factor policy, standard.empty)
