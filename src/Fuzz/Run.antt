-- ===== src/Fuzz/Run.antt =====
-- fuzz/differential_fuzz.cpp: `apply_one_operation`, `full_cross_check` and `run_operations`.
use cpp_unordered_map.Prelude.{
  ℕ, zero, suc, ◌+◌, ◌%◌, Bool, not, Option, none, some, List, [], ◌∷◌, length, ◌==◌, if◌then◌else◌,
}
use cpp_unordered_map.Hash.{Traits, Policy}
use cpp_unordered_map.Index.{null_index}
use cpp_unordered_map.Load.{FloatOps}
use cpp_unordered_map.Outcome.{Outcome, Action, returned, undefined, pure, read, ◌>>=◌, ◌>>◌}
use cpp_unordered_map.Table.{Memory}
use cpp_unordered_map.Iterator.{begin_index, next_index}
use cpp_unordered_map.Container.{contains, count_key, find, load_factor}
use cpp_unordered_map.Adapters.{map_traits, at}
use cpp_unordered_map.Lifecycle.{fresh}
use cpp_unordered_map.Fuzz.{
  Oracle, Pair, check, on_tested, same_flag, is_value, mapped_at, operate, key_domain,
}
use cpp_unordered_map.Fuzz.Stream.{ByteStream, exhausted, next_byte, next_u32}

module _ {F O : Type 0} (standard : Oracle O) (is_avalanching : Bool) (float : FloatOps F)
    (memory : Memory) (node_granted : Bool) (policy : Policy ℕ) where
  abbrev traits : Traits ℕ (ℕ × ℕ)
  traits = map_traits is_avalanching

  -- The per-operation part of `apply_one_operation` that follows the switch.
  unfoldable pub agree : ℕ → Action (Pair F O) (Unit {0})
  unfolding contains check
  agree key = do
    same_size ← read (λ s. length s.0.iteration == standard.size s.1)
    check same_size
    present ← read (λ s. not (standard.count_of s.1 key == 0))
    held ← on_tested (contains traits key)
    check (same_flag held present)

  -- The stream afterwards, or nothing where it had come to its end.
  unfoldable pub apply_one_operation : ByteStream → Action (Pair F O) (Option ByteStream)
  unfolding next_byte next_u32 operate agree
  apply_one_operation stream =
      let (opcode, at_key) = next_byte stream in
      let (key_word, at_value) = next_u32 at_key in
      let (value, rest) = next_u32 at_value in
      let key = key_word % key_domain in
      let run : Action (Pair F O) (Option ByteStream) = (do
        stream' ←
            operate standard is_avalanching float memory node_granted policy (opcode % 16) key value
              rest
        agree key
        pure (some stream')) in
      if exhausted stream then pure none else run

  -- The first loop of `full_cross_check`, over the oracle's entries still to see.
  unfoldable pub check_entries : List (ℕ × ℕ) → Action (Pair F O) (Unit {0})
  unfolding find mapped_at contains count_key at check
  check_entries [] = pure tt
  check_entries ((key, value) ∷ rest) = do
    it ← on_tested (find traits key)
    check (not (it == null_index))
    found ← on_tested (mapped_at it)
    check (found == value)
    held ← on_tested (contains traits key)
    check held
    count ← on_tested (count_key traits key)
    check (count == 1)
    mapped ← on_tested (at traits key)
    check (mapped == value)
    check_entries rest

  -- The second loop, from an iterator of the tested map, with the count so far.
  unfoldable pub check_tested : ℕ → ℕ → ℕ → Action (Pair F O) ℕ
  unfolding next_index check
  check_tested zero it iterated s = undefined
  check_tested (suc fuel) it iterated s =
      let rest : Action (Pair F O) ℕ =
        (λ s'. check_tested fuel (next_index s'.0 it) (iterated + 1) s') in
      let compare : ℕ × ℕ → Action (Pair F O) ℕ =
        (λ element. check (is_value (standard.value_at s.1 element.0) element.1) >> rest) in
      if it == null_index
      then returned iterated s
      else elim (s.0.nodes it).storage [ none ↦ undefined | some element ↦ compare element s ]

  -- `within` is the comparison of the load factor with its maximum and the tolerance.
  unfoldable pub full_cross_check : (F → F → Bool) → Action (Pair F O) (Unit {0})
  unfolding check_entries check_tested begin_index load_factor check
  full_cross_check within s =
      let size = length s.0.iteration in
      (do
        check (size == standard.size s.1)
        check_entries (standard.entries s.1)
        iterated ← check_tested (size + 1) (begin_index s.0) 0
        check (iterated == size)
        check (within (load_factor float s.0) s.0.max_load_factor))
        s

  -- The loop of `run_operations`, with the number of operations so far.
  unfoldable pub run_from : (F → F → Bool) → ℕ → ℕ → ByteStream → Action (Pair F O) (Unit {0})
  unfolding apply_one_operation full_cross_check
  run_from within zero operations stream = λ s. undefined
  run_from within (suc fuel) operations stream =
      let again : ByteStream → Action (Pair F O) (Unit {0}) =
        run_from within fuel (operations + 1) in
      let cross : Action (Pair F O) (Unit {0}) =
        if (operations + 1) % 1024 == 0 then full_cross_check within else pure tt in
      apply_one_operation stream
      >>= (λ next. elim next [ none ↦ full_cross_check within | some rest ↦ cross >> again rest ])

  unfoldable pub run_operations : (F → F → Bool) → List ℕ → Outcome (Pair F O) (Unit {0})
  unfolding run_from
  run_operations within data_ =
      run_from within (length data_ + 1) 0 (record { data_ = data_; cursor = 0 })
        (fresh float.default_max_load_factor policy, standard.empty)
