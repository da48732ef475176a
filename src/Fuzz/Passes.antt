-- ===== src/Fuzz/Passes.antt =====
-- A run of the fuzzer of the map passes every check.
use cpp_unordered_map.Prelude.{
  ℕ, ◌+◌, ◌*◌, ◌%◌, ◌^◌, ◌≤◌, ◌≡◌, refl, sym, ◌∙◌, ap, inl, inr, Bool, true, false, Option, none,
  some, List, length, ◌==◌, arith, if_true, if_false,
}
use cpp_unordered_map.Hash.{Policy, IsLawful}
use cpp_unordered_map.Load.{FloatOps}
use cpp_unordered_map.Outcome.{Action, returned, bind-returned, pure, ◌>>=◌, ◌>>◌}
use cpp_unordered_map.Table.{Memory}
use cpp_unordered_map.Engine.Reserve.{IsGranted}
use cpp_unordered_map.Adapters.{map_traits}
use cpp_unordered_map.Lifecycle.{fresh}
use cpp_unordered_map.Lifecycle.Move.{moved_from-IsValid}
use cpp_unordered_map.Contents.{view, scan}
use cpp_unordered_map.Fuzz.{Oracle, Pair, key_domain, operate}
use cpp_unordered_map.Fuzz.Run.{
  agree, apply_one_operation, full_cross_check, run_from, run_operations,
}
use cpp_unordered_map.Fuzz.Stream.{ByteStream, exhausted, next_byte, next_u32}
use cpp_unordered_map.Fuzz.Reads.{Reads, Reads-trans, next_byte-Reads, next_u32-Reads}
use cpp_unordered_map.Fuzz.Loop.{loop-returned}
use cpp_unordered_map.Fuzz.Standard.{IsStandard}
use cpp_unordered_map.Fuzz.Agree.{Agrees}
use cpp_unordered_map.Fuzz.Bounded.{IsEightTenths, IsTolerant, fresh-IsBounded}
use cpp_unordered_map.Fuzz.Synced.{Synced}
use cpp_unordered_map.Fuzz.Operate.{operate-Goes}
use cpp_unordered_map.Fuzz.Cross.{agree_lem, full_cross_check_lem}

module _ (is_avalanching : Bool) {F O : Type 0} (standard : Oracle O) (float : FloatOps F)
    (default : IsEightTenths float float.default_max_load_factor) (memory : Memory)
    (granted : IsGranted memory) (policy : Policy ℕ) (lawful : IsLawful policy)
    (laws : IsStandard standard) where
  abbrev apply : ByteStream → Action (Pair F O) (Option ByteStream)
  apply = apply_one_operation standard is_avalanching float memory true policy

  apply_one_operation-ended :
      (stream : ByteStream) (s : Pair F O)
      → exhausted stream ≡ true
      → apply stream s ≡ returned none s
  unfolding apply_one_operation
  apply_one_operation-ended stream s ended =
      ap (λ (f : Action (Pair F O) (Option ByteStream)). f s) (if_true _ _ ended)

  -- Under the conditions of a run of the fuzzer, but for those on its tolerance and on `==`, one
  -- operation from a stream that is not at its end, on two maps in agreement after n operations with
  -- 4 * n + 8 at most 2^22, returns: no check fails. It leaves the two maps in agreement after one
  -- operation more, and the stream at least nine bytes further, or at its end.
  pub apply_one_operation-Synced :
      (n : ℕ)
      → 4 * n + 8 ≤ 2 ^ 22
      → (stream : ByteStream) (s : Pair F O) → exhausted stream ≡ false
      → Synced is_avalanching standard float n s
      → (stream' : ByteStream) × (s' : Pair F O) × (apply stream s ≡ returned (some stream') s')
        × Synced is_avalanching standard float (n + 1) s'
        × Reads 9 stream stream'
  unfolding apply_one_operation
  apply_one_operation-Synced n budget stream (t, o) more y =
      let (opcode, at_key) = next_byte stream in
      let (key_word, at_value) = next_u32 at_key in
      let (value, rest) = next_u32 at_value in
      let key = key_word % key_domain in
      let g =
        operate-Goes is_avalanching standard float default memory granted policy lawful laws n
          budget t o y rest (opcode % 16) key value in
      let go =
        operate standard is_avalanching float memory true policy (opcode % 16) key value rest in
      let checks : ByteStream → Action (Pair F O) (Option ByteStream) = λ stream'.
        agree standard is_avalanching float memory true policy key >> pure (some stream') in
      let agreed =
        agree_lem is_avalanching standard float memory policy granted laws g.after.0 g.after.1
          g.good.agrees key in
      let five =
        Reads-trans 1 4 stream at_key at_value (next_byte-Reads stream) (next_u32-Reads at_key) in
      let nine = Reads-trans 5 4 stream at_value rest five (next_u32-Reads at_value) in
      (
        g.stream',
        g.after,
        ap (λ (f : Action (Pair F O) (Option ByteStream)). f (t, o))
              (if_false (pure none) (go >>= checks) more)
            ∙ bind-returned go checks (t, o) g.run
            ∙ bind-returned (agree standard is_avalanching float memory true policy key)
                (λ _. pure (some g.stream')) g.after agreed,
        g.good,
        elim g.reads [
          | inl same ↦ rw same nine
          | inr later ↦ rw later (further stream rest (next_u32 rest).1 nine (next_u32-Reads rest))
        ],
      )
    where
      further : (s s1 s' : ByteStream) → Reads 9 s s1 → Reads 4 s1 s' → Reads 9 s s'
      further s s1 s' p q =
          let r = Reads-trans 9 4 s s1 s' p q in
          record {
            same = r.same;
            forward = r.forward;
            far = ground (arith, r.far);
            inside = r.inside;
          }

  module _ (within : F → F → Bool)
      (tolerant : IsTolerant float float.default_max_load_factor within) where
    -- Where memory is granted, the hasher and the key comparison are lawful, the comparison is `==`,
    -- the standard map does what IsStandard says, `float` treats the default load factor as
    -- IsEightTenths says, and the fuzzer's tolerance allows what the capacity allows (IsTolerant): a
    -- run of the fuzzer over at most 9,000,000 bytes ends within its fuel, with no failed check, no
    -- exception and no undefined behaviour. The tested map, a valid container, then has the size of
    -- the standard map and, at every key, its value.
    pub run_operations-Agrees :
        ((a b : ℕ) → policy.key_equal a b ≡ (a == b))
        → (data_ : List ℕ) → length data_ ≤ 9_000_000
        → (s : Pair F O) × (run_operations standard is_avalanching float memory true policy within
              data_
            ≡ returned tt s)
          × Agrees is_avalanching standard s
    unfolding run_operations run_from view scan
    run_operations-Agrees plain_keys data_ short =
        let start = fresh float.default_max_load_factor policy in
        let full_check = full_cross_check standard is_avalanching float memory true policy within in
        let (n, s, run, y) =
          loop-returned apply full_check (Synced is_avalanching standard float) 9 9_000_000
            (omega arith) (λ n. 9 * n) (λ n. omega arith) (λ n h. omega (arith, h))
            apply_one_operation-ended (λ n few. apply_one_operation-Synced n (omega (arith, few)))
            (λ n s few y.
              full_cross_check_lem is_avalanching standard float memory policy granted laws within n
                s.0 s.1 default tolerant few y)
            (run_from standard is_avalanching float memory true policy within)
            (λ fuel n stream s. refl) (length data_ + 1) 0 (record { data_ = data_; cursor = 0 })
            (start, standard.empty)
            (record {
              agrees = record {
                valid = moved_from-IsValid (map_traits is_avalanching) start lawful;
                plain_keys = plain_keys;
                size = sym laws.empty.size;
                shown = λ k. laws.empty.value k;
              };
              bounded = fresh-IsBounded float default policy;
            })
            short (omega arith) (omega arith) (omega arith) (inl (omega arith)) in
        (s, run, y.agrees)
