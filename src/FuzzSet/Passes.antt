-- ===== src/FuzzSet/Passes.antt =====
-- A run of the fuzzer of the set passes every check.
use cpp_unordered_map.Prelude.{
  ℕ, ◌+◌, ◌*◌, ◌%◌, ◌≤◌, ◌≡◌, refl, sym, ◌∙◌, ap, inl, inr, Bool, true, false, Option, none, some,
  List, length, ◌==◌, arith, if_true, if_false,
}
use cpp_unordered_map.Hash.{Policy, IsLawful}
use cpp_unordered_map.Load.{FloatOps}
use cpp_unordered_map.Outcome.{Action, returned, bind-returned, pure, ◌>>=◌, ◌>>◌}
use cpp_unordered_map.Table.{Memory}
use cpp_unordered_map.Engine.Reserve.{IsGranted}
use cpp_unordered_map.Adapters.{set_traits}
use cpp_unordered_map.Lifecycle.{fresh}
use cpp_unordered_map.Lifecycle.Move.{moved_from-IsValid}
use cpp_unordered_map.Contents.{view, scan}
use cpp_unordered_map.Fuzz.{key_domain}
use cpp_unordered_map.Fuzz.Stream.{ByteStream, exhausted, next_byte, next_u32}
use cpp_unordered_map.Fuzz.Reads.{Reads, Reads-trans, next_byte-Reads, next_u32-Reads}
use cpp_unordered_map.Fuzz.Loop.{loop-returned}
use cpp_unordered_map.Fuzz.Bounded.{IsEightTenths, IsTolerant, fresh-IsBounded}
use cpp_unordered_map.FuzzSet.{SetOracle, Pair, operate}
use cpp_unordered_map.FuzzSet.Run.{
  agree, apply_one_operation, full_cross_check, run_from, run_operations,
}
use cpp_unordered_map.FuzzSet.Standard.{IsStandard}
use cpp_unordered_map.FuzzSet.Agree.{Agrees}
use cpp_unordered_map.FuzzSet.Synced.{Synced}
use cpp_unordered_map.FuzzSet.Operate.{operate-Goes}
use cpp_unordered_map.FuzzSet.Cross.{agree_lem, full_cross_check_lem}

module _ (is_avalanching : Bool) {F O : Type 0} (standard : SetOracle O) (float : FloatOps F)
    (default : IsEightTenths float float.default_max_load_factor) (memory : Memory)
    (granted : IsGranted memory) (policy : Policy ℕ) (lawful : IsLawful policy)
    (laws : IsStandard standard) where
  abbrev apply : ByteStream → Action (Pair F O) (Option ByteStream)
  apply = apply_one_operation standard is_avalanching float memory true policy

  apply_one_operation-ended :
      (stream : ByteStream) (s : Pair F O)
      → exhausted stream ≡ true
      → apply stream s ≡ returned none s
  unfolding apply_one_operation
  apply_one_operation-ended stream s ended =
      ap (λ (f : Action (Pair F O) (Option ByteStream)). f s) (if_true _ _ ended)

  further : (s s1 s' : ByteStream) → Reads 5 s s1 → Reads 4 s1 s' → Reads 5 s s'
  further s s1 s' p q =
      let r = Reads-trans 5 4 s s1 s' p q in
      record { same = r.same; forward = r.forward; far = ground (arith, r.far); inside = r.inside }

  -- One operation, where the stream has not come to its end.
  apply_one_operation-Synced_set :
      (n : ℕ)
      → n ≤ 1_000_000
      → (stream : ByteStream) (s : Pair F O) → exhausted stream ≡ false
      → Synced is_avalanching standard float n s
      → (stream' : ByteStream) × (s' : Pair F O) × (apply stream s ≡ returned (some stream') s')
        × Synced is_avalanching standard float (n + 1) s'
        × Reads 5 stream stream'
  unfolding apply_one_operation
  apply_one_operation-Synced_set n few stream (t, o) more y =
      let (opcode, at_key) = next_byte stream in
      let (key_word, rest) = next_u32 at_key in
      let key = key_word % key_domain in
      let g =
        operate-Goes is_avalanching standard float default memory granted policy lawful laws n
          (omega (arith, few)) t o y rest (opcode % 12) key in
      let go = operate standard is_avalanching float memory true policy (opcode % 12) key rest in
      let checks : ByteStream → Action (Pair F O) (Option ByteStream) = λ stream'.
        agree standard is_avalanching float memory true policy key >> pure (some stream') in
      let agreed =
        agree_lem is_avalanching standard float default memory granted policy laws (n + 1)
          (omega (arith, few)) key g.after.0 g.after.1 g.good in
      let five =
        Reads-trans 1 4 stream at_key rest (next_byte-Reads stream) (next_u32-Reads at_key) in
      (
        g.stream',
        g.after,
        ap (λ (f : Action (Pair F O) (Option ByteStream)). f (t, o))
              (if_false (pure none) (go >>= checks) more)
            ∙ bind-returned go checks (t, o) g.run
            ∙ bind-returned (agree standard is_avalanching float memory true policy key)
                (λ _. pure (some g.stream')) g.after agreed,
        g.good,
        elim g.reads [
          | inl same ↦ rw same five
          | inr later ↦ rw later (further stream rest (next_u32 rest).1 five (next_u32-Reads rest))
        ],
      )

  -- Where memory is granted, the hasher and the key comparison are lawful, the comparison is `==`,
  -- the standard set does what IsStandard says, `float` treats the default load factor as
  -- IsEightTenths says, and the fuzzer's tolerance allows what the capacity allows (IsTolerant): a
  -- run of the fuzzer of the set over at most 5,000,000 bytes ends within its fuel, with no failed
  -- check, no exception and no undefined behaviour. The tested set, a valid container, then has the
  -- size of the standard set and the same keys.
  pub set_run_operations-Agrees :
      (within : F → F → Bool)
      → IsTolerant float float.default_max_load_factor within
      → ((a b : ℕ) → policy.key_equal a b ≡ (a == b))
      → (data_ : List ℕ) → length data_ ≤ 5_000_000
      → (s : Pair F O) × (run_operations standard is_avalanching float memory true policy within
            data_
          ≡ returned tt s)
        × Agrees is_avalanching standard s
  unfolding run_operations run_from view scan
  set_run_operations-Agrees within tolerant plain_keys data_ short =
      let start = fresh float.default_max_load_factor policy in
      let full_check = full_cross_check standard is_avalanching float memory true policy within in
      let (n, s, run, y) =
        loop-returned apply full_check (Synced is_avalanching standard float) 5 5_000_000
          (omega arith) (λ n. 5 * n) (λ n. omega arith) (λ n h. omega (arith, h))
          apply_one_operation-ended apply_one_operation-Synced_set
          (λ n s few y.
            full_cross_check_lem is_avalanching standard float default memory granted policy laws
              within n s.0 s.1 tolerant few y)
          (run_from standard is_avalanching float memory true policy within)
          (λ fuel n stream s. refl) (length data_ + 1) 0 (record { data_ = data_; cursor = 0 })
          (start, standard.empty)
          (record {
            agrees = record {
              valid = moved_from-IsValid (set_traits is_avalanching) start lawful;
              plain_keys = plain_keys;
              size = sym laws.empty_size;
              shown = λ k. laws.empty_count k;
            };
            bounded = fresh-IsBounded float default policy;
          })
          short (omega arith) (omega arith) (omega arith) (inl (omega arith)) in
      (s, run, y.agrees)
