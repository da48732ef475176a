-- ===== src/FuzzSet/Operate.antt =====
-- The switch of `apply_one_operation`: every operation passes its checks.
use cpp_unordered_map.Prelude.{
  ℕ, ◌+◌, ◌*◌, ◌≤◌, ◌%◌, ◌^◌, Bool, true, leb, ◌==◌, if◌then◌else◌, arith,
}
use cpp_unordered_map.Hash.{Policy, Traits, IsLawful}
use cpp_unordered_map.Load.{FloatOps}
use cpp_unordered_map.Outcome.{Action, pure, ◌>>◌}
use cpp_unordered_map.Table.{Table, Memory}
use cpp_unordered_map.Engine.Reserve.{IsGranted}
use cpp_unordered_map.Container.{rehash}
use cpp_unordered_map.Adapters.{set_traits}
use cpp_unordered_map.Fuzz.{on_tested, change_oracle}
use cpp_unordered_map.Fuzz.Stream.{ByteStream, next_u32}
use cpp_unordered_map.Fuzz.Steps.{Steps, Steps-if, keep-Steps, read-Steps}
use cpp_unordered_map.Fuzz.Bounded.{IsEightTenths}
use cpp_unordered_map.FuzzSet.{
  SetOracle, Pair, operate, insert_both, erase_both, erase_found, contains_both,
  extract_and_reinsert, copy_round_trip, swap_round_trip,
}
use cpp_unordered_map.FuzzSet.Standard.{IsStandard}
use cpp_unordered_map.FuzzSet.Synced.{
  Synced, KeepsSynced, stays-Synced, insert_both-Synced, erase_both-Synced, erase_found-Synced,
  contains_both-lem,
}
use cpp_unordered_map.FuzzSet.Resize.{
  extract_and_reinsert-Synced, rehash_both-Synced, swap_round_trip-Synced,
}
use cpp_unordered_map.FuzzSet.Copied.{copy_round_trip-Synced}

module _ (is_avalanching : Bool) {F O : Type 0} (standard : SetOracle O) (float : FloatOps F)
    (default : IsEightTenths float float.default_max_load_factor) (memory : Memory)
    (granted : IsGranted memory) (policy : Policy ℕ) (lawful : IsLawful policy)
    (laws : IsStandard standard) (n : ℕ) (budget : 4 * n + 8 ≤ 2 ^ 22) (t : Table F ℕ ℕ) (o : O)
    (y : Synced is_avalanching standard float n (t, o)) (stream : ByteStream) where
  -- The operation returns and the sets are in step.
  abbrev pub Goes : Action (Pair F O) ByteStream → Type 0
  Goes = Steps (t, o) (Synced is_avalanching standard float (n + 1)) stream

  Goes-if :
      (b : Bool) {x y : Action (Pair F O) ByteStream} → Goes x → Goes y → Goes (if b then x else y)
  Goes-if b = Steps-if (t, o) (Synced is_avalanching standard float (n + 1)) stream b

  keep :
      (m : Action (Pair F O) (Unit {0}))
      → KeepsSynced is_avalanching standard float default memory granted policy laws n budget t o y
          m
      → Goes (m >> pure stream)
  keep m k = keep-Steps (t, o) (Synced is_avalanching standard float (n + 1)) stream m k

  pub operate-Goes :
      (opcode key : ℕ)
      → Goes (operate standard is_avalanching float memory true policy opcode key stream)
  unfolding operate
  operate-Goes opcode key =
      let traits : Traits ℕ ℕ = set_traits is_avalanching in
      let request = (next_u32 stream).0 % 4096 in
      let inserts =
        insert_both-Synced is_avalanching standard float default memory granted policy laws n budget
          t o y in
      Goes-if (leb opcode 2)
        (keep
          (insert_both standard is_avalanching float memory true policy key (standard.insert key))
          (inserts standard.insert laws.insert key))
        (Goes-if (opcode == 3)
          (keep
            (insert_both standard is_avalanching float memory true policy key
              (standard.emplace key))
            (inserts standard.emplace laws.emplace key))
          (Goes-if (leb opcode 5)
            (keep (erase_both standard is_avalanching float memory true policy key) (
              erase_both-Synced is_avalanching standard float default memory granted policy laws n
                budget t o y key))
            (Goes-if (opcode == 6)
              (keep (erase_found standard is_avalanching float memory true policy key) (
                erase_found-Synced is_avalanching standard float default memory granted policy laws
                  n budget t o y key))
              (Goes-if (opcode == 7)
                (keep (contains_both standard is_avalanching float memory true policy key) (
                  (t, o),
                  contains_both-lem is_avalanching standard float default memory granted policy laws
                      n budget t o y key,
                  stays-Synced is_avalanching standard float default memory granted policy laws n
                      budget t o y,
                ))
                (Goes-if (opcode == 8)
                  (read-Steps (t, o) (Synced is_avalanching standard float (n + 1)) stream
                    (on_tested (rehash traits float memory request)
                      >> change_oracle (standard.rehash_to request))
                    (rehash_both-Synced is_avalanching standard float default memory granted policy
                      laws n budget t o y request (omega arith)))
                  (Goes-if (opcode == 9)
                    (keep
                      (extract_and_reinsert standard is_avalanching float memory true policy key)
                      (extract_and_reinsert-Synced is_avalanching standard float default memory
                        granted policy laws n budget t o y key))
                    (Goes-if (opcode == 10)
                      (keep (copy_round_trip standard is_avalanching float memory true policy) (
                        copy_round_trip-Synced is_avalanching standard float default memory granted
                          policy n budget t o y))
                      (keep (swap_round_trip standard is_avalanching float memory true policy key) (
                        swap_round_trip-Synced is_avalanching standard float default memory granted
                          policy laws n budget t o y lawful key)))))))))
