-- ===== src/Fuzz/Operate.antt =====
-- The switch of `apply_one_operation`: every operation passes its checks.
use cpp_unordered_map.Prelude.{
  ℕ, ◌+◌, ◌*◌, ◌≤◌, ◌<◌, ◌%◌, ◌^◌, ◌≡◌, refl, Bool, true, false, some, leb, ◌==◌, if◌then◌else◌,
  arith,
}
use cpp_unordered_map.Hash.{Policy, Traits, IsLawful}
use cpp_unordered_map.Index.{null_index}
use cpp_unordered_map.Load.{FloatOps}
use cpp_unordered_map.Outcome.{Action, returned, pure, ◌>>◌}
use cpp_unordered_map.Table.{Table, Memory}
use cpp_unordered_map.Engine.{emplace_impl}
use cpp_unordered_map.Engine.Emplace.{emplace_impl-Emplaces}
use cpp_unordered_map.Engine.Reserve.{IsGranted}
use cpp_unordered_map.Container.{clear, rehash, reserve}
use cpp_unordered_map.Adapters.{map_traits, try_emplace_impl, insert_or_assign_impl}
use cpp_unordered_map.Adapters.Emplace.{try_emplace_impl-Emplaces}
use cpp_unordered_map.Adapters.Assign.{insert_or_assign_impl-Assigns}
use cpp_unordered_map.Fuzz.{
  Oracle, Pair, on_tested, change_oracle, operate, assign_both, insert_both, erase_both,
  erase_found, find_both, extract_and_reinsert, copy_round_trip, swap_round_trip,
}
use cpp_unordered_map.Fuzz.Stream.{ByteStream, next_u32}
use cpp_unordered_map.Fuzz.Steps.{Steps, Steps-if, keep-Steps, read-Steps}
use cpp_unordered_map.Fuzz.Standard.{IsStandard}
use cpp_unordered_map.Fuzz.Follow.{
  Follows, inserted-Follows, inserted_or_assigned-Follows, assign_both-Follows, erase_both-Follows,
  clear_both-Follows, swap_round_trip-Follows,
}
use cpp_unordered_map.Fuzz.Found.{
  erase_found-Follows, find_both-Follows, extract_and_reinsert-Follows, stays-Follows,
}
use cpp_unordered_map.Fuzz.Bounded.{IsEightTenths}
use cpp_unordered_map.Fuzz.Synced.{Synced, Follows-Synced, rehash_both-Synced, reserve_both-Synced}
use cpp_unordered_map.Fuzz.Copied.{copy_round_trip-Synced}

module _ (is_avalanching : Bool) {F O : Type 0} (standard : Oracle O) (float : FloatOps F)
    (default : IsEightTenths float float.default_max_load_factor) (memory : Memory)
    (granted : IsGranted memory) (policy : Policy ℕ) (lawful : IsLawful policy)
    (laws : IsStandard standard) (n : ℕ) (budget : 4 * n + 8 ≤ 2 ^ 22) (t : Table F ℕ (ℕ × ℕ))
    (o : O) (y : Synced is_avalanching standard float n (t, o)) (stream : ByteStream) where
  -- The operation returns and the maps are in step.
  abbrev pub Goes : Action (Pair F O) ByteStream → Type 0
  Goes = Steps (t, o) (Synced is_avalanching standard float (n + 1)) stream

  Goes-if :
      (b : Bool) {x y : Action (Pair F O) ByteStream} → Goes x → Goes y → Goes (if b then x else y)
  Goes-if b = Steps-if (t, o) (Synced is_avalanching standard float (n + 1)) stream b

  keep-Synced :
      (m : Action (Pair F O) (Unit {0}))
      → (s' : Pair F O) × (m (t, o) ≡ returned tt s')
        × Synced is_avalanching standard float (n + 1) s'
      → Goes (m >> pure stream)
  keep-Synced = keep-Steps (t, o) (Synced is_avalanching standard float (n + 1)) stream

  read-Synced :
      (m : Action (Pair F O) (Unit {0}))
      → (s' : Pair F O) × (m (t, o) ≡ returned tt s')
        × Synced is_avalanching standard float (n + 1) s'
      → Goes (m >> pure (next_u32 stream).1)
  read-Synced = read-Steps (t, o) (Synced is_avalanching standard float (n + 1)) stream

  keep-Follows :
      (m : Action (Pair F O) (Unit {0}))
      → (s' : Pair F O) × (m (t, o) ≡ returned tt s')
        × Follows is_avalanching standard float (t, o) s'
      → Goes (m >> pure stream)
  keep-Follows m (s', run, f) =
      keep-Synced m
        (s', run, Follows-Synced is_avalanching standard float default n budget (t, o) s' y f)

  below : t.arena_high_water < null_index
  below = omega (arith, y.bounded.within.high, budget)

  small : t.bucket_count ≤ 2 ^ 22
  small = y.bounded.within.count

  cleared-Goes :
      (b : Bool)
      → Goes (
          (if b then on_tested clear >> change_oracle standard.cleared else pure tt) >> pure stream)
  cleared-Goes true = keep-Follows (on_tested clear >> change_oracle standard.cleared) (
      clear_both-Follows is_avalanching standard float memory true policy granted laws t o y.agrees)
  cleared-Goes false = keep-Follows (pure tt) (
    (t, o),
    refl,
    stays-Follows is_avalanching standard float memory policy granted laws t o y.agrees,
  )

  pub operate-Goes :
      (opcode key value : ℕ)
      → Goes (operate standard is_avalanching float memory true policy opcode key value stream)
  unfolding operate
  operate-Goes opcode key value =
      let traits : Traits ℕ (ℕ × ℕ) = map_traits is_avalanching in
      let a = y.agrees in
      let pair : ℕ × ℕ = (key, value) in
      let request = (next_u32 stream).0 % 4096 in
      let few : request ≤ 2 ^ 20 = omega arith in
      let emplaced = emplace_impl-Emplaces traits float memory granted t pair a.valid below small in
      let inserts =
        inserted-Follows is_avalanching standard float memory true policy granted laws in
      Goes-if (leb opcode 1)
        (keep-Follows (assign_both standard is_avalanching float memory true policy key value) (
          assign_both-Follows is_avalanching standard float memory true policy granted laws key
            value t o a below small))
        (Goes-if (opcode == 2)
          (keep-Follows
            (insert_both standard is_avalanching float memory true policy
              (emplace_impl traits float memory (some pair)) (standard.insert key value))
            (inserts standard.insert laws.insert (emplace_impl traits float memory (some pair)) key
              value t o a emplaced))
          (Goes-if (opcode == 3)
            (keep-Follows
              (insert_both standard is_avalanching float memory true policy
                (emplace_impl traits float memory (some pair)) (standard.emplace key value))
              (inserts standard.emplace laws.emplace (emplace_impl traits float memory (some pair))
                key value t o a emplaced))
            (Goes-if (opcode == 4)
              (keep-Follows
                (insert_both standard is_avalanching float memory true policy
                  (try_emplace_impl traits float memory key (some value))
                  (standard.try_emplace key value))
                (inserts standard.try_emplace laws.try_emplace
                  (try_emplace_impl traits float memory key (some value)) key value t o a
                  (try_emplace_impl-Emplaces is_avalanching float memory granted t key value a.valid
                    below small)))
              (Goes-if (opcode == 5)
                (keep-Follows
                  (insert_both standard is_avalanching float memory true policy
                    (insert_or_assign_impl traits float memory key (some value))
                    (standard.insert_or_assign key value))
                  (inserted_or_assigned-Follows is_avalanching standard float memory true policy
                    granted laws (insert_or_assign_impl traits float memory key (some value)) key
                    value t o a
                    (insert_or_assign_impl-Assigns is_avalanching float memory granted t key value
                      a.valid below small)))
                (Goes-if (leb opcode 7)
                  (keep-Follows (erase_both standard is_avalanching float memory true policy key) (
                    erase_both-Follows is_avalanching standard float memory true policy granted laws
                      key t o a))
                  (Goes-if (opcode == 8)
                    (keep-Follows (erase_found standard is_avalanching float memory true policy key)
                      (erase_found-Follows is_avalanching standard float memory policy granted laws
                        key t o a))
                    (Goes-if (opcode == 9)
                      (keep-Follows (find_both standard is_avalanching float memory true policy key)
                        (find_both-Follows is_avalanching standard float memory policy granted laws
                          key t o a))
                      (Goes-if (opcode == 10)
                        (read-Synced
                          (on_tested (rehash traits float memory request)
                            >> change_oracle (standard.rehash_to request))
                          (rehash_both-Synced is_avalanching standard float default n budget memory
                            granted request t o laws.rehash few y))
                        (Goes-if (opcode == 11)
                          (read-Synced
                            (on_tested (reserve traits float memory request)
                              >> change_oracle (standard.reserve_for request))
                            (reserve_both-Synced is_avalanching standard float default n budget
                              memory granted request t o laws.reserve few y))
                          (Goes-if (opcode == 12) (cleared-Goes (value % 64 == 0)) (
                            Goes-if (opcode == 13)
                              (keep-Follows
                                (extract_and_reinsert standard is_avalanching float memory true
                                  policy key)
                                (extract_and_reinsert-Follows is_avalanching standard float memory
                                  policy granted laws key t o a below small))
                              (Goes-if (opcode == 14)
                                (keep-Synced
                                  (copy_round_trip standard is_avalanching float memory true policy)
                                  (copy_round_trip-Synced is_avalanching standard float default
                                    memory granted policy n budget t o y))
                                (keep-Follows
                                  (swap_round_trip standard is_avalanching float memory true policy
                                    key value)
                                  (swap_round_trip-Follows is_avalanching standard float memory true
                                    policy granted laws lawful key value t o a))))))))))))))
