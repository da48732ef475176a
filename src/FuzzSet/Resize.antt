-- ===== src/FuzzSet/Resize.antt =====
-- The operations of the fuzzer of the set that take the set apart: extraction and insertion of the
-- handle, `rehash` and `swap`.
use cpp_unordered_map.Prelude.{
  ℕ, ◌+◌, ◌*◌, ◌≤◌, ◌^◌, ◌≡◌, refl, ◌∙◌, ap, inl, inr, Bool, true, false, Option, none, some, ◌==◌,
  arith,
}
use cpp_unordered_map.Hash.{Policy, Traits, IsLawful}
use cpp_unordered_map.Load.{FloatOps}
use cpp_unordered_map.Outcome.{Action, returned, bind-returned, pure, read, ◌>>=◌, ◌>>◌}
use cpp_unordered_map.Table.{Table, Memory}
use cpp_unordered_map.Contents.Refine.{view-HoldsKey, view-IsAbsent}
use cpp_unordered_map.Engine.Emplace.{emplace_impl-Emplaces}
use cpp_unordered_map.Engine.Remove.{Removes-Grows}
use cpp_unordered_map.Engine.Reserve.{IsGranted}
use cpp_unordered_map.Container.{rehash}
use cpp_unordered_map.Container.Bulk.{Rehashes-view}
use cpp_unordered_map.Adapters.{set_traits}
use cpp_unordered_map.Lifecycle.{fresh, swap}
use cpp_unordered_map.Lifecycle.Move.{moved_from-IsValid}
use cpp_unordered_map.Handles.{left_of, extract_key, insert_handle}
use cpp_unordered_map.Handles.Extract.{extract_key-cases, insert_handle-InsertsHandle}
use cpp_unordered_map.Handles.RoundTrip.{reinserted_lem}
use cpp_unordered_map.Fuzz.{check, on_tested, change_oracle, with_local}
use cpp_unordered_map.Fuzz.Follow.{check_lem}
use cpp_unordered_map.Fuzz.Bounded.{
  IsEightTenths, Grows-IsBounded, bounded_slots, rehash-IsBounded, low, high,
}
use cpp_unordered_map.FuzzSet.{SetOracle, Pair, extract_and_reinsert, swap_round_trip}
use cpp_unordered_map.FuzzSet.Standard.{IsStandard}
use cpp_unordered_map.FuzzSet.Agree.{same-Agrees}
use cpp_unordered_map.FuzzSet.Synced.{Synced, KeepsSynced, stays-Synced, count-shown}

module _ (is_avalanching : Bool) {F O : Type 0} (standard : SetOracle O) (float : FloatOps F)
    (default : IsEightTenths float float.default_max_load_factor) (memory : Memory)
    (granted : IsGranted memory) (policy : Policy ℕ) (laws : IsStandard standard) (n : ℕ)
    (budget : 4 * n + 8 ≤ 2 ^ 22) (t : Table F ℕ ℕ) (o : O)
    (y : Synced is_avalanching standard float n (t, o)) where
  abbrev traits : Traits ℕ ℕ
  traits = set_traits is_avalanching

  pub extract_and_reinsert-Synced :
      (key : ℕ)
      → KeepsSynced is_avalanching standard float default memory granted policy laws n budget t o y
          (extract_and_reinsert standard is_avalanching float memory true policy key)
  unfolding extract_and_reinsert
  extract_and_reinsert-Synced key =
      let insert : Option ℕ → Action (Pair F O) (Unit {0}) =
        λ node. on_tested (insert_handle traits some float memory node) >>= (λ placed. pure tt) in
      let decide : Option ℕ → Action (Pair F O) (Unit {0}) = λ node.
        read (λ s. standard.count_of s.1 key) >>= (λ count.
          let again = check (count == 1) >> insert node in
          elim node [ none ↦ check (count == 0) | some value ↦ again ]) in
      let start =
        λ (node : Option ℕ) (t1 : Table F ℕ ℕ)
            (run : extract_key traits some true key t ≡ returned node t1).
          bind-returned (on_tested (extract_key traits some true key)) decide (t, o)
            (ap (λ k. left_of o k) run) in
      elim (extract_key-cases traits some t key y.agrees.valid (λ v. (v, refl))) [
        | inl (x, v, t1, run, st, same, p) ↦
            let (r, t', run', i) =
              insert_handle-InsertsHandle traits some float memory granted t1 v v p.valid
                (rw p.slots (bounded_slots float default n budget t y.bounded))
                (rw p.kept.count y.bounded.within.count) refl refl in
            let (shown, _, _) = reinserted_lem traits float t t1 t' x v r y.agrees.valid st p i in
            let one =
              count-shown is_avalanching standard float default memory granted policy laws n budget
                t o y key true (view-HoldsKey traits t key x y.agrees.valid (v, st, same)) in
            (
              (t', o),
              start (some v) t1 run
                  ∙ bind-returned (check (standard.count_of o key == 1)) (λ _. insert (some v))
                      (t1, o) (check_lem (standard.count_of o key == 1) (t1, o) (rw one refl))
                  ∙ bind-returned (on_tested (insert_handle traits some float memory (some v)))
                      (λ placed. pure tt) (t1, o) (ap (λ k. left_of o k) run'),
              record {
                agrees =
                    same-Agrees is_avalanching standard t t' o y.agrees i.valid
                      (i.growth.policy ∙ p.kept.policy) o refl (λ k. refl) shown;
                bounded =
                    Grows-IsBounded float default n budget t y.bounded t'
                      (Removes-Grows traits float t t1 t' x p i.growth);
              },
            )
        | inr (run, absent) ↦
            let zero_there =
              count-shown is_avalanching standard float default memory granted policy laws n budget
                t o y key false (view-IsAbsent traits t key y.agrees.valid absent) in
            (
              (t, o),
              start none t run
                  ∙ check_lem (standard.count_of o key == 0) (t, o) (rw zero_there refl),
              (stays-Synced is_avalanching standard float default memory granted policy laws n
                  budget t o y),
            )
      ]

  pub rehash_both-Synced :
      (request : ℕ)
      → request ≤ 2 ^ 20
      → KeepsSynced is_avalanching standard float default memory granted policy laws n budget t o y
          (on_tested (rehash traits float memory request)
            >> change_oracle (standard.rehash_to request))
  rehash_both-Synced request small =
      let (t', run, r, bounded) =
        rehash-IsBounded float default n budget t y.bounded traits memory granted y.agrees.valid
          request small in
      (
        (t', standard.rehash_to request o),
        bind-returned (on_tested (rehash traits float memory request))
            (λ _. change_oracle (standard.rehash_to request)) (t, o) (ap (λ k. left_of o k) run),
        record {
          agrees =
              same-Agrees is_avalanching standard t t' o y.agrees r.valid r.policy
                (standard.rehash_to request o) (laws.rehash_size o request)
                (laws.rehash_count o request)
                (Rehashes-view traits float 22 low high t request t' y.agrees.valid r);
          bounded = bounded;
        },
      )

  -- The set that is swapped in and out again.
  pub swap_round_trip-Synced :
      IsLawful policy
      → (key : ℕ)
      → KeepsSynced is_avalanching standard float default memory granted policy laws n budget t o y
          (swap_round_trip standard is_avalanching float memory true policy key)
  unfolding swap_round_trip swap
  swap_round_trip-Synced lawful key =
      let start = fresh float.default_max_load_factor policy in
      let (r, other, run, _) =
        emplace_impl-Emplaces traits float memory granted start key
          (moved_from-IsValid traits start lawful) (omega arith) (omega arith) in
      (
        (t, o),
        ap
            (λ local.
              with_local local
                (λ other s. let (tested, _) = swap (swap (s.0, other)) in returned tt (tested, s.1))
                (t, o))
            run,
        (stays-Synced is_avalanching standard float default memory granted policy laws n budget t o
            y),
      )
