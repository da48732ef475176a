-- ===== src/Fuzz/Follow.antt =====
-- Operations on both maps that keep them in agreement: writes, insertions, erasure, `clear`, `swap`.
use cpp_unordered_map.Prelude.{
  ℕ, ◌+◌, ◌≤◌, ◌<◌, ◌^◌, ◌≡◌, refl, sym, ◌∙◌, ap, inl, inr, Bool, true, false, not, length, ◌==◌,
  if◌then◌else◌, arith, if_true, if_false,
}
use cpp_unordered_map.Hash.{Policy, Traits, IsLawful}
use cpp_unordered_map.Index.{null_index}
use cpp_unordered_map.Load.{FloatOps}
use cpp_unordered_map.Outcome.{Action, returned, bind-returned, ◌>>=◌, ◌>>◌}
use cpp_unordered_map.Table.{Table, Memory}
use cpp_unordered_map.Growth.{Grows, Keeps-refl, Keeps-Grows}
use cpp_unordered_map.Contents.{has_some, view, scan}
use cpp_unordered_map.Contents.Refine.{Emplaces-view}
use cpp_unordered_map.Contents.Change.{view-without}
use cpp_unordered_map.Contents.Refine.{view-HoldsKey, view-IsAbsent}
use cpp_unordered_map.Engine.{erase_key}
use cpp_unordered_map.Engine.Remove.{erase_key-ErasesKey}
use cpp_unordered_map.Engine.Emplace.{Emplaces}
use cpp_unordered_map.Engine.Reserve.{IsGranted}
use cpp_unordered_map.Container.{clear}
use cpp_unordered_map.Container.Clear.{clear-IsValid}
use cpp_unordered_map.Adapters.{map_traits}
use cpp_unordered_map.Adapters.Assign.{Assigns}
use cpp_unordered_map.Adapters.View.{Assigns-view}
use cpp_unordered_map.Lifecycle.{fresh, swap}
use cpp_unordered_map.Lifecycle.Move.{moved_from-IsValid}
use cpp_unordered_map.Handles.{left_of}
use cpp_unordered_map.Fuzz.{
  Oracle, Pair, check, on_tested, on_oracle, change_oracle, with_local, same_flag, subscript_assign,
  assign_both, insert_both, erase_both, swap_round_trip,
}
use cpp_unordered_map.Fuzz.Standard.{IsStandard, InsertsLikeStandard}
use cpp_unordered_map.Fuzz.Agree.{
  Agrees, erased-Agrees, inserted-Agrees, written-Agrees, emptied-Agrees, has_some-shown,
}
use cpp_unordered_map.Fuzz.Subscript.{subscript_assign-Assigns}

pub same_flag-eq : (a b : Bool) → a ≡ b → same_flag a b ≡ true
same_flag-eq a true e = rw e refl
same_flag-eq a false e = rw e refl

pub check_lem : {S O : Type 0} (b : Bool) (s : S × O) → b ≡ true → check b s ≡ returned tt s
unfolding check
check_lem b s e = if_true _ _ e

module _ (is_avalanching : Bool) {F O : Type 0} (standard : Oracle O) (float : FloatOps F) where
  abbrev traits : Traits ℕ (ℕ × ℕ)
  traits = map_traits is_avalanching

  -- The maps still agree, and the tested one is at most one element larger.
  pub record Follows (s s' : Pair F O) : Type 0 where
    pub agrees : Agrees is_avalanching standard s'
    pub growth : Grows float s.0 s'.0

  module _ (memory : Memory) (node_granted : Bool) (policy : Policy ℕ) (granted : IsGranted memory)
      (laws : IsStandard standard) where
    abbrev insert_run :
        Action (Table F ℕ (ℕ × ℕ)) (ℕ × Bool) → (O → Bool × O) → Action (Pair F O) (Unit {0})
    insert_run = insert_both standard is_avalanching float memory node_granted policy

    insert_both_lem :
        (m : Action (Table F ℕ (ℕ × ℕ)) (ℕ × Bool)) (op : O → Bool × O) (t : Table F ℕ (ℕ × ℕ))
        (o : O) (r : ℕ × Bool) (t' : Table F ℕ (ℕ × ℕ))
        → m t ≡ returned r t'
        → r.1 ≡ (op o).0
        → insert_run m op (t, o) ≡ returned tt (t', (op o).1)
    unfolding insert_both
    insert_both_lem m op t o r t' run e =
        bind-returned (on_tested m) (λ a. on_oracle op >>= (λ b. check (same_flag a.1 b))) (t, o)
          (ap (λ k. left_of o k) run)
        ∙ check_lem (same_flag r.1 (op o).0) (t', (op o).1) (same_flag-eq r.1 (op o).0 e)

    pub inserted-Follows :
        (insert : ℕ → ℕ → O → Bool × O)
        → InsertsLikeStandard standard insert
        → (m : Action (Table F ℕ (ℕ × ℕ)) (ℕ × Bool)) (key value : ℕ) (t : Table F ℕ (ℕ × ℕ))
          (o : O)
        → Agrees is_avalanching standard (t, o)
        → (r : ℕ × Bool) × (t' : Table F ℕ (ℕ × ℕ)) × (m t ≡ returned r t')
          × Emplaces traits float t (key, value) r t'
        → (s' : Pair F O) × (insert_run m (insert key value) (t, o) ≡ returned tt s')
          × Follows (t, o) s'
    inserted-Follows insert like m key value t o a (r, t', run, e) =
        let (shown, flag) = Emplaces-view traits float t t' (key, value) r a.valid e in
        let same = ap not (sym (has_some-shown is_avalanching standard (t, o) key a)) in
        (
          (t', (insert key value o).1),
          insert_both_lem m (insert key value) t o r t' run
              (flag ∙ same ∙ sym (like.flag o key value)),
          record {
            agrees =
                inserted-Agrees is_avalanching standard t t' o a e.valid e.growth.policy insert key
                  value r.1 like flag e.grows shown;
            growth = e.growth;
          },
        )

    pub inserted_or_assigned-Follows :
        (m : Action (Table F ℕ (ℕ × ℕ)) (ℕ × Bool)) (key value : ℕ) (t : Table F ℕ (ℕ × ℕ)) (o : O)
        → Agrees is_avalanching standard (t, o)
        → (r : ℕ × Bool) × (t' : Table F ℕ (ℕ × ℕ)) × (m t ≡ returned r t')
          × Assigns is_avalanching float t key value r t'
        → (s' : Pair F O) × (insert_run m (standard.insert_or_assign key value) (t, o)
            ≡ returned tt s')
          × Follows (t, o) s'
    inserted_or_assigned-Follows m key value t o a (r, t', run, e) =
        let (shown, flag) = Assigns-view is_avalanching float t t' key value r a.valid e in
        let same = ap not (sym (has_some-shown is_avalanching standard (t, o) key a)) in
        (
          (t', (standard.insert_or_assign key value o).1),
          insert_both_lem m (standard.insert_or_assign key value) t o r t' run
              (flag ∙ same ∙ sym (laws.assigned_flag o key value)),
          record {
            agrees =
                written-Agrees is_avalanching standard t t' o a e.valid e.growth.policy
                  (λ k v o. (standard.insert_or_assign k v o).1) key value r.1 laws.insert_or_assign
                  flag e.grows shown;
            growth = e.growth;
          },
        )

    pub assign_both-Follows :
        (key value : ℕ) (t : Table F ℕ (ℕ × ℕ)) (o : O)
        → Agrees is_avalanching standard (t, o)
        → t.arena_high_water < null_index
        → t.bucket_count ≤ 2 ^ 22
        → (s' : Pair F O) × (assign_both standard is_avalanching float memory node_granted policy
              key value
              (t, o)
            ≡ returned tt s')
          × Follows (t, o) s'
    unfolding assign_both
    assign_both-Follows key value t o a below small =
        let write = subscript_assign standard is_avalanching float memory node_granted policy in
        let (r, t', run, e) =
          subscript_assign-Assigns standard is_avalanching float memory node_granted policy granted
            t key value a.valid below small in
        let (shown, flag) = Assigns-view is_avalanching float t t' key value r a.valid e in
        (
          (t', standard.assign key value o),
          bind-returned (on_tested (write key value))
              (λ _. change_oracle (standard.assign key value)) (t, o) (ap (λ k. left_of o k) run),
          record {
            agrees =
                written-Agrees is_avalanching standard t t' o a e.valid e.growth.policy
                  standard.assign key value r.1 laws.assign flag e.grows shown;
            growth = e.growth;
          },
        )

    pub erase_both-Follows :
        (key : ℕ) (t : Table F ℕ (ℕ × ℕ)) (o : O)
        → Agrees is_avalanching standard (t, o)
        → (s' : Pair F O) × (erase_both standard is_avalanching float memory node_granted policy key
              (t, o)
            ≡ returned tt s')
          × Follows (t, o) s'
    unfolding erase_both
    erase_both-Follows key t o a =
        let (n, t', run, e) = erase_key-ErasesKey traits t key a.valid in
        let counted : n ≡ (if has_some (view traits t key) then 1 else 0) = elim e.decides [
          | inl (one, (x, w, st, same)) ↦
              one ∙ sym (if_true _ _ (view-HoldsKey traits t key x a.valid (w, st, same)))
          | inr (none_there, absent) ↦
              none_there ∙ sym (if_false _ _ (view-IsAbsent traits t key a.valid absent))
        ] in
        let same : n ≡ (standard.erase key o).0 =
          counted
          ∙ ap (λ b. if b then 1 else 0) (sym (has_some-shown is_avalanching standard (t, o) key a))
          ∙ sym (laws.erase.erased o key) in
        let passes : (n == (standard.erase key o).0) ≡ true = ground (arith, same) in
        (
          (t', (standard.erase key o).1),
          bind-returned (on_tested (erase_key traits key))
                (λ a. on_oracle (standard.erase key) >>= (λ b. check (a == b))) (t, o)
                (ap (λ k. left_of o k) run)
              ∙ check_lem (n == (standard.erase key o).0) (t', (standard.erase key o).1) passes,
          record {
            agrees =
                erased-Agrees is_avalanching standard t t' o a e.valid e.kept.policy key laws.erase
                  (ap (λ k. length t'.iteration + k) (sym counted) ∙ e.shrinks)
                  (view-without traits t t' e.kept.policy a.valid e.valid key e.keeps);
            growth = Keeps-Grows float e.kept;
          },
        )

    pub clear_both-Follows :
        (t : Table F ℕ (ℕ × ℕ)) (o : O)
        → Agrees is_avalanching standard (t, o)
        → (s' : Pair F O) × ((on_tested clear >> change_oracle standard.cleared) (t, o)
            ≡ returned tt s')
          × Follows (t, o) s'
    unfolding view scan
    clear_both-Follows t o a =
        let (t', run, valid, empty, kept, _) = clear-IsValid traits t a.valid in
        (
          (t', standard.cleared o),
          bind-returned (on_tested clear) (λ _. change_oracle standard.cleared) (t, o)
              (ap (λ k. left_of o k) run),
          record {
            agrees =
                emptied-Agrees is_avalanching standard t t' o a valid kept.policy
                  (standard.cleared o) (laws.cleared o) (rw empty refl) (λ k. rw empty refl);
            growth = Keeps-Grows float kept;
          },
        )

    -- The map that is swapped in and out again.
    pub swap_round_trip-Follows :
        IsLawful policy
        → (key value : ℕ) (t : Table F ℕ (ℕ × ℕ)) (o : O) → Agrees is_avalanching standard (t, o)
        → (s' : Pair F O) × (swap_round_trip standard is_avalanching float memory node_granted
              policy key value
              (t, o)
            ≡ returned tt s')
          × Follows (t, o) s'
    unfolding swap_round_trip swap
    swap_round_trip-Follows lawful key value t o a =
        let start = fresh float.default_max_load_factor policy in
        let (r, other, run, _) =
          subscript_assign-Assigns standard is_avalanching float memory node_granted policy granted
            start key value (moved_from-IsValid traits start lawful) (omega arith) (omega arith) in
        (
          (t, o),
          ap
              (λ local.
                with_local local
                  (λ other s.
                    let (tested, _) = swap (swap (s.0, other)) in returned tt (tested, s.1))
                  (t, o))
              run,
          record { agrees = a; growth = Keeps-Grows float (Keeps-refl t) },
        )
