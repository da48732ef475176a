-- ===== src/FuzzSet/Cross.antt =====
-- The checks that compare the two sets: after each operation, and of everything.
use cpp_unordered_map.Prelude.{
  ℕ, suc, ◌+◌, ◌*◌, ◌≤◌, ◌<◌, ◌^◌, ◌≡◌, refl, sym, ◌∙◌, ap, inl, inr, Bool, true, false, not,
  to_nat, some, List, [], ◌∷◌, length, ◌==◌, if◌then◌else◌, arith, if_true,
}
use cpp_unordered_map.Hash.{Policy, Traits}
use cpp_unordered_map.Index.{null_index}
use cpp_unordered_map.Load.{FloatOps}
use cpp_unordered_map.Outcome.{Action, returned, bind-returned, ◌>>=◌, ◌>>◌}
use cpp_unordered_map.Table.{Table, Memory}
use cpp_unordered_map.Valid.{Stores}
use cpp_unordered_map.Engine.Reserve.{IsGranted}
use cpp_unordered_map.Iterator.{begin_index, next_index, element_at}
use cpp_unordered_map.Iterator.Visit.{visits_all}
use cpp_unordered_map.Contents.{has_some, view, view-eq_of_Maps}
use cpp_unordered_map.Container.{contains, count_key, find, load_factor}
use cpp_unordered_map.Container.Find.{find-cases, contains-view, count_key-view}
use cpp_unordered_map.Adapters.{set_traits}
use cpp_unordered_map.Handles.{left_of}
use cpp_unordered_map.Fuzz.{check, on_tested}
use cpp_unordered_map.Fuzz.Follow.{check_lem}
use cpp_unordered_map.Fuzz.Bounded.{IsEightTenths, IsTolerant, bounded_load}
use cpp_unordered_map.FuzzSet.{SetOracle, Pair, contains_both}
use cpp_unordered_map.FuzzSet.Run.{agree, check_keys, check_tested, full_cross_check}
use cpp_unordered_map.FuzzSet.Standard.{IsStandard, AreKeys}
use cpp_unordered_map.FuzzSet.Agree.{Agrees}
use cpp_unordered_map.FuzzSet.Synced.{Synced, contains_both-lem}

module _ (is_avalanching : Bool) {F O : Type 0} (standard : SetOracle O) (float : FloatOps F)
    (default : IsEightTenths float float.default_max_load_factor) (memory : Memory)
    (granted : IsGranted memory) (policy : Policy ℕ) (laws : IsStandard standard) where
  abbrev traits : Traits ℕ ℕ
  traits = set_traits is_avalanching

  pub agree_lem :
      (n : ℕ)
      → 4 * n + 8 ≤ 2 ^ 22
      → (key : ℕ) (t : Table F ℕ ℕ) (o : O) → Synced is_avalanching standard float n (t, o)
      → agree standard is_avalanching float memory true policy key (t, o) ≡ returned tt (t, o)
  unfolding agree
  agree_lem n budget key t o y =
      bind-returned (check (length t.iteration == standard.size o))
        (λ _. contains_both standard is_avalanching float memory true policy key) (t, o)
        (check_lem (length t.iteration == standard.size o) (t, o) (ground (arith, y.agrees.size)))
      ∙ contains_both-lem is_avalanching standard float default memory granted policy laws n budget
          t o y key

  module _ (t : Table F ℕ ℕ) (o : O) (a : Agrees is_avalanching standard (t, o)) where
    passes :
        (b : Bool) (rest : Action (Pair F O) (Unit {0}))
        → b ≡ true
        → (check b >> rest) (t, o) ≡ rest (t, o)
    passes b rest e = bind-returned (check b) (λ _. rest) (t, o) (check_lem b (t, o) e)

    asks :
        {A : Type 0} (m : Action (Table F ℕ ℕ) A) (rest : A → Action (Pair F O) (Unit {0})) (r : A)
        → m t ≡ returned r t
        → (on_tested m >>= rest) (t, o) ≡ rest r (t, o)
    asks m rest r run = bind-returned (on_tested m) rest (t, o) (ap (λ k. left_of o k) run)

    to_nat-one : (b : Bool) → to_nat b ≡ 1 → b ≡ true
    to_nat-one true e = refl
    to_nat-one false e = absurd (omega (arith, e))

    check_keys_lem :
        (list : List ℕ)
        → AreKeys standard o list
        → check_keys standard is_avalanching float memory true policy list (t, o)
          ≡ returned tt (t, o)
    unfolding check_keys
    check_keys_lem [] h = refl
    check_keys_lem (key ∷ rest) (e, h) =
        let held = has_some (view traits t key) in
        let there : held ≡ true = to_nat-one held (sym (a.shown key) ∙ e) in
        let (x, run, found) = find-cases traits t a.valid key in
        let again = check_keys standard is_avalanching float memory true policy rest in
        let find_it : Action (Pair F O) (Unit {0}) =
          on_tested (find traits key) >>= (λ it. check (not (it == null_index)) >> again) in
        let count_it : Action (Pair F O) (Unit {0}) =
          on_tested (count_key traits key) >>= (λ count. check (count == 1) >> find_it) in
        elim found [
          | inl (_, none_there) ↦ absurd (ground (arith, ap has_some none_there, there))
          | inr (some_there, _) ↦
              asks (contains traits key) (λ held. check held >> count_it) held
                (contains-view traits t a.valid key)
              ∙ passes held count_it there
              ∙ asks (count_key traits key) (λ count. check (count == 1) >> find_it)
                  (if held then 1 else 0) (count_key-view traits t a.valid key)
              ∙ passes ((if held then 1 else 0) == 1) find_it (rw there refl)
              ∙ asks (find traits key) (λ it. check (not (it == null_index)) >> again) x run
              ∙ passes (not (x == null_index)) again (ap not some_there)
              ∙ check_keys_lem rest h
        ]

    -- One round of the loop over the tested set, at a node with an element.
    check_tested_round :
        (fuel x iterated key : ℕ)
        → (x == null_index) ≡ false
        → Stores t x key
        → check_tested standard is_avalanching float memory true policy (suc fuel) x iterated (t, o)
          ≡ check_tested standard is_avalanching float memory true policy fuel
              (next_index t x)
              (iterated + 1)
              (t, o)
    unfolding check_tested
    check_tested_round fuel x iterated key other st =
        let shown : view traits t key ≡ some key =
          view-eq_of_Maps traits t key (some key) a.valid
            (x, st, a.valid.searchable.lawful.equal_refl key) in
        let one : standard.count_of o key ≡ 1 = a.shown key ∙ ap (λ v. to_nat (has_some v)) shown in
        let rest : Action (Pair F O) ℕ = λ s.
          check_tested standard is_avalanching float memory true policy fuel (next_index s.0 x)
            (iterated + 1) s in
        rw (other, st.1)
          (bind-returned (check (standard.count_of o key == 1)) (λ _. rest) (t, o)
            (check_lem (standard.count_of o key == 1) (t, o) (rw one refl)))

    check_tested_lem :
        length t.iteration < 2 ^ 32
        → (fuel p : ℕ) → p ≤ length t.iteration
        → length t.iteration < fuel + p
        → check_tested standard is_avalanching float memory true policy fuel
            (element_at t p)
            p
            (t, o)
          ≡ returned (length t.iteration) (t, o)
    unfolding check_tested
    check_tested_lem small =
        visits_all traits t a.valid small
          (λ fuel x i.
            check_tested standard is_avalanching float memory true policy fuel x i (t, o))
          (λ i. returned i (t, o)) (λ fuel x i e. if_true {b = x == null_index} _ _ e)
          check_tested_round

  pub full_cross_check_lem :
      (within : F → F → Bool) (n : ℕ) (t : Table F ℕ ℕ) (o : O)
      → IsTolerant float float.default_max_load_factor within
      → n ≤ 2 ^ 20
      → Synced is_avalanching standard float n (t, o)
      → full_cross_check standard is_avalanching float memory true policy within (t, o)
        ≡ returned tt (t, o)
  unfolding full_cross_check begin_index
  full_cross_check_lem within n t o tolerant few y =
      let a = y.agrees in
      let size = length t.iteration in
      let load : Action (Pair F O) (Unit {0}) =
        check (within (load_factor float t) t.max_load_factor) in
      let count_all : ℕ → Action (Pair F O) (Unit {0}) =
        λ iterated. check (iterated == size) >> load in
      let visit_all : Action (Pair F O) ℕ =
        check_tested standard is_avalanching float memory true policy (size + 1) (begin_index t)
          0 in
      let keys = check_keys standard is_avalanching float memory true policy (standard.keys o) in
      passes t o a (size == standard.size o) (keys >> (visit_all >>= count_all))
        (ground (arith, a.size))
      ∙ bind-returned keys (λ _. visit_all >>= count_all) (t, o)
          (check_keys_lem t o a (standard.keys o) (laws.keys o))
      ∙ bind-returned visit_all count_all (t, o)
          (check_tested_lem t o a (omega (arith, y.bounded.within.size, few)) (size + 1) 0
            (omega arith) (omega arith))
      ∙ passes t o a (size == size) load (ground arith)
      ∙ check_lem (within (load_factor float t) t.max_load_factor) (t, o)
          (bounded_load float default n t y.bounded within tolerant)
