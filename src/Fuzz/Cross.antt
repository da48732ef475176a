-- ===== src/Fuzz/Cross.antt =====
-- The checks after an operation, and `full_cross_check`.
use cpp_unordered_map.Prelude.{
  ℕ, suc, ◌+◌, ◌≤◌, ◌<◌, ◌^◌, ◌≡◌, refl, sym, ◌∙◌, ap, inl, inr, Bool, true, false, not, Option,
  none, some, List, [], ◌∷◌, length, ◌==◌, if◌then◌else◌, arith, if_true,
}
use cpp_unordered_map.Hash.{Policy, Traits}
use cpp_unordered_map.Index.{null_index}
use cpp_unordered_map.Load.{FloatOps}
use cpp_unordered_map.Outcome.{Action, returned, bind-returned, read, ◌>>=◌, ◌>>◌}
use cpp_unordered_map.Table.{Table, Memory}
use cpp_unordered_map.Valid.{Stores}
use cpp_unordered_map.Engine.Reserve.{IsGranted}
use cpp_unordered_map.Contents.{has_some, view, view-eq_of_Maps}
use cpp_unordered_map.Iterator.{element_at, next_index, begin_index}
use cpp_unordered_map.Container.{contains, count_key, find, load_factor}
use cpp_unordered_map.Container.Find.{find-cases, contains-view, count_key-view}
use cpp_unordered_map.Adapters.{map_traits, at}
use cpp_unordered_map.Adapters.Access.{accessed, at-view}
use cpp_unordered_map.Adapters.View.{mapped_of}
use cpp_unordered_map.Handles.{left_of}
use cpp_unordered_map.Fuzz.{Oracle, Pair, check, on_tested, same_flag, is_value, mapped_at}
use cpp_unordered_map.Fuzz.Run.{agree, check_entries, check_tested, full_cross_check}
use cpp_unordered_map.Fuzz.Standard.{IsStandard, AreEntries}
use cpp_unordered_map.Fuzz.Agree.{Agrees}
use cpp_unordered_map.Fuzz.Follow.{check_lem}
use cpp_unordered_map.Fuzz.Found.{count-shown}
use cpp_unordered_map.Fuzz.Bounded.{IsEightTenths, IsTolerant, bounded_load}
use cpp_unordered_map.Iterator.Visit.{visits_all}
use cpp_unordered_map.Fuzz.Synced.{Synced}

module _ (is_avalanching : Bool) {F O : Type 0} (standard : Oracle O) (float : FloatOps F)
    (memory : Memory) (policy : Policy ℕ) (granted : IsGranted memory)
    (laws : IsStandard standard) where
  abbrev traits : Traits ℕ (ℕ × ℕ)
  traits = map_traits is_avalanching

  module _ (t : Table F ℕ (ℕ × ℕ)) (o : O) (a : Agrees is_avalanching standard (t, o)) where
    passes :
        (b : Bool) (rest : Action (Pair F O) (Unit {0}))
        → b ≡ true
        → (check b >> rest) (t, o) ≡ rest (t, o)
    passes b rest e = bind-returned (check b) (λ _. rest) (t, o) (check_lem b (t, o) e)

    asks :
        {A : Type 0} (m : Action (Table F ℕ (ℕ × ℕ)) A) (rest : A → Action (Pair F O) (Unit {0}))
        (r : A)
        → m t ≡ returned r t
        → (on_tested m >>= rest) (t, o) ≡ rest r (t, o)
    asks m rest r run = bind-returned (on_tested m) rest (t, o) (ap (λ k. left_of o k) run)

    pub agree_lem :
        (key : ℕ)
        → agree standard is_avalanching float memory true policy key (t, o) ≡ returned tt (t, o)
    unfolding agree
    agree_lem key =
        let there = has_some (view traits t key) in
        let sizes : (length t.iteration == standard.size o) ≡ true = ground (arith, a.size) in
        let counted =
          count-shown is_avalanching standard float memory policy granted laws t o key there a
            refl in
        let flags : same_flag there (not (standard.count_of o key == 0)) ≡ true =
          rw counted (agrees_flag there) in
        let finish : Bool → Bool → Action (Pair F O) (Unit {0}) =
          λ present held. check (same_flag held present) in
        let ask : Bool → Action (Pair F O) (Unit {0}) =
          λ present. on_tested (contains traits key) >>= finish present in
        passes (length t.iteration == standard.size o)
          (read (λ s. not (standard.count_of s.1 key == 0)) >>= ask) sizes
        ∙ asks (contains traits key) (finish (not (standard.count_of o key == 0))) there
            (contains-view traits t a.valid key)
        ∙ check_lem (same_flag there (not (standard.count_of o key == 0))) (t, o) flags
      where
        agrees_flag : (b : Bool) → same_flag b (not ((if b then 1 else 0) == 0)) ≡ true
        agrees_flag true = refl
        agrees_flag false = refl

    -- The element of a key that the standard map has.
    entry_lem :
        (key value : ℕ)
        → standard.value_at o key ≡ some value
        → (w : ℕ × ℕ) × (view traits t key ≡ some w) × (w.1 ≡ value)
    entry_lem key value e = split (view traits t key) (sym (a.shown key) ∙ e)
      where
        split :
            (o : Option (ℕ × ℕ))
            → mapped_of o ≡ some value
            → (w : ℕ × ℕ) × (o ≡ some w) × (w.1 ≡ value)
        split none e = absurd (ground (arith, ap has_some e))
        split (some w) e = (w, refl, ap (λ (o : Option ℕ). elim o [ none ↦ w.1 | some k ↦ k ]) e)

    check_entries_lem :
        (list : List (ℕ × ℕ))
        → AreEntries standard o list
        → check_entries standard is_avalanching float memory true policy list (t, o)
          ≡ returned tt (t, o)
    unfolding check_entries mapped_at
    check_entries_lem [] h = refl
    check_entries_lem ((key, value) ∷ rest) (e, h) =
        let (w, shown, same) = entry_lem key value e in
        let (x, run, found) = find-cases traits t a.valid key in
        let again = check_entries standard is_avalanching float memory true policy rest in
        let there : has_some (view traits t key) ≡ true = ap has_some shown in
        let at_it : Action (Pair F O) (Unit {0}) =
          on_tested (at traits key) >>= (λ mapped. check (mapped == value) >> again) in
        let count_it : Action (Pair F O) (Unit {0}) =
          on_tested (count_key traits key) >>= (λ count. check (count == 1) >> at_it) in
        let hold_it : Action (Pair F O) (Unit {0}) =
          on_tested (contains traits key) >>= (λ held. check held >> count_it) in
        let map_it : ℕ → Action (Pair F O) (Unit {0}) =
          λ it. on_tested (mapped_at it) >>= (λ found. check (found == value) >> hold_it) in
        elim found [
          | inl (_, none_there) ↦ absurd (ground (arith, ap has_some none_there, there))
          | inr (some_there, (v, shown_v, st, _)) ↦
              let joined : some v ≡ some w = sym shown_v ∙ shown in
              let second : v.1 ≡ value =
                ap (λ (o : Option (ℕ × ℕ)). elim o [ none ↦ v.1 | some z ↦ z.1 ]) joined ∙ same in
              let mapped : mapped_at x t ≡ returned v.1 t = rw st.1 refl in
              asks (find traits key) (λ it. check (not (it == null_index)) >> map_it it) x run
              ∙ passes (not (x == null_index)) (map_it x) (ap not some_there)
              ∙ asks (mapped_at x) (λ found. check (found == value) >> hold_it) v.1 mapped
              ∙ passes (v.1 == value) hold_it (ground (arith, second))
              ∙ asks (contains traits key) (λ held. check held >> count_it)
                  (has_some (view traits t key)) (contains-view traits t a.valid key)
              ∙ passes (has_some (view traits t key)) count_it there
              ∙ asks (count_key traits key) (λ count. check (count == 1) >> at_it)
                  (if has_some (view traits t key) then 1 else 0)
                  (count_key-view traits t a.valid key)
              ∙ passes ((if has_some (view traits t key) then 1 else 0) == 1) at_it (rw there refl)
              ∙ asks (at traits key) (λ mapped. check (mapped == value) >> again) w.1
                  (at-view traits t a.valid key ∙ ap (accessed t) shown)
              ∙ passes (w.1 == value) again (ground (arith, same))
              ∙ check_entries_lem rest h
        ]

    -- One round of the loop over the tested map, at a node with an element.
    check_tested_round :
        (fuel x iterated : ℕ) (v : ℕ × ℕ)
        → (x == null_index) ≡ false
        → Stores t x v
        → check_tested standard is_avalanching float memory true policy (suc fuel) x iterated (t, o)
          ≡ check_tested standard is_avalanching float memory true policy fuel
              (next_index t x)
              (iterated + 1)
              (t, o)
    unfolding check_tested
    check_tested_round fuel x iterated v other st =
        let shown : view traits t v.0 ≡ some v =
          view-eq_of_Maps traits t v.0 (some v) a.valid
            (x, st, a.valid.searchable.lawful.equal_refl v.0) in
        let value : standard.value_at o v.0 ≡ some v.1 = a.shown v.0 ∙ ap mapped_of shown in
        let rest : Action (Pair F O) ℕ = λ s.
          check_tested standard is_avalanching float memory true policy fuel (next_index s.0 x)
            (iterated + 1) s in
        rw (other, st.1)
          (bind-returned (check (is_value (standard.value_at o v.0) v.1)) (λ _. rest) (t, o)
            (check_lem (is_value (standard.value_at o v.0) v.1) (t, o) (rw value (ground arith))))

    check_tested_lem :
        length t.iteration < 2 ^ 32
        → (fuel p : ℕ) → p ≤ length t.iteration
        → length t.iteration < fuel + p
        → check_tested standard is_avalanching float memory true policy fuel
            (element_at t p)
            p
            (t, o)
          ≡ returned (length t.iteration) (t, o)
    unfolding check_tested
    check_tested_lem small =
        visits_all traits t a.valid small
          (λ fuel x i.
            check_tested standard is_avalanching float memory true policy fuel x i (t, o))
          (λ i. returned i (t, o)) (λ fuel x i e. if_true {b = x == null_index} _ _ e)
          check_tested_round

  pub full_cross_check_lem :
      (within : F → F → Bool) (n : ℕ) (t : Table F ℕ (ℕ × ℕ)) (o : O)
      → IsEightTenths float float.default_max_load_factor
      → IsTolerant float float.default_max_load_factor within
      → n ≤ 2 ^ 20
      → Synced is_avalanching standard float n (t, o)
      → full_cross_check standard is_avalanching float memory true policy within (t, o)
        ≡ returned tt (t, o)
  unfolding full_cross_check begin_index
  full_cross_check_lem within n t o default tolerant few y =
      let a = y.agrees in
      let size = length t.iteration in
      let load : Action (Pair F O) (Unit {0}) =
        check (within (load_factor float t) t.max_load_factor) in
      let count_all : ℕ → Action (Pair F O) (Unit {0}) =
        λ iterated. check (iterated == size) >> load in
      let visit_all : Action (Pair F O) ℕ =
        check_tested standard is_avalanching float memory true policy (size + 1) (begin_index t)
          0 in
      let entries =
        check_entries standard is_avalanching float memory true policy (standard.entries o) in
      passes t o a (size == standard.size o) (entries >> (visit_all >>= count_all))
        (ground (arith, a.size))
      ∙ bind-returned entries (λ _. visit_all >>= count_all) (t, o)
          (check_entries_lem t o a (standard.entries o) (laws.entries o))
      ∙ bind-returned visit_all count_all (t, o)
          (check_tested_lem t o a (omega (arith, y.bounded.within.size, few)) (size + 1) 0
            (omega arith) (omega arith))
      ∙ passes t o a (size == size) load (ground arith)
      ∙ check_lem (within (load_factor float t) t.max_load_factor) (t, o)
          (bounded_load float default n t y.bounded within tolerant)
