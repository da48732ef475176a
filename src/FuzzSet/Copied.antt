-- ===== src/FuzzSet/Copied.antt =====
-- The round trip of the fuzzer of the set through a copy.
use cpp_unordered_map.Prelude.{
  ℕ, ◌+◌, ◌*◌, ◌≤◌, ◌<◌, ◌^◌, ◌≡◌, refl, sym, ◌∙◌, ap, inl, inr, Bool, true, false, some, length,
  arith,
}
use cpp_unordered_map.Hash.{Policy, Traits}
use cpp_unordered_map.Load.{FloatOps}
use cpp_unordered_map.Outcome.{Action, returned, bind-returned, ◌>>=◌, ◌>>◌}
use cpp_unordered_map.Table.{Table, Memory}
use cpp_unordered_map.Valid.{IsValid}
use cpp_unordered_map.Contents.{view, has_some, view-eq_of_Maps}
use cpp_unordered_map.Engine.Reserve.{IsGranted}
use cpp_unordered_map.Adapters.{set_traits, set_equal}
use cpp_unordered_map.Adapters.Subset.{set_equal-Compares}
use cpp_unordered_map.Lifecycle.{copy_assign}
use cpp_unordered_map.Handles.{left_of}
use cpp_unordered_map.Fuzz.{check, on_tested, with_local}
use cpp_unordered_map.Fuzz.Follow.{check_lem}
use cpp_unordered_map.Fuzz.Bounded.{IsEightTenths, copies_back_lem}
use cpp_unordered_map.FuzzSet.{SetOracle, Pair, copy_round_trip}
use cpp_unordered_map.FuzzSet.Agree.{same-Agrees}
use cpp_unordered_map.FuzzSet.Synced.{Synced}

module _ (is_avalanching : Bool) where
  abbrev traits : Traits ℕ ℕ
  traits = set_traits is_avalanching

  -- A set compares equal to one with the same view.
  set_equal_lem :
      {F : Type 0} (lhs rhs : Table F ℕ ℕ)
      → IsValid traits lhs
      → IsValid traits rhs
      → length lhs.iteration < 2 ^ 32
      → length lhs.iteration ≡ length rhs.iteration
      → view traits lhs ≡ view traits rhs
      → set_equal traits lhs rhs ≡ returned true rhs
  set_equal_lem lhs rhs valid valid' small size shown =
      let (b, run, c) = set_equal-Compares traits lhs rhs valid valid' small in
      elim c [
        | inl (e, _, _) ↦ run ∙ ap (λ b. returned b rhs) e
        | inr (_, inl sizes) ↦ absurd (ground (arith, sizes, size))
        | inr (_, inr (x, key, st, lacks)) ↦
            let mine : view traits lhs key ≡ some key =
              view-eq_of_Maps traits lhs key (some key) valid
                (x, st, valid.searchable.lawful.equal_refl key) in
            let there : has_some (view traits rhs key) ≡ true =
              ap has_some (ap (λ f. f key) (sym shown) ∙ mine) in
            absurd (ground (arith, there, lacks))
      ]

  module _ {F O : Type 0} (standard : SetOracle O) (float : FloatOps F)
      (default : IsEightTenths float float.default_max_load_factor) (memory : Memory)
      (granted : IsGranted memory) (policy : Policy ℕ) where
    pub copy_round_trip-Synced :
        (n : ℕ)
        → 4 * n + 8 ≤ 2 ^ 22
        → (t : Table F ℕ ℕ) (o : O) → Synced is_avalanching standard float n (t, o)
        → (s' : Pair F O) × (copy_round_trip standard is_avalanching float memory true policy (t, o)
            ≡ returned tt s')
          × Synced is_avalanching standard float (n + 1) s'
    unfolding copy_round_trip
    copy_round_trip-Synced n budget t o y =
        let valid = y.agrees.valid in
        let (c, t', back) =
          copies_back_lem float default n budget t y.bounded traits memory granted valid in
        let equal = set_equal_lem c t back.valid_copy valid back.small back.size back.shown_copy in
        let assign : Table F ℕ ℕ → Action (Pair F O) (Unit {0}) =
          λ copy. on_tested (copy_assign traits float memory false true (λ v. some v) copy) in
        let body : Table F ℕ ℕ → Action (Pair F O) (Unit {0}) =
          λ copy. on_tested (set_equal traits copy) >>= (λ equal. check equal >> assign copy) in
        (
          (t', o),
          ap (λ local. with_local local body (t, o)) back.made
              ∙ bind-returned (on_tested (set_equal traits c)) (λ equal. check equal >> assign c)
                  (t, o) (ap (λ k. left_of o k) equal)
              ∙ bind-returned (check true) (λ _. assign c) (t, o) (check_lem true (t, o) refl)
              ∙ ap (λ k. left_of o k) back.assigned,
          record {
            agrees =
                same-Agrees is_avalanching standard t t' o y.agrees back.valid_back back.policy o
                  refl (λ k. refl) back.shown;
            bounded = back.bounded;
          },
        )
