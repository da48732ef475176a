-- ===== src/Fuzz/Copied.antt =====
-- The round trip of the fuzzer through a copy.
use cpp_unordered_map.Prelude.{
  ℕ, ◌+◌, ◌*◌, ◌≤◌, ◌<◌, ◌^◌, ◌≡◌, refl, sym, ◌∙◌, ap, inl, inr, Bool, true, false, some, length,
  ◌==◌, arith,
}
use cpp_unordered_map.Hash.{Policy, Traits}
use cpp_unordered_map.Load.{FloatOps}
use cpp_unordered_map.Outcome.{Action, returned, bind-returned, ◌>>=◌, ◌>>◌}
use cpp_unordered_map.Table.{Table, Memory}
use cpp_unordered_map.Valid.{IsValid}
use cpp_unordered_map.Contents.{view, view-eq_of_Maps}
use cpp_unordered_map.Engine.Reserve.{IsGranted}
use cpp_unordered_map.Adapters.{map_traits, map_equal}
use cpp_unordered_map.Adapters.Equal.{has_same, map_equal-Compares}
use cpp_unordered_map.Lifecycle.{copy_assign}
use cpp_unordered_map.Handles.{left_of}
use cpp_unordered_map.Fuzz.{Oracle, Pair, check, on_tested, with_local, copy_round_trip}
use cpp_unordered_map.Fuzz.Agree.{same-Agrees}
use cpp_unordered_map.Fuzz.Follow.{check_lem}
use cpp_unordered_map.Fuzz.Bounded.{IsEightTenths, copies_back_lem}
use cpp_unordered_map.Fuzz.Synced.{Synced}

module _ (is_avalanching : Bool) where
  abbrev traits : Traits ℕ (ℕ × ℕ)
  traits = map_traits is_avalanching

  module _ {F : Type 0} where
    -- A map compares equal to one with the same view.
    map_equal_lem :
        (lhs rhs : Table F ℕ (ℕ × ℕ))
        → IsValid traits lhs
        → IsValid traits rhs
        → length lhs.iteration < 2 ^ 32
        → length lhs.iteration ≡ length rhs.iteration
        → view traits lhs ≡ view traits rhs
        → map_equal traits ◌==◌ lhs rhs ≡ returned true rhs
    map_equal_lem lhs rhs valid valid' small size shown =
        let (b, run, c) = map_equal-Compares traits ◌==◌ lhs rhs valid valid' small in
        elim c [
          | inl (e, _, _) ↦ run ∙ ap (λ b. returned b rhs) e
          | inr (_, inl sizes) ↦ absurd (ground (arith, sizes, size))
          | inr (_, inr (x, v, st, differs)) ↦
              let mine : view traits lhs v.0 ≡ some v =
                view-eq_of_Maps traits lhs v.0 (some v) valid
                  (x, st, valid.searchable.lawful.equal_refl v.0) in
              let theirs : view traits rhs v.0 ≡ some v = ap (λ f. f v.0) (sym shown) ∙ mine in
              let here : (v.1 == v.1) ≡ false =
                sym (ap (λ o. has_same ◌==◌ o v) theirs) ∙ differs in
              absurd (ground (arith, here))
        ]

  module _ {F O : Type 0} (standard : Oracle O) (float : FloatOps F)
      (default : IsEightTenths float float.default_max_load_factor) (memory : Memory)
      (granted : IsGranted memory) (policy : Policy ℕ) where
    pub copy_round_trip-Synced :
        (n : ℕ)
        → 4 * n + 8 ≤ 2 ^ 22
        → (t : Table F ℕ (ℕ × ℕ)) (o : O) → Synced is_avalanching standard float n (t, o)
        → (s' : Pair F O) × (copy_round_trip standard is_avalanching float memory true policy (t, o)
            ≡ returned tt s')
          × Synced is_avalanching standard float (n + 1) s'
    unfolding copy_round_trip
    copy_round_trip-Synced n budget t o y =
        let valid = y.agrees.valid in
        let (c, t', back) =
          copies_back_lem float default n budget t y.bounded traits memory granted valid in
        let equal = map_equal_lem c t back.valid_copy valid back.small back.size back.shown_copy in
        let assign : Action (Pair F O) (Unit {0}) =
          on_tested (copy_assign traits float memory false true (λ v. some v) c) in
        let body : Table F ℕ (ℕ × ℕ) → Action (Pair F O) (Unit {0}) = λ copy.
          on_tested (map_equal traits ◌==◌ copy) >>= (λ equal.
            check equal
            >> on_tested (copy_assign traits float memory false true (λ v. some v) copy)) in
        (
          (t', o),
          ap (λ local. with_local local body (t, o)) back.made
              ∙ bind-returned (on_tested (map_equal traits ◌==◌ c)) (λ equal. check equal >> assign)
                  (t, o) (ap (λ k. left_of o k) equal)
              ∙ bind-returned (check true) (λ _. assign) (t, o) (check_lem true (t, o) refl)
              ∙ ap (λ k. left_of o k) back.assigned,
          record {
            agrees =
                same-Agrees is_avalanching standard t t' o y.agrees back.valid_back back.policy o
                  refl (λ k. refl) back.shown;
            bounded = back.bounded;
          },
        )
