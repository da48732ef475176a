-- ===== src/FuzzSet/Synced.antt =====
-- The operations of the fuzzer of the set on one key: each passes its checks and keeps the sets in
-- agreement.
use cpp_unordered_map.Prelude.{
  ℕ, ◌+◌, ◌*◌, ◌≤◌, ◌<◌, ◌^◌, ◌≡◌, refl, sym, ◌∙◌, ap, inl, inr, Bool, true, false, not, to_nat,
  some, length, ◌==◌, ==→eq, if◌then◌else◌, arith,
}
use cpp_unordered_map.Hash.{Policy, Traits}
use cpp_unordered_map.Index.{null_index}
use cpp_unordered_map.Load.{FloatOps}
use cpp_unordered_map.Outcome.{Action, returned, bind-returned, pure, read, ◌>>=◌}
use cpp_unordered_map.Table.{Table, Memory}
use cpp_unordered_map.Growth.{Grows, Keeps, Keeps-refl, Keeps-Grows}
use cpp_unordered_map.Contents.{has_some, view, without}
use cpp_unordered_map.Contents.Change.{view-without}
use cpp_unordered_map.Contents.Refine.{Emplaces-view, Removes-view, view-HoldsKey, view-IsAbsent}
use cpp_unordered_map.Engine.{emplace_impl, erase_key}
use cpp_unordered_map.Engine.Emplace.{emplace_impl-Emplaces}
use cpp_unordered_map.Engine.Remove.{erase_key-ErasesKey}
use cpp_unordered_map.Engine.Reserve.{IsGranted}
use cpp_unordered_map.Container.{contains, find, erase_at}
use cpp_unordered_map.Container.Find.{contains-view, find-cases}
use cpp_unordered_map.Container.Locate.{erase_at-Removes}
use cpp_unordered_map.Adapters.{set_traits}
use cpp_unordered_map.Handles.{left_of}
use cpp_unordered_map.Fuzz.{check, on_tested, on_oracle, same_flag}
use cpp_unordered_map.Fuzz.Follow.{check_lem, same_flag-eq}
use cpp_unordered_map.Fuzz.Bounded.{IsEightTenths, IsBounded, Grows-IsBounded, bounded_slots}
use cpp_unordered_map.FuzzSet.{SetOracle, Pair, insert_both, erase_both, erase_found, contains_both}
use cpp_unordered_map.FuzzSet.Standard.{IsStandard, InsertsLikeStandard}
use cpp_unordered_map.FuzzSet.Agree.{Agrees, erased-Agrees, inserted-Agrees, lacks-shown}

-- After `n` operations: the sets agree, and the tested one is in its bounds.
pub record Synced (is_avalanching : Bool) {F O : Type 0} (standard : SetOracle O)
    (float : FloatOps F) (n : ℕ) (s : Pair F O) : Type 0 where
  pub agrees : Agrees is_avalanching standard s
  pub bounded : IsBounded float n s.0

module _ (is_avalanching : Bool) {F O : Type 0} (standard : SetOracle O) (float : FloatOps F)
    (default : IsEightTenths float float.default_max_load_factor) (memory : Memory)
    (granted : IsGranted memory) (policy : Policy ℕ) (laws : IsStandard standard) (n : ℕ)
    (budget : 4 * n + 8 ≤ 2 ^ 22) (t : Table F ℕ ℕ) (o : O)
    (y : Synced is_avalanching standard float n (t, o)) where
  abbrev traits : Traits ℕ ℕ
  traits = set_traits is_avalanching

  -- An operation on both sets returns and keeps them in agreement.
  abbrev pub KeepsSynced : Action (Pair F O) (Unit {0}) → Type 0
  KeepsSynced m =
      (s' : Pair F O) × (m (t, o) ≡ returned tt s')
      × Synced is_avalanching standard float (n + 1) s'

  agreed : Agrees is_avalanching standard (t, o)
  agreed = y.agrees

  grown : (t' : Table F ℕ ℕ) → Grows float t t' → IsBounded float (n + 1) t'
  grown = Grows-IsBounded float default n budget t y.bounded

  kept : (t' : Table F ℕ ℕ) → Keeps t t' → IsBounded float (n + 1) t'
  kept t' k = grown t' (Keeps-Grows float k)

  below : t.arena_high_water < null_index
  below = bounded_slots float default n budget t y.bounded

  pub stays-Synced : Synced is_avalanching standard float (n + 1) (t, o)
  stays-Synced = record { agrees = y.agrees; bounded = kept t (Keeps-refl t) }

  -- How often the standard set has a key, by what the tested one has.
  pub count-shown :
      (key : ℕ) (b : Bool) → has_some (view traits t key) ≡ b → standard.count_of o key ≡ to_nat b
  count-shown key b e = agreed.shown key ∙ ap to_nat e

  pub insert_both-Synced :
      (insert : ℕ → O → Bool × O)
      → InsertsLikeStandard standard insert
      → (key : ℕ)
      → KeepsSynced (insert_both standard is_avalanching float memory true policy key (insert key))
  unfolding insert_both
  insert_both-Synced insert like key =
      let (r, t', run, e) =
        emplace_impl-Emplaces traits float memory granted t key agreed.valid below
          y.bounded.within.count in
      let (shown, flag) = Emplaces-view traits float t t' key r agreed.valid e in
      let same : r.1 ≡ (insert key o).0 =
        flag
        ∙ sym (lacks-shown is_avalanching standard (t, o) key agreed)
        ∙ sym (like.flag o key) in
      (
        (t', (insert key o).1),
        bind-returned (on_tested (emplace_impl traits float memory (some key)))
              (λ a. on_oracle (insert key) >>= (λ b. check (same_flag a.1 b))) (t, o)
              (ap (λ k. left_of o k) run)
            ∙ check_lem (same_flag r.1 (insert key o).0) (t', (insert key o).1)
                (same_flag-eq r.1 (insert key o).0 same),
        record {
          agrees =
              inserted-Agrees is_avalanching standard t t' o agreed e.valid e.growth.policy insert
                key r.1 like flag e.grows shown;
          bounded = grown t' e.growth;
        },
      )

  pub erase_both-Synced :
      (key : ℕ) → KeepsSynced (erase_both standard is_avalanching float memory true policy key)
  unfolding erase_both
  erase_both-Synced key =
      let (m, t', run, e) = erase_key-ErasesKey traits t key agreed.valid in
      let counted : m ≡ to_nat (has_some (view traits t key)) = elim e.decides [
        | inl (one, (x, w, st, same)) ↦
            one ∙ sym (ap to_nat (view-HoldsKey traits t key x agreed.valid (w, st, same)))
        | inr (none_there, absent) ↦
            none_there ∙ sym (ap to_nat (view-IsAbsent traits t key agreed.valid absent))
      ] in
      let same : m ≡ (standard.erase key o).0 =
        counted ∙ sym (agreed.shown key) ∙ sym (laws.erase.erased o key) in
      (
        (t', (standard.erase key o).1),
        bind-returned (on_tested (erase_key traits key))
              (λ a. on_oracle (standard.erase key) >>= (λ b. check (a == b))) (t, o)
              (ap (λ k. left_of o k) run)
            ∙ check_lem (m == (standard.erase key o).0) (t', (standard.erase key o).1)
                (ground (arith, same)),
        record {
          agrees =
              erased-Agrees is_avalanching standard t t' o agreed e.valid e.kept.policy key
                laws.erase (ap (λ k. length t'.iteration + k) (sym counted) ∙ e.shrinks)
                (view-without traits t t' e.kept.policy agreed.valid e.valid key e.keeps);
          bounded = kept t' e.kept;
        },
      )

  pub erase_found-Synced :
      (key : ℕ) → KeepsSynced (erase_found standard is_avalanching float memory true policy key)
  unfolding erase_found
  erase_found-Synced key =
      let (x, run, found) = find-cases traits t agreed.valid key in
      let finish : Action (Pair F O) (Unit {0}) =
        on_oracle (standard.erase key) >>= (λ erased. pure tt) in
      let erase : ℕ → Action (Pair F O) (Unit {0}) =
        λ it. on_tested (erase_at traits it) >>= (λ next. finish) in
      let start =
        bind-returned (on_tested (find traits key))
          (λ it. if not (it == null_index) then erase it else pure tt) (t, o)
          (ap (λ k. left_of o k) run) in
      elim found [
        | inl (e, _) ↦ ((t, o), rw e at start, stays-Synced)
        | inr (e, (v, shown, st, same)) ↦
            let (t', run', p) = erase_at-Removes traits t agreed.valid x v st in
            let key_same : v ≡ key = sym (==→eq key v (sym (agreed.plain_keys key v) ∙ same)) in
            let one : to_nat (has_some (view traits t key)) ≡ 1 =
              ap (λ k. to_nat (has_some k)) shown in
            (
              (t', (standard.erase key o).1),
              (rw e at start)
                  ∙ bind-returned (on_tested (erase_at traits x)) (λ next. finish) (t, o)
                      (ap (λ k. left_of o k) run'),
              record {
                agrees =
                    erased-Agrees is_avalanching standard t t' o agreed p.valid p.kept.policy key
                      laws.erase (ap (λ k. length t'.iteration + k) one ∙ p.shrinks)
                      (Removes-view traits t t' x v agreed.valid st p
                        ∙ ap (λ k. without traits t.policy k (view traits t)) key_same);
                bounded = kept t' p.kept;
              },
            )
      ]

  -- The check of membership passes.
  pub contains_both-lem :
      (key : ℕ)
      → contains_both standard is_avalanching float memory true policy key (t, o)
        ≡ returned tt (t, o)
  unfolding contains_both
  contains_both-lem key =
      let there = has_some (view traits t key) in
      let absent = lacks-shown is_avalanching standard (t, o) key agreed in
      bind-returned (on_tested (contains traits key))
        (λ held.
          read (λ s. not (standard.count_of s.1 key == 0))
          >>= (λ present. check (same_flag held present)))
        (t, o) (ap (λ k. left_of o k) (contains-view traits t agreed.valid key))
      ∙ check_lem (same_flag there (not (standard.count_of o key == 0))) (t, o)
          (same_flag-eq there (not (standard.count_of o key == 0))
            (sym (ap not absent ∙ not-not there)))
    where
      not-not : (b : Bool) → not (not b) ≡ b
      not-not true = refl
      not-not false = refl
