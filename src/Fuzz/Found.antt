-- ===== src/Fuzz/Found.antt =====
-- Operations on both maps that look for a key first.
use cpp_unordered_map.Prelude.{
  ℕ, ◌+◌, ◌≤◌, ◌<◌, ◌^◌, ◌≡◌, refl, sym, ◌∙◌, ap, inl, inr, Bool, true, false, not, Option, none,
  some, length, ◌==◌, if◌then◌else◌, arith, ==→eq,
}
use cpp_unordered_map.Hash.{Policy, Traits}
use cpp_unordered_map.Index.{null_index}
use cpp_unordered_map.Load.{FloatOps}
use cpp_unordered_map.Outcome.{Action, returned, bind-returned, pure, read, ◌>>=◌, ◌>>◌}
use cpp_unordered_map.Table.{Table, Memory}
use cpp_unordered_map.Growth.{Keeps-refl, Keeps-Grows}
use cpp_unordered_map.Contents.{has_some, view, without}
use cpp_unordered_map.Contents.Refine.{Removes-view, view-HoldsKey, view-IsAbsent}
use cpp_unordered_map.Engine.Remove.{Removes-Grows}
use cpp_unordered_map.Engine.Reserve.{IsGranted}
use cpp_unordered_map.Container.{find, erase_at}
use cpp_unordered_map.Container.Find.{find-cases}
use cpp_unordered_map.Container.Locate.{erase_at-Removes}
use cpp_unordered_map.Adapters.{map_traits}
use cpp_unordered_map.Adapters.View.{mapped_of}
use cpp_unordered_map.Handles.{left_of, extract_key, insert_handle}
use cpp_unordered_map.Handles.Extract.{extract_key-cases, insert_handle-InsertsHandle}
use cpp_unordered_map.Handles.RoundTrip.{reinserted_lem}
use cpp_unordered_map.Fuzz.{
  Oracle, Pair, check, on_tested, on_oracle, same_flag, is_value, mapped_at, erase_found, find_both,
  extract_and_reinsert,
}
use cpp_unordered_map.Fuzz.Standard.{IsStandard}
use cpp_unordered_map.Fuzz.Agree.{Agrees, same-Agrees, erased-Agrees, has_some-shown}
use cpp_unordered_map.Fuzz.Follow.{Follows, check_lem}

module _ (is_avalanching : Bool) {F O : Type 0} (standard : Oracle O) (float : FloatOps F)
    (memory : Memory) (policy : Policy ℕ) (granted : IsGranted memory)
    (laws : IsStandard standard) where
  abbrev traits : Traits ℕ (ℕ × ℕ)
  traits = map_traits is_avalanching

  -- Nothing is done.
  pub stays-Follows :
      (t : Table F ℕ (ℕ × ℕ)) (o : O)
      → Agrees is_avalanching standard (t, o)
      → Follows is_avalanching standard float (t, o) (t, o)
  stays-Follows t o a = record { agrees = a; growth = Keeps-Grows float (Keeps-refl t) }

  -- How often the standard map has a key, by what the tested one has.
  pub count-shown :
      (t : Table F ℕ (ℕ × ℕ)) (o : O) (key : ℕ) (b : Bool)
      → Agrees is_avalanching standard (t, o)
      → has_some (view traits t key) ≡ b
      → standard.count_of o key ≡ (if b then 1 else 0)
  count-shown t o key b a e =
      laws.count o key
      ∙ ap (λ b. if b then 1 else 0) (has_some-shown is_avalanching standard (t, o) key a ∙ e)

  pub erase_found-Follows :
      (key : ℕ) (t : Table F ℕ (ℕ × ℕ)) (o : O)
      → Agrees is_avalanching standard (t, o)
      → (s' : Pair F O) × (erase_found standard is_avalanching float memory true policy key (t, o)
          ≡ returned tt s')
        × Follows is_avalanching standard float (t, o) s'
  unfolding erase_found
  erase_found-Follows key t o a =
      let (x, run, found) = find-cases traits t a.valid key in
      let erase : ℕ → Action (Pair F O) (Unit {0}) = λ it.
        on_tested (erase_at traits it)
        >>= (λ next. on_oracle (standard.erase key) >>= (λ erased. pure tt)) in
      let start =
        bind-returned (on_tested (find traits key))
          (λ it. if not (it == null_index) then erase it else pure tt) (t, o)
          (ap (λ k. left_of o k) run) in
      elim found [
        | inl (e, _) ↦ ((t, o), rw e at start, stays-Follows t o a)
        | inr (e, (v, shown, st, same)) ↦
            let (t', run', p) = erase_at-Removes traits t a.valid x v st in
            let key_same : v.0 ≡ key = sym (==→eq key v.0 (sym (a.plain_keys key v.0) ∙ same)) in
            let one : (if has_some (view traits t key) then 1 else 0) ≡ 1 =
              ap (λ k. if has_some k then 1 else 0) shown in
            (
              (t', (standard.erase key o).1),
              (rw e at start)
                  ∙ bind-returned (on_tested (erase_at traits x))
                      (λ next. on_oracle (standard.erase key) >>= (λ erased. pure tt)) (t, o)
                      (ap (λ k. left_of o k) run'),
              record {
                agrees =
                    erased-Agrees is_avalanching standard t t' o a p.valid p.kept.policy key
                      laws.erase (ap (λ k. length t'.iteration + k) one ∙ p.shrinks)
                      (Removes-view traits t t' x v a.valid st p
                        ∙ ap (λ k. without traits t.policy k (view traits t)) key_same);
                growth = Keeps-Grows float p.kept;
              },
            )
      ]

  pub find_both-Follows :
      (key : ℕ) (t : Table F ℕ (ℕ × ℕ)) (o : O)
      → Agrees is_avalanching standard (t, o)
      → (s' : Pair F O) × (find_both standard is_avalanching float memory true policy key (t, o)
          ≡ returned tt s')
        × Follows is_avalanching standard float (t, o) s'
  unfolding find_both mapped_at
  find_both-Follows key t o a =
      let (x, run, found) = find-cases traits t a.valid key in
      let compare : ℕ → Action (Pair F O) (Unit {0}) = λ it. on_tested (mapped_at it) >>= (λ value.
        read (λ s. standard.value_at s.1 key) >>= (λ expected. check (is_value expected value))) in
      let decide : ℕ → Bool → Action (Pair F O) (Unit {0}) = λ it present.
        check (same_flag (not (it == null_index)) present)
        >> (if present then compare it else pure tt) in
      let start =
        bind-returned (on_tested (find traits key))
          (λ it. read (λ s. not (standard.count_of s.1 key == 0)) >>= decide it) (t, o)
          (ap (λ k. left_of o k) run) in
      elim found [
        | inl (e, shown) ↦
            let none_there : not (standard.count_of o key == 0) ≡ false =
              rw (count-shown t o key false a (ap has_some shown)) refl in
            (
              (t, o),
              start
                  ∙ ap (λ b. decide x b (t, o)) none_there
                  ∙ bind-returned (check (same_flag (not (x == null_index)) false)) (λ _. pure tt)
                      (t, o)
                      (check_lem (same_flag (not (x == null_index)) false) (t, o) (rw e refl)),
              stays-Follows t o a,
            )
        | inr (e, (v, shown, st, same)) ↦
            let there : not (standard.count_of o key == 0) ≡ true =
              rw (count-shown t o key true a (ap has_some shown)) refl in
            let value : standard.value_at o key ≡ some v.1 = a.shown key ∙ ap mapped_of shown in
            let read_it : mapped_at x t ≡ returned v.1 t = rw st.1 refl in
            (
              (t, o),
              start
                  ∙ ap (λ b. decide x b (t, o)) there
                  ∙ bind-returned (check (same_flag (not (x == null_index)) true)) (λ _. compare x)
                      (t, o) (check_lem (same_flag (not (x == null_index)) true) (t, o) (rw e refl))
                  ∙ bind-returned (on_tested (mapped_at x))
                      (λ value.
                        read (λ s. standard.value_at s.1 key)
                        >>= (λ expected. check (is_value expected value)))
                      (t, o) (ap (λ k. left_of o k) read_it)
                  ∙ check_lem (is_value (standard.value_at o key) v.1) (t, o)
                      (rw value (ground arith)),
              stays-Follows t o a,
            )
      ]

  pub extract_and_reinsert-Follows :
      (key : ℕ) (t : Table F ℕ (ℕ × ℕ)) (o : O)
      → Agrees is_avalanching standard (t, o)
      → t.arena_high_water < null_index
      → t.bucket_count ≤ 2 ^ 22
      → (s' : Pair F O) × (extract_and_reinsert standard is_avalanching float memory true policy key
            (t, o)
          ≡ returned tt s')
        × Follows is_avalanching standard float (t, o) s'
  unfolding extract_and_reinsert
  extract_and_reinsert-Follows key t o a below small =
      let put_back : Option (ℕ × ℕ) → ℕ → Action (Pair F O) (Unit {0}) = λ node count.
        check (count == 1)
        >> (on_tested (insert_handle traits some float memory node) >>= (λ placed. pure tt)) in
      let decide : Option (ℕ × ℕ) → Action (Pair F O) (Unit {0}) = λ node.
        read (λ s. standard.count_of s.1 key) >>= (λ count.
          let again = put_back node count in
          elim node [ none ↦ check (count == 0) | some value ↦ again ]) in
      let start =
        λ (node : Option (ℕ × ℕ)) (t1 : Table F ℕ (ℕ × ℕ))
            (run : extract_key traits some true key t ≡ returned node t1).
          bind-returned (on_tested (extract_key traits some true key)) decide (t, o)
            (ap (λ k. left_of o k) run) in
      elim (extract_key-cases traits some t key a.valid (λ v. (v, refl))) [
        | inl (x, v, t1, run, st, same, p) ↦
            let (r, t', run', i) =
              insert_handle-InsertsHandle traits some float memory granted t1 v v p.valid
                (rw p.slots below) (rw p.kept.count small) refl refl in
            let (shown, _, _) = reinserted_lem traits float t t1 t' x v r a.valid st p i in
            let one =
              count-shown t o key true a (view-HoldsKey traits t key x a.valid (v, st, same)) in
            (
              (t', o),
              start (some v) t1 run
                  ∙ bind-returned (check (standard.count_of o key == 1))
                      (λ _.
                        on_tested (insert_handle traits some float memory (some v))
                        >>= (λ placed. pure tt))
                      (t1, o) (check_lem (standard.count_of o key == 1) (t1, o) (rw one refl))
                  ∙ bind-returned (on_tested (insert_handle traits some float memory (some v)))
                      (λ placed. pure tt) (t1, o) (ap (λ k. left_of o k) run'),
              record {
                agrees =
                    same-Agrees is_avalanching standard t t' o a i.valid
                      (i.growth.policy ∙ p.kept.policy) o refl (λ k. refl) shown;
                growth = Removes-Grows traits float t t1 t' x p i.growth;
              },
            )
        | inr (run, absent) ↦
            let zero_there =
              count-shown t o key false a (view-IsAbsent traits t key a.valid absent) in
            (
              (t, o),
              start none t run
                  ∙ check_lem (standard.count_of o key == 0) (t, o) (rw zero_there refl),
              stays-Follows t o a,
            )
      ]
