-- ===== src/Contents/Refine.antt =====
-- Each operation as a change of the abstract view.
use cpp_unordered_map.Prelude.{
  ℕ, ◌≤◌, ◌<◌, ◌^◌, ◌≡◌, sym, ◌∙◌, ap, inl, inr, Bool, true, false, not, Option, some, none,
  if◌then◌else◌, arith, if_true, if_false, Bool-cases,
}
use cpp_unordered_map.Hash.{Traits, Policy}
use cpp_unordered_map.Index.{null_index}
use cpp_unordered_map.Load.{FloatOps}
use cpp_unordered_map.Outcome.{returned}
use cpp_unordered_map.Table.{Table, Memory}
use cpp_unordered_map.Valid.{IsValid, Stores}
use cpp_unordered_map.Engine.{erase_key, emplace_impl}
use cpp_unordered_map.Engine.Lookup.{IsAbsent}
use cpp_unordered_map.Engine.Remove.{Removes, erase_key-ErasesKey}
use cpp_unordered_map.Engine.Reserve.{IsGranted}
use cpp_unordered_map.Engine.Emplace.{HoldsKey, Emplaces, emplace_impl-Emplaces}
use cpp_unordered_map.Contents.{has_some, view, view-eq_of_Maps, without, with_element}
use cpp_unordered_map.Contents.Change.{view_same, view-without, view-with_element}

module _ {ℓ} {K V : Type ℓ} (traits : Traits K V) (policy : Policy K) where
  -- The map with an element unless its key is there.
  abbrev pub with_new : V → (K → Option V) → K → Option V
  with_new v f = if has_some (f (traits.key_of v)) then f else with_element traits policy v f

module _ {ℓ} {F : Type 0} {K V : Type ℓ} (traits : Traits K V) where
  pub Removes-view :
      (t t' : Table F K V) (x : ℕ) (v : V)
      → IsValid traits t
      → Stores t x v
      → Removes traits t x t'
      → view traits t' ≡ without traits t.policy (traits.key_of v) (view traits t)
  Removes-view t t' x v valid st p =
      let lawful = valid.searchable.lawful in
      view-without traits t t' p.kept.policy valid p.valid (traits.key_of v) (λ y u. (
        (λ s.
            let (old, apart) = (p.keeps y u).0 s in
            (
              old,
              elim (Bool-cases (t.policy.key_equal (traits.key_of v) (traits.key_of u))) [
                | inl same ↦ absurd (apart (sym (valid.distinct x y v u st old same)))
                | inr other ↦ other
              ],
            )),
        λ s. (p.keeps y u).1 (
          s.0,
          λ e.
              let at_x : some u ≡ some v = sym s.0.1 ∙ ap (λ k. (t.nodes k).storage) e ∙ st.1 in
              let same = ap (λ (o : Option V). elim o [ none ↦ v | some w ↦ w ]) at_x in
              let other = rw same at s.1 in
              absurd (ground (arith, other, lawful.equal_refl (traits.key_of v))),
        ),
      ))

  pub view-IsAbsent :
      (t : Table F K V) (key : K)
      → IsValid traits t
      → IsAbsent traits t key
      → has_some (view traits t key) ≡ false
  view-IsAbsent t key valid absent = ap has_some (view-eq_of_Maps traits t key none valid absent)

  pub view-HoldsKey :
      (t : Table F K V) (key : K) (x : ℕ)
      → IsValid traits t
      → HoldsKey traits t key x
      → has_some (view traits t key) ≡ true
  view-HoldsKey t key x valid (w, st, same) =
      ap has_some (view-eq_of_Maps traits t key (some w) valid (x, st, same))

  -- What `emplace_impl` and its kin do to the view, and the flag they return.
  pub Emplaces-view :
      (float : FloatOps F) (t t' : Table F K V) (v : V) (r : ℕ × Bool)
      → IsValid traits t
      → Emplaces traits float t v r t'
      → (view traits t' ≡ with_new traits t.policy v (view traits t))
        × (r.1 ≡ not (has_some (view traits t (traits.key_of v))))
  Emplaces-view float t t' v r valid e = elim e.outcome [
    | inl (flag, absent, stores) ↦
        let gone = view-IsAbsent t (traits.key_of v) valid absent in
        (
          view-with_element traits t t' e.growth.policy valid e.valid r.0 v stores
              ∙ sym (if_false _ _ gone),
          flag ∙ ap not (sym gone),
        )
    | inr (flag, h, stores) ↦
        let there = view-HoldsKey t (traits.key_of v) r.0 valid h in
        (
          view_same traits t t' e.growth.policy valid e.valid stores ∙ sym (if_true _ _ there),
          flag ∙ ap not (sym there),
        )
  ]

  -- On a valid container, erasing a key returns and leaves a valid container. In the view of a
  -- container as a function from keys to elements, it clears the keys equal to the given one; the
  -- returned number is 1 if the view had an element there, and 0 otherwise.
  pub erase_key-view :
      (t : Table F K V) (key : K)
      → IsValid traits t
      → (n : ℕ) × (t' : Table F K V) × (erase_key traits key t ≡ returned n t')
        × IsValid traits t'
        × (view traits t' ≡ without traits t.policy key (view traits t))
        × (n ≡ (if has_some (view traits t key) then 1 else 0))
  erase_key-view t key valid =
      let (n, t', run, e) = erase_key-ErasesKey traits t key valid in
      (
        n,
        t',
        run,
        e.valid,
        view-without traits t t' e.kept.policy valid e.valid key e.keeps,
        elim e.decides [
          | inl (one, (x, w, st, same)) ↦
              one ∙ sym (if_true _ _ (view-HoldsKey t key x valid (w, st, same)))
          | inr (none_there, absent) ↦
              none_there ∙ sym (if_false _ _ (view-IsAbsent t key valid absent))
        ],
      )

  -- Where memory is granted and the container is valid, with its arena below the largest size and at
  -- most 2^22 buckets, `emplace_impl` returns and leaves a valid container. In the view of a
  -- container as a function from keys to elements, it adds the element at the keys equal to its own
  -- if there was none, and otherwise changes nothing; the flag says whether there was none.
  pub emplace_impl-view :
      (float : FloatOps F) (memory : Memory)
      → IsGranted memory
      → (t : Table F K V) (v : V) → IsValid traits t
      → t.arena_high_water < null_index
      → t.bucket_count ≤ 2 ^ 22
      → (r : ℕ × Bool) × (t' : Table F K V) × (emplace_impl traits float memory (some v) t
          ≡ returned r t')
        × IsValid traits t'
        × (view traits t' ≡ with_new traits t.policy v (view traits t))
        × (r.1 ≡ not (has_some (view traits t (traits.key_of v))))
  emplace_impl-view float memory granted t v valid below small =
      let (r, t', run, e) =
        emplace_impl-Emplaces traits float memory granted t v valid below small in
      let (shown, flag) = Emplaces-view float t t' v r valid e in (r, t', run, e.valid, shown, flag)
