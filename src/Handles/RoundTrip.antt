-- ===== src/Handles/RoundTrip.antt =====
-- `extract` of a key and `insert` of the handle, one after the other.
use cpp_unordered_map.Prelude.{
  ℕ, ◌≤◌, ◌<◌, ◌^◌, ◌≡◌, refl, sym, ◌∙◌, ap, inl, inr, true, false, some, none, arith, Bool-cases,
  if_true, if_false,
}
use mathlib.Core.Path.{fun_ext}
use cpp_unordered_map.Hash.{Traits, key_equal_symm}
use cpp_unordered_map.Index.{null_index}
use cpp_unordered_map.Load.{FloatOps}
use cpp_unordered_map.Outcome.{returned, bind-returned, ◌>>=◌}
use cpp_unordered_map.Table.{Table, Memory}
use cpp_unordered_map.Valid.{IsValid, Stores}
use cpp_unordered_map.Engine.Lookup.{IsAbsent}
use cpp_unordered_map.Engine.Reserve.{IsGranted}
use cpp_unordered_map.Contents.{has_some, view, view-eq_of_Maps, without, with_element}
use cpp_unordered_map.Contents.Change.{view-with_element}
use cpp_unordered_map.Contents.Refine.{Removes-view, view-HoldsKey, view-IsAbsent}
use cpp_unordered_map.Engine.Remove.{Removes}
use cpp_unordered_map.Handles.{extract_key, insert_handle, InsertReturn}
use cpp_unordered_map.Handles.Extract.{
  InsertsHandle, extract_key-cases, insert_handle-InsertsHandle,
}

module _ {ℓ} {F : Type 0} {K V : Type ℓ} (traits : Traits K V) where
  -- A stored element, taken out of the view and put back.
  with_element-without :
      (t : Table F K V) (x : ℕ) (v : V)
      → IsValid traits t
      → Stores t x v
      → with_element traits t.policy v (without traits t.policy (traits.key_of v) (view traits t))
        ≡ view traits t
  with_element-without t x v valid st = fun_ext (λ k.
      elim (Bool-cases (t.policy.key_equal (traits.key_of v) k)) [
        | inl e ↦
            if_true _ _ e
            ∙ sym (
                view-eq_of_Maps traits t k (some v) valid
                  (x, st, key_equal_symm valid.searchable.lawful k (traits.key_of v) ∙ e))
        | inr e ↦ if_false _ _ e ∙ if_false _ _ e
      ])

  Removes-IsAbsent :
      (t t1 : Table F K V) (x : ℕ) (v : V)
      → IsValid traits t
      → Stores t x v
      → Removes traits t x t1
      → IsAbsent traits t1 (traits.key_of v)
  Removes-IsAbsent t t1 x v valid st p y w s =
      let (old, apart) = (p.keeps y w).0 s in
      elim (Bool-cases (t1.policy.key_equal (traits.key_of v) (traits.key_of w))) [
        | inl same ↦ absurd (apart (sym (valid.distinct x y v w st old (rw p.kept.policy at same))))
        | inr other ↦ other
      ]

  -- An element that was taken out is put back.
  pub reinserted_lem :
      (float : FloatOps F) (t t1 t' : Table F K V) (x : ℕ) (v : V) (r : InsertReturn V)
      → IsValid traits t
      → Stores t x v
      → Removes traits t x t1
      → InsertsHandle traits some float t1 v v r t'
      → (view traits t' ≡ view traits t) × (r.inserted ≡ true) × (r.node ≡ none)
  reinserted_lem float t t1 t' x v r valid st p i = elim i.outcome [
    | inl (inserted, empty, absent, stores) ↦ (
      view-with_element traits t1 t' i.growth.policy p.valid i.valid r.position v stores
          ∙ ap (λ q. with_element traits q v (view traits t1)) p.kept.policy
          ∙ ap (with_element traits t.policy v) (Removes-view traits t t1 x v valid st p)
          ∙ with_element-without t x v valid st,
      inserted,
      empty,
    )
    | inr (_, _, (w, s, e), _) ↦
        absurd (ground (arith, Removes-IsAbsent t t1 x v valid st p r.position w s, e))
  ]

  module _ (float : FloatOps F) (memory : Memory) (granted : IsGranted memory) where
    -- Where memory is granted and the container is valid, with its arena below the largest size and
    -- at most 2^22 buckets, and moves keep the value, extracting a key and inserting the handle
    -- returns a valid container with the view it had before. The insertion reports whether there was
    -- an element with the key, and the handle comes back empty.
    pub extract_key-insert_handle :
        (t : Table F K V) (key : K)
        → IsValid traits t
        → t.arena_high_water < null_index
        → t.bucket_count ≤ 2 ^ 22
        → (r : InsertReturn V) × (t' : Table F K V) × ((extract_key traits some true key
                >>= insert_handle traits some float memory)
              t
            ≡ returned r t')
          × IsValid traits t'
          × (view traits t' ≡ view traits t)
          × (r.inserted ≡ has_some (view traits t key))
          × (r.node ≡ none)
    unfolding insert_handle
    extract_key-insert_handle t key valid below small =
        elim (extract_key-cases traits some t key valid (λ v. (v, refl))) [
          | inl (x, v, t1, run, st, same, p) ↦
              let (r, t', run', i) =
                insert_handle-InsertsHandle traits some float memory granted t1 v v p.valid
                  (rw p.slots below) (rw p.kept.count small) refl refl in
              let (shown, inserted, empty) = reinserted_lem float t t1 t' x v r valid st p i in
              (
                r,
                t',
                bind-returned (extract_key traits some true key)
                      (insert_handle traits some float memory) t run
                    ∙ run',
                i.valid,
                shown,
                inserted ∙ sym (view-HoldsKey traits t key x valid (v, st, same)),
                empty,
              )
          | inr (run, absent) ↦ (
            record { position = null_index; inserted = false; node = none },
            t,
            bind-returned (extract_key traits some true key)
                (insert_handle traits some float memory) t run,
            valid,
            refl,
            sym (view-IsAbsent traits t key valid absent),
            refl,
          )
        ]
