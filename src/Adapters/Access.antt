-- ===== src/Adapters/Access.antt =====
-- `at` and `operator[]`.
use cpp_unordered_map.Prelude.{
  ℕ, ◌≤◌, ◌<◌, ◌^◌, ◌≡◌, refl, ◌∙◌, ap, inl, inr, Bool, true, false, Option, some, none, ◌==◌,
  if◌then◌else◌, arith, if_true, if_false,
}
use cpp_unordered_map.Hash.{Traits}
use cpp_unordered_map.Index.{null_index}
use cpp_unordered_map.Load.{FloatOps}
use cpp_unordered_map.Outcome.{
  Outcome, Action, returned, threw, bind-returned, pure, read, require, throw, ◌>>=◌,
}
use cpp_unordered_map.Table.{Table, Memory}
use cpp_unordered_map.Valid.{IsValid, Stores}
use cpp_unordered_map.Engine.Reserve.{IsGranted}
use cpp_unordered_map.Engine.Emplace.{Emplaces}
use cpp_unordered_map.Container.{find}
use cpp_unordered_map.Container.Find.{PointsTo, find-PointsTo}
use cpp_unordered_map.Contents.{view}
use cpp_unordered_map.Adapters.{map_traits, try_emplace_impl, subscript, at}
use cpp_unordered_map.Adapters.Emplace.{try_emplace_impl-Emplaces}

module _ {ℓ} {F : Type 0} {K M : Type ℓ} where
  -- `at` on what the view has at the key.
  abbrev pub accessed : Table F K (K × M) → Option (K × M) → Outcome (Table F K (K × M)) M
  accessed t none = threw t
  accessed t (some v) = returned v.1 t

  module _ (traits : Traits K (K × M)) (t : Table F K (K × M)) (valid : IsValid traits t)
      (key : K) where
    abbrev deref : ℕ → Action (Table F K (K × M)) M
    deref it =
        read (λ t. (t.nodes it).storage)
        >>= (λ value. if it == null_index then throw else (require value >>= (λ v. pure v.1)))

    deref_lem :
        (x : ℕ) (o : Option (K × M)) → PointsTo traits t valid key x o → deref x t ≡ accessed t o
    deref_lem x none (e, _) =
        let test : (x == null_index) ≡ true = ground (arith, e) in
        ap (λ f. f t) (if_true throw (require (t.nodes x).storage >>= (λ v. pure v.1)) test)
    deref_lem x (some v) (ne, st, _) =
        let test : (x == null_index) ≡ false = ground arith in
        ap (λ f. f t) (if_false throw (require (t.nodes x).storage >>= (λ v. pure v.1)) test)
        ∙ ap (λ o. (require o >>= (λ v. pure v.1)) t) st.1

    -- On a valid container `at` changes nothing; it returns the mapped value of the element that the
    -- view has at the key, and throws where there is none.
    pub at-view : at traits key t ≡ accessed t (view traits t key)
    unfolding at
    at-view =
        let (x, run, p) = find-PointsTo traits t valid key in
        bind-returned (find traits key) deref t run ∙ deref_lem x (view traits t key) p

module _ {ℓ} {F : Type 0} {K M : Type ℓ} (is_avalanching : Bool) (float : FloatOps F)
    (memory : Memory) (granted : IsGranted memory) where
  abbrev traits : Traits K (K × M)
  traits = map_traits is_avalanching

  -- What `try_emplace` leaves at the returned node.
  Emplaces-HoldsKey :
      (t t' : Table F K (K × M)) (key : K) (m : M) (r : ℕ × Bool)
      → t'.policy ≡ t.policy
      → Emplaces traits float t (key, m) r t'
      → (w : K × M) × Stores t' r.0 w × (t.policy.key_equal key w.0 ≡ true)
  Emplaces-HoldsKey t t' key m r policy e = elim e.outcome [
    | inl (_, _, stores) ↦ (
      (key, m),
      (stores r.0 (key, m)).1 (inr (refl, refl)),
      rw policy at (e.valid.searchable.lawful.equal_refl key),
    )
    | inr (_, (w, st, same), stores) ↦ (w, (stores r.0 w).1 st, same)
  ]

  -- Where memory is granted and the container is valid, with its arena below the largest size and at
  -- most 2^22 buckets, `operator[]` returns the mapped value of an element with an equal key, in a
  -- valid container that holds what `try_emplace` of the key and the initial value leaves.
  pub subscript-Emplaces :
      (t : Table F K (K × M)) (key : K) (m : M)
      → IsValid traits t
      → t.arena_high_water < null_index
      → t.bucket_count ≤ 2 ^ 22
      → (w : K × M) × (r : ℕ × Bool) × (t' : Table F K (K × M)) × (subscript traits float memory key
            (some m)
            t
          ≡ returned w.1 t')
        × Emplaces traits float t (key, m) r t'
        × Stores t' r.0 w
        × (t.policy.key_equal key w.0 ≡ true)
  unfolding subscript
  subscript-Emplaces t key m valid below small =
      let (r, t', run, e) =
        try_emplace_impl-Emplaces is_avalanching float memory granted t key m valid below small in
      let (w, st, same) = Emplaces-HoldsKey t t' key m r e.growth.policy e in
      let rest : ℕ × Bool → Action (Table F K (K × M)) M = λ placed.
        (read (λ t. (t.nodes placed.0).storage) >>= require) >>= (λ value. pure value.1) in
      (
        w,
        r,
        t',
        bind-returned (try_emplace_impl traits float memory key (some m)) rest t run
            ∙ ap (λ o. (require o >>= (λ value. pure value.1)) t') st.1,
        e,
        st,
        same,
      )
