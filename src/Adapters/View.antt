-- ===== src/Adapters/View.antt =====
-- What writing a mapped value does to the abstract view of a map.
use cpp_unordered_map.Prelude.{
  ℕ, ◌≡◌, ◌≢◌, ◌⊎◌, ◌↔◌, refl, sym, ◌∙◌, ap, inl, inr, Bool, true, false, not, Option, none, some,
  if◌then◌else◌, arith, Bool-cases, if_true, if_false,
}
use cpp_unordered_map.Hash.{Traits, Policy, key_equal_symm, key_equal_congr}
use cpp_unordered_map.Load.{FloatOps}
use cpp_unordered_map.Table.{Table}
use cpp_unordered_map.Valid.{IsValid, Stores}
use cpp_unordered_map.Contents.{has_some, view, Maps, view-Maps, view-eq_of_Maps}
use cpp_unordered_map.Contents.Change.{view-with_element}
use cpp_unordered_map.Contents.Refine.{view-HoldsKey, view-IsAbsent}
use cpp_unordered_map.Adapters.{map_traits}
use cpp_unordered_map.Adapters.Assign.{Assigns}

-- The mapped value of an element.
abbrev pub mapped_of {ℓ} : {K M : Type ℓ} → Option (K × M) → Option M
mapped_of none = none
mapped_of (some e) = some e.1

pub has_some-mapped_of {ℓ} :
    {K M : Type ℓ} (o : Option (K × M)) → has_some (mapped_of o) ≡ has_some o
has_some-mapped_of none = refl
has_some-mapped_of (some e) = refl

module _ {ℓ} {F : Type 0} {K M : Type ℓ} (is_avalanching : Bool) (float : FloatOps F) where
  abbrev traits : Traits K (K × M)
  traits = map_traits is_avalanching

  module _ (t t' : Table F K (K × M)) (policy : t'.policy ≡ t.policy) (valid : IsValid traits t)
      (valid' : IsValid traits t') (key : K) (m : M) (x : ℕ) (old : K × M) (st : Stores t x old)
      (same : t.policy.key_equal key old.0 ≡ true)
      (stores : (y : ℕ) (w : K × M)
        → Stores t' y w ↔ Stores t y w × (y ≢ x) ⊎ (y ≡ x) × (w ≡ (old.0, m))) where
    -- The element of another key is where it was.
    other_Maps :
        (k : K)
        → t.policy.key_equal key k ≡ false
        → (o : Option (K × M)) → Maps traits t k o
        → Maps traits t' k o
    other_Maps k apart none absent = λ y w s.
        ap (λ (p : Policy K). p.key_equal k w.0) policy ∙ elim ((stores y w).0 s) [
          | inl (before, _) ↦ absent y w before
          | inr (_, new) ↦
              ap (λ e. t.policy.key_equal k e.0) new
              ∙ key_equal_symm valid.searchable.lawful k old.0
              ∙ sym (key_equal_congr valid.searchable.lawful key old.0 k same)
              ∙ apart
        ]
    other_Maps k apart (some w) (y, s, e) =
        let turned = key_equal_congr valid.searchable.lawful key old.0 k same in
        let ne : y ≢ x = λ at_x.
          let joined : some w ≡ some old = sym s.1 ∙ ap (λ n. (t.nodes n).storage) at_x ∙ st.1 in
          let equal = ap (λ (o : Option (K × M)). elim o [ none ↦ old | some u ↦ u ]) joined in
          let here : t.policy.key_equal k old.0 ≡ true =
            ap (λ (u : K × M). t.policy.key_equal k u.0) (sym equal) ∙ e in
          absurd
            (ground (arith, apart, turned, here, key_equal_symm valid.searchable.lawful k old.0)) in
        (y, (stores y w).1 (inl (s, ne)), ap (λ (p : Policy K). p.key_equal k w.0) policy ∙ e)

    overwritten-view :
        (k : K)
        → mapped_of (view traits t' k)
          ≡ (if t.policy.key_equal key k then some m else mapped_of (view traits t k))
    overwritten-view k = elim (Bool-cases (t.policy.key_equal key k)) [
      | inl e ↦
          let there : Maps traits t' k (some (old.0, m)) = (
            x,
            (stores x (old.0, m)).1 (inr (refl, refl)),
            ap (λ (p : Policy K). p.key_equal k old.0) policy
                ∙ sym (key_equal_congr valid.searchable.lawful key k old.0 e)
                ∙ same,
          ) in
          ap mapped_of (view-eq_of_Maps traits t' k (some (old.0, m)) valid' there)
          ∙ sym (if_true _ _ e)
      | inr e ↦
          ap mapped_of (
            view-eq_of_Maps traits t' k (view traits t k) valid'
              (other_Maps k e (view traits t k) (view-Maps traits t k valid.searchable)))
          ∙ sym (if_false _ _ e)
    ]

  -- After `insert_or_assign`, the key maps to the value, and other keys to what they did.
  pub Assigns-view :
      (t t' : Table F K (K × M)) (key : K) (m : M) (r : ℕ × Bool)
      → IsValid traits t
      → Assigns is_avalanching float t key m r t'
      → ((k : K)
          → mapped_of (view traits t' k)
            ≡ (if t.policy.key_equal key k then some m else mapped_of (view traits t k)))
        × (r.1 ≡ not (has_some (view traits t key)))
  Assigns-view t t' key m r valid a = elim a.outcome [
    | inl (flag, absent, stores) ↦
        let shown =
          view-with_element traits t t' a.growth.policy valid a.valid r.0 (key, m) stores in
        (
          λ k. ap (λ f. mapped_of (f k)) shown ∙ elim (Bool-cases (t.policy.key_equal key k)) [
            | inl e ↦ ap mapped_of (if_true _ _ e) ∙ sym (if_true _ _ e)
            | inr e ↦ ap mapped_of (if_false _ _ e) ∙ sym (if_false _ _ e)
          ],
          flag ∙ ap not (sym (view-IsAbsent traits t key valid absent)),
        )
    | inr (flag, (old, st, same, stores)) ↦ (
      overwritten-view t t' a.growth.policy valid a.valid key m r.0 old st same stores,
      flag ∙ ap not (sym (view-HoldsKey traits t key r.0 valid (old, st, same))),
    )
  ]
