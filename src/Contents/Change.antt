-- ===== src/Contents/Change.antt =====
-- How the abstract view follows from what a container stores.
use cpp_unordered_map.Prelude.{
  ℕ, ◌≡◌, ◌⊎◌, ◌↔◌, refl, sym, ◌∙◌, ap, inl, inr, true, false, Bool, Option, some, none, Bool-cases,
}
use mathlib.Core.Path.{fun_ext}
use cpp_unordered_map.Hash.{Traits, Policy, key_equal_symm, key_equal_congr}
use cpp_unordered_map.Table.{Table}
use cpp_unordered_map.Valid.{IsValid, Stores}
use cpp_unordered_map.Contents.{view, Maps, view-Maps, view-eq_of_Maps, without, with_element}

module _ {ℓ} {F : Type 0} {K V : Type ℓ} (traits : Traits K V) (t t' : Table F K V)
    (policy : t'.policy ≡ t.policy) (valid : IsValid traits t) (valid' : IsValid traits t') where
  abbrev equal : K → K → Bool
  equal = t.policy.key_equal

  -- Facts of the old comparison in the terms of the new container.
  Maps-some :
      (key : K) (x : ℕ) (v : V)
      → Stores t' x v
      → equal key (traits.key_of v) ≡ true
      → Maps traits t' key (some v)
  Maps-some key x v st same =
      (x, st, ap (λ (p : Policy K). p.key_equal key (traits.key_of v)) policy ∙ same)

  Maps-none :
      (key : K)
      → ((x : ℕ) (v : V) → Stores t' x v → equal key (traits.key_of v) ≡ false)
      → Maps traits t' key none
  Maps-none key absent x v st =
      ap (λ (p : Policy K). p.key_equal key (traits.key_of v)) policy ∙ absent x v st

  same_Maps :
      ((x : ℕ) (v : V) → Stores t' x v ↔ Stores t x v)
      → (key : K) (o : Option V) → Maps traits t key o
      → Maps traits t' key o
  same_Maps same key none m = Maps-none key (λ x v st. m x v ((same x v).0 st))
  same_Maps same key (some v) (x, st, e) = Maps-some key x v ((same x v).1 st) e

  -- The same elements make the same map.
  pub view_same : ((x : ℕ) (v : V) → Stores t' x v ↔ Stores t x v) → view traits t' ≡ view traits t
  view_same same = fun_ext (λ key.
      view-eq_of_Maps traits t' key (view traits t key) valid'
        (same_Maps same key (view traits t key) (view-Maps traits t key valid.searchable)))

  module _ (key : K)
      (keeps : (x : ℕ) (v : V)
        → Stores t' x v ↔ Stores t x v × (equal key (traits.key_of v) ≡ false)) where
    other_Maps :
        (k : K) → equal key k ≡ false → (o : Option V) → Maps traits t k o → Maps traits t' k o
    other_Maps k apart none m = Maps-none k (λ x v st. m x v ((keeps x v).0 st).0)
    other_Maps k apart (some v) (x, st, e) =
        let lawful = valid.searchable.lawful in
        let turned =
          key_equal_symm lawful key (traits.key_of v)
          ∙ sym (key_equal_congr lawful k (traits.key_of v) key e)
          ∙ key_equal_symm lawful k key
          ∙ apart in
        Maps-some k x v ((keeps x v).1 (st, turned)) e

    -- Without the elements of a key, the map is without the key.
    pub view-without : view traits t' ≡ without traits t.policy key (view traits t)
    view-without = fun_ext (λ k.
        view-eq_of_Maps traits t' k (without traits t.policy key (view traits t) k) valid'
          (elim (Bool-cases (equal key k)) [
            | inl e ↦
                let lawful = valid.searchable.lawful in
                rw e (
                  Maps-none k (λ x v st.
                    sym (key_equal_congr lawful key k (traits.key_of v) e) ∙ ((keeps x v).0 st).1))
            | inr e ↦
                rw e (other_Maps k e (view traits t k) (view-Maps traits t k valid.searchable))
          ]))

  module _ (s : ℕ) (v : V)
      (stores : (x : ℕ) (w : V) → Stores t' x w ↔ Stores t x w ⊎ (x ≡ s) × (w ≡ v)) where
    beside_Maps :
        (k : K)
        → equal (traits.key_of v) k ≡ false
        → (o : Option V) → Maps traits t k o
        → Maps traits t' k o
    beside_Maps k apart none m = Maps-none k (λ x w st. elim ((stores x w).0 st) [
      | inl old ↦ m x w old
      | inr (_, e) ↦
          ap (λ u. equal k (traits.key_of u)) e
          ∙ key_equal_symm valid.searchable.lawful k (traits.key_of v)
          ∙ apart
    ])
    beside_Maps k apart (some w) (x, st, e) = Maps-some k x w ((stores x w).1 (inl st)) e

    -- With one element more, the map has it at its key.
    pub view-with_element : view traits t' ≡ with_element traits t.policy v (view traits t)
    view-with_element = fun_ext (λ k.
        view-eq_of_Maps traits t' k (with_element traits t.policy v (view traits t) k) valid'
          (elim (Bool-cases (equal (traits.key_of v) k)) [
            | inl e ↦ rw e (
                Maps-some k s v ((stores s v).1 (inr (refl, refl)))
                  (key_equal_symm valid.searchable.lawful k (traits.key_of v) ∙ e))
            | inr e ↦
                rw e (beside_Maps k e (view traits t k) (view-Maps traits t k valid.searchable))
          ]))
