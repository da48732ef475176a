-- ===== src/Contents/Copy.antt =====
-- The view of a container that takes elements from a list, in terms of the list.
use cpp_unordered_map.Prelude.{
  ◌≡◌, refl, sym, ◌∙◌, inl, inr, true, Option, some, none, List, [], ◌∷◌, if◌then◌else◌, Bool-cases,
}
use cpp_unordered_map.Hash.{Traits, Policy, IsLawful, key_equal_symm, key_equal_congr}
use cpp_unordered_map.Contents.{has_some, with_element}
use cpp_unordered_map.Contents.Refine.{with_new}
use cpp_unordered_map.Container.Bulk.{with_all}

abbrev pub or_else {ℓ} : {V : Type ℓ} → Option V → Option V → Option V
or_else none o = o
or_else (some v) o = some v

module _ {ℓ} {K V : Type ℓ} (traits : Traits K V) (policy : Policy K) where
  -- The first element of a list with an equal key.
  unfoldable pub first : List V → K → Option V
  first [] k = none
  first (v ∷ vs) k =
      let later = first vs k in if policy.key_equal (traits.key_of v) k then some v else later

  -- A map does not tell equal keys apart.
  abbrev pub IsCongruent : (K → Option V) → Type ℓ
  IsCongruent f = (a b : K) → policy.key_equal a b ≡ true → f a ≡ f b

  module _ (lawful : IsLawful policy) where
    with_element-IsCongruent :
        (v : V) (f : K → Option V) → IsCongruent f → IsCongruent (with_element traits policy v f)
    with_element-IsCongruent v f c a b e =
        let turned : policy.key_equal (traits.key_of v) a ≡ policy.key_equal (traits.key_of v) b =
          key_equal_symm lawful (traits.key_of v) a
          ∙ key_equal_congr lawful a b (traits.key_of v) e
          ∙ key_equal_symm lawful b (traits.key_of v) in
        rw (turned, c a b e) refl

    with_new-IsCongruent :
        (v : V) (f : K → Option V) → IsCongruent f → IsCongruent (with_new traits policy v f)
    with_new-IsCongruent v f c = elim (Bool-cases (has_some (f (traits.key_of v)))) [
      | inl e ↦ rw e c
      | inr e ↦ rw e (with_element-IsCongruent v f c)
    ]

    with_new-or_else :
        (v : V) (f : K → Option V)
        → IsCongruent f
        → (k : K) (o : Option V)
        → or_else (with_new traits policy v f k) o
          ≡ or_else (f k) (if policy.key_equal (traits.key_of v) k then some v else o)
    with_new-or_else v f c k o = elim (Bool-cases (policy.key_equal (traits.key_of v) k)) [
      | inl e ↦ present (f (traits.key_of v)) refl e
      | inr e ↦ elim (Bool-cases (has_some (f (traits.key_of v)))) [
        | inl h ↦ rw (h, e) refl
        | inr h ↦ rw (h, e) refl
      ]
    ]
      where
        present :
            (there : Option V)
            → f (traits.key_of v) ≡ there
            → policy.key_equal (traits.key_of v) k ≡ true
            → or_else (with_new traits policy v f k) o
              ≡ or_else (f k) (if policy.key_equal (traits.key_of v) k then some v else o)
        present none h e = rw (h, e, sym (c (traits.key_of v) k e) ∙ h) refl
        present (some w) h e = rw (h, e, sym (c (traits.key_of v) k e) ∙ h) refl

    or_else-none : (o : Option V) → o ≡ or_else o none
    or_else-none none = refl
    or_else-none (some v) = refl

    -- Elements added one by one: what was there stays, and then the first of the list counts.
    pub with_all-first :
        (vs : List V) (f : K → Option V)
        → IsCongruent f
        → (k : K) → with_all traits policy vs f k ≡ or_else (f k) (first vs k)
    unfolding with_all first
    with_all-first [] f c k = or_else-none (f k)
    with_all-first (v ∷ vs) f c k =
        with_all-first vs (with_new traits policy v f) (with_new-IsCongruent v f c) k
        ∙ with_new-or_else v f c k (first vs k)
