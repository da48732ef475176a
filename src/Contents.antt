-- ===== src/Contents.antt =====
-- The abstract view of a container: a finite map from keys to elements, as a function, and what the
-- operations do to it.
pub mod Change
pub mod Refine
pub mod Copy
pub mod Size
use cpp_unordered_map.Prelude.{
  ℕ, ◌+◌, ◌<◌, ◌≡◌, ◌≢◌, ◌⊎◌, ◌↔◌, refl, sym, ◌∙◌, ap, inl, inr, true, false, Bool, Option, some,
  none, List, [], ◌∷◌, count, if◌then◌else◌, ◌==◌, arith, Bool-cases, Option-cases, ==-cases,
  if_true, if_false, to_nat,
}
use mathlib.Core.Path.{fun_ext}
use cpp_unordered_map.Hash.{Traits, Policy, IsLawful}
use cpp_unordered_map.Table.{Table}
use cpp_unordered_map.Valid.{IsSearchable, IsValid, Stores}
use cpp_unordered_map.Engine.{equal_at}
use cpp_unordered_map.Engine.Lookup.{IsAbsent, equal_at-some}
use cpp_unordered_map.Engine.Emplace.{HoldsKey}

-- Whether a map has a key.
abbrev pub has_some {ℓ} : {V : Type ℓ} → Option V → Bool
has_some none = false
has_some (some v) = true

module _ {ℓ} {K V : Type ℓ} (traits : Traits K V) (policy : Policy K) where
  -- A map changed at the keys equal to a key, and at those equal to an element's key.
  abbrev pub without : K → (K → Option V) → K → Option V
  without key f k = if policy.key_equal key k then none else f k

  abbrev pub with_element : V → (K → Option V) → K → Option V
  with_element v f k = if policy.key_equal (traits.key_of v) k then some v else f k

module _ {ℓ} {F : Type 0} {K V : Type ℓ} (traits : Traits K V) where
  -- The element with an equal key, by a search through the live nodes one by one.
  unfoldable pub scan : Table F K V → K → List ℕ → Option V
  scan t key [] = none
  scan t key (x ∷ rest) =
      let later = scan t key rest in if equal_at traits t key x then (t.nodes x).storage else later

  unfoldable pub view : Table F K V → K → Option V
  unfolding scan
  view t key = scan t key t.iteration

  -- What a key maps to: the element with an equal key that lives at some node, or nothing.
  abbrev pub Maps : Table F K V → K → Option V → Type ℓ
  Maps t key none = IsAbsent traits t key
  Maps t key (some v) = (x : ℕ) × Stores t x v × (t.policy.key_equal key (traits.key_of v) ≡ true)

  scan-lem :
      (t : Table F K V) (key : K) (list : List ℕ)
      → ((x : ℕ) → 0 < count x list → (v : V) × ((t.nodes x).storage ≡ some v))
      → ((v : V) × (scan t key list ≡ some v)
          × ((x : ℕ) × (0 < count x list)
              × ((t.nodes x).storage ≡ some v)
              × (t.policy.key_equal key (traits.key_of v) ≡ true)))
        ⊎ (scan t key list ≡ none)
          × ((x : ℕ) (v : V)
              → 0 < count x list
              → (t.nodes x).storage ≡ some v
              → t.policy.key_equal key (traits.key_of v) ≡ false)
  unfolding scan
  scan-lem t key [] built = inr (refl, λ x v p e. absurd (omega arith))
  scan-lem t key (x ∷ rest) built =
      let (v, e) = built x (ground arith) in
      let here = equal_at-some traits t x v e key in
      elim (Bool-cases (t.policy.key_equal key (traits.key_of v))) [
        | inl same ↦ inl (v, if_true _ _ (here ∙ same) ∙ e, (x, ground arith, e, same))
        | inr other ↦
            let skip : scan t key (x ∷ rest) ≡ scan t key rest = if_false _ _ (here ∙ other) in
            elim (scan-lem t key rest (λ y p. built y (omega arith))) [
              | inl (w, run, (y, p, at_y, same)) ↦ inl (w, skip ∙ run, (y, omega arith, at_y, same))
              | inr (run, absent) ↦ inr (
                skip ∙ run,
                λ y w p at_y. elim (==-cases y x) [
                  | inl e' ↦
                      sym (equal_at-some traits t y w at_y key)
                      ∙ ap (equal_at traits t key) e'
                      ∙ here
                      ∙ other
                  | inr apart ↦ absent y w (ground arith) at_y
                ],
              )
            ]
      ]

  -- The search through the live nodes finds what the key maps to.
  pub view-Maps : (t : Table F K V) (key : K) → IsSearchable traits t → Maps t key (view t key)
  unfolding view
  view-Maps t key s = elim (scan-lem t key t.iteration s.built) [
    | inl (v, run, (x, p, e, same)) ↦ rw run (x, (p, e), same)
    | inr (run, absent) ↦ rw run (λ x v st. absent x v st.0 st.1)
  ]

  -- A valid container maps a key to one thing only.
  pub view-eq_of_Maps :
      (t : Table F K V) (key : K) (o : Option V) → IsValid traits t → Maps t key o → view t key ≡ o
  view-eq_of_Maps t key o valid m = unique (view t key) o (view-Maps t key valid.searchable) m
    where
      unique : (p q : Option V) → Maps t key p → Maps t key q → p ≡ q
      unique none none a b = refl
      unique none (some w) a (y, st, same) = absurd (ground (arith, a y w st, same))
      unique (some v) none (x, st, same) b = absurd (ground (arith, b x v st, same))
      unique (some v) (some w) (x, st, same) (y, st', same') =
          let lawful = valid.searchable.lawful in
          let joined =
            lawful.equal_trans (traits.key_of v) key (traits.key_of w)
              (lawful.equal_symm key (traits.key_of v) same) same' in
          let here = valid.distinct x y v w st st' joined in
          sym st.1 ∙ ap (λ k. (t.nodes k).storage) here ∙ st'.1
