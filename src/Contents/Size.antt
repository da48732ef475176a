-- ===== src/Contents/Size.antt =====
-- The size of a container, from its abstract view.
use cpp_unordered_map.Prelude.{
  ℕ, false, ◌+◌, ◌≤◌, ◌<◌, ◌≡◌, refl, sym, ◌∙◌, ap, inl, inr, Option, none, some, List, [], ◌∷◌,
  length, count, ◌==◌, if◌then◌else◌, arith, ==-cases,
}
use cpp_unordered_map.Hash.{Traits}
use cpp_unordered_map.Table.{Table}
use cpp_unordered_map.Valid.{IsValid, Stores}
use cpp_unordered_map.Arena.{owned_once}
use cpp_unordered_map.Contents.{view, Maps, view-Maps, view-eq_of_Maps}

remove : ℕ → List ℕ → List ℕ
remove y [] = []
remove y (z ∷ zs) = let rest = remove y zs in if z == y then zs else z ∷ rest

length-remove : (y : ℕ) (ys : List ℕ) → 0 < count y ys → length (remove y ys) + 1 ≡ length ys
unfolding remove
length-remove y [] h = absurd (omega arith)
length-remove y (z ∷ zs) h = elim (==-cases z y) [
  | inl e ↦ rw e (ground arith)
  | inr apart ↦ ground (arith, apart, length-remove y zs (ground (arith, apart)))
]

count-remove : (x y : ℕ) (ys : List ℕ) → (x == y) ≡ false → count x (remove y ys) ≡ count x ys
unfolding remove
count-remove x y [] apart = refl
count-remove x y (z ∷ zs) apart = elim (==-cases z y) [
  | inl e ↦ ground arith
  | inr other ↦ ground (arith, other, count-remove x y zs apart)
]

-- A list without repetition whose members have partners in another, each its own, is no longer.
length_of_partners {ℓ} :
    (Partner : ℕ → ℕ → Type ℓ)
    → ((x x' y : ℕ) → Partner x y → Partner x' y → x ≡ x')
    → (xs ys : List ℕ) → ((x : ℕ) → count x xs ≤ 1)
    → ((x : ℕ) → 0 < count x xs → (y : ℕ) × (0 < count y ys) × Partner x y)
    → length xs ≤ length ys
length_of_partners Partner own [] ys once partner = omega arith
length_of_partners Partner own (x ∷ xs) ys once partner =
    let (y, there, p) = partner x (ground arith) in
    let shorter =
      length_of_partners Partner own xs (remove y ys) (λ z. omega (arith, once z))
        (λ x' live.
          let (y', there', p') = partner x' (omega arith) in
          let apart : (y' == y) ≡ false = elim (==-cases y' y) [
            | inl e ↦
                let same = own x x' y p (rw e at p') in absurd (ground (arith, once x', same, live))
            | inr other ↦ other
          ] in
          (y', omega (arith, count-remove y' y ys apart, there'), p')) in
    omega (arith, shorter, length-remove y ys there)

module _ {ℓ} {F : Type 0} {K V : Type ℓ} (traits : Traits K V) where
  no_larger :
      (t t' : Table F K V)
      → IsValid traits t
      → IsValid traits t'
      → view traits t' ≡ view traits t
      → length t.iteration ≤ length t'.iteration
  no_larger t t' valid valid' same =
      length_of_partners (λ x y. (v : V) × Stores t x v × Stores t' y v)
        (λ x x' y a b.
          let (v, s, s') = a in
          let (w, u, u') = b in
          let joined : some w ≡ some v = sym u'.1 ∙ s'.1 in
          let equal = ap (λ (o : Option V). elim o [ none ↦ w | some z ↦ z ]) joined in
          valid.distinct x x' v w s u
            (rw equal (valid.searchable.lawful.equal_refl (traits.key_of v))))
        t.iteration t'.iteration (owned_once valid.arena)
        (λ x live.
          let (v, e) = valid.searchable.built x live in
          let key = traits.key_of v in
          let mine =
            view-eq_of_Maps traits t key (some v) valid
              (x, (live, e), valid.searchable.lawful.equal_refl key) in
          let theirs : Maps traits t' key (some v) =
            rw (ap (λ f. f key) same ∙ mine) at (view-Maps traits t' key valid'.searchable) in
          let (y, st, _) = theirs in (y, st.0, (v, (live, e), st)))

  -- Containers with one view have one size.
  pub view-length :
      (t t' : Table F K V)
      → IsValid traits t
      → IsValid traits t'
      → view traits t' ≡ view traits t
      → length t'.iteration ≡ length t.iteration
  view-length t t' valid valid' same =
      omega (arith, no_larger t t' valid valid' same, no_larger t' t valid' valid (sym same))
