-- ===== src/Container/Positions.antt =====
-- Where the iteration vector has its nodes, before and after an element is erased.
use cpp_unordered_map.Prelude.{
  ℕ, zero, suc, ◌-◌, ◌≤◌, ◌<◌, ◌≡◌, refl, sym, ◌∙◌, ap, List, [], ◌∷◌, length, get_or, set, ◌==◌,
  arith, if_false, length-set,
}
use cpp_unordered_map.Prelude.Swap.{get_or-set, get_or-pop_back, position_of_count}
use cpp_unordered_map.Hash.{Traits}
use cpp_unordered_map.Table.{Table}
use cpp_unordered_map.Valid.{IsValid, Stores}
use cpp_unordered_map.Engine.Remove.{Removes}

module _ {ℓ} {A : Type ℓ} where
  pub get_or_inside :
      (xs : List A) (i : ℕ) (d e : A) → i < length xs → get_or xs i d ≡ get_or xs i e
  get_or_inside [] i d e h = absurd (omega arith)
  get_or_inside (x ∷ xs) zero d e h = refl
  get_or_inside (x ∷ xs) (suc i) d e h = get_or_inside xs i d e (omega arith)

  pub get_or_outside : (xs : List A) (i : ℕ) (d : A) → length xs ≤ i → get_or xs i d ≡ d
  get_or_outside [] i d h = refl
  get_or_outside (x ∷ xs) zero d h = absurd (omega arith)
  get_or_outside (x ∷ xs) (suc i) d h = get_or_outside xs i d (omega arith)

module _ {ℓ} {F : Type 0} {K V : Type ℓ} (traits : Traits K V) where
  -- A stored element is at the position that its node names.
  pub aux_lem :
      (t : Table F K V) (x : ℕ) (v : V)
      → IsValid traits t
      → Stores t x v
      → ((t.nodes x).aux < length t.iteration) × (get_or t.iteration (t.nodes x).aux 0 ≡ x)
  aux_lem t x v valid st =
      let (i, inside, at_i) = position_of_count x t.iteration 0 st.0 in
      let aux : (t.nodes x).aux ≡ i =
        ap (λ k. (t.nodes k).aux) (sym at_i) ∙ valid.linked i inside in
      rw aux (inside, at_i)

  -- What comes before an erased element keeps its position.
  pub Removes-aux :
      (t t' : Table F K V) (m x : ℕ) (v w : V)
      → IsValid traits t
      → Removes traits t m t'
      → Stores t m w
      → Stores t' x v
      → (t'.nodes x).aux < (t.nodes m).aux
      → (t.nodes x).aux ≡ (t'.nodes x).aux
  Removes-aux t t' m x v w valid p st_m st before =
      let p0 = (t.nodes m).aux in
      let q = (t'.nodes x).aux in
      let (inside, at_q) = aux_lem t' x v p.valid st in
      let last = get_or t.iteration (length t.iteration - 1) 0 in
      let list = set t.iteration p0 last in
      let long : length list ≡ length t.iteration = length-set t.iteration p0 last in
      let there : get_or t.iteration q 0 ≡ x =
        sym (if_false {b = p0 == q} last (get_or t.iteration q 0) (ground arith))
        ∙ sym (get_or-set t.iteration p0 q last 0 (aux_lem t m w valid st_m).0)
        ∙ sym (get_or-pop_back list q 0 (omega (arith, p.shrinks)))
        ∙ ap (λ l. get_or l q 0) (sym p.order)
        ∙ at_q in
      ap (λ k. (t.nodes k).aux) (sym there) ∙ valid.linked q (omega (arith, p.shrinks))
