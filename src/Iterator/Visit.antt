-- ===== src/Iterator/Visit.antt =====
-- A loop over the elements of a container by iterators that counts its rounds.
use cpp_unordered_map.Prelude.{
  ℕ, zero, suc, ◌+◌, ◌%◌, ◌^◌, ◌≤◌, ◌<◌, ◌≡◌, ◌∙◌, ap, inl, inr, false, true, length, get_or, count,
  ◌==◌, arith, Bool-cases,
}
use cpp_unordered_map.Prelude.Swap.{count-get_or}
use cpp_unordered_map.Hash.{Traits}
use cpp_unordered_map.Index.{null_index}
use cpp_unordered_map.Table.{Table}
use cpp_unordered_map.Valid.{IsValid, Stores}
use cpp_unordered_map.Arena.{owned-lt}
use cpp_unordered_map.Iterator.{element_at, next_index}
use cpp_unordered_map.Container.Positions.{get_or_inside, get_or_outside}

module _ {ℓ} {F : Type 0} {K V : Type ℓ} (traits : Traits K V) (t : Table F K V)
    (valid : IsValid traits t) (small : length t.iteration < 2 ^ 32) {R : Type 0}
    (loop : ℕ → ℕ → ℕ → R) (result : ℕ → R)
    (ends : (fuel x i : ℕ) → (x == null_index) ≡ true → loop (suc fuel) x i ≡ result i)
    (round : (fuel x i : ℕ) (v : V)
      → (x == null_index) ≡ false
      → Stores t x v
      → loop (suc fuel) x i ≡ loop fuel (next_index t x) (i + 1)) where
  -- From a position on, with enough fuel, the loop counts all elements.
  pub visits_all :
      (fuel p : ℕ)
      → p ≤ length t.iteration
      → length t.iteration < fuel + p
      → loop fuel (element_at t p) p ≡ result (length t.iteration)
  unfolding next_index element_at
  visits_all zero p le enough = absurd (omega arith)
  visits_all (suc fuel) p le enough = elim (Bool-cases (p == length t.iteration)) [
    | inl done ↦
        let here : element_at t p ≡ null_index =
          get_or_outside t.iteration p null_index (ground arith) in
        ends fuel (element_at t p) p (ground (arith, here)) ∙ ap result (ground arith)
    | inr more ↦
        let x = get_or t.iteration p 0 in
        let inside : p < length t.iteration = ground arith in
        let here : element_at t p ≡ x = get_or_inside t.iteration p null_index 0 inside in
        let live : 0 < count x t.iteration = count-get_or t.iteration p 0 inside in
        let (v, e) = valid.searchable.built x live in
        let other : (x == null_index) ≡ false =
          ground (arith, owned-lt valid.arena x live, valid.arena.small) in
        let aux : (t.nodes x).aux ≡ p = valid.linked p inside in
        let word : (p + 1) % 2 ^ 32 ≡ p + 1 = omega arith in
        ap (λ it. loop (suc fuel) it p) here
        ∙ round fuel x p v other (live, e)
        ∙ ap (λ q. loop fuel (element_at t q) (p + 1)) (ap (λ k. (k + 1) % 2 ^ 32) aux ∙ word)
        ∙ visits_all fuel (p + 1) (omega arith) (omega arith)
  ]
