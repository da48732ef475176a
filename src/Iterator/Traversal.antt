-- ===== src/Iterator/Traversal.antt =====
-- Loops over a container by iterators, and over a bucket by local iterators.
use cpp_unordered_map.Prelude.{
  ℕ, zero, suc, ◌+◌, ◌-◌, ◌%◌, ◌^◌, ◌≤◌, ◌<◌, ◌≡◌, ◌≢◌, ◌⊎◌, refl, sym, ◌∙◌, ap, inl, inr, false,
  some, List, [], ◌∷◌, length, get_or, ◌==◌, arith, Bool-cases,
}
use cpp_unordered_map.Hash.{Traits}
use cpp_unordered_map.Index.{null_index}
use cpp_unordered_map.Table.{Table}
use cpp_unordered_map.Prelude.Swap.{count-get_or}
use cpp_unordered_map.Valid.{IsValid}
use cpp_unordered_map.Arena.{owned-lt}
use cpp_unordered_map.Iterator.{
  element_at, begin_index, visit, home_bucket_of, advance_from, advance_to_match,
}

module _ {ℓ} {F : Type 0} {K V : Type ℓ} (t : Table F K V)
    (linked : (p : ℕ) → p < length t.iteration → (t.nodes (get_or t.iteration p 0)).aux ≡ p)
    (real : (p : ℕ) → p < length t.iteration → get_or t.iteration p 0 ≢ null_index)
    (small : length t.iteration < 2 ^ 32) where
  at_start :
      (p : ℕ) (rest : List ℕ)
      → ((q d : ℕ) → get_or t.iteration (p + q) d ≡ get_or rest q d)
      → (d : ℕ) → get_or t.iteration p d ≡ get_or rest 0 d
  at_start p rest same d = ap (λ k. get_or t.iteration k d) (omega arith) ∙ same 0 d

  visit_from :
      (rest : List ℕ) (p : ℕ)
      → p + length rest ≡ length t.iteration
      → ((q d : ℕ) → get_or t.iteration (p + q) d ≡ get_or rest q d)
      → visit (suc (length rest)) t (element_at t p) ≡ some rest
  unfolding visit element_at
  visit_from [] p size same =
      let at_end : element_at t p ≡ null_index = at_start p [] same null_index in
      rw at_end (ground arith)
  visit_from (x ∷ rest) p size same =
      let here : element_at t p ≡ x = at_start p (x ∷ rest) same null_index in
      let at_p : get_or t.iteration p 0 ≡ x = at_start p (x ∷ rest) same 0 in
      let inside : p < length t.iteration = omega arith in
      let other : (x == null_index) ≡ false = ground (arith, real p inside, at_p) in
      let aux : (t.nodes x).aux ≡ p = ap (λ k. (t.nodes k).aux) (sym at_p) ∙ linked p inside in
      let word : (p + 1) % 2 ^ 32 ≡ p + 1 = omega arith in
      let later =
        visit_from rest (p + 1) (omega arith)
          (λ q d. ap (λ k. get_or t.iteration k d) (omega arith) ∙ same (suc q) d) in
      rw (here, other, aux, word, later) refl

  visit_all : visit (length t.iteration + 1) t (begin_index t) ≡ some t.iteration
  unfolding begin_index
  visit_all =
      ap (λ fuel. visit fuel t (begin_index t)) (omega arith)
      ∙ visit_from t.iteration 0 (omega arith)
          (λ q d. ap (λ k. get_or t.iteration k d) (omega arith))

module _ {ℓ} {F : Type 0} {K V : Type ℓ} where
  -- In a valid container whose size fits 32 bits, a loop from the first iterator to the end sees the
  -- live nodes in the order of the vector, each once, and ends.
  pub visit-begin_index :
      (traits : Traits K V) (t : Table F K V)
      → IsValid traits t
      → length t.iteration < 2 ^ 32
      → visit (length t.iteration + 1) t (begin_index t) ≡ some t.iteration
  visit-begin_index traits t valid small =
      visit_all t valid.linked
        (λ p l. omega (
          arith,
          owned-lt valid.arena (get_or t.iteration p 0) (count-get_or t.iteration p 0 l),
          valid.arena.small,
        ))
        small

module _ {ℓ} {F : Type 0} {K V : Type ℓ} (traits : Traits K V) (t : Table F K V) (home : ℕ) where
  abbrev Homed : ℕ → Type 0
  Homed p = home_bucket_of traits t (get_or t.iteration p 0) ≡ home

  -- The first position of the bucket from `position` on, or the size.
  pub record Advances (position r : ℕ) : Type 0 where
    pub least : position ≤ r
    pub stops : Homed r × (r < length t.iteration) ⊎ (length t.iteration ≤ r)
    pub skips : (q : ℕ) → position ≤ q → q < r → ¬ Homed q

  advance_from_lem :
      (fuel position : ℕ)
      → fuel ≡ length t.iteration - position
      → Advances position (advance_from traits fuel t home position)
  unfolding advance_from
  advance_from_lem zero position e = record {
    least = omega arith;
    stops = inr (omega arith);
    skips = λ q a b. absurd (omega arith);
  }
  advance_from_lem (suc fuel) position e =
      elim (Bool-cases (home_bucket_of traits t (get_or t.iteration position 0) == home)) [
        | inl p ↦ rw p (record {
          least = omega arith;
          stops = inl (ground arith, omega arith);
          skips = λ q a b. absurd (omega arith);
        })
        | inr p ↦
            let later = advance_from_lem fuel (position + 1) (omega arith) in
            rw p (record {
              least = omega (arith, later.least);
              stops = later.stops;
              skips = λ q a b. elim (Bool-cases (q == position)) [
                | inl same ↦ λ h. ground (arith, h)
                | inr apart ↦ later.skips q (ground arith) b
              ];
            })
      ]

  -- From any position, `advance_to_match` stops at the first position of the bucket's elements that
  -- is no smaller, or past the last element where there is none.
  pub advance_to_match-Advances :
      (position : ℕ) → Advances position (advance_to_match traits t home position)
  unfolding advance_to_match
  advance_to_match-Advances position =
      advance_from_lem (length t.iteration - position) position refl
