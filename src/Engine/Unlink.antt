-- ===== src/Engine/Unlink.antt =====
-- Swap with the back and pop: what `unlink_from_iteration` does to the vector and the positions.
use cpp_unordered_map.Prelude.{
  ℕ, ◌+◌, ◌-◌, ◌≤◌, ◌<◌, ◌≡◌, ◌≢◌, sym, ◌∙◌, ap, some, List, length, get_or, set, back, pop_back,
  count, length-set, to_nat, ◌==◌, if◌then◌else◌, arith, inl, inr, ==-cases,
}
use cpp_unordered_map.Prelude.Swap.{
  get_or-set, length-pop_back, get_or-pop_back, back-some, count-set, count-pop_back, count-get_or,
  position_of_count,
}

module _ (aux : ℕ → ℕ) (it : List ℕ) where
  -- Each element's `aux` is its position.
  abbrev pub IsLinked : Type 0
  IsLinked = (p : ℕ) → p < length it → aux (get_or it p 0) ≡ p

  module _ (linked : IsLinked) (m : ℕ) (live : 0 < count m it) where
    abbrev pub last : ℕ
    last = get_or it (length it - 1) 0

    abbrev pub remaining : List ℕ
    remaining = pop_back (set it (aux m) last)

    pub position_lem : (aux m < length it) × (get_or it (aux m) 0 ≡ m)
    position_lem =
        let (p, l, e) = position_of_count m it 0 live in
        let at_p : aux m ≡ p = ap aux (sym e) ∙ linked p l in (rw at_p l, rw at_p e)

    pub length-remaining : length remaining + 1 ≡ length it
    length-remaining =
        omega
          (arith, length-pop_back (set it (aux m) last), length-set it (aux m) last, position_lem.0)

    get_or-swapped :
        (q : ℕ) → get_or (set it (aux m) last) q 0 ≡ (if aux m == q then last else get_or it q 0)
    get_or-swapped q = get_or-set it (aux m) q last 0 position_lem.0

    pub back-last : back it ≡ some last
    back-last = back-some it 0 (omega (arith, position_lem.0))

    -- Exactly the unlinked node is gone.
    pub count-remaining : (x : ℕ) → count x remaining + to_nat (x == m) ≡ count x it
    count-remaining x =
        let swapped = set it (aux m) last in
        let n : length swapped - 1 ≡ length it - 1 = omega (arith, length-set it (aux m) last) in
        let end : get_or swapped (length swapped - 1) 0 ≡ last =
          ap (λ k. get_or swapped k 0) n ∙ get_or-swapped (length it - 1) ∙ ground arith in
        let popped = rw end at (
          count-pop_back x swapped 0 (omega (arith, position_lem.0, length-set it (aux m) last))) in
        let written = rw position_lem.1 at (count-set x it (aux m) last 0 position_lem.0) in
        omega (arith, popped, written)

    -- The element that was moved takes over the position.
    pub remaining-IsLinked :
        (aux' : ℕ → ℕ)
        → ((x : ℕ) → count x it ≤ 1)
        → ((x : ℕ) → x ≢ m → aux' x ≡ (if last == x then aux m else aux x))
        → (q : ℕ) → q < length remaining
        → aux' (get_or remaining q 0) ≡ q
    remaining-IsLinked aux' once same q hq =
        let y = get_or remaining q 0 in
        let shown : y ≡ (if aux m == q then last else get_or it q 0) =
          get_or-pop_back (set it (aux m) last) q 0
            (omega (arith, length-pop_back (set it (aux m) last)))
          ∙ get_or-swapped q in
        let other : y ≢ m = λ e.
          absurd (ground (arith, count-get_or remaining q 0 hq, count-remaining y, once y, e)) in
        let short = length-remaining in
        elim (==-cases (aux m) q) [
          | inl e ↦ ground (arith, same y other, shown, e)
          | inr apart ↦
              let stays : y ≡ get_or it q 0 = ground (arith, shown) in
              let at_q : aux y ≡ q = ap aux stays ∙ linked q (omega arith) in
              let at_end : aux last ≡ length it - 1 = linked (length it - 1) (omega arith) in
              ground (arith, same y other, at_q, at_end)
        ]
