-- ===== src/Adapters/Each.antt =====
-- A loop over the elements of a container by iterators that ends at the first that fails a test.
use cpp_unordered_map.Prelude.{
  ℕ, zero, suc, ◌+◌, ◌%◌, ◌^◌, ◌≤◌, ◌<◌, ◌≡◌, ◌⊎◌, refl, sym, ◌∙◌, ap, inl, inr, Bool, true, false,
  Option, some, none, length, get_or, count, ◌==◌, if◌then◌else◌, arith, Bool-cases, ==-cases,
  if_true, if_false,
}
use cpp_unordered_map.Prelude.Swap.{count-get_or}
use cpp_unordered_map.Hash.{Traits}
use cpp_unordered_map.Index.{null_index}
use cpp_unordered_map.Outcome.{Outcome, returned}
use cpp_unordered_map.Table.{Table}
use cpp_unordered_map.Valid.{IsValid, Stores}
use cpp_unordered_map.Arena.{owned-lt}
use cpp_unordered_map.Iterator.{element_at, next_index}
use cpp_unordered_map.Container.Positions.{get_or_inside, get_or_outside, aux_lem}

module _ {ℓ} {F : Type 0} {K V : Type ℓ} (traits : Traits K V) (lhs : Table F K V)
    (test : V → Bool) where
  -- What the loop returns from a position on.
  abbrev pub Compares : ℕ → Bool → Type ℓ
  Compares p b =
      (b ≡ true) × ((x : ℕ) (v : V) → Stores lhs x v → p ≤ (lhs.nodes x).aux → test v ≡ true)
      ⊎ (b ≡ false) × ((x : ℕ) × (v : V) × Stores lhs x v × (test v ≡ false))

  module _ (valid : IsValid traits lhs) (small : length lhs.iteration < 2 ^ 32) (rhs : Table F K V)
      (loop : ℕ → ℕ → Outcome (Table F K V) Bool)
      (ends : (fuel x : ℕ) → (x == null_index) ≡ true → loop (suc fuel) x ≡ returned true rhs)
      (round : (fuel x : ℕ) (v : V)
        → (x == null_index) ≡ false
        → (lhs.nodes x).storage ≡ some v
        → loop (suc fuel) x
          ≡ (if test v then loop fuel (next_index lhs x) else returned false rhs)) where
    Compares-suc :
        (p : ℕ) (b : Bool) (v : V)
        → (lhs.nodes (get_or lhs.iteration p 0)).storage ≡ some v
        → test v ≡ true
        → Compares (p + 1) b
        → Compares p b
    Compares-suc p b v e here c = elim c [
      | inl (yes_all, later) ↦ inl (
        yes_all,
        λ x w st le. elim (==-cases (lhs.nodes x).aux p) [
          | inl at_p ↦
              let same_node : x ≡ get_or lhs.iteration p 0 =
                sym (aux_lem traits lhs x w valid st).1
                ∙ ap (λ q. get_or lhs.iteration q 0) (ground arith) in
              let joined : some w ≡ some v =
                sym st.1 ∙ ap (λ n. (lhs.nodes n).storage) same_node ∙ e in
              let equal = ap (λ (o : Option V). elim o [ none ↦ v | some u ↦ u ]) joined in
              ap test equal ∙ here
          | inr apart ↦ later x w st (ground arith)
        ],
      )
      | inr differs ↦ inr differs
    ]

    pub loop-Compares :
        (fuel p : ℕ)
        → p ≤ length lhs.iteration
        → length lhs.iteration < fuel + p
        → (b : Bool) × (loop fuel (element_at lhs p) ≡ returned b rhs) × Compares p b
    unfolding next_index element_at
    loop-Compares zero p le enough = absurd (omega arith)
    loop-Compares (suc fuel) p le enough = elim (Bool-cases (p == length lhs.iteration)) [
      | inl done ↦
          let here : element_at lhs p ≡ null_index =
            get_or_outside lhs.iteration p null_index (ground arith) in
          (
            true,
            ends fuel (element_at lhs p) (ground (arith, here)),
            inl (
              refl,
              λ x v st passed.
                  absurd (ground (arith, done, passed, (aux_lem traits lhs x v valid st).0)),
            ),
          )
      | inr more ↦
          let x = get_or lhs.iteration p 0 in
          let inside : p < length lhs.iteration = ground arith in
          let here : element_at lhs p ≡ x = get_or_inside lhs.iteration p null_index 0 inside in
          let live : 0 < count x lhs.iteration = count-get_or lhs.iteration p 0 inside in
          let (v, e) = valid.searchable.built x live in
          let other : (x == null_index) ≡ false =
            ground (arith, owned-lt valid.arena x live, valid.arena.small) in
          let here_too = ap (λ it. loop (suc fuel) it) here ∙ round fuel x v other e in
          elim (Bool-cases (test v)) [
            | inl yes_here ↦
                let word : (p + 1) % 2 ^ 32 ≡ p + 1 = omega arith in
                let aux : (lhs.nodes x).aux ≡ p = valid.linked p inside in
                let (b, run, c) = loop-Compares fuel (p + 1) (omega arith) (omega arith) in
                (
                  b,
                  here_too
                      ∙ if_true _ _ yes_here
                      ∙ ap (λ q. loop fuel (element_at lhs q))
                          (ap (λ a. (a + 1) % 2 ^ 32) aux ∙ word)
                      ∙ run,
                  Compares-suc p b v e yes_here c,
                )
            | inr no_here ↦
                (false, here_too ∙ if_false _ _ no_here, inr (refl, (x, v, (live, e), no_here)))
          ]
    ]
