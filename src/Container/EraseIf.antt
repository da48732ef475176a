-- ===== src/Container/EraseIf.antt =====
-- The loop of `erase_if`.
use cpp_unordered_map.Prelude.{
  ℕ, zero, suc, ◌+◌, ◌%◌, ◌^◌, ◌≤◌, ◌<◌, ◌≡◌, ◌↔◌, refl, sym, ◌∙◌, ap, inl, inr, Bool, true, false,
  Option, some, none, length, get_or, count, ◌==◌, arith, Bool-cases, ==-cases, if_true,
}
use cpp_unordered_map.Prelude.Swap.{count-get_or}
use cpp_unordered_map.Hash.{Traits}
use cpp_unordered_map.Index.{null_index}
use cpp_unordered_map.Outcome.{returned, bind-returned, ◌>>=◌}
use cpp_unordered_map.Table.{Table}
use cpp_unordered_map.Valid.{IsValid, Stores}
use cpp_unordered_map.Arena.{owned-lt}
use cpp_unordered_map.Growth.{Keeps, Keeps-refl}
use cpp_unordered_map.Iterator.{element_at, next_index, begin_index}
use cpp_unordered_map.Engine.Remove.{Removes}
use cpp_unordered_map.Container.{erase_at, erase_if, erase_if_from}
use cpp_unordered_map.Container.Locate.{erase_at-Removes}
use cpp_unordered_map.Container.Positions.{get_or_inside, get_or_outside, aux_lem, Removes-aux}

module _ {ℓ} {F : Type 0} {K V : Type ℓ} (traits : Traits K V) where
  module _ (predicate : V → Bool) where
    -- The container after the elements of a predicate are erased, of which there were `n`.
    pub record ErasesIf (t : Table F K V) (n : ℕ) (t' : Table F K V) : Type ℓ where
      pub valid : IsValid traits t'
      pub shrinks : length t'.iteration + n ≡ length t.iteration
      pub keeps : (x : ℕ) (v : V) → Stores t' x v ↔ Stores t x v × (predicate v ≡ false)
      pub kept : Keeps t t'
      pub slots : t'.arena_high_water ≡ t.arena_high_water

    Removes-ErasesIf :
        (t t1 t' : Table F K V) (m n : ℕ) (w : V)
        → Stores t m w
        → predicate w ≡ true
        → Removes traits t m t1
        → ErasesIf t1 n t'
        → ErasesIf t (n + 1) t'
    Removes-ErasesIf t t1 t' m n w st doomed p e = record {
      valid = e.valid;
      shrinks = omega (arith, e.shrinks, p.shrinks);
      keeps = λ x v. (
        (λ s. let (a, f) = (e.keeps x v).0 s in (((p.keeps x v).0 a).0, f)),
        λ s. (e.keeps x v).1 (
          (p.keeps x v).1 (
            s.0,
            λ same.
                let joined : some v ≡ some w =
                  sym s.0.1 ∙ ap (λ k. (t.nodes k).storage) same ∙ st.1 in
                let equal = ap (λ (o : Option V). elim o [ none ↦ w | some u ↦ u ]) joined in
                absurd (ground (arith, s.1, doomed, ap predicate equal)),
          ),
          s.1,
        ),
      );
      kept = record {
        policy = e.kept.policy ∙ p.kept.policy;
        factor = e.kept.factor ∙ p.kept.factor;
        high = omega (arith, e.slots, p.slots);
        size = omega (arith, e.shrinks, p.shrinks);
        count = e.kept.count ∙ p.kept.count;
        capacity = e.kept.capacity ∙ p.kept.capacity;
      };
      slots = e.slots ∙ p.slots;
    }

    -- The elements before a position are to be kept.
    abbrev Passed : Table F K V → ℕ → Type ℓ
    Passed t p = (x : ℕ) (v : V) → Stores t x v → (t.nodes x).aux < p → predicate v ≡ false

    Passed-ErasesIf :
        (t : Table F K V) (p : ℕ)
        → IsValid traits t
        → length t.iteration ≤ p
        → Passed t p
        → ErasesIf t 0 t
    Passed-ErasesIf t p valid all passed = record {
      valid = valid;
      shrinks = omega arith;
      keeps = λ x v.
          ((λ s. (s, passed x v s (omega (arith, (aux_lem traits t x v valid s).0)))), λ s. s.0);
      kept = Keeps-refl t;
      slots = refl;
    }

    -- The next element is not before the position, erased or kept.
    Passed-erased :
        (t t1 : Table F K V) (p x : ℕ) (v : V)
        → IsValid traits t
        → Passed t p
        → (t.nodes x).aux ≡ p
        → Stores t x v
        → Removes traits t x t1
        → Passed t1 p
    Passed-erased t t1 p x v valid passed aux there p1 y w st before =
        let old = Removes-aux traits t t1 x y w v valid p1 there st (omega (arith, aux, before)) in
        passed y w ((p1.keeps y w).0 st).0 (omega (arith, old, before))

    Passed-next :
        (t : Table F K V) (p : ℕ) (v : V)
        → IsValid traits t
        → Passed t p
        → (t.nodes (get_or t.iteration p 0)).storage ≡ some v
        → predicate v ≡ false
        → Passed t (p + 1)
    Passed-next t p v valid passed e kept y w st before = elim (==-cases (t.nodes y).aux p) [
      | inl at_p ↦
          let same : y ≡ get_or t.iteration p 0 =
            sym (aux_lem traits t y w valid st).1
            ∙ ap (λ q. get_or t.iteration q 0) (ground arith) in
          let joined : some w ≡ some v = sym st.1 ∙ ap (λ k. (t.nodes k).storage) same ∙ e in
          ap predicate (ap (λ (o : Option V). elim o [ none ↦ v | some u ↦ u ]) joined) ∙ kept
      | inr apart ↦ passed y w st (ground arith)
    ]

    -- One round of the loop.
    erase_if_from_erased :
        (fuel erased : ℕ) (t : Table F K V) (it : ℕ) (v : V)
        → (it == null_index) ≡ false
        → (t.nodes it).storage ≡ some v
        → predicate v ≡ true
        → erase_if_from traits predicate (suc fuel) it erased t
          ≡ (erase_at traits it >>= (λ next. erase_if_from traits predicate fuel next (erased + 1)))
              t
    unfolding erase_if_from
    erase_if_from_erased fuel erased t it v other e doomed = rw (other, e, doomed) refl

    erase_if_from_kept :
        (fuel erased : ℕ) (t : Table F K V) (it : ℕ) (v : V)
        → (it == null_index) ≡ false
        → (t.nodes it).storage ≡ some v
        → predicate v ≡ false
        → erase_if_from traits predicate (suc fuel) it erased t
          ≡ erase_if_from traits predicate fuel (next_index t it) erased t
    unfolding erase_if_from
    erase_if_from_kept fuel erased t it v other e kept = rw (other, e, kept) refl

    erase_if_from_lem :
        (fuel p erased : ℕ) (t : Table F K V)
        → IsValid traits t
        → length t.iteration < 2 ^ 32
        → p ≤ length t.iteration
        → length t.iteration < fuel + p
        → Passed t p
        → (n : ℕ) × (t' : Table F K V) × (erase_if_from traits predicate fuel
              (element_at t p)
              erased
              t
            ≡ returned (erased + n) t')
          × ErasesIf t n t'
    unfolding erase_if_from next_index element_at
    erase_if_from_lem zero p erased t valid small inside enough passed = absurd (omega arith)
    erase_if_from_lem (suc fuel) p erased t valid small le enough passed =
        elim (Bool-cases (p == length t.iteration)) [
          | inl done ↦
              let here : element_at t p ≡ null_index =
                get_or_outside t.iteration p null_index (ground arith) in
              (
                0,
                t,
                if_true {b = element_at t p == null_index} _ _ (ground (arith, here))
                    ∙ ap (λ k. returned k t) (omega arith),
                Passed-ErasesIf t p valid (ground arith) passed,
              )
          | inr more ↦
              let x = get_or t.iteration p 0 in
              let inside : p < length t.iteration = ground arith in
              let here : element_at t p ≡ x = get_or_inside t.iteration p null_index 0 inside in
              let live : 0 < count x t.iteration = count-get_or t.iteration p 0 inside in
              let (v, e) = valid.searchable.built x live in
              let other : (x == null_index) ≡ false =
                ground (arith, owned-lt valid.arena x live, valid.arena.small) in
              let aux : (t.nodes x).aux ≡ p = valid.linked p inside in
              elim (Bool-cases (predicate v)) [
                | inl doomed ↦
                    let (t1, run, p1) = erase_at-Removes traits t valid x v (live, e) in
                    let (n, t', later, rest) =
                      erase_if_from_lem fuel p (erased + 1) t1 p1.valid (omega (arith, p1.shrinks))
                        (omega (arith, p1.shrinks)) (omega (arith, p1.shrinks))
                        (Passed-erased t t1 p x v valid passed aux (live, e) p1) in
                    (
                      n + 1,
                      t',
                      ap (λ it. erase_if_from traits predicate (suc fuel) it erased t) here
                          ∙ erase_if_from_erased fuel erased t x v other e doomed
                          ∙ bind-returned (erase_at traits x)
                              (λ next. erase_if_from traits predicate fuel next (erased + 1)) t run
                          ∙ ap
                              (λ q.
                                erase_if_from traits predicate fuel (element_at t1 q) (erased + 1)
                                  t1)
                              aux
                          ∙ later
                          ∙ ap (λ k. returned k t') (omega arith),
                      Removes-ErasesIf t t1 t' x n v (live, e) doomed p1 rest,
                    )
                | inr kept ↦
                    let word : (p + 1) % 2 ^ 32 ≡ p + 1 = omega arith in
                    let (n, t', later, rest) =
                      erase_if_from_lem fuel (p + 1) erased t valid small (omega arith)
                        (omega arith) (Passed-next t p v valid passed e kept) in
                    (
                      n,
                      t',
                      ap (λ it. erase_if_from traits predicate (suc fuel) it erased t) here
                          ∙ erase_if_from_kept fuel erased t x v other e kept
                          ∙ ap (λ q. erase_if_from traits predicate fuel (element_at t q) erased t)
                              (ap (λ a. (a + 1) % 2 ^ 32) aux ∙ word)
                          ∙ later,
                      rest,
                    )
              ]
        ]

    -- On a valid container whose size fits 32 bits, `erase_if` returns within its fuel and leaves a
    -- valid container. Exactly the elements that the predicate rejects are still stored, each at the
    -- node where it was; the returned number is how many elements were lost; the bucket count, the
    -- capacity, the policy, the load factor and the slots stay.
    pub erase_if-ErasesIf :
        (t : Table F K V)
        → IsValid traits t
        → length t.iteration < 2 ^ 32
        → (n : ℕ) × (t' : Table F K V) × (erase_if traits predicate t ≡ returned n t')
          × ErasesIf t n t'
    unfolding erase_if begin_index
    erase_if-ErasesIf t valid small =
        let (n, t', run, e) =
          erase_if_from_lem (length t.iteration + 1) 0 0 t valid small (omega arith) (omega arith)
            (λ x v st h. absurd (omega arith)) in
        (n, t', run ∙ ap (λ k. returned k t') (omega arith), e)
