-- ===== src/FuzzSet/Agree.antt =====
-- When the tested set agrees with the standard one, and what keeps it so.
use cpp_unordered_map.Prelude.{
  ℕ, ◌+◌, ◌≡◌, refl, sym, ◌∙◌, ap, inl, inr, Bool, true, false, not, to_nat, Option, length, ◌==◌,
  ==→eq, if◌then◌else◌, arith, Bool-cases, if_true, if_false,
}
use cpp_unordered_map.Hash.{Policy, Traits}
use cpp_unordered_map.Table.{Table}
use cpp_unordered_map.Valid.{IsValid}
use cpp_unordered_map.Contents.{has_some, view, without}
use cpp_unordered_map.Contents.Refine.{with_new}
use cpp_unordered_map.Contents.Size.{view-length}
use cpp_unordered_map.Adapters.{set_traits}
use cpp_unordered_map.FuzzSet.{SetOracle, Pair}
use cpp_unordered_map.FuzzSet.Standard.{ErasesLikeStandard, InsertsLikeStandard}

to_nat-zero : (b : Bool) → (to_nat b == 0) ≡ not b
to_nat-zero true = refl
to_nat-zero false = refl

module _ (is_avalanching : Bool) where
  abbrev traits : Traits ℕ ℕ
  traits = set_traits is_avalanching

  module _ {F O : Type 0} (standard : SetOracle O) where
    -- Both sets have the same keys, and the same size.
    pub record Agrees (s : Pair F O) : Type 0 where
      pub valid : IsValid traits s.0
      pub plain_keys : (a b : ℕ) → s.0.policy.key_equal a b ≡ (a == b)
      pub size : length s.0.iteration ≡ standard.size s.1
      pub shown : (k : ℕ) → standard.count_of s.1 k ≡ to_nat (has_some (view traits s.0 k))

    -- The standard set lacks a key exactly where the tested one does.
    pub lacks-shown :
        (s : Pair F O) (key : ℕ)
        → Agrees s
        → (standard.count_of s.1 key == 0) ≡ not (has_some (view traits s.0 key))
    lacks-shown s key a =
        ap (λ n. n == 0) (a.shown key) ∙ to_nat-zero (has_some (view traits s.0 key))

    -- What the tested set becomes, beside what the standard one becomes.
    module _ (t t' : Table F ℕ ℕ) (o : O) (a : Agrees (t, o)) (valid : IsValid traits t')
        (policy : t'.policy ≡ t.policy) where
      kept_keys : (x y : ℕ) → t'.policy.key_equal x y ≡ (x == y)
      kept_keys x y = ap (λ (p : Policy ℕ). p.key_equal x y) policy ∙ a.plain_keys x y

      pub same-Agrees :
          (o' : O)
          → standard.size o' ≡ standard.size o
          → ((k : ℕ) → standard.count_of o' k ≡ standard.count_of o k)
          → view traits t' ≡ view traits t
          → Agrees (t', o')
      same-Agrees o' size count shown = record {
        valid = valid;
        plain_keys = kept_keys;
        size = view-length traits t t' a.valid valid shown ∙ a.size ∙ sym size;
        shown = λ k. count k ∙ a.shown k ∙ ap (λ f. to_nat (has_some (f k))) (sym shown);
      }

      pub erased-Agrees :
          (key : ℕ)
          → ErasesLikeStandard standard
          → length t'.iteration + to_nat (has_some (view traits t key)) ≡ length t.iteration
          → view traits t' ≡ without traits t.policy key (view traits t)
          → Agrees (t', (standard.erase key o).1)
      erased-Agrees key laws shrinks shown = record {
        valid = valid;
        plain_keys = kept_keys;
        size = omega (arith, shrinks, a.size, laws.size o key, laws.erased o key, a.shown key);
        shown = λ k.
            laws.count o key k
            ∙ elim (Bool-cases (key == k)) [
              | inl e ↦
                  if_true _ _ e
                  ∙ sym (ap (λ x. to_nat (has_some x)) (if_true _ _ (a.plain_keys key k ∙ e)))
              | inr e ↦
                  if_false _ _ e
                  ∙ a.shown k
                  ∙ sym (ap (λ x. to_nat (has_some x)) (if_false _ _ (a.plain_keys key k ∙ e)))
            ]
            ∙ ap (λ (f : ℕ → Option ℕ). to_nat (has_some (f k))) (sym shown);
      }

      with_new_lem :
          (key k : ℕ)
          → (if key == k then 1 else standard.count_of o k)
            ≡ to_nat (has_some (with_new traits t.policy key (view traits t) k))
      with_new_lem key k =
          let f = view traits t in
          elim (Bool-cases (has_some (f key))) [
            | inl there ↦ elim (Bool-cases (key == k)) [
              | inl e ↦
                  rw (there, e)
                    (ap to_nat (sym there) ∙ ap (λ j. to_nat (has_some (f j))) (==→eq key k e))
              | inr e ↦ rw (there, e) (a.shown k)
            ]
            | inr absent ↦ elim (Bool-cases (key == k)) [
              | inl e ↦ rw (absent, a.plain_keys key k, e) refl
              | inr e ↦ rw (absent, a.plain_keys key k, e) (a.shown k)
            ]
          ]

      pub inserted-Agrees :
          (insert : ℕ → O → Bool × O) (key : ℕ) (flag : Bool)
          → InsertsLikeStandard standard insert
          → flag ≡ not (has_some (view traits t key))
          → length t'.iteration ≡ length t.iteration + to_nat flag
          → view traits t' ≡ with_new traits t.policy key (view traits t)
          → Agrees (t', (insert key o).1)
      inserted-Agrees insert key flag laws e grows shown = record {
        valid = valid;
        plain_keys = kept_keys;
        size =
            let same = ap to_nat (e ∙ sym (lacks-shown (t, o) key a)) in
            omega (arith, grows, a.size, laws.size o key, same);
        shown = λ k.
            laws.count o key k
            ∙ with_new_lem key k
            ∙ ap (λ (f : ℕ → Option ℕ). to_nat (has_some (f k))) (sym shown);
      }
