-- ===== src/Fuzz/Agree.antt =====
-- When the tested map agrees with the standard one, and what keeps it so.
use cpp_unordered_map.Prelude.{
  ℕ, ◌+◌, ◌≡◌, refl, sym, ◌∙◌, ap, inl, inr, Bool, not, to_nat, Option, none, some, length, ◌==◌,
  if◌then◌else◌, arith, Bool-cases, if_true, if_false,
}
use cpp_unordered_map.Hash.{Policy, Traits}
use cpp_unordered_map.Table.{Table}
use cpp_unordered_map.Valid.{IsValid}
use cpp_unordered_map.Contents.{has_some, view, without}
use cpp_unordered_map.Contents.Refine.{with_new}
use cpp_unordered_map.Contents.Size.{view-length}
use cpp_unordered_map.Adapters.{map_traits}
use cpp_unordered_map.Adapters.View.{mapped_of, has_some-mapped_of}
use cpp_unordered_map.Fuzz.{Oracle, Pair}
use cpp_unordered_map.Fuzz.Standard.{
  ErasesLikeStandard, InsertsLikeStandard, WritesLikeStandard, EmptyLikeStandard,
}

module _ (is_avalanching : Bool) where
  abbrev traits : Traits ℕ (ℕ × ℕ)
  traits = map_traits is_avalanching

  module _ {F O : Type 0} (standard : Oracle O) where
    -- Both maps have the same value at each key, and the same size.
    pub record Agrees (s : Pair F O) : Type 0 where
      pub valid : IsValid traits s.0
      pub plain_keys : (a b : ℕ) → s.0.policy.key_equal a b ≡ (a == b)
      pub size : length s.0.iteration ≡ standard.size s.1
      pub shown : (k : ℕ) → standard.value_at s.1 k ≡ mapped_of (view traits s.0 k)

    -- Both maps have the key, or neither.
    pub has_some-shown :
        (s : Pair F O) (key : ℕ)
        → Agrees s
        → has_some (standard.value_at s.1 key) ≡ has_some (view traits s.0 key)
    has_some-shown s key a = ap has_some (a.shown key) ∙ has_some-mapped_of (view traits s.0 key)

    -- What the tested map becomes, beside what the standard one becomes.
    module _ (t t' : Table F ℕ (ℕ × ℕ)) (o : O) (a : Agrees (t, o)) (valid : IsValid traits t')
        (policy : t'.policy ≡ t.policy) where
      kept_keys : (x y : ℕ) → t'.policy.key_equal x y ≡ (x == y)
      kept_keys x y = ap (λ (p : Policy ℕ). p.key_equal x y) policy ∙ a.plain_keys x y

      pub same-Agrees :
          (o' : O)
          → standard.size o' ≡ standard.size o
          → ((k : ℕ) → standard.value_at o' k ≡ standard.value_at o k)
          → view traits t' ≡ view traits t
          → Agrees (t', o')
      same-Agrees o' size value shown = record {
        valid = valid;
        plain_keys = kept_keys;
        size = view-length traits t t' a.valid valid shown ∙ a.size ∙ sym size;
        shown = λ k. value k ∙ a.shown k ∙ ap (λ f. mapped_of (f k)) (sym shown);
      }

      pub erased-Agrees :
          (key : ℕ)
          → ErasesLikeStandard standard
          → length t'.iteration + (if has_some (view traits t key) then 1 else 0)
            ≡ length t.iteration
          → view traits t' ≡ without traits t.policy key (view traits t)
          → Agrees (t', (standard.erase key o).1)
      erased-Agrees key laws shrinks shown = record {
        valid = valid;
        plain_keys = kept_keys;
        size =
            let same : (standard.erase key o).0 ≡ (if has_some (view traits t key) then 1 else 0) =
              laws.erased o key ∙ ap (λ b. if b then 1 else 0) (has_some-shown (t, o) key a) in
            omega (arith, shrinks, a.size, laws.size o key, same);
        shown = λ k.
            laws.value o key k
            ∙ elim (Bool-cases (key == k)) [
              | inl e ↦ if_true _ _ e ∙ sym (ap mapped_of (if_true _ _ (a.plain_keys key k ∙ e)))
              | inr e ↦
                  if_false _ _ e
                  ∙ a.shown k
                  ∙ sym (ap mapped_of (if_false _ _ (a.plain_keys key k ∙ e)))
            ]
            ∙ ap (λ (f : ℕ → Option (ℕ × ℕ)). mapped_of (f k)) (sym shown);
      }

      mapped_of-with_new :
          (key value k : ℕ)
          → (if has_some (standard.value_at o key)
              then standard.value_at o k
              else (if key == k then some value else standard.value_at o k))
            ≡ mapped_of (with_new traits t.policy (key, value) (view traits t) k)
      mapped_of-with_new key value k =
          let f = view traits t in
          let old = has_some-shown (t, o) key a in
          elim (Bool-cases (has_some (f key))) [
            | inl there ↦ rw (old, there) (a.shown k)
            | inr absent ↦ elim (Bool-cases (key == k)) [
              | inl e ↦ rw (old, absent, a.plain_keys key k, e) refl
              | inr e ↦ rw (old, absent, a.plain_keys key k, e) (a.shown k)
            ]
          ]

      inserted_size :
          (key : ℕ) (o' : O) (flag : Bool)
          → flag ≡ not (has_some (view traits t key))
          → length t'.iteration ≡ length t.iteration + to_nat flag
          → standard.size o' ≡ standard.size o + to_nat (not (has_some (standard.value_at o key)))
          → length t'.iteration ≡ standard.size o'
      inserted_size key o' flag e grows size =
          let same = ap (λ b. to_nat (not b)) (has_some-shown (t, o) key a) in
          omega (arith, grows, size, same, a.size, ap to_nat e)

      pub inserted-Agrees :
          (insert : ℕ → ℕ → O → Bool × O) (key value : ℕ) (flag : Bool)
          → InsertsLikeStandard standard insert
          → flag ≡ not (has_some (view traits t key))
          → length t'.iteration ≡ length t.iteration + to_nat flag
          → view traits t' ≡ with_new traits t.policy (key, value) (view traits t)
          → Agrees (t', (insert key value o).1)
      inserted-Agrees insert key value flag laws e grows shown = record {
        valid = valid;
        plain_keys = kept_keys;
        size = inserted_size key (insert key value o).1 flag e grows (laws.size o key value);
        shown = λ k.
            laws.value o key value k
            ∙ mapped_of-with_new key value k
            ∙ ap (λ (f : ℕ → Option (ℕ × ℕ)). mapped_of (f k)) (sym shown);
      }

      pub written-Agrees :
          (write : ℕ → ℕ → O → O) (key value : ℕ) (flag : Bool)
          → WritesLikeStandard standard write
          → flag ≡ not (has_some (view traits t key))
          → length t'.iteration ≡ length t.iteration + to_nat flag
          → ((k : ℕ)
              → mapped_of (view traits t' k)
                ≡ (if t.policy.key_equal key k then some value else mapped_of (view traits t k)))
          → Agrees (t', write key value o)
      written-Agrees write key value flag laws e grows shown = record {
        valid = valid;
        plain_keys = kept_keys;
        size = inserted_size key (write key value o) flag e grows (laws.size o key value);
        shown = λ k.
            laws.value o key value k
            ∙ ap (λ b. if key == k then some value else b) (a.shown k)
            ∙ ap (λ b. if b then some value else mapped_of (view traits t k))
                (sym (a.plain_keys key k))
            ∙ sym (shown k);
      }

      pub emptied-Agrees :
          (o' : O)
          → EmptyLikeStandard standard o'
          → length t'.iteration ≡ 0
          → ((k : ℕ) → view traits t' k ≡ none)
          → Agrees (t', o')
      emptied-Agrees o' laws empty shown = record {
        valid = valid;
        plain_keys = kept_keys;
        size = empty ∙ sym laws.size;
        shown = λ k. laws.value k ∙ ap mapped_of (sym (shown k));
      }
