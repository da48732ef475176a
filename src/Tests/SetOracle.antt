-- ===== src/Tests/SetOracle.antt =====
-- A standard set for the theorems on the fuzzer of the set, and those theorems at concrete data.
use cpp_unordered_map.Prelude.{
  ℕ, ◌+◌, ◌≡◌, refl, sym, ◌∙◌, ap, inl, inr, Bool, true, false, not, to_nat, Option, none, some,
  List, [], ◌∷◌, ◌==◌, leb, if◌then◌else◌, arith, Bool-cases, ==→eq, if_true, if_false,
}
use cpp_unordered_map.Outcome.{returned}
use cpp_unordered_map.Contents.{has_some}
use cpp_unordered_map.Fuzz.Standard.{AreEntries}
use cpp_unordered_map.FuzzSet.{SetOracle, Pair}
use cpp_unordered_map.FuzzSet.Run.{run_operations}
use cpp_unordered_map.FuzzSet.Standard.{InsertsLikeStandard, AreKeys, IsStandard}
use cpp_unordered_map.FuzzSet.Agree.{Agrees}
use cpp_unordered_map.FuzzSet.Passes.{set_run_operations-Agrees}
use cpp_unordered_map.Tests.Data.{tenths, plenty, numbers, numbers-IsLawful, plenty-IsGranted}
use cpp_unordered_map.Tests.Fuzz.{tenths-IsEightTenths, tenths-IsTolerant}
use cpp_unordered_map.Tests.Oracle.{get, size_of, entries_from, add, array, array-IsStandard}

abbrev keys_of : List (ℕ × ℕ) → List ℕ
keys_of [] = []
keys_of ((k, v) ∷ rest) = k ∷ keys_of rest

abbrev once : Option ℕ → ℕ
once x = if has_some x then 1 else 0

-- The keys of the array of values.
abbrev marks : SetOracle (List (Option ℕ))
marks = record {
  empty = [];
  size = size_of;
  count_of = λ o k. once (get o k);
  keys = λ o. keys_of (entries_from 0 o);
  insert = λ k o. add k 0 o;
  emplace = λ k o. add k 0 o;
  erase = array.erase;
  rehash_to = λ n o. o;
}

once-zero : (x : Option ℕ) → (once x == 0) ≡ not (has_some x)
once-zero none = refl
once-zero (some v) = refl

once-if : (b : Bool) (x y : Option ℕ) → once (if b then x else y) ≡ (if b then once x else once y)
once-if true x y = refl
once-if false x y = refl

marked_lem :
    (o : List (Option ℕ)) (k j : ℕ)
    → once (if has_some (get o k) then get o j else (if k == j then some 0 else get o j))
      ≡ (if k == j then 1 else once (get o j))
marked_lem o k j = elim (Bool-cases (has_some (get o k))) [
  | inl there ↦ elim (Bool-cases (k == j)) [
    | inl e ↦
        ap once (if_true _ _ there)
        ∙ ap (λ i. once (get o i)) (sym (==→eq k j e))
        ∙ if_true _ _ there
        ∙ sym (if_true {b = k == j} _ (once (get o j)) e)
    | inr e ↦ ap once (if_true _ _ there) ∙ sym (if_false {b = k == j} 1 _ e)
  ]
  | inr absent ↦ ap once (if_false _ _ absent) ∙ once-if (k == j) (some 0) (get o j)
]

add-InsertsLikeStandard : InsertsLikeStandard marks (λ k o. add k 0 o)
add-InsertsLikeStandard = record {
  flag = λ o k. sym (once-zero (get o k));
  size = λ o k.
      array-IsStandard.insert.size o k 0
      ∙ ap (λ b. size_of o + to_nat b) (sym (once-zero (get o k)));
  count = λ o k j. ap once (array-IsStandard.insert.value o k 0 j) ∙ marked_lem o k j;
}

keys_of_lem :
    (o : List (Option ℕ)) (list : List (ℕ × ℕ))
    → AreEntries array o list
    → AreKeys marks o (keys_of list)
keys_of_lem o [] h = tt
keys_of_lem o ((k, v) ∷ rest) (e, h) = (ap once e, keys_of_lem o rest h)

marks-IsStandard : IsStandard marks
marks-IsStandard = record {
  erase = record {
    erased = λ o k. refl;
    size = λ o k. array-IsStandard.erase.size o k;
    count = λ o k j. ap once (array-IsStandard.erase.value o k j) ∙ once-if (k == j) none (get o j);
  };
  insert = add-InsertsLikeStandard;
  emplace = add-InsertsLikeStandard;
  rehash_size = λ o n. refl;
  rehash_count = λ o n k. refl;
  empty_size = refl;
  empty_count = λ k. refl;
  keys = λ o. keys_of_lem o (entries_from 0 o) (array-IsStandard.entries o);
}

-- An insertion of the key 1, a copy, an extraction of the key, and a byte that is left.
abbrev operations : List ℕ
operations = 0 ∷ 0 ∷ 0 ∷ 0 ∷ 1 ∷ 10 ∷ 0 ∷ 0 ∷ 0 ∷ 1 ∷ 9 ∷ 0 ∷ 0 ∷ 0 ∷ 1 ∷ 4 ∷ []

set_run_operations-Agrees_example :
    (s : Pair ℕ (List (Option ℕ))) × (run_operations marks true tenths plenty true numbers leb
        operations
      ≡ returned tt s)
    × Agrees true marks s
set_run_operations-Agrees_example =
    set_run_operations-Agrees true marks tenths tenths-IsEightTenths plenty plenty-IsGranted numbers
      numbers-IsLawful marks-IsStandard leb tenths-IsTolerant (λ a b. refl) operations (omega arith)
