-- ===== src/Tests/Oracle.antt =====
-- A standard map for the theorems on the fuzzer: an array of optional values by key.
use cpp_unordered_map.Prelude.{
  ℕ, zero, suc, ◌+◌, ◌≡◌, refl, sym, ◌∙◌, ap, inl, inr, Bool, not, to_nat, Option, none, some, List,
  [], ◌∷◌, ◌==◌, if◌then◌else◌, arith, Bool-cases, if_true, if_false,
}
use cpp_unordered_map.Contents.{has_some}
use cpp_unordered_map.Fuzz.{Oracle}
use cpp_unordered_map.Fuzz.Standard.{
  IsStandard, InsertsLikeStandard, WritesLikeStandard, AreEntries,
}

abbrev pub get : List (Option ℕ) → ℕ → Option ℕ
get [] k = none
get (x ∷ xs) zero = x
get (x ∷ xs) (suc k) = get xs k

abbrev pub put : ℕ → Option ℕ → List (Option ℕ) → List (Option ℕ)
put zero x [] = x ∷ []
put zero x (y ∷ ys) = x ∷ ys
put (suc k) x [] = none ∷ put k x []
put (suc k) x (y ∷ ys) = y ∷ put k x ys

abbrev pub size_of : List (Option ℕ) → ℕ
size_of [] = 0
size_of (x ∷ xs) = to_nat (has_some x) + size_of xs

suc-equal : (k j : ℕ) → (k == j) ≡ (suc k == suc j)
suc-equal k j = ground arith

get-put :
    (k j : ℕ) (x : Option ℕ) (o : List (Option ℕ))
    → get (put k x o) j ≡ (if k == j then x else get o j)
get-put zero zero x [] = sym (if_true {b = 0 == 0} x none (ground arith))
get-put zero (suc j) x [] = sym (if_false {b = 0 == suc j} x none (ground arith))
get-put zero zero x (y ∷ ys) = sym (if_true {b = 0 == 0} x (get (y ∷ ys) zero) (ground arith))
get-put zero (suc j) x (y ∷ ys) =
    sym (if_false {b = 0 == suc j} x (get (y ∷ ys) (suc j)) (ground arith))
get-put (suc k) zero x [] = sym (if_false {b = suc k == 0} x none (ground arith))
get-put (suc k) (suc j) x [] = get-put k j x [] ∙ ap (λ b. if b then x else none) (suc-equal k j)
get-put (suc k) zero x (y ∷ ys) =
    sym (if_false {b = suc k == 0} x (get (y ∷ ys) zero) (ground arith))
get-put (suc k) (suc j) x (y ∷ ys) =
    get-put k j x ys ∙ ap (λ b. if b then x else get ys j) (suc-equal k j)

size_of-put :
    (k : ℕ) (x : Option ℕ) (o : List (Option ℕ))
    → size_of (put k x o) + to_nat (has_some (get o k)) ≡ size_of o + to_nat (has_some x)
size_of-put zero x [] = omega arith
size_of-put zero x (y ∷ ys) = omega arith
size_of-put (suc k) x [] = omega (arith, size_of-put k x [])
size_of-put (suc k) x (y ∷ ys) = omega (arith, size_of-put k x ys)

abbrev pub entries_from : ℕ → List (Option ℕ) → List (ℕ × ℕ)
entries_from i [] = []
entries_from i (none ∷ xs) = entries_from (i + 1) xs
entries_from i (some v ∷ xs) = (i, v) ∷ entries_from (i + 1) xs

-- An insertion that does not overwrite.
abbrev pub add : ℕ → ℕ → List (Option ℕ) → Bool × List (Option ℕ)
add k v o = (not (has_some (get o k)), if has_some (get o k) then o else put k (some v) o)

abbrev pub array : Oracle (List (Option ℕ))
array = record {
  empty = [];
  size = size_of;
  value_at = get;
  count_of = λ o k. if has_some (get o k) then 1 else 0;
  entries = entries_from 0;
  assign = λ k v o. put k (some v) o;
  insert = add;
  emplace = add;
  try_emplace = add;
  insert_or_assign = λ k v o. (not (has_some (get o k)), put k (some v) o);
  erase = λ k o. (if has_some (get o k) then 1 else 0, put k none o);
  rehash_to = λ n o. o;
  reserve_for = λ n o. o;
  cleared = λ o. [];
}

add-InsertsLikeStandard : InsertsLikeStandard array add
add-InsertsLikeStandard = record {
  flag = λ o k v. refl;
  size = λ o k v. elim (Bool-cases (has_some (get o k))) [
    | inl e ↦ rw e (omega arith)
    | inr e ↦ rw e (omega (arith, size_of-put k (some v) o, ap to_nat e))
  ];
  value = λ o k v j. elim (Bool-cases (has_some (get o k))) [
    | inl e ↦ rw e refl
    | inr e ↦ rw e (get-put k j (some v) o)
  ];
}

put-WritesLikeStandard : WritesLikeStandard array (λ k v o. put k (some v) o)
put-WritesLikeStandard = record {
  size = λ o k v. elim (Bool-cases (has_some (get o k))) [
    | inl e ↦ rw e (omega (arith, size_of-put k (some v) o, ap to_nat e))
    | inr e ↦ rw e (omega (arith, size_of-put k (some v) o, ap to_nat e))
  ];
  value = λ o k v j. get-put k j (some v) o;
}

entries_lem :
    (o xs : List (Option ℕ)) (i : ℕ)
    → ((j : ℕ) → get o (i + j) ≡ get xs j)
    → AreEntries array o (entries_from i xs)
entries_lem o [] i same = tt
entries_lem o (none ∷ xs) i same =
    entries_lem o xs (i + 1) (λ j. ap (get o) (omega arith) ∙ same (suc j))
entries_lem o (some v ∷ xs) i same = (
  ap (get o) (omega arith) ∙ same 0,
  entries_lem o xs (i + 1) (λ j. ap (get o) (omega arith) ∙ same (suc j)),
)

pub array-IsStandard : IsStandard array
array-IsStandard = record {
  erase = record {
    erased = λ o k. refl;
    size = λ o k. elim (Bool-cases (has_some (get o k))) [
      | inl e ↦ rw e (omega (arith, size_of-put k none o, ap to_nat e))
      | inr e ↦ rw e (omega (arith, size_of-put k none o, ap to_nat e))
    ];
    value = λ o k j. get-put k j none o;
  };
  insert = add-InsertsLikeStandard;
  emplace = add-InsertsLikeStandard;
  try_emplace = add-InsertsLikeStandard;
  insert_or_assign = put-WritesLikeStandard;
  assigned_flag = λ o k v. refl;
  assign = put-WritesLikeStandard;
  rehash = record { size = λ o n. refl; value = λ o n k. refl };
  reserve = record { size = λ o n. refl; value = λ o n k. refl };
  cleared = λ o. record { size = refl; value = λ k. refl };
  empty = record { size = refl; value = λ k. refl };
  count = λ o k. refl;
  entries = λ o. entries_lem o o 0 (λ j. ap (get o) (omega arith));
}
