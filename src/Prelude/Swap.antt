-- ===== src/Prelude/Swap.antt =====
-- Writing one element, growing by one and dropping the last: lengths, elements and counts.
use cpp_unordered_map.Prelude.{
  ℕ, zero, suc, ◌+◌, ◌-◌, ◌<◌, ◌≡◌, refl, some, List, [], ◌∷◌, ◌++◌, length, get_elem?, get_or, set,
  back, pop_back, count, to_nat, ◌==◌, if◌then◌else◌, arith, ==-cases, inl, inr, sym,
}

module _ {ℓ} {A : Type ℓ} where
  pub get_or-set :
      (xs : List A) (i j : ℕ) (v d : A)
      → i < length xs
      → get_or (set xs i v) j d ≡ (if i == j then v else get_or xs j d)
  get_or-set [] i j v d h = elim h [ ]
  get_or-set (x ∷ xs) zero zero v d h = ground arith
  get_or-set (x ∷ xs) zero (suc j) v d h = ground arith
  get_or-set (x ∷ xs) (suc i) zero v d h = ground arith
  get_or-set (x ∷ xs) (suc i) (suc j) v d h = ground (arith, get_or-set xs i j v d)

  pub get_or-append_left :
      (xs : List A) (v : A) (j : ℕ) (d : A)
      → j < length xs
      → get_or (xs ++ v ∷ []) j d ≡ get_or xs j d
  get_or-append_left [] v j d h = elim h [ ]
  get_or-append_left (x ∷ xs) v zero d h = refl
  get_or-append_left (x ∷ xs) v (suc j) d h = get_or-append_left xs v j d (omega arith)

  pub get_or-append_end : (xs : List A) (v d : A) → get_or (xs ++ v ∷ []) (length xs) d ≡ v
  get_or-append_end [] v d = refl
  get_or-append_end (x ∷ xs) v d = get_or-append_end xs v d

  pub length-pop_back : (xs : List A) → length (pop_back xs) ≡ length xs - 1
  length-pop_back [] = omega arith
  length-pop_back (x ∷ []) = omega arith
  length-pop_back (x ∷ y ∷ xs) = omega (arith, length-pop_back (y ∷ xs))

  pub get_or-pop_back :
      (xs : List A) (j : ℕ) (d : A) → j < length xs - 1 → get_or (pop_back xs) j d ≡ get_or xs j d
  get_or-pop_back [] j d h = absurd (omega arith)
  get_or-pop_back (x ∷ []) j d h = absurd (omega arith)
  get_or-pop_back (x ∷ y ∷ xs) zero d h = refl
  get_or-pop_back (x ∷ y ∷ xs) (suc j) d h = get_or-pop_back (y ∷ xs) j d (omega arith)

  get_elem?-some :
      (xs : List A) (i : ℕ) (d : A) → i < length xs → get_elem? xs i ≡ some (get_or xs i d)
  get_elem?-some [] i d h = elim h [ ]
  get_elem?-some (x ∷ xs) zero d h = refl
  get_elem?-some (x ∷ xs) (suc i) d h = get_elem?-some xs i d (omega arith)

  pub back-some :
      (xs : List A) (d : A) → 0 < length xs → back xs ≡ some (get_or xs (length xs - 1) d)
  back-some xs d h = get_elem?-some xs (length xs - 1) d (omega arith)

pub count-set :
    (a : ℕ) (xs : List ℕ) (i v d : ℕ)
    → i < length xs
    → count a (set xs i v) + to_nat (a == get_or xs i d) ≡ count a xs + to_nat (a == v)
count-set a [] i v d h = elim h [ ]
count-set a (x ∷ xs) zero v d h = omega arith
count-set a (x ∷ xs) (suc i) v d h = omega (arith, count-set a xs i v d (omega arith))

pub count-pop_back :
    (a : ℕ) (xs : List ℕ) (d : ℕ)
    → 0 < length xs
    → count a (pop_back xs) + to_nat (a == get_or xs (length xs - 1) d) ≡ count a xs
count-pop_back a [] d h = elim h [ ]
count-pop_back a (x ∷ []) d h = omega arith
count-pop_back a (x ∷ y ∷ xs) d h =
    let long : suc (suc (length xs)) - 1 ≡ suc (length xs) = omega arith in
    let short : suc (length xs) - 1 ≡ length xs = omega arith in
    let rest = rw short at (count-pop_back a (y ∷ xs) d (omega arith)) in
    rw long (omega (arith, rest))

-- An element at a position is counted, and what is counted has a position.
pub count-get_or : (xs : List ℕ) (i d : ℕ) → i < length xs → 0 < count (get_or xs i d) xs
count-get_or [] i d h = elim h [ ]
count-get_or (x ∷ xs) zero d h = ground arith
count-get_or (x ∷ xs) (suc i) d h = omega (arith, count-get_or xs i d (omega arith))

pub position_of_count :
    (a : ℕ) (xs : List ℕ) (d : ℕ) → 0 < count a xs → (i : ℕ) × (i < length xs) × (get_or xs i d ≡ a)
position_of_count a [] d h = elim h [ ]
position_of_count a (x ∷ xs) d h = elim (==-cases a x) [
  | inl e ↦ (0, omega arith, sym e)
  | inr apart ↦ let (i, l, e) = position_of_count a xs d (ground arith) in (suc i, omega arith, e)
]
