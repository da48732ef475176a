-- ===== src/Fuzz/Standard.antt =====
-- What the standard library documents of the operations of its map that the fuzzer calls.
use cpp_unordered_map.Prelude.{
  ℕ, ◌+◌, ◌≡◌, Bool, not, to_nat, none, some, List, [], ◌∷◌, ◌==◌, if◌then◌else◌,
}
use cpp_unordered_map.Contents.{has_some}
use cpp_unordered_map.Fuzz.{Oracle}

module _ {O : Type 0} (standard : Oracle O) where
  pub record ErasesLikeStandard : Type 0 where
    pub erased :
        (o : O) (k : ℕ)
        → (standard.erase k o).0 ≡ (if has_some (standard.value_at o k) then 1 else 0)
    pub size :
        (o : O) (k : ℕ)
        → standard.size (standard.erase k o).1 + (standard.erase k o).0 ≡ standard.size o
    pub value :
        (o : O) (k j : ℕ)
        → standard.value_at (standard.erase k o).1 j
          ≡ (if k == j then none else standard.value_at o j)

  -- An insertion that does not overwrite.
  pub record InsertsLikeStandard (insert : ℕ → ℕ → O → Bool × O) : Type 0 where
    pub flag : (o : O) (k v : ℕ) → (insert k v o).0 ≡ not (has_some (standard.value_at o k))
    pub size :
        (o : O) (k v : ℕ)
        → standard.size (insert k v o).1
          ≡ standard.size o + to_nat (not (has_some (standard.value_at o k)))
    pub value :
        (o : O) (k v j : ℕ)
        → standard.value_at (insert k v o).1 j ≡ (
            if has_some (standard.value_at o k)
            then standard.value_at o j
            else (if k == j then some v else standard.value_at o j))

  -- A change that leaves a value at a key, whatever was there.
  pub record WritesLikeStandard (write : ℕ → ℕ → O → O) : Type 0 where
    pub size :
        (o : O) (k v : ℕ)
        → standard.size (write k v o)
          ≡ standard.size o + to_nat (not (has_some (standard.value_at o k)))
    pub value :
        (o : O) (k v j : ℕ)
        → standard.value_at (write k v o) j ≡ (if k == j then some v else standard.value_at o j)

  -- A change of the capacity only.
  pub record KeepsLikeStandard (resize : ℕ → O → O) : Type 0 where
    pub size : (o : O) (n : ℕ) → standard.size (resize n o) ≡ standard.size o
    pub value : (o : O) (n k : ℕ) → standard.value_at (resize n o) k ≡ standard.value_at o k

  pub record EmptyLikeStandard (o : O) : Type 0 where
    pub size : standard.size o ≡ 0
    pub value : (k : ℕ) → standard.value_at o k ≡ none

  -- Each entry of a list is what the map has at its key.
  abbrev pub AreEntries : O → List (ℕ × ℕ) → Type 0
  AreEntries o [] = Unit
  AreEntries o ((k, v) ∷ rest) = (standard.value_at o k ≡ some v) × AreEntries o rest

  pub record IsStandard : Type 0 where
    pub erase : ErasesLikeStandard
    pub insert : InsertsLikeStandard standard.insert
    pub emplace : InsertsLikeStandard standard.emplace
    pub try_emplace : InsertsLikeStandard standard.try_emplace
    pub insert_or_assign : WritesLikeStandard (λ k v o. (standard.insert_or_assign k v o).1)
    pub assigned_flag :
        (o : O) (k v : ℕ)
        → (standard.insert_or_assign k v o).0 ≡ not (has_some (standard.value_at o k))
    pub assign : WritesLikeStandard standard.assign
    pub rehash : KeepsLikeStandard standard.rehash_to
    pub reserve : KeepsLikeStandard standard.reserve_for
    pub cleared : (o : O) → EmptyLikeStandard (standard.cleared o)
    pub empty : EmptyLikeStandard standard.empty
    pub count :
        (o : O) (k : ℕ)
        → standard.count_of o k ≡ (if has_some (standard.value_at o k) then 1 else 0)
    pub entries : (o : O) → AreEntries o (standard.entries o)
