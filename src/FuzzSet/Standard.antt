-- ===== src/FuzzSet/Standard.antt =====
-- What the standard library documents of the operations of its set that the fuzzer calls.
use cpp_unordered_map.Prelude.{ℕ, ◌+◌, ◌≡◌, Bool, to_nat, List, [], ◌∷◌, ◌==◌, if◌then◌else◌}
use cpp_unordered_map.FuzzSet.{SetOracle}

module _ {O : Type 0} (standard : SetOracle O) where
  pub record ErasesLikeStandard : Type 0 where
    pub erased : (o : O) (k : ℕ) → (standard.erase k o).0 ≡ standard.count_of o k
    pub size :
        (o : O) (k : ℕ)
        → standard.size (standard.erase k o).1 + (standard.erase k o).0 ≡ standard.size o
    pub count :
        (o : O) (k j : ℕ)
        → standard.count_of (standard.erase k o).1 j ≡ (if k == j then 0 else standard.count_of o j)

  pub record InsertsLikeStandard (insert : ℕ → O → Bool × O) : Type 0 where
    pub flag : (o : O) (k : ℕ) → (insert k o).0 ≡ (standard.count_of o k == 0)
    pub size :
        (o : O) (k : ℕ)
        → standard.size (insert k o).1 ≡ standard.size o + to_nat (standard.count_of o k == 0)
    pub count :
        (o : O) (k j : ℕ)
        → standard.count_of (insert k o).1 j ≡ (if k == j then 1 else standard.count_of o j)

  -- Each key of a list is in the set.
  abbrev pub AreKeys : O → List ℕ → Type 0
  AreKeys o [] = Unit
  AreKeys o (k ∷ rest) = (standard.count_of o k ≡ 1) × AreKeys o rest

  pub record IsStandard : Type 0 where
    pub erase : ErasesLikeStandard
    pub insert : InsertsLikeStandard standard.insert
    pub emplace : InsertsLikeStandard standard.emplace
    pub rehash_size : (o : O) (n : ℕ) → standard.size (standard.rehash_to n o) ≡ standard.size o
    pub rehash_count :
        (o : O) (n k : ℕ) → standard.count_of (standard.rehash_to n o) k ≡ standard.count_of o k
    pub empty_size : standard.size standard.empty ≡ 0
    pub empty_count : (k : ℕ) → standard.count_of standard.empty k ≡ 0
    pub keys : (o : O) → AreKeys o (standard.keys o)
