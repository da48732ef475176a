-- ===== src/Valid.antt =====
-- The invariant of a container.
use cpp_unordered_map.Prelude.{
  ℕ, ◌+◌, ◌*◌, ◌≤◌, ◌<◌, ◌≡◌, ◌≢◌, ◌⊎◌, true, some, none, List, [], ◌∷◌, length, get_or, count,
  to_nat, ltb,
}
use cpp_unordered_map.Hash.{Traits, IsLawful}
use cpp_unordered_map.Index.{null_index}
use cpp_unordered_map.Index.Invariant.{Holds}
use cpp_unordered_map.Load.{chunk_size}
use cpp_unordered_map.Table.{Table, Node}
use cpp_unordered_map.Engine.{hash_at}

-- The free list: from the head by the `aux` links to the end mark.
abbrev pub FreeChain {ℓ} : {V : Type ℓ} → (ℕ → Node V) → ℕ → List ℕ → Type 0
FreeChain nodes head [] = head ≡ null_index
FreeChain nodes head (x ∷ xs) = (head ≡ x) × (x ≢ null_index) × FreeChain nodes (nodes x).aux xs

-- Each slot ever handed out is owned or free, once; no other is. No slot is lost, none is given
-- out twice, and all lie in chunks that are there.
pub record IsArena {ℓ} {V : Type ℓ} (nodes : ℕ → Node V) (head high_water chunks : ℕ)
    (owned : List ℕ) : Type 0 where
  pub free : List ℕ
  pub chain : FreeChain nodes head free
  pub split : (x : ℕ) → count x owned + count x free ≡ to_nat (ltb x high_water)
  pub room : high_water ≤ chunks * chunk_size
  pub small : high_water ≤ null_index

module _ {ℓ} {F : Type 0} {K V : Type ℓ} where
  abbrev pub ArenaOf : Table F K V → List ℕ → Type 0
  ArenaOf t owned = IsArena t.nodes t.free_list_head t.arena_high_water t.chunks owned

  -- An element `v` lives at slot `x`.
  abbrev pub Stores : Table F K V → ℕ → V → Type ℓ
  Stores t x v = (0 < count x t.iteration) × ((t.nodes x).storage ≡ some v)

  module _ (traits : Traits K V) where
    -- What a search relies on.
    pub record IsSearchable (t : Table F K V) : Type ℓ where
      pub lawful : IsLawful t.policy
      pub built : (x : ℕ) → 0 < count x t.iteration → (v : V) × ((t.nodes x).storage ≡ some v)
      pub indexed :
          (t.bucket_count ≡ 0) × (t.iteration ≡ [])
          ⊎ (t.has_buckets ≡ true)
            × (t.max_load_capacity < t.bucket_count)
            × Holds (hash_at traits t) t.iteration t.index

    pub record IsValid (t : Table F K V) : Type ℓ where
      pub searchable : IsSearchable t
      pub arena : ArenaOf t t.iteration
      pub raw : (x : ℕ) → count x t.iteration ≡ 0 → (t.nodes x).storage ≡ none
      pub linked : (p : ℕ) → p < length t.iteration → (t.nodes (get_or t.iteration p 0)).aux ≡ p
      pub distinct :
          (x y : ℕ) (v w : V)
          → Stores t x v
          → Stores t y w
          → t.policy.key_equal (traits.key_of v) (traits.key_of w) ≡ true
          → x ≡ y
