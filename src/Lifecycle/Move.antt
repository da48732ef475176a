-- ===== src/Lifecycle/Move.antt =====
-- What a move takes and what it leaves.
use cpp_unordered_map.Prelude.{ℕ, ◌≡◌, ◌↔◌, refl, inl, false, [], arith}
use cpp_unordered_map.Hash.{Traits, IsLawful}
use cpp_unordered_map.Outcome.{returned}
use cpp_unordered_map.Table.{Table}
use cpp_unordered_map.Valid.{IsValid, Stores}
use cpp_unordered_map.Index.{null_index}
use cpp_unordered_map.Lifecycle.{fresh, moved_from, steal_storage_from, move_construct, swap}

module _ {ℓ} {F : Type 0} {K V : Type ℓ} (traits : Traits K V) where
  pub moved_from-IsValid : (t : Table F K V) → IsLawful t.policy → IsValid traits (moved_from t)
  moved_from-IsValid t lawful = record {
    searchable = record {
      lawful = lawful;
      built = λ x p. absurd (omega arith);
      indexed = inl (refl, refl);
    };
    arena = record {
      free = [];
      chain = refl;
      split = λ x. ground arith;
      room = omega arith;
      small = omega arith;
    };
    raw = λ x _. refl;
    linked = λ p h. absurd (omega arith);
    distinct = λ x y v w a b e. absurd (omega (arith, a.0));
  }

  -- One container has what the other one had, each slot and the array with it, and the other one is
  -- left with neither array nor chunk, to be destroyed or filled again.
  pub record Steals (other t' other' : Table F K V) : Type ℓ where
    pub valid : IsValid traits t'
    pub stores : (x : ℕ) (v : V) → Stores t' x v ↔ Stores other x v
    pub order : t'.iteration ≡ other.iteration
    pub array : (t'.has_buckets ≡ other.has_buckets) × (t'.index ≡ other.index)
    pub capacity : t'.max_load_capacity ≡ other.max_load_capacity
    pub chunks : t'.chunks ≡ other.chunks
    pub slots : t'.arena_high_water ≡ other.arena_high_water
    pub factor : t'.max_load_factor ≡ other.max_load_factor
    pub policy : t'.policy ≡ other.policy
    pub valid_left : IsValid traits other'
    pub no_element : other'.iteration ≡ []
    pub no_array : (other'.has_buckets ≡ false) × (other'.bucket_count ≡ 0)
    pub no_capacity : other'.max_load_capacity ≡ 0
    pub no_chunk : other'.chunks ≡ 0
    pub no_slot : (other'.arena_high_water ≡ 0) × (other'.free_list_head ≡ null_index)

  pub steal_storage_from-Steals :
      (other t : Table F K V)
      → IsValid traits other
      → (t' other' : Table F K V) × (steal_storage_from other t ≡ returned other' t')
        × Steals other t' other'
  unfolding steal_storage_from
  steal_storage_from-Steals other t valid = (
    other,
    moved_from other,
    refl,
    record {
      valid = valid;
      stores = λ x v. ((λ s. s), λ s. s);
      order = refl;
      array = (refl, refl);
      capacity = refl;
      chunks = refl;
      slots = refl;
      factor = refl;
      policy = refl;
      valid_left = moved_from-IsValid other valid.searchable.lawful;
      no_element = refl;
      no_array = (refl, refl);
      no_capacity = refl;
      no_chunk = refl;
      no_slot = (refl, refl);
    },
  )

  -- Move construction from a valid container returns; the new container has what that one had.
  pub move_construct-Steals :
      (other : Table F K V)
      → IsValid traits other
      → (t' other' : Table F K V) × (move_construct other ≡ returned other' t')
        × Steals other t' other'
  unfolding move_construct
  move_construct-Steals other valid =
      steal_storage_from-Steals other (fresh other.max_load_factor other.policy) valid

-- Each container has afterwards what the other one had.
pub swap-exchanged {ℓ} : {F : Type 0} {K V : Type ℓ} (a b : Table F K V) → swap (a, b) ≡ (b, a)
unfolding swap
swap-exchanged a b = refl
