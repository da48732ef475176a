-- ===== src/Tests/Data.antt =====
-- A map with colliding keys, a memory that grants and one that denies, and tenths for `float`.
use cpp_unordered_map.Prelude.{
  ℕ, zero, suc, ==→eq, ◌+◌, ◌*◌, ◌/◌, ◌<◌, ◌≡◌, refl, sym, true, false, none, some, [], ◌∷◌, leb,
  ltb, ◌==◌, if◌then◌else◌, arith, get_or, inr,
}
use cpp_unordered_map.Hash.{Policy, Traits, IsLawful}
use cpp_unordered_map.Index.{Index, zero_bucket, null_index}
use cpp_unordered_map.Load.{FloatOps, compute_load_capacity}
use cpp_unordered_map.Load.Sizes.{compute_load_capacity-lt}
use cpp_unordered_map.Table.{Table, Node, Memory}
use cpp_unordered_map.Adapters.{map_traits}
use cpp_unordered_map.Growth.{IsAmple, IsWithin}
use cpp_unordered_map.Container.Rehash.{IsTight}
use cpp_unordered_map.Valid.{IsArena, IsValid}
use cpp_unordered_map.Engine.Lookup.{equal_at-some}
use cpp_unordered_map.Engine.Reserve.{IsGranted}
use cpp_unordered_map.Engine.Rehash.{rehash_to-Holds}

abbrev pub tenths : FloatOps ℕ
tenths = record {
  one_or_more = λ f. leb 10 f;
  positive = λ f. ltb 0 f;
  scale = λ n f. n * f / 10;
  quotient = λ n f. n * 10 / f;
  ratio = λ n m. n * 10 / m;
  default_max_load_factor = 8;
  zero_factor = 0;
}

abbrev pub plenty : Memory
plenty = record { bucket_array = λ _. true; chunk = λ _. true; push_back = λ _. true }

abbrev pub exhausted : Memory
exhausted = record { bucket_array = λ _. false; chunk = λ _. false; push_back = λ _. false }

abbrev pub numbers : Policy ℕ
numbers = record { hash_function = λ n. n; key_equal = ◌==◌ }

pub numbers-IsLawful : IsLawful numbers
numbers-IsLawful = record {
  equal_refl = λ a. ground arith;
  equal_symm = λ a b h. ground arith;
  equal_trans = λ a b c h k. ground arith;
  hash-equal = λ a b h. ground arith;
}

-- Unmixed, so that small keys share a home bucket.
abbrev pub plain : Traits ℕ (ℕ × ℕ)
plain = map_traits true

abbrev pub pair_node : ℕ → Node (ℕ × ℕ)
pair_node x =
    if x == 0
    then record { storage = some (3, 30); aux = 0 }
    else (if x == 1
        then record { storage = some (11, 110); aux = 1 }
        else record { storage = none; aux = 0 })

-- Two elements that are not yet in a bucket array.
abbrev pub two : Table ℕ ℕ (ℕ × ℕ)
two = record {
  index = record { buckets = λ _. zero_bucket; bucket_count = 0; bucket_shift = 64 };
  has_buckets = false;
  max_load_capacity = 0;
  chunks = 1;
  arena_high_water = 2;
  free_list_head = null_index;
  nodes = pair_node;
  iteration = 0 ∷ 1 ∷ [];
  max_load_factor = 8;
  policy = numbers;
}

pub two-ArenaOf : IsArena two.nodes two.free_list_head two.arena_high_water two.chunks two.iteration
two-ArenaOf = record {
  free = [];
  chain = refl;
  split = λ x. ground arith;
  room = omega arith;
  small = omega arith;
}

-- The array of the two elements.
abbrev pub two_index : Index
two_index =
    (rehash_to-Holds plain tenths plenty two 8 3 (omega arith) (omega arith) refl (omega arith)
      refl).0

abbrev pub small_map : Table ℕ ℕ (ℕ × ℕ)
small_map = record two {
  has_buckets = true;
  index = two_index;
  max_load_capacity = compute_load_capacity tenths two.max_load_factor 8;
}

small_map-built : (x : ℕ) → x < 2 → (v : ℕ × ℕ) × ((small_map.nodes x).storage ≡ some v)
small_map-built zero h = ((3, 30), refl)
small_map-built (suc zero) h = ((11, 110), refl)
small_map-built (suc (suc x)) h = absurd (omega arith)

small_map-linked : (p : ℕ) → p < 2 → (small_map.nodes (get_or small_map.iteration p 0)).aux ≡ p
small_map-linked zero h = refl
small_map-linked (suc zero) h = refl
small_map-linked (suc (suc p)) h = absurd (omega arith)

pub stored_key :
    (x : ℕ) (v : ℕ × ℕ) → (small_map.nodes x).storage ≡ some v → x < 2 → v.0 ≡ 3 + 8 * x
stored_key zero v e h = sym (==→eq _ _ (sym (equal_at-some plain small_map 0 v e 3)))
stored_key (suc zero) v e h = sym (==→eq _ _ (sym (equal_at-some plain small_map 1 v e 11)))
stored_key (suc (suc x)) v e h = absurd (omega arith)

pub small_map-IsValid : IsValid plain small_map
small_map-IsValid =
    let p =
      rehash_to-Holds plain tenths plenty two 8 3 (omega arith) (omega arith) refl (omega arith)
        refl in
    record {
      searchable = record {
        lawful = numbers-IsLawful;
        built = λ x live. small_map-built x (ground arith);
        indexed =
            inr (refl, ground (arith, compute_load_capacity-lt tenths 8 8 (omega arith), p.2), p.3);
      };
      arena = two-ArenaOf;
      raw = λ x p. ground arith;
      linked = λ q h. small_map-linked q h;
      distinct = λ x y v w a b e. omega (
        arith,
        stored_key x v a.1 (ground (arith, a.0)),
        stored_key y w b.1 (ground (arith, b.0)),
        ==→eq v.0 w.0 e,
      );
    }

pub small_map-bucket_count : small_map.bucket_count ≡ 8
small_map-bucket_count =
    (rehash_to-Holds plain tenths plenty two 8 3 (omega arith) (omega arith) refl (omega arith)
      refl).2

pub plenty-IsGranted : IsGranted plenty
plenty-IsGranted = record { bucket_array = λ _. refl; chunk = λ _. refl; push_back = λ _. refl }

pub tenths-IsTight : IsTight tenths 8
tenths-IsTight = record { fits = λ n. omega arith }

pub tenths-IsAmple : IsAmple tenths 8
tenths-IsAmple = record { half = λ n. omega arith }

pub small_map-IsWithin : IsWithin tenths 64 2 small_map
unfolding compute_load_capacity
small_map-IsWithin = record {
  ample = tenths-IsAmple;
  high = omega arith;
  size = omega arith;
  count = omega (arith, small_map-bucket_count);
  capped = omega (arith, small_map-bucket_count);
}
