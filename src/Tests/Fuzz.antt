-- ===== src/Tests/Fuzz.antt =====
-- The theorems on the fuzzer of the map and on equality, with an array for the standard map.
use cpp_unordered_map.Prelude.{
  ℕ, ◌*◌, ◌≡◌, ◌⊎◌, refl, Bool, true, false, Option, some, List, [], ◌∷◌, length, ◌==◌, leb, arith,
}
use native.Mathlib.Nat.{div-le_of_le-mul}
use cpp_unordered_map.Outcome.{returned}
use cpp_unordered_map.Valid.{Stores}
use cpp_unordered_map.Contents.{view, scan}
use cpp_unordered_map.Adapters.{map_traits, map_equal}
use cpp_unordered_map.Adapters.Equal.{has_same, map_equal-Compares}
use cpp_unordered_map.Lifecycle.{fresh}
use cpp_unordered_map.Lifecycle.Move.{moved_from-IsValid}
use cpp_unordered_map.Fuzz.{Pair}
use cpp_unordered_map.Fuzz.Run.{apply_one_operation, run_operations}
use cpp_unordered_map.Fuzz.Stream.{ByteStream}
use cpp_unordered_map.Fuzz.Agree.{Agrees}
use cpp_unordered_map.Fuzz.Bounded.{IsEightTenths, IsTolerant, fresh-IsBounded}
use cpp_unordered_map.Fuzz.Synced.{Synced}
use cpp_unordered_map.Fuzz.Reads.{Reads}
use cpp_unordered_map.Fuzz.Passes.{apply_one_operation-Synced, run_operations-Agrees}
use cpp_unordered_map.Tests.Data.{
  plain, tenths, plenty, numbers, numbers-IsLawful, small_map, small_map-IsValid, plenty-IsGranted,
  tenths-IsTight, tenths-IsAmple,
}
use cpp_unordered_map.Tests.Oracle.{array, array-IsStandard}

pub tenths-IsEightTenths : IsEightTenths tenths 8
tenths-IsEightTenths = record {
  ample = tenths-IsAmple;
  tight = tenths-IsTight;
  roomy = record { half = λ n h. omega arith };
  less = refl;
  quotient_small = λ n h. omega arith;
  quotient-scale = λ n m small h. omega arith;
}

pub tenths-IsTolerant : IsTolerant tenths 8 leb
tenths-IsTolerant = record {
  nothing = refl;
  share = λ n m some_there small h.
      ground (arith, div-le_of_le-mul m {m = n * 10} {n = 8} (omega arith));
}

-- An insertion of the pair (0, 5), an erasure, and a byte that is left.
abbrev bytes : List ℕ
bytes = 0 ∷ 1 ∷ 0 ∷ 0 ∷ 0 ∷ 5 ∷ 0 ∷ 0 ∷ 0 ∷ 6 ∷ 1 ∷ 0 ∷ 0 ∷ 0 ∷ 0 ∷ 0 ∷ 0 ∷ 0 ∷ 13 ∷ []

fresh-Synced : Synced true array tenths 0 (fresh 8 numbers, [])
unfolding view scan
fresh-Synced = record {
  agrees = record {
    valid = moved_from-IsValid (map_traits true) (fresh 8 numbers) numbers-IsLawful;
    plain_keys = λ a b. refl;
    size = refl;
    shown = λ k. refl;
  };
  bounded = fresh-IsBounded tenths tenths-IsEightTenths numbers;
}

apply_one_operation-Synced_example :
    (stream' : ByteStream) × (s' : Pair ℕ (List (Option ℕ))) × (apply_one_operation array true
        tenths plenty true numbers
        (record { data_ = bytes; cursor = 0 })
        (fresh 8 numbers, [])
      ≡ returned (some stream') s')
    × Synced true array tenths 1 s'
    × Reads 9 (record { data_ = bytes; cursor = 0 }) stream'
apply_one_operation-Synced_example =
    apply_one_operation-Synced true array tenths tenths-IsEightTenths plenty plenty-IsGranted
      numbers numbers-IsLawful array-IsStandard 0 (omega arith)
      (record { data_ = bytes; cursor = 0 }) (fresh 8 numbers, []) refl fresh-Synced

run_operations-Agrees_example :
    (s : Pair ℕ (List (Option ℕ))) × (run_operations array true tenths plenty true numbers leb bytes
      ≡ returned tt s)
    × Agrees true array s
run_operations-Agrees_example =
    run_operations-Agrees true array tenths tenths-IsEightTenths plenty plenty-IsGranted numbers
      numbers-IsLawful array-IsStandard leb tenths-IsTolerant (λ a b. refl) bytes (omega arith)

map_equal-Compares_example :
    (b : Bool) × (map_equal plain ◌==◌ small_map small_map ≡ returned b small_map)
    × ((b ≡ true)
          × (length small_map.iteration ≡ length small_map.iteration)
          × ((x : ℕ) (v : ℕ × ℕ)
              → Stores small_map x v
              → has_same ◌==◌ (view plain small_map v.0) v ≡ true)
        ⊎ (b ≡ false)
          × ((length small_map.iteration == length small_map.iteration) ≡ false
              ⊎ ((x : ℕ) × (v : ℕ × ℕ) × Stores small_map x v
                  × (has_same ◌==◌ (view plain small_map v.0) v ≡ false))))
map_equal-Compares_example =
    map_equal-Compares plain ◌==◌ small_map small_map small_map-IsValid small_map-IsValid
      (omega arith)
