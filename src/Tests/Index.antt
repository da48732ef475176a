-- ===== src/Tests/Index.antt =====
-- The theorems on hashes, sizes and bucket arrays, on an array of eight buckets.
use cpp_unordered_map.Prelude.{ℕ, [], ◌∷◌, ◌*◌, ◌%◌, ◌^◌, ◌<◌, ◌≡◌, ◌≢◌, refl, arith, ◌==◌}
use cpp_unordered_map.Index.{
  Index, find_bucket, erase_bucket, insert_known_absent, place_and_shift_up,
  dist_and_fingerprint_from_hash, home_from_hash,
}
use cpp_unordered_map.Index.Order.{df}
use cpp_unordered_map.Index.Census.{occupied, occupied-zero, copies-zero}
use cpp_unordered_map.Index.Invariant.{IsRobinHood, Returns, Holds, Holds-slot, slot_df}
use cpp_unordered_map.Index.Place.{Places}
use cpp_unordered_map.Index.Insert.{
  insert_known_absent-Places, insert_known_absent-eq-place_and_shift_up,
}
use cpp_unordered_map.Index.Find.{Finds, find_bucket-Finds}
use cpp_unordered_map.Index.Erase.{Erases, erase_bucket-Erases}
use cpp_unordered_map.Load.{round_up_to_power_of_two, compute_load_capacity}
use cpp_unordered_map.Load.Sizes.{
  IsRoundedUp, round_up_to_power_of_two-IsRoundedUp, compute_load_capacity-lt,
}
use cpp_unordered_map.Engine.Rehash.{cleared, cleared-IsRobinHood}
use cpp_unordered_map.Tests.Data.{tenths}

-- Node `m` has home bucket `m % 8`.
abbrev spread : ℕ → ℕ
spread m = m * 2 ^ 61 % 2 ^ 64

abbrev eight : Index
eight = cleared 8

eight-IsRobinHood : IsRobinHood spread eight
eight-IsRobinHood =
    cleared-IsRobinHood spread 8 3 (λ m. omega arith) (omega arith) (omega arith) refl

eight-roomy : occupied eight < eight.bucket_count
eight-roomy = omega (arith, occupied-zero eight (λ i. refl))

-- The array with node 9, whose home is bucket 1.
with_nine : Returns (insert_known_absent eight 9 (spread 9)) (Places spread eight 9)
with_nine = insert_known_absent-Places eight-IsRobinHood eight-roomy 9

abbrev one : Index
one = with_nine.0

one-IsRobinHood : IsRobinHood spread one
one-IsRobinHood = with_nine.2.valid

one-roomy : occupied one < one.bucket_count
one-roomy = omega (arith, with_nine.2.fills, with_nine.2.count, occupied-zero eight (λ i. refl))

one-Holds : Holds spread (9 ∷ []) one
one-Holds = record {
  valid = one-IsRobinHood;
  copied = λ x. ground (arith, with_nine.2.holds x, copies-zero eight x (λ i. refl));
  filled = omega (arith, with_nine.2.fills, occupied-zero eight (λ i. refl));
  roomy = omega (arith, with_nine.2.count);
}

-- The bucket where node 9 stands.
abbrev slot_of_nine : ℕ
slot_of_nine = (Holds-slot one-Holds 9 (omega arith)).0

slot_of_nine-lt : slot_of_nine < one.bucket_count
slot_of_nine-lt = (Holds-slot one-Holds 9 (omega arith)).1

slot_of_nine-occupied : df one.buckets slot_of_nine ≢ 0
unfolding slot_df
slot_of_nine-occupied = omega (arith, (Holds-slot one-Holds 9 (omega arith)).3)

erase_bucket-Erases_example :
    Returns
      (erase_bucket one slot_of_nine)
      (Erases spread one (one.buckets slot_of_nine).node_index)
erase_bucket-Erases_example =
    erase_bucket-Erases one-IsRobinHood one-roomy slot_of_nine slot_of_nine-lt slot_of_nine-occupied

find_bucket-Finds_example :
    Returns (find_bucket one (λ x. x == 9) (spread 9)) (Finds one (λ x. x == 9) (spread 9))
find_bucket-Finds_example =
    find_bucket-Finds one-IsRobinHood one-roomy (λ x. x == 9) (spread 9) (omega arith)

insert_known_absent-Places_example :
    Returns (insert_known_absent one 17 (spread 17)) (Places spread one 17)
insert_known_absent-Places_example = insert_known_absent-Places one-IsRobinHood one-roomy 17

insert_known_absent-eq-place_and_shift_up_example :
    insert_known_absent one 17 (spread 17)
    ≡ place_and_shift_up one
        (dist_and_fingerprint_from_hash (spread 17))
        (home_from_hash one (spread 17))
        17
insert_known_absent-eq-place_and_shift_up_example =
    insert_known_absent-eq-place_and_shift_up one-IsRobinHood one-roomy 17

round_up_to_power_of_two-IsRoundedUp_example : IsRoundedUp 100 (round_up_to_power_of_two 100)
round_up_to_power_of_two-IsRoundedUp_example =
    round_up_to_power_of_two-IsRoundedUp 100 (omega arith)

compute_load_capacity-lt_example : compute_load_capacity tenths 8 64 < 64
compute_load_capacity-lt_example = compute_load_capacity-lt tenths 8 64 (omega arith)
