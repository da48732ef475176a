-- ===== src/Tests/Copies.antt =====
-- The theorems on copies and on `erase_if`, on a map with two elements.
use cpp_unordered_map.Prelude.{ℕ, ◌≡◌, refl, [], false, true, some, arith, leb}
use cpp_unordered_map.Outcome.{returned}
use cpp_unordered_map.Table.{Table}
use cpp_unordered_map.Container.{erase_if}
use cpp_unordered_map.Container.EraseIf.{ErasesIf, erase_if-ErasesIf}
use cpp_unordered_map.Lifecycle.{fresh, copy_construct, copy_assign}
use cpp_unordered_map.Lifecycle.Copy.{IsCopyable, CopiesTo, copy_construct-view, copy_assign-view}
use cpp_unordered_map.Tests.Data.{
  plain, tenths, plenty, numbers, small_map, small_map-IsValid, plenty-IsGranted, tenths-IsTight,
  tenths-IsAmple, small_map-IsWithin,
}

small_map-IsCopyable :
    IsCopyable plain tenths plenty plenty-IsGranted 64
      (omega arith)
      5
      (omega arith)
      (omega arith)
      (omega arith)
      small_map
small_map-IsCopyable = record {
  ample = tenths-IsAmple;
  tight = tenths-IsTight;
  room = omega arith;
  fits = omega arith;
  fits_none = omega arith;
}

erase_if-ErasesIf_example :
    (n : ℕ) × (t' : Table ℕ ℕ (ℕ × ℕ)) × (erase_if plain (λ v. leb 100 v.1) small_map
      ≡ returned n t')
    × ErasesIf plain (λ v. leb 100 v.1) small_map n t'
erase_if-ErasesIf_example =
    erase_if-ErasesIf plain (λ v. leb 100 v.1) small_map small_map-IsValid (omega arith)

copy_construct-view_example :
    (t' : Table ℕ ℕ (ℕ × ℕ)) × (copy_construct plain tenths plenty (λ v. some v) small_map
      ≡ returned tt t')
    × CopiesTo plain tenths plenty plenty-IsGranted 64
        (omega arith)
        5
        (omega arith)
        (omega arith)
        (omega arith)
        small_map
        (fresh 8 numbers)
        t'
copy_construct-view_example =
    copy_construct-view plain tenths plenty plenty-IsGranted 64 (omega arith) 5 (omega arith)
      (omega arith) (omega arith) small_map small_map-IsValid small_map-IsCopyable

copy_assign-view_example :
    (start t' : Table ℕ ℕ (ℕ × ℕ)) × (copy_assign plain tenths plenty false true
        (λ v. some v)
        small_map
        small_map
      ≡ returned tt t')
    × (start.iteration ≡ [])
    × (start.bucket_count ≡ small_map.bucket_count)
    × (start.max_load_capacity ≡ small_map.max_load_capacity)
    × (start.max_load_factor ≡ 8)
    × CopiesTo plain tenths plenty plenty-IsGranted 64
        (omega arith)
        5
        (omega arith)
        (omega arith)
        (omega arith)
        small_map
        start
        t'
copy_assign-view_example =
    copy_assign-view plain tenths plenty plenty-IsGranted 64 (omega arith) 5 (omega arith)
      (omega arith) (omega arith) small_map small_map 2 false true small_map-IsValid
      small_map-IsValid refl small_map-IsWithin small_map-IsCopyable
