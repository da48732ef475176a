-- ===== src/Tests/Operations.antt =====
-- The theorems on the public operations, on a map with two elements.
use cpp_unordered_map.Prelude.{ℕ, ◌≡◌, refl, Bool, not, some, [], ◌∷◌, arith, if◌then◌else◌, map}
use cpp_unordered_map.Outcome.{returned}
use cpp_unordered_map.Table.{Table}
use cpp_unordered_map.Valid.{Stores, IsValid}
use cpp_unordered_map.Engine.{erase_key, emplace_impl}
use cpp_unordered_map.Engine.Remove.{Removes}
use cpp_unordered_map.Contents.{has_some, view, without}
use cpp_unordered_map.Contents.Refine.{with_new, erase_key-view, emplace_impl-view}
use cpp_unordered_map.Iterator.{element_at}
use cpp_unordered_map.Container.{find, erase_at, rehash, insert_all}
use cpp_unordered_map.Container.Find.{PointsTo, find-PointsTo}
use cpp_unordered_map.Container.Locate.{erase_at-Removes}
use cpp_unordered_map.Container.Rehash.{Rehashes, rehash-Rehashes}
use cpp_unordered_map.Container.Bulk.{InsertsAll, insert_all-InsertsAll}
use cpp_unordered_map.Adapters.{at}
use cpp_unordered_map.Adapters.Access.{accessed, at-view}
use cpp_unordered_map.Tests.Data.{
  plain, tenths, plenty, small_map, small_map-IsValid, small_map-bucket_count, plenty-IsGranted,
  tenths-IsTight, small_map-IsWithin,
}

second : Stores small_map 1 (11, 110)
second = (omega arith, refl)

erase_key-view_example :
    (n : ℕ) × (t' : Table ℕ ℕ (ℕ × ℕ)) × (erase_key plain 11 small_map ≡ returned n t')
    × IsValid plain t'
    × (view plain t' ≡ without plain small_map.policy 11 (view plain small_map))
    × (n ≡ (if has_some (view plain small_map 11) then 1 else 0))
erase_key-view_example = erase_key-view plain small_map 11 small_map-IsValid

emplace_impl-view_example :
    (r : ℕ × Bool) × (t' : Table ℕ ℕ (ℕ × ℕ)) × (emplace_impl plain tenths plenty
        (some (19, 190))
        small_map
      ≡ returned r t')
    × IsValid plain t'
    × (view plain t' ≡ with_new plain small_map.policy (19, 190) (view plain small_map))
    × (r.1 ≡ not (has_some (view plain small_map 19)))
emplace_impl-view_example =
    emplace_impl-view plain tenths plenty plenty-IsGranted small_map (19, 190) small_map-IsValid
      (omega arith) (omega (arith, small_map-bucket_count))

find-PointsTo_example :
    (x : ℕ) × (find plain 11 small_map ≡ returned x small_map)
    × PointsTo plain small_map small_map-IsValid 11 x (view plain small_map 11)
find-PointsTo_example = find-PointsTo plain small_map small_map-IsValid 11

at-view_example : at plain 11 small_map ≡ accessed small_map (view plain small_map 11)
at-view_example = at-view plain small_map small_map-IsValid 11

erase_at-Removes_example :
    (t' : Table ℕ ℕ (ℕ × ℕ)) × (erase_at plain 1 small_map ≡ returned (element_at t' 1) t')
    × Removes plain small_map 1 t'
erase_at-Removes_example = erase_at-Removes plain small_map small_map-IsValid 1 (11, 110) second

rehash-Rehashes_example :
    (t' : Table ℕ ℕ (ℕ × ℕ)) × (rehash plain tenths plenty 20 small_map ≡ returned tt t')
    × Rehashes plain tenths 5 (omega arith) (omega arith) small_map 20 t'
rehash-Rehashes_example =
    rehash-Rehashes plain tenths 5 (omega arith) (omega arith) plenty plenty-IsGranted small_map 20
      small_map-IsValid tenths-IsTight (omega arith) (omega arith)

insert_all-InsertsAll_example :
    (t' : Table ℕ ℕ (ℕ × ℕ)) × (insert_all plain tenths plenty
        (map (λ v. some v) ((19, 190) ∷ (11, 0) ∷ []))
        small_map
      ≡ returned tt t')
    × InsertsAll plain tenths 64 small_map ((19, 190) ∷ (11, 0) ∷ []) 2 t'
insert_all-InsertsAll_example =
    insert_all-InsertsAll plain tenths plenty plenty-IsGranted 64 (omega arith)
      ((19, 190) ∷ (11, 0) ∷ []) small_map 2 small_map-IsValid small_map-IsWithin (omega arith)
