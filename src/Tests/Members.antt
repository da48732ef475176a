-- ===== src/Tests/Members.antt =====
-- The theorems on the members of a map and on node handles, on a map with two elements.
use cpp_unordered_map.Prelude.{ℕ, ◌≡◌, ◌↔◌, refl, Bool, true, none, some, arith}
use cpp_unordered_map.Outcome.{returned, threw, ◌>>=◌}
use cpp_unordered_map.Table.{Table}
use cpp_unordered_map.Valid.{Stores, IsValid}
use cpp_unordered_map.Growth.{Keeps}
use cpp_unordered_map.Engine.Lookup.{IsAbsent}
use cpp_unordered_map.Engine.Emplace.{Emplaces}
use cpp_unordered_map.Contents.{has_some, view}
use cpp_unordered_map.Adapters.{subscript, try_emplace_impl, insert_or_assign_impl}
use cpp_unordered_map.Adapters.Access.{subscript-Emplaces}
use cpp_unordered_map.Adapters.Emplace.{try_emplace_impl-Emplaces, try_emplace_impl-threw}
use cpp_unordered_map.Adapters.Assign.{Assigns, insert_or_assign_impl-Assigns}
use cpp_unordered_map.Handles.{InsertReturn, extract_key, insert_handle}
use cpp_unordered_map.Handles.Extract.{InsertsHandle, insert_handle-InsertsHandle}
use cpp_unordered_map.Handles.RoundTrip.{extract_key-insert_handle}
use cpp_unordered_map.Tests.Data.{
  plain, tenths, plenty, exhausted, small_map, small_map-IsValid, small_map-bucket_count,
  plenty-IsGranted, stored_key,
}

small_map-IsAbsent : IsAbsent plain small_map 5
small_map-IsAbsent x v st = ground (arith, stored_key x v st.1 (ground (arith, st.0)))

try_emplace_impl-Emplaces_example :
    (r : ℕ × Bool) × (t' : Table ℕ ℕ (ℕ × ℕ)) × (try_emplace_impl plain tenths plenty 19
        (some 190)
        small_map
      ≡ returned r t')
    × Emplaces plain tenths small_map (19, 190) r t'
try_emplace_impl-Emplaces_example =
    try_emplace_impl-Emplaces true tenths plenty plenty-IsGranted small_map 19 190 small_map-IsValid
      (omega arith) (omega (arith, small_map-bucket_count))

try_emplace_impl-threw_example :
    (t' : Table ℕ ℕ (ℕ × ℕ)) × (try_emplace_impl plain tenths exhausted 5 none small_map ≡ threw t')
    × IsValid plain t'
    × ((x : ℕ) (w : ℕ × ℕ) → Stores t' x w ↔ Stores small_map x w)
    × Keeps small_map t'
try_emplace_impl-threw_example =
    try_emplace_impl-threw true tenths exhausted small_map 5 small_map-IsValid (omega arith)
      small_map-IsAbsent

insert_or_assign_impl-Assigns_example :
    (r : ℕ × Bool) × (t' : Table ℕ ℕ (ℕ × ℕ)) × (insert_or_assign_impl plain tenths plenty 11
        (some 7)
        small_map
      ≡ returned r t')
    × Assigns true tenths small_map 11 7 r t'
insert_or_assign_impl-Assigns_example =
    insert_or_assign_impl-Assigns true tenths plenty plenty-IsGranted small_map 11 7
      small_map-IsValid (omega arith) (omega (arith, small_map-bucket_count))

subscript-Emplaces_example :
    (w : ℕ × ℕ) × (r : ℕ × Bool) × (t' : Table ℕ ℕ (ℕ × ℕ)) × (subscript plain tenths plenty 19
        (some 0)
        small_map
      ≡ returned w.1 t')
    × Emplaces plain tenths small_map (19, 0) r t'
    × Stores t' r.0 w
    × (small_map.policy.key_equal 19 w.0 ≡ true)
subscript-Emplaces_example =
    subscript-Emplaces true tenths plenty plenty-IsGranted small_map 19 0 small_map-IsValid
      (omega arith) (omega (arith, small_map-bucket_count))

insert_handle-InsertsHandle_example :
    (r : InsertReturn (ℕ × ℕ)) × (t' : Table ℕ ℕ (ℕ × ℕ)) × (insert_handle plain some tenths plenty
        (some (19, 190))
        small_map
      ≡ returned r t')
    × InsertsHandle plain some tenths small_map (19, 190) (19, 190) r t'
insert_handle-InsertsHandle_example =
    insert_handle-InsertsHandle plain some tenths plenty plenty-IsGranted small_map (19, 190)
      (19, 190) small_map-IsValid (omega arith) (omega (arith, small_map-bucket_count)) refl refl

extract_key-insert_handle_example :
    (r : InsertReturn (ℕ × ℕ)) × (t' : Table ℕ ℕ (ℕ × ℕ)) × ((extract_key plain some true 11
          >>= insert_handle plain some tenths plenty)
        small_map
      ≡ returned r t')
    × IsValid plain t'
    × (view plain t' ≡ view plain small_map)
    × (r.inserted ≡ has_some (view plain small_map 11))
    × (r.node ≡ none)
extract_key-insert_handle_example =
    extract_key-insert_handle plain tenths plenty plenty-IsGranted small_map 11 small_map-IsValid
      (omega arith) (omega (arith, small_map-bucket_count))
