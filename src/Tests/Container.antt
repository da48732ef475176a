-- ===== src/Tests/Container.antt =====
-- The theorems on containers, on a map with two elements.
use cpp_unordered_map.Prelude.{ℕ, ◌+◌, ◌≡◌, ◌⊎◌, refl, true, false, some, [], ◌∷◌, length, arith}
use cpp_unordered_map.Index.{Index}
use cpp_unordered_map.Index.Invariant.{Holds}
use cpp_unordered_map.Load.{compute_load_capacity}
use cpp_unordered_map.Outcome.{returned, threw}
use cpp_unordered_map.Table.{Table, acquire_node, release_node}
use cpp_unordered_map.Engine.{hash_at, find_key, rehash_to, erase_key}
use cpp_unordered_map.Engine.Rehash.{rehash_to-Holds}
use cpp_unordered_map.Engine.Lookup.{FindsKey, find_key-FindsKey}
use cpp_unordered_map.Engine.Remove.{ErasesKey, erase_key-ErasesKey}
use cpp_unordered_map.Prelude.{◌↔◌, Bool}
use cpp_unordered_map.Engine.{emplace_impl}
use cpp_unordered_map.Prelude.{none}
use cpp_unordered_map.Engine.Throwing.{emplace_impl-threw}
use cpp_unordered_map.Engine.Emplace.{Emplaces, emplace_impl-Emplaces}
use cpp_unordered_map.Tests.Data.{plenty-IsGranted, small_map-bucket_count}
use cpp_unordered_map.Growth.{Keeps}
use cpp_unordered_map.Valid.{Stores, ArenaOf, IsValid}
use cpp_unordered_map.Arena.{Acquires, acquire_node-Acquires, released, release_node-arena}
use cpp_unordered_map.Iterator.{visit, begin_index, bucket_size, advance_to_match}
use cpp_unordered_map.Iterator.Traversal.{visit-begin_index, Advances, advance_to_match-Advances}
use cpp_unordered_map.Iterator.Buckets.{total, total-bucket_size}
use cpp_unordered_map.Container.{clear}
use cpp_unordered_map.Container.Clear.{clear-IsValid}
use cpp_unordered_map.Tests.Data.{
  plain, tenths, plenty, exhausted, two, two-ArenaOf, small_map, small_map-IsValid,
}

erase_key-ErasesKey_example :
    (n : ℕ) × (t' : Table ℕ ℕ (ℕ × ℕ)) × (erase_key plain 11 small_map ≡ returned n t')
    × ErasesKey plain small_map 11 n t'
erase_key-ErasesKey_example = erase_key-ErasesKey plain small_map 11 small_map-IsValid

find_key-FindsKey_example :
    (r : ℕ) × (find_key plain 11 small_map ≡ returned r small_map) × FindsKey plain small_map 11 r
find_key-FindsKey_example = find_key-FindsKey plain small_map-IsValid.searchable 11

rehash_to-Holds_example :
    (index : Index) × (rehash_to plain tenths plenty 16 small_map
      ≡ returned tt (record small_map {
        has_buckets = true;
        index = index;
        max_load_capacity = compute_load_capacity tenths small_map.max_load_factor 16;
      }))
    × (index.bucket_count ≡ 16)
    × Holds (hash_at plain small_map) small_map.iteration index
rehash_to-Holds_example =
    rehash_to-Holds plain tenths plenty small_map 16 4 (omega arith) (omega arith) refl
      (omega arith) refl

acquire_node-Acquires_example :
    Acquires plenty two two.iteration
    ⊎ (plenty.chunk two.chunks ≡ false) × (acquire_node plenty two ≡ threw two)
acquire_node-Acquires_example =
    acquire_node-Acquires plenty two two.iteration two-ArenaOf (omega arith)

release_node-arena_example :
    (release_node 0 two ≡ returned tt (released two 0)) × ArenaOf (released two 0) (1 ∷ [])
release_node-arena_example = release_node-arena two 0 (1 ∷ []) two-ArenaOf

visit-begin_index_example :
    visit (length small_map.iteration + 1) small_map (begin_index small_map)
    ≡ some small_map.iteration
visit-begin_index_example = visit-begin_index plain small_map small_map-IsValid (omega arith)

total-bucket_size_example :
    total (bucket_size plain small_map) small_map.bucket_count ≡ length small_map.iteration
total-bucket_size_example = total-bucket_size plain small_map small_map-IsValid.searchable

advance_to_match-Advances_example :
    Advances plain small_map 0 1 (advance_to_match plain small_map 0 1)
advance_to_match-Advances_example = advance_to_match-Advances plain small_map 0 1

clear-IsValid_example :
    (t' : Table ℕ ℕ (ℕ × ℕ)) × (clear small_map ≡ returned tt t')
    × IsValid plain t'
    × (t'.iteration ≡ [])
    × Keeps small_map t'
    × (t'.arena_high_water ≡ 0)
clear-IsValid_example = clear-IsValid plain small_map small_map-IsValid

emplace_impl-Emplaces_example :
    (r : ℕ × Bool) × (t' : Table ℕ ℕ (ℕ × ℕ)) × (emplace_impl plain tenths plenty
        (some (19, 190))
        small_map
      ≡ returned r t')
    × Emplaces plain tenths small_map (19, 190) r t'
emplace_impl-Emplaces_example =
    emplace_impl-Emplaces plain tenths plenty plenty-IsGranted small_map (19, 190) small_map-IsValid
      (omega arith) (omega (arith, small_map-bucket_count))

emplace_impl-threw_example :
    (t' : Table ℕ ℕ (ℕ × ℕ)) × (emplace_impl plain tenths exhausted none small_map ≡ threw t')
    × IsValid plain t'
    × ((x : ℕ) (w : ℕ × ℕ) → Stores t' x w ↔ Stores small_map x w)
    × Keeps small_map t'
emplace_impl-threw_example =
    emplace_impl-threw plain exhausted tenths small_map small_map-IsValid (omega arith)
