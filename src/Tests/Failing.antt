-- ===== src/Tests/Failing.antt =====
-- The theorem on a larger array that is denied, on a map that is full.
use cpp_unordered_map.Prelude.{ℕ, ◌≡◌, refl, inl, inr, true, false, some, arith}
use cpp_unordered_map.Outcome.{threw}
use cpp_unordered_map.Table.{Table, Memory}
use cpp_unordered_map.Valid.{IsValid}
use cpp_unordered_map.Engine.{emplace_impl}
use cpp_unordered_map.Engine.Lookup.{IsAbsent}
use cpp_unordered_map.Engine.Failing.{IsBroken, find_key-emplace_impl}
use cpp_unordered_map.Tests.Data.{
  plain, tenths, small_map, small_map-IsValid, small_map-bucket_count, stored_key,
}

-- A load factor of three tenths: two elements in eight buckets.
abbrev full_map : Table ℕ ℕ (ℕ × ℕ)
full_map = record small_map { max_load_factor = 3; max_load_capacity = 2 }

full_map-IsValid : IsValid plain full_map
full_map-IsValid =
    let valid = small_map-IsValid in
    record {
      searchable = record {
        lawful = valid.searchable.lawful;
        built = valid.searchable.built;
        indexed = elim valid.searchable.indexed [
          | inl empty ↦ inl empty
          | inr (has, _, holds) ↦ inr (has, omega (arith, small_map-bucket_count), holds)
        ];
      };
      arena = valid.arena;
      raw = valid.raw;
      linked = valid.linked;
      distinct = valid.distinct;
    }

-- No bucket array is granted.
abbrev stingy : Memory
stingy = record { bucket_array = λ _. false; chunk = λ _. true; push_back = λ _. true }

full_map-IsAbsent : IsAbsent plain full_map 5
full_map-IsAbsent x v st = ground (arith, stored_key x v st.1 (ground (arith, st.0)))

find_key-emplace_impl_example :
    (t' : Table ℕ ℕ (ℕ × ℕ)) × (emplace_impl plain tenths stingy (some (5, 50)) full_map ≡ threw t')
    × IsBroken plain full_map t'
find_key-emplace_impl_example =
    find_key-emplace_impl plain tenths stingy full_map full_map-IsValid (5, 50)
      (omega (arith, small_map-bucket_count)) (omega arith) refl (omega arith) refl
      full_map-IsAbsent
