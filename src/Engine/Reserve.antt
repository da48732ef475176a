-- ===== src/Engine/Reserve.antt =====
-- `reserve_for_one_more` where memory is granted, and what a change outside the live nodes keeps.
use cpp_unordered_map.Prelude.{
  ℕ, suc, ◌+◌, ◌*◌, ◌≤◌, ◌<◌, ◌^◌, ◌≡◌, refl, sym, ◌∙◌, ap, inl, inr, true, false, Bool, length,
  count, ltb, ◌==◌, arith, Bool-cases, if_true, if_false,
}
use native.Mathlib.Nat.{pow-suc}
use cpp_unordered_map.Hash.{Traits, storage_hash}
use cpp_unordered_map.Index.{Index}
use cpp_unordered_map.Index.Invariant.{Holds, Holds-congr}
use cpp_unordered_map.Index.Ring.{bucket_count_bounds}
use cpp_unordered_map.Load.{FloatOps, compute_load_capacity}
use cpp_unordered_map.Load.Sizes.{compute_load_capacity-lt, pow_lt}
use cpp_unordered_map.Prelude.{◌⊎◌}
use cpp_unordered_map.Growth.{Reshaped}
use cpp_unordered_map.Outcome.{returned}
use cpp_unordered_map.Table.{Table, Node, Memory}
use cpp_unordered_map.Valid.{IsSearchable}
use cpp_unordered_map.Engine.{hash_at, rehash_to, reserve_for_one_more}
use cpp_unordered_map.Engine.Rehash.{hash_at-lt, rehash_to-Holds}

-- Every allocation succeeds.
pub record IsGranted (memory : Memory) : Type 0 where
  pub bucket_array : (n : ℕ) → memory.bucket_array n ≡ true
  pub chunk : (n : ℕ) → memory.chunk n ≡ true
  pub push_back : (n : ℕ) → memory.push_back n ≡ true

module _ {ℓ} {F : Type 0} {K V : Type ℓ} (traits : Traits K V) where
  -- A search reads the values of live nodes only.
  pub IsSearchable-nodes :
      (t : Table F K V)
      → IsSearchable traits t
      → (nodes : ℕ → Node V) (head high chunks : ℕ)
      → ((x : ℕ) → 0 < count x t.iteration → (t.nodes x).storage ≡ (nodes x).storage)
      → IsSearchable traits (record t {
        nodes = nodes;
        free_list_head = head;
        arena_high_water = high;
        chunks = chunks;
      })
  IsSearchable-nodes t s nodes head high chunks same = record {
    lawful = s.lawful;
    built = λ x p. let (v, e) = s.built x p in (v, sym (same x p) ∙ e);
    indexed = elim s.indexed [
      | inl e ↦ inl e
      | inr (has, cap, h) ↦
          let t' : Table F K V = record t { nodes = nodes } in
          inr (
            has,
            cap,
            Holds-congr h (hash_at traits t') (hash_at-lt traits t')
                (λ x p. ap (storage_hash traits t.policy) (same x p)),
          )
    ];
  }

  module _ (float : FloatOps F) (memory : Memory) (granted : IsGranted memory)
      (t : Table F K V) where
    abbrev pub rearranged : Bool → Index → ℕ → Table F K V
    rearranged present index cap = record t {
      has_buckets = present;
      index = index;
      max_load_capacity = cap;
    }

    -- Room for one more element beside an empty bucket; nothing but the array may have changed.
    pub record Reserves : Type ℓ where
      pub present : Bool
      pub index : Index
      pub cap : ℕ
      pub run :
          reserve_for_one_more traits float memory t ≡ returned tt (rearranged present index cap)
      pub has : present ≡ true
      pub holds : Holds (hash_at traits t) t.iteration index
      pub below : cap < index.bucket_count
      pub room : length t.iteration + 1 < index.bucket_count
      pub shape : Reshaped float t (length t.iteration + 1) index.bucket_count cap

    by_rehash :
        (n bits : ℕ)
        → 3 ≤ bits
        → bits ≤ 23
        → n ≡ 2 ^ bits
        → length t.iteration + 1 < n
        → reserve_for_one_more traits float memory t ≡ rehash_to traits float memory n t
        → (n ≡ 8) × (length t.iteration + 1 ≤ 1)
          ⊎ (n ≡ t.bucket_count * 2) × (t.max_load_capacity ≤ length t.iteration)
        → Reserves
    by_rehash n bits least most size room step why =
        let (index, run, same, h) =
          rehash_to-Holds traits float memory t n bits least most size (omega arith)
            (granted.bucket_array n) in
        record {
          present = true;
          index = index;
          cap = compute_load_capacity float t.max_load_factor n;
          run = step ∙ run;
          has = refl;
          holds = h;
          below = rw same (compute_load_capacity-lt float t.max_load_factor n (omega arith));
          room = rw same room;
          shape = inr (ap (compute_load_capacity float t.max_load_factor) (sym same), rw same why);
        }

    pub reserve_for_one_more-Reserves : IsSearchable traits t → t.bucket_count ≤ 2 ^ 22 → Reserves
    unfolding reserve_for_one_more
    reserve_for_one_more-Reserves s small = elim s.indexed [
      | inl (z, e) ↦
          let none_yet : (t.bucket_count == 0) ≡ true = ground arith in
          by_rehash 8 3 (omega arith) (omega arith) refl (rw e (omega arith)) (if_true _ _ none_yet)
            (inl (refl, rw e (omega arith)))
      | inr (has, below, h) ↦
          let some_there : (t.bucket_count == 0) ≡ false = ground (arith, h.roomy) in
          elim (Bool-cases (ltb t.max_load_capacity (length t.iteration + 1))) [
            | inl full ↦
                let bits = h.valid.sized.bits in
                let double : 2 ^ suc bits ≡ 2 ^ bits * 2 = pow-suc 2 bits in
                by_rehash (t.bucket_count * 2) (suc bits) (omega (arith, h.valid.sized.least))
                  (pow_lt bits 23 (omega (arith, h.valid.sized.count)))
                  (rw double (omega (arith, h.valid.sized.count)))
                  (omega (arith, h.roomy, bucket_count_bounds t.index h.valid.sized))
                  (if_false _ _ some_there ∙ if_true _ _ full) (inr (refl, ground arith))
            | inr spare ↦ record {
              present = t.has_buckets;
              index = t.index;
              cap = t.max_load_capacity;
              run = if_false _ _ some_there ∙ if_false _ _ spare;
              has = has;
              holds = h;
              below = below;
              room = ground (arith, below);
              shape = inl (refl, refl, inr (ground arith));
            }
          ]
    ]
