-- ===== src/Adapters/Assign.antt =====
-- `insert_or_assign_impl`, `operator[]` and `at`.
use cpp_unordered_map.Prelude.{
  to_nat, length, ℕ, ◌+◌, ◌≤◌, ◌<◌, ◌^◌, ◌≡◌, ◌≢◌, ◌⊎◌, ◌↔◌, refl, sym, ◌∙◌, ap, inl, inr, Bool,
  true, false, Option, some, none, get_or, ◌==◌, arith, if_true, if_false, ==-cases,
}
use cpp_unordered_map.Hash.{Traits, storage_hash, mixed_hash}
use cpp_unordered_map.Index.{null_index}
use cpp_unordered_map.Index.Invariant.{Holds-congr}
use cpp_unordered_map.Load.{FloatOps}
use cpp_unordered_map.Outcome.{Outcome, Action, returned, bind-returned, pure, ◌>>◌}
use cpp_unordered_map.Table.{Table, Memory, set_storage, storage-set_storage, aux-set_storage}
use cpp_unordered_map.Valid.{IsValid, Stores}
use cpp_unordered_map.Arena.{IsArena-congr}
use cpp_unordered_map.Growth.{Keeps-Grows, Grows}
use cpp_unordered_map.Engine.{hash_at, node_of_bucket}
use cpp_unordered_map.Engine.Rehash.{hash_at-lt}
use cpp_unordered_map.Engine.Lookup.{IsAbsent}
use cpp_unordered_map.Engine.Reserve.{IsGranted}
use cpp_unordered_map.Engine.OnKey.{on_key-cases}
use cpp_unordered_map.Adapters.{map_traits, assign_mapped, insert_or_assign_impl, try_emplace_impl}
use cpp_unordered_map.Adapters.Emplace.{try_emplace_impl-Emplaces}

module _ {ℓ} {F : Type 0} {K V : Type ℓ} (traits : Traits K V) where
  -- Another element under the same key at a live node.
  module _ (t : Table F K V) (valid : IsValid traits t) (x : ℕ) (v v' : V) (st : Stores t x v)
      (same : traits.key_of v' ≡ traits.key_of v) where
    abbrev pub assigned : Table F K V
    assigned = set_storage x (some v') t

    value_here : (assigned.nodes x).storage ≡ some v'
    value_here = storage-set_storage t x x (some v') ∙ if_true {b = x == x} _ _ (ground arith)

    value_apart : (y : ℕ) → y ≢ x → (assigned.nodes y).storage ≡ (t.nodes y).storage
    value_apart y apart =
        storage-set_storage t x y (some v') ∙ if_false {b = x == y} _ _ (ground arith)

    pub Stores-assigned :
        (y : ℕ) (w : V) → Stores assigned y w ↔ Stores t y w × (y ≢ x) ⊎ (y ≡ x) × (w ≡ v')
    Stores-assigned y w = (
      (λ s. elim (==-cases y x) [
        | inl e ↦
            let at_x : some w ≡ some v' =
              sym s.1 ∙ ap (λ k. (assigned.nodes k).storage) e ∙ value_here in
            inr (e, ap (λ (o : Option V). elim o [ none ↦ w | some u ↦ u ]) at_x)
        | inr apart ↦ let ne : y ≢ x = ground arith in inl ((s.0, sym (value_apart y ne) ∙ s.1), ne)
      ]),
      λ s. elim s [
        | inl (old, apart) ↦ (old.0, value_apart y apart ∙ old.1)
        | inr (e, new) ↦
            (rw e st.0, ap (λ k. (assigned.nodes k).storage) e ∙ value_here ∙ ap some (sym new))
      ],
    )

    hash_assigned : (y : ℕ) → hash_at traits t y ≡ hash_at traits assigned y
    hash_assigned y = elim (==-cases y x) [
      | inl e ↦
          ap (hash_at traits t) e
          ∙ ap (storage_hash traits t.policy) st.1
          ∙ ap (mixed_hash traits t.policy) (sym same)
          ∙ ap (storage_hash traits t.policy) (sym value_here)
          ∙ ap (hash_at traits assigned) (sym e)
      | inr apart ↦ ap (storage_hash traits t.policy) (sym (value_apart y (ground arith)))
    ]

    -- The key that a node of the new container had before.
    old_key :
        (y : ℕ) (w : V)
        → Stores assigned y w
        → (u : V) × Stores t y u × (traits.key_of w ≡ traits.key_of u)
    old_key y w s = elim ((Stores-assigned y w).0 s) [
      | inl (old, _) ↦ (w, old, refl)
      | inr (e, new) ↦ (v, rw e st, ap traits.key_of new ∙ same)
    ]

    pub assigned-IsValid : IsValid traits assigned
    assigned-IsValid = record {
      searchable = record {
        lawful = valid.searchable.lawful;
        built = λ y p. elim (==-cases y x) [
          | inl e ↦ (v', ap (λ k. (assigned.nodes k).storage) e ∙ value_here)
          | inr apart ↦
              let (w, e) = valid.searchable.built y p in (w, value_apart y (ground arith) ∙ e)
        ];
        indexed = elim valid.searchable.indexed [
          | inl e ↦ inl e
          | inr (has, cap, h) ↦ inr (
            has,
            cap,
            Holds-congr h (hash_at traits assigned) (hash_at-lt traits assigned)
                (λ y _. hash_assigned y),
          )
        ];
      };
      arena =
          IsArena-congr valid.arena assigned.nodes (λ y _. sym (aux-set_storage t x y (some v')));
      raw = λ y z. value_apart y (λ e. absurd (ground (arith, st.0, e, z))) ∙ valid.raw y z;
      linked = λ p l. aux-set_storage t x (get_or t.iteration p 0) (some v') ∙ valid.linked p l;
      distinct = λ y z w u a b e.
          let (w', a', ew) = old_key y w a in
          let (u', b', eu) = old_key z u b in valid.distinct y z w' u' a' b' (rw (ew, eu) at e);
    }

module _ {ℓ} {F : Type 0} {K M : Type ℓ} (is_avalanching : Bool) (float : FloatOps F) where
  abbrev traits : Traits K (K × M)
  traits = map_traits is_avalanching

  pub assign_mapped_lem :
      (memory : Memory) (t : Table F K (K × M)) (x : ℕ) (old : K × M) (m : M)
      → Stores t x old
      → assign_mapped traits float memory x (some m) t
        ≡ returned tt (set_storage x (some (old.0, m)) t)
  unfolding assign_mapped
  assign_mapped_lem memory t x old m st =
      ap
        (λ (o : Option (K × M)). elim o as (λ _. Outcome (Table F K (K × M)) (Unit {0})) [
          | none ↦ Outcome.undefined
          | some v ↦ returned tt (set_storage x (some (v.0, m)) t)
        ])
        st.1

  -- Either the pair was added at the returned node, or the node held an element with an equal key
  -- whose mapped value is replaced; its own key stays.
  pub record Assigns (t : Table F K (K × M)) (key : K) (m : M) (r : ℕ × Bool)
      (t' : Table F K (K × M)) : Type ℓ where
    pub valid : IsValid traits t'
    pub growth : Grows float t t'
    pub grows : length t'.iteration ≡ length t.iteration + to_nat r.1
    pub outcome :
        (r.1 ≡ true)
          × IsAbsent traits t key
          × ((x : ℕ) (w : K × M) → Stores t' x w ↔ Stores t x w ⊎ (x ≡ r.0) × (w ≡ (key, m)))
        ⊎ (r.1 ≡ false)
          × ((old : K × M) × Stores t r.0 old
              × (t.policy.key_equal key old.0 ≡ true)
              × ((x : ℕ) (w : K × M)
                  → Stores t' x w ↔ Stores t x w × (x ≢ r.0) ⊎ (x ≡ r.0) × (w ≡ (old.0, m))))

  module _ (memory : Memory) (granted : IsGranted memory) where
    -- Where memory is granted and the container is valid, with its arena below the largest size and
    -- at most 2^22 buckets, `insert_or_assign_impl` returns and leaves a valid container. Either the
    -- key was absent, and the pair is stored at the returned node beside the others; or the returned
    -- node held an element with an equal key, and now holds its old key with the new mapped value,
    -- all others being as they were. The number of elements grows by one exactly if the flag says
    -- that the pair is new; the policy and the load factor stay, and the array grows by one step at
    -- most.
    pub insert_or_assign_impl-Assigns :
        (t : Table F K (K × M)) (key : K) (m : M)
        → IsValid traits t
        → t.arena_high_water < null_index
        → t.bucket_count ≤ 2 ^ 22
        → (r : ℕ × Bool) × (t' : Table F K (K × M)) × (insert_or_assign_impl traits float memory key
              (some m)
              t
            ≡ returned r t')
          × Assigns t key m r t'
    unfolding insert_or_assign_impl assign_mapped node_of_bucket
    insert_or_assign_impl-Assigns t key m valid below small =
        let found : ℕ → Action (Table F K (K × M)) (ℕ × Bool) =
          λ x. assign_mapped traits float memory x (some m) >> pure (x, false) in
        let missing = try_emplace_impl traits float memory key (some m) in
        elim (on_key-cases traits key found missing t valid) [
          | inl (x, run, (old, st, same)) ↦
              let v' : K × M = (old.0, m) in
              let write = assign_mapped_lem memory t x old m st in
              (
                (x, false),
                assigned traits t valid x old v' st refl,
                run
                    ∙ bind-returned (assign_mapped traits float memory x (some m))
                        (λ _. pure (x, false)) t write,
                record {
                  valid = assigned-IsValid traits t valid x old v' st refl;
                  growth = Keeps-Grows float (record {
                    policy = refl;
                    factor = refl;
                    high = omega arith;
                    size = omega arith;
                    count = refl;
                    capacity = refl;
                  });
                  grows = omega arith;
                  outcome =
                      inr (refl, (old, st, same, Stores-assigned traits t valid x old v' st refl));
                },
              )
          | inr (run, absent) ↦
              let (r, t', run', e) =
                try_emplace_impl-Emplaces is_avalanching float memory granted t key m valid below
                  small in
              (
                r,
                t',
                run ∙ run',
                record {
                  valid = e.valid;
                  growth = e.growth;
                  grows = e.grows;
                  outcome = elim e.outcome [
                    | inl new ↦ inl new
                    | inr (_, (w, st, same), _) ↦ absurd (ground (arith, absent r.0 w st, same))
                  ];
                },
              )
        ]
