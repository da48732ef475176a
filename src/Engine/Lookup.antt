-- ===== src/Engine/Lookup.antt =====
-- `find_bucket` on a container.
use cpp_unordered_map.Prelude.{
  ℕ, ◌<◌, ◌≡◌, ◌≢◌, ◌⊎◌, refl, sym, ◌∙◌, ap, inl, inr, true, false, some, ◌==◌, count, arith,
  Bool-cases, if_true, if_false,
}
use cpp_unordered_map.Hash.{Traits, storage_hash, storage_equal, mixed_hash}
use cpp_unordered_map.Hash.Bounds.{mixed_hash-lt, mixed_hash-equal}
use cpp_unordered_map.Index.Invariant.{Holds, Holds-mem, Holds-slot, slot_df}
use cpp_unordered_map.Index.Find.{IsMatch, find_bucket-Finds}
use cpp_unordered_map.Outcome.{returned, require}
use cpp_unordered_map.Table.{Table}
use cpp_unordered_map.Engine.{hash_at, equal_at, find_key}
use cpp_unordered_map.Valid.{IsSearchable, Stores}

module _ {ℓ} {F : Type 0} {K V : Type ℓ} (traits : Traits K V) where
  -- A bucket whose node holds an element with an equal key.
  pub record Located (t : Table F K V) (key : K) (r : ℕ) : Type ℓ where
    pub inside : r < t.bucket_count
    pub present : t.has_buckets ≡ true
    pub occupied : (t.index.buckets r).dist_and_fingerprint ≢ 0
    pub value : V
    pub stored : Stores t (t.index.buckets r).node_index value
    pub equal : t.policy.key_equal key (traits.key_of value) ≡ true

  abbrev pub IsAbsent : Table F K V → K → Type ℓ
  IsAbsent t key = (x : ℕ) (v : V) → Stores t x v → t.policy.key_equal key (traits.key_of v) ≡ false

  abbrev pub FindsKey : Table F K V → K → ℕ → Type ℓ
  FindsKey t key r = Located t key r ⊎ (r ≡ t.bucket_count) × IsAbsent t key

  module _ (t : Table F K V) (x : ℕ) (v : V) (e : (t.nodes x).storage ≡ some v) where
    pub hash_at-some : hash_at traits t x ≡ mixed_hash traits t.policy (traits.key_of v)
    hash_at-some = ap (storage_hash traits t.policy) e

    pub equal_at-some :
        (key : K) → equal_at traits t key x ≡ t.policy.key_equal key (traits.key_of v)
    equal_at-some key = ap (storage_equal traits t.policy key) e

  module _ {t : Table F K V} (s : IsSearchable traits t) (key : K) where
    -- A match of the bucket search is a bucket with an equal key.
    match-Located :
        (r : ℕ)
        → t.has_buckets ≡ true
        → Holds (hash_at traits t) t.iteration t.index
        → IsMatch t.index (equal_at traits t key) (mixed_hash traits t.policy key) r
        → Located t key r
    unfolding slot_df
    match-Located r present h m =
        let nz : (t.index.buckets r).dist_and_fingerprint ≢ 0 = omega (arith, m.stands) in
        let live = Holds-mem h r m.inside nz in
        let (v, e) = s.built (t.index.buckets r).node_index live in
        record {
          inside = m.inside;
          present = present;
          occupied = nz;
          value = v;
          stored = (live, e);
          equal = sym (equal_at-some t (t.index.buckets r).node_index v e key) ∙ m.equal;
        }

    -- An element with an equal key would be a match.
    Stores-IsMatch :
        Holds (hash_at traits t) t.iteration t.index
        → (x : ℕ) (v : V) → Stores t x v
        → t.policy.key_equal key (traits.key_of v) ≡ true
        → (i : ℕ) × IsMatch t.index (equal_at traits t key) (mixed_hash traits t.policy key) i
    Stores-IsMatch h x v (live, e) same =
        let (i, hi, at_x, stands) = Holds-slot h x live in
        let hash =
          hash_at-some t x v e
          ∙ sym (mixed_hash-equal traits t.policy s.lawful key (traits.key_of v) same) in
        (
          i,
          record {
            inside = hi;
            stands = stands ∙ ap (λ k. slot_df t.index k i) hash;
            equal = ap (equal_at traits t key) at_x ∙ equal_at-some t x v e key ∙ same;
          },
        )

    no_match-IsAbsent :
        Holds (hash_at traits t) t.iteration t.index
        → ((i : ℕ) → ¬ IsMatch t.index (equal_at traits t key) (mixed_hash traits t.policy key) i)
        → IsAbsent t key
    no_match-IsAbsent h none_there x v st =
        elim (Bool-cases (t.policy.key_equal key (traits.key_of v))) [
          | inl same ↦ let (i, m) = Stores-IsMatch h x v st same in absurd (none_there i m)
          | inr other ↦ other
        ]

    -- On a container that a search can read, with or without buckets, the search for a key ends and
    -- changes nothing. It returns the bucket of a stored element with an equal key, or the bucket
    -- count, and then no stored element has an equal key.
    pub find_key-FindsKey : (r : ℕ) × (find_key traits key t ≡ returned r t) × FindsKey t key r
    unfolding find_key
    find_key-FindsKey = elim s.indexed [
      | inl (none_yet, empty) ↦
          let zero_count : (t.bucket_count == 0) ≡ true = ground arith in
          (
            t.bucket_count,
            if_true _ _ zero_count,
            inr (refl, λ x v st. absurd (ground (arith, st.0, ap (count x) empty))),
          )
      | inr (present, _, h) ↦
          let (r, run, finds) =
            find_bucket-Finds h.valid (omega (arith, h.filled, h.roomy)) (equal_at traits t key)
              (mixed_hash traits t.policy key) (mixed_hash-lt traits t.policy key) in
          let some_buckets : (t.bucket_count == 0) ≡ false = ground (arith, h.roomy) in
          (
            r,
            if_false _ _ some_buckets ∙ if_true _ _ present ∙ ap (λ o. require o t) run,
            elim finds [
              | inl m ↦ inl (match-Located r present h m)
              | inr (e, no_match) ↦ inr (e, no_match-IsAbsent h no_match)
            ],
          )
    ]
