-- ===== src/Container/Clear.antt =====
-- `clear`.
use cpp_unordered_map.Prelude.{
  ℕ, ◌<◌, ◌≡◌, refl, ◌∙◌, inl, inr, ◌&&◌, none, List, [], ◌∷◌, length, count, ◌==◌, arith,
  Bool-cases, ==-cases, if_true, if_false,
}
use cpp_unordered_map.Hash.{Traits}
use cpp_unordered_map.Index.{Index, null_index, zero_bucket}
use cpp_unordered_map.Index.Census.{occupied-zero, copies-zero}
use cpp_unordered_map.Index.Invariant.{Holds}
use cpp_unordered_map.Outcome.{returned, bind-returned, modify}
use cpp_unordered_map.Table.{Table, Node, set_storage, storage-set_storage}
use cpp_unordered_map.Valid.{IsSearchable, IsValid}
use cpp_unordered_map.Engine.{hash_at}
use cpp_unordered_map.Engine.Rehash.{hash_at-lt}
use cpp_unordered_map.Growth.{Keeps, Keeps-refl}
use cpp_unordered_map.Container.{destroy_values, emptied, clear}

pub empty_of_length : (it : List ℕ) → length it ≡ 0 → it ≡ []
empty_of_length [] e = refl
empty_of_length (x ∷ it) e = absurd (omega arith)

module _ {ℓ} {F : Type 0} {K V : Type ℓ} where
  -- After the loop the nodes of the list hold no value, and the others are as before.
  pub record Destroys (t : Table F K V) (list : List ℕ) : Type ℓ where
    pub nodes : ℕ → Node V
    pub run : destroy_values list t ≡ returned tt (record t { nodes = nodes })
    gone : (x : ℕ) → 0 < count x list → (nodes x).storage ≡ none
    kept : (x : ℕ) → (t.nodes x).storage ≡ none → (nodes x).storage ≡ none

  pub destroy_values-Destroys : (list : List ℕ) (t : Table F K V) → Destroys t list
  unfolding destroy_values
  destroy_values-Destroys [] t = record {
    nodes = t.nodes;
    run = refl;
    gone = λ x p. absurd (omega arith);
    kept = λ x e. e;
  }
  destroy_values-Destroys (m ∷ list) t =
      let d = destroy_values-Destroys list (set_storage m none t) in
      let write = λ (x : ℕ). storage-set_storage t m x none in
      record {
        nodes = d.nodes;
        run = d.run;
        gone = λ x p. elim (==-cases m x) [
          | inl e ↦ d.kept x (ground (arith, write x))
          | inr apart ↦ d.gone x (ground arith)
        ];
        kept = λ x e. d.kept x (ground (arith, write x));
      }

  module _ (traits : Traits K V) where
    abbrev zeroed : Table F K V → Index
    zeroed t = record {
      buckets = λ _. zero_bucket;
      bucket_count = t.bucket_count;
      bucket_shift = t.bucket_shift;
    }

    emptied-bucket_count : (t : Table F K V) → (emptied t).bucket_count ≡ t.bucket_count
    emptied-bucket_count t = elim (Bool-cases t.has_buckets) [
      | inl e ↦ rw e refl
      | inr e ↦ rw e refl
    ]

    zeroed-Holds :
        (t t' : Table F K V)
        → Holds (hash_at traits t) t.iteration t.index
        → Holds (hash_at traits t') [] (zeroed t)
    zeroed-Holds t t' h = record {
      valid = record {
        sized = record {
          bits = h.valid.sized.bits;
          least = h.valid.sized.least;
          most = h.valid.sized.most;
          count = h.valid.sized.count;
          shift = h.valid.sized.shift;
        };
        hashed = hash_at-lt traits t';
        ordered = λ i hi. omega arith;
        placed = λ i hi. inl refl;
      };
      copied = λ x. copies-zero (zeroed t) x (λ i. refl);
      filled = occupied-zero (zeroed t) (λ i. refl);
      roomy = omega (arith, h.roomy);
    }

    emptied-IsValid :
        (t : Table F K V)
        → IsSearchable traits t
        → (nodes : ℕ → Node V) → ((x : ℕ) → (nodes x).storage ≡ none)
        → IsValid traits (emptied (record t { nodes = nodes }))
    emptied-IsValid t s nodes bare = record {
      searchable = record {
        lawful = s.lawful;
        built = λ x p. absurd (omega arith);
        indexed = elim s.indexed [
          | inl (z, _) ↦ inl (emptied-bucket_count t ∙ z, refl)
          | inr (has, cap, h) ↦
              inr (has, rw has cap, rw has (zeroed-Holds t (record t { nodes = nodes }) h))
        ];
      };
      arena = record {
        free = [];
        chain = refl;
        split = λ x. ground arith;
        room = omega arith;
        small = omega arith;
      };
      raw = λ x _. bare x;
      linked = λ p h. absurd (omega arith);
      distinct = λ x y v w a b e. absurd (omega (arith, a.0));
    }

    -- On a valid container `clear` returns; it leaves a valid container with no element the same
    -- bucket count, capacity, policy and load factor, and no slot in use.
    pub clear-IsValid :
        (t : Table F K V)
        → IsValid traits t
        → (t' : Table F K V) × (clear t ≡ returned tt t')
          × IsValid traits t'
          × (t'.iteration ≡ [])
          × Keeps t t'
          × (t'.arena_high_water ≡ 0)
    unfolding clear
    clear-IsValid t valid =
        let early =
          (length t.iteration == 0)
          && (t.free_list_head == null_index)
          && (t.arena_high_water == 0) in
        elim (Bool-cases early) [
          | inl p ↦ (
            t,
            if_true _ _ p,
            valid,
            empty_of_length t.iteration (ground arith),
            Keeps-refl t,
            ground arith,
          )
          | inr p ↦
              let d = destroy_values-Destroys t.iteration t in
              let bare : (x : ℕ) → (d.nodes x).storage ≡ none = λ x.
                elim (==-cases (count x t.iteration) 0) [
                  | inl z ↦ d.kept x (valid.raw x z)
                  | inr some_there ↦ d.gone x (ground arith)
                ] in
              (
                emptied (record t { nodes = d.nodes }),
                if_false _ _ p
                    ∙ bind-returned (destroy_values t.iteration) (λ _. modify emptied) t d.run,
                emptied-IsValid t valid.searchable d.nodes bare,
                refl,
                record {
                  policy = refl;
                  factor = refl;
                  high = omega arith;
                  size = omega arith;
                  count = emptied-bucket_count t;
                  capacity = refl;
                },
                omega arith,
              )
        ]
