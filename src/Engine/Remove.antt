-- ===== src/Engine/Remove.antt =====
-- `erase_located` and `erase(const key_type&)` on a valid container: it stays valid, and exactly the
-- element goes.
use cpp_unordered_map.Prelude.{
  ℕ, ◌+◌, ◌-◌, ◌≤◌, ◌<◌, ◌≡◌, ◌≢◌, ◌↔◌, sym, ◌∙◌, ap, inl, inr, true, false, none, ◌∷◌, length,
  get_or, count, to_nat, ◌==◌, if◌then◌else◌, arith, Bool-cases, ==-cases, if_true, if_false,
}
use cpp_unordered_map.Hash.{Traits, storage_hash}
use cpp_unordered_map.Index.{Index}
use cpp_unordered_map.Index.Invariant.{Holds, Holds-congr}
use cpp_unordered_map.Index.Erase.{Erases, erase_bucket-Erases}
use cpp_unordered_map.Outcome.{Action, pure, read, returned, bind-returned, ◌>>=◌}
use cpp_unordered_map.Table.{Table, aux-set_aux, aux-set_storage}
use cpp_unordered_map.Valid.{IsValid, Stores, ArenaOf}
use cpp_unordered_map.Arena.{IsArena-congr, IsArena-owned, owned_once, release_node-arena}
use cpp_unordered_map.Engine.{hash_at, equal_at, erase_located, find_key, erase_key}
use cpp_unordered_map.Engine.Lookup.{IsAbsent, Located, equal_at-some, find_key-FindsKey}
use cpp_unordered_map.Prelude.Swap.{count-get_or}
use cpp_unordered_map.Engine.Unlink.{
  IsLinked, back-last, count-remaining, length-remaining, remaining-IsLinked,
}
use cpp_unordered_map.Prelude.{◌⊎◌}
use cpp_unordered_map.Load.{FloatOps, compute_load_capacity}
use cpp_unordered_map.Growth.{Grows, Keeps, Keeps-refl}
use cpp_unordered_map.Prelude.{refl, ap, set, pop_back, ◌-◌}
use cpp_unordered_map.Engine.Rehash.{hash_at-lt}
use cpp_unordered_map.Engine.Erase.{
  aux_of, last_of, destroyed, unlinked, erased, storage-erased, aux-erased, erase_located-run,
}

module _ {ℓ} {F : Type 0} {K V : Type ℓ} (traits : Traits K V) where
  -- What is left of a container after the element at node `m` went: it is valid, one element
  -- smaller, and the other elements are where they were.
  pub record Removes (t : Table F K V) (m : ℕ) (t' : Table F K V) : Type ℓ where
    pub valid : IsValid traits t'
    pub shrinks : length t'.iteration + 1 ≡ length t.iteration
    pub keeps : (x : ℕ) (v : V) → Stores t' x v ↔ Stores t x v × (x ≢ m)
    pub kept : Keeps t t'
    pub slots : t'.arena_high_water ≡ t.arena_high_water
    pub order :
        t'.iteration
        ≡ pop_back (set t.iteration (t.nodes m).aux (get_or t.iteration (length t.iteration - 1) 0))

  -- A removal and then a growth by at most one element are such a growth.
  pub Removes-Grows :
      (float : FloatOps F) (t t1 t' : Table F K V) (x : ℕ)
      → Removes t x t1
      → Grows float t1 t'
      → Grows float t t'
  Removes-Grows float t t1 t' x p g =
      let computed = ap (λ f. compute_load_capacity float f t'.bucket_count) p.kept.factor in
      record {
        policy = g.policy ∙ p.kept.policy;
        factor = g.factor ∙ p.kept.factor;
        high = omega (arith, g.high, p.slots);
        size = omega (arith, g.size, p.shrinks);
        shape = elim g.shape [
          | inl (count, capacity, _) ↦ inl (
            count ∙ p.kept.count,
            capacity ∙ p.kept.capacity,
            inl (omega (arith, g.size, p.shrinks)),
          )
          | inr (capacity, inl first) ↦ inr (capacity ∙ computed, inl first)
          | inr (capacity, inr (double, full)) ↦ inr (
            capacity ∙ computed,
            inr (
              omega (arith, double, p.kept.count),
              omega (arith, full, p.shrinks, p.kept.capacity),
            ),
          )
        ];
      }

  module _ (t : Table F K V) (valid : IsValid traits t) (r : ℕ) (index : Index)
      (has : t.has_buckets ≡ true) (h : Holds (hash_at traits t) t.iteration t.index)
      (e : Erases (hash_at traits t) t.index (t.index.buckets r).node_index index)
      (cap : t.max_load_capacity < t.bucket_count)
      (live : 0 < count (t.index.buckets r).node_index t.iteration) where
    abbrev m : ℕ
    m = (t.index.buckets r).node_index

    abbrev t' : Table F K V
    t' = erased t index m

    it-IsLinked : IsLinked (aux_of t) t.iteration
    it-IsLinked = valid.linked

    -- The positions are read after the value is destroyed, which leaves them as they were.
    aux_destroyed : (x : ℕ) → aux_of (destroyed t index m) x ≡ aux_of t x
    aux_destroyed x = aux-set_storage (record t { index = index }) m x none

    d-IsLinked : IsLinked (aux_of (destroyed t index m)) t.iteration
    d-IsLinked p l = aux_destroyed (get_or t.iteration p 0) ∙ valid.linked p l

    counts : (x : ℕ) → count x t'.iteration + to_nat (x == m) ≡ count x t.iteration
    counts = count-remaining (aux_of (destroyed t index m)) t.iteration d-IsLinked m live

    size : length t'.iteration + 1 ≡ length t.iteration
    size = length-remaining (aux_of (destroyed t index m)) t.iteration d-IsLinked m live

    once : (x : ℕ) → count x t.iteration ≤ 1
    once = owned_once valid.arena

    left_of : (x : ℕ) → 0 < count x t'.iteration → (0 < count x t.iteration) × (x ≢ m)
    left_of x p = (omega (arith, counts x), λ same. absurd (ground (arith, counts x, once x, same)))

    stays : (x : ℕ) → x ≢ m → (t'.nodes x).storage ≡ (t.nodes x).storage
    stays x apart = storage-erased t index m x ∙ if_false {b = m == x} _ _ (ground arith)

    keeps_lem : (x : ℕ) (v : V) → Stores t' x v ↔ Stores t x v × (x ≢ m)
    keeps_lem x v = (
      (λ s. let (there, apart) = left_of x s.0 in ((there, sym (stays x apart) ∙ s.1), apart)),
      λ s. (ground (arith, counts x, s.0.0, s.1), stays x s.1 ∙ s.0.1),
    )

    aux_free :
        (x : ℕ) → count x t.iteration ≡ 0 → aux_of t x ≡ aux_of (unlinked (destroyed t index m) m) x
    aux_free x z =
        let d = destroyed t index m in
        let last_in = count-get_or t.iteration (length t.iteration - 1) 0 (omega (arith, size)) in
        let apart : (last_of t == x) ≡ false = ground (arith, last_in, z) in
        sym (aux-set_aux d (last_of t) x (aux_of d m) ∙ if_false _ _ apart ∙ aux_destroyed x)

    arena_lem : ArenaOf t' t'.iteration
    arena_lem =
        let u = unlinked (destroyed t index m) m in
        let kept = IsArena-congr valid.arena u.nodes aux_free in
        let owned = IsArena-owned kept (m ∷ t'.iteration) (λ x. ground (arith, counts x)) in
        (release_node-arena u m t'.iteration owned).1

    indexed_lem : Holds (hash_at traits t') t'.iteration index
    indexed_lem =
        let before : Holds (hash_at traits t) t'.iteration index = record {
          valid = e.valid;
          copied = λ x. omega (arith, e.holds x, h.copied x, counts x);
          filled = omega (arith, e.frees, h.filled, size);
          roomy = omega (arith, size, h.roomy, e.count);
        } in
        Holds-congr before (hash_at traits t') (hash_at-lt traits t')
          (λ x p. ap (storage_hash traits t.policy) (sym (stays x (left_of x p).1)))

    erased-Removes : Removes t m t'
    erased-Removes = record {
      valid = record {
        searchable = record {
          lawful = valid.searchable.lawful;
          built = λ x p.
              let (there, apart) = left_of x p in
              let (v, here) = valid.searchable.built x there in (v, stays x apart ∙ here);
          indexed = inr (has, rw e.count cap, indexed_lem);
        };
        arena = arena_lem;
        raw = λ x z. elim (==-cases m x) [
          | inl same ↦ storage-erased t index m x ∙ if_true {b = m == x} _ _ (ground arith)
          | inr apart ↦
              let other : x ≢ m = ground arith in
              stays x other ∙ valid.raw x (ground (arith, counts x))
        ];
        linked =
            remaining-IsLinked (aux_of (destroyed t index m)) t.iteration d-IsLinked m live
              (aux_of t') once (aux-erased t index m);
        distinct = λ x y v w a b same.
            valid.distinct x y v w ((keeps_lem x v).0 a).0 ((keeps_lem y w).0 b).0 same;
      };
      shrinks = size;
      keeps = keeps_lem;
      kept = record {
        policy = refl;
        factor = refl;
        high = omega arith;
        size = omega (arith, size);
        count = e.count;
        capacity = refl;
      };
      slots = refl;
      order =
          ap (λ k. pop_back (set t.iteration k (get_or t.iteration (length t.iteration - 1) 0)))
            (aux_destroyed m);
    }

  -- `erase_located` on a bucket that a search found returns, and takes out the element there.
  pub erase_located-Removes :
      (t : Table F K V) (key : K) (r : ℕ)
      → IsValid traits t
      → Located traits t key r
      → (t' : Table F K V) × (erase_located r t ≡ returned tt t')
        × Removes t (t.index.buckets r).node_index t'
  erase_located-Removes t key r valid l = elim valid.searchable.indexed [
    | inl (z, _) ↦ absurd (omega (arith, l.inside, z))
    | inr (has, cap, h) ↦
        let m = (t.index.buckets r).node_index in
        let (index, run, e) =
          erase_bucket-Erases h.valid (omega (arith, h.filled, h.roomy)) r l.inside l.occupied in
        (
          erased t index m,
          erase_located-run t r index has l.inside run
              (back-last (aux_of t) t.iteration valid.linked m l.stored.0),
          erased-Removes t valid r index has h e cap l.stored.0,
        )
  ]

  -- What `erase(const key_type&)` leaves: a valid container in which exactly the elements with
  -- another key are stored, where they were; and the returned number is how many went.
  pub record ErasesKey (t : Table F K V) (key : K) (n : ℕ) (t' : Table F K V) : Type ℓ where
    pub valid : IsValid traits t'
    pub shrinks : length t'.iteration + n ≡ length t.iteration
    pub at_most : n ≤ 1
    pub decides :
        (n ≡ 1)
          × ((x : ℕ) × (w : V) × Stores t x w × (t.policy.key_equal key (traits.key_of w) ≡ true))
        ⊎ (n ≡ 0) × IsAbsent traits t key
    pub keeps :
        (x : ℕ) (v : V)
        → Stores t' x v ↔ Stores t x v × (t.policy.key_equal key (traits.key_of v) ≡ false)
    pub kept : Keeps t t'

  Located-keeps :
      (t : Table F K V) (key : K) (r : ℕ)
      → IsValid traits t
      → (l : Located traits t key r) → (x : ℕ) (v : V) → Stores t x v
      → (x ≢ (t.index.buckets r).node_index) ↔ (t.policy.key_equal key (traits.key_of v) ≡ false)
  Located-keeps t key r valid l x v st =
      let m = (t.index.buckets r).node_index in
      let lawful = valid.searchable.lawful in
      let stored_v = traits.key_of v in
      (
        (λ apart. elim (Bool-cases (t.policy.key_equal key stored_v)) [
          | inl same ↦
              let joined =
                lawful.equal_trans stored_v key (traits.key_of l.value)
                  (lawful.equal_symm key stored_v same) l.equal in
              absurd (apart (valid.distinct x m v l.value st l.stored joined))
          | inr other ↦ other
        ]),
        λ other same.
            let found : t.policy.key_equal key stored_v ≡ true =
              sym (equal_at-some traits t x v st.1 key)
              ∙ ap (equal_at traits t key) same
              ∙ equal_at-some traits t m l.value l.stored.1 key
              ∙ l.equal in
            absurd (ground (arith, found, other)),
      )

  -- On a valid container, erasing a key always returns. The container stays valid; the returned
  -- number is 0 or 1 and is how many elements it lost; and exactly the elements whose key is not
  -- equal to the given one are still stored, each at the node where it was. The bucket count, the
  -- capacity, the policy and the load factor stay.
  pub erase_key-ErasesKey :
      (t : Table F K V) (key : K)
      → IsValid traits t
      → (n : ℕ) × (t' : Table F K V) × (erase_key traits key t ≡ returned n t')
        × ErasesKey t key n t'
  unfolding erase_key
  erase_key-ErasesKey t key valid =
      let gone : ℕ → Action (Table F K V) ℕ =
        λ bucket_index. erase_located bucket_index >>= (λ _. pure 1) in
      let act : ℕ → Action (Table F K V) ℕ = λ bucket_index.
        read (λ t. bucket_index == t.bucket_count)
        >>= (λ absent. if absent then pure 0 else gone bucket_index) in
      let (r, run, finds) = find_key-FindsKey traits valid.searchable key in
      elim finds [
        | inl l ↦
            let (t', run', p) = erase_located-Removes t key r valid l in
            let present : (r == t.bucket_count) ≡ false = ground (arith, l.inside) in
            let keep = Located-keeps t key r valid l in
            (
              1,
              t',
              bind-returned (find_key traits key) act t run
                  ∙ ap (λ f. f t) (if_false (pure 0) (gone r) present)
                  ∙ bind-returned (erase_located r) (λ _. pure 1) t run',
              record {
                valid = p.valid;
                shrinks = p.shrinks;
                at_most = omega arith;
                kept = p.kept;
                decides = inl (refl, ((t.index.buckets r).node_index, l.value, l.stored, l.equal));
                keeps = λ x v. (
                  (λ s. let (st, apart) = (p.keeps x v).0 s in (st, (keep x v st).0 apart)),
                  λ s. (p.keeps x v).1 (s.0, (keep x v s.0).1 s.1),
                );
              },
            )
        | inr (e, absent) ↦
            let missing : (r == t.bucket_count) ≡ true = ground (arith, e) in
            (
              0,
              t,
              bind-returned (find_key traits key) act t run
                  ∙ ap (λ f. f t) (if_true (pure 0) (gone r) missing),
              record {
                valid = valid;
                shrinks = omega arith;
                at_most = omega arith;
                kept = Keeps-refl t;
                decides = inr (refl, absent);
                keeps = λ x v. ((λ s. (s, absent x v s)), λ s. s.0);
              },
            )
      ]
