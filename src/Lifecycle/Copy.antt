-- ===== src/Lifecycle/Copy.antt =====
-- Copy construction and copy assignment.
use cpp_unordered_map.Prelude.{
  ℕ, suc, ◌+◌, ◌*◌, ◌≤◌, ◌<◌, ◌^◌, ◌≡◌, refl, sym, ◌∙◌, ap, inl, inr, Bool, false, not, ◌&&◌, some,
  none, List, [], ◌∷◌, map, length, count, arith, if_false,
}
use mathlib.Core.Path.{fun_ext}
use cpp_unordered_map.Hash.{Traits, key_equal_symm}
use cpp_unordered_map.Load.{FloatOps}
use cpp_unordered_map.Outcome.{Action, returned, bind-returned, modify, ◌>>◌}
use cpp_unordered_map.Table.{Table, Memory}
use cpp_unordered_map.Valid.{IsValid}
use cpp_unordered_map.Growth.{IsAmple, IsWithin}
use cpp_unordered_map.Engine.Lookup.{equal_at-some}
use cpp_unordered_map.Engine.Reserve.{IsGranted}
use cpp_unordered_map.Index.Invariant.{Holds-congr}
use cpp_unordered_map.Engine.{hash_at}
use cpp_unordered_map.Engine.Rehash.{hash_at-lt}
use cpp_unordered_map.Container.Clear.{clear-IsValid}
use cpp_unordered_map.Contents.{view, scan}
use cpp_unordered_map.Contents.Size.{view-length}
use cpp_unordered_map.Container.Growing.{GrowsAll}
use native.Mathlib.Nat.{zero-add}
use cpp_unordered_map.Contents.Copy.{first, or_else, with_all-first}
use cpp_unordered_map.Container.{clear, copy_contents_from}
use cpp_unordered_map.Container.Rehash.{IsTight}
use cpp_unordered_map.Container.Bulk.{InsertsAll, copy_contents_from-InsertsAll}
use cpp_unordered_map.Lifecycle.{fresh, elements, adopt, copy_construct, copy_assign}
use cpp_unordered_map.Lifecycle.Move.{moved_from-IsValid}

module _ {ℓ} {F : Type 0} {K V : Type ℓ} (traits : Traits K V) where
  -- The copies of live nodes, and what a search through the nodes finds among them.
  pub copies_lem :
      (t : Table F K V) (list : List ℕ)
      → IsValid traits t
      → ((x : ℕ) → 0 < count x list → 0 < count x t.iteration)
      → (vs : List V) × (map (λ i. elim (t.nodes i).storage [ none ↦ none | some v ↦ some v ]) list
          ≡ map (λ v. some v) vs)
        × (length vs ≡ length list)
        × ((key : K) → first traits t.policy vs key ≡ scan traits t key list)
  unfolding first scan
  copies_lem t [] valid live = ([], refl, refl, λ key. refl)
  copies_lem t (x ∷ list) valid live =
      let (v, e) = valid.searchable.built x (live x (ground arith)) in
      let (vs, copied, size, found) = copies_lem t list valid (λ y p. live y (omega arith)) in
      (
        v ∷ vs,
        rw (e, copied) refl,
        ap suc size,
        λ key.
            let here = equal_at-some traits t x v e key in
            let turned = key_equal_symm valid.searchable.lawful (traits.key_of v) key in
            rw (here, turned, e, found key) refl,
      )

  module _ (float : FloatOps F) (memory : Memory) (granted : IsGranted memory) (buckets : ℕ)
      (small : buckets ≤ 2 ^ 22) (k : ℕ) (low : 3 ≤ k) (high : k ≤ 23) (top : 2 ^ k ≤ buckets) where
    -- The elements of a container in another one, which was empty at the start.
    pub record CopiesTo (other start t' : Table F K V) : Type ℓ where
      pub valid : IsValid traits t'
      pub shown : view traits t' ≡ view traits other
      pub policy : t'.policy ≡ other.policy
      pub size : length t'.iteration ≡ length other.iteration
      pub within : IsWithin float buckets (length other.iteration) t'
      pub growth : GrowsAll traits float start t'

    -- What a copy of a container needs: its load factor leaves room for half of the buckets and asks
    -- for no fewer buckets than elements, and its size is small beside the bounds.
    pub record IsCopyable (other : Table F K V) : Type 0 where
      pub ample : IsAmple float other.max_load_factor
      pub tight : IsTight float other.max_load_factor
      pub room : 4 * length other.iteration + 8 ≤ buckets
      pub fits : float.quotient (length other.iteration) other.max_load_factor < 2 ^ k
      pub fits_none : float.quotient 0 other.max_load_factor < 2 ^ k

    -- The elements that a search through the nodes of one container finds, inserted into another.
    pub inserted-CopiesTo :
        (other t t' : Table F K V) (vs : List V)
        → IsValid traits other
        → IsValid traits t
        → t.iteration ≡ []
        → t.policy ≡ other.policy
        → length vs ≡ length other.iteration
        → ((key : K) → first traits other.policy vs key ≡ scan traits other key other.iteration)
        → InsertsAll traits float buckets t vs 0 t'
        → CopiesTo other t t'
    unfolding view scan
    inserted-CopiesTo other t t' vs valid valid_t empty policy size found i =
        let none_there : view traits t ≡ (λ _. none) = fun_ext (λ key. rw empty refl) in
        let shown : view traits t' ≡ view traits other = fun_ext (λ key.
          ap (λ f. f key) i.shown
          ∙ with_all-first traits t.policy valid_t.searchable.lawful vs (view traits t)
              (λ a b e. ap (λ f. f a) none_there ∙ sym (ap (λ f. f b) none_there)) key
          ∙ ap (λ f. or_else (f key) (first traits t.policy vs key)) none_there
          ∙ ap (λ p. first traits p vs key) policy
          ∙ found key) in
        record {
          valid = i.valid;
          shown = shown;
          policy = i.policy ∙ policy;
          size = view-length traits other t' valid i.valid shown;
          within = rw (zero-add (length vs), size) at i.within;
          growth = i.growth;
        }

    -- The elements of a container, copied into an empty one with its policy.
    copied-CopiesTo :
        (other t : Table F K V)
        → IsValid traits other
        → IsValid traits t
        → t.iteration ≡ []
        → t.policy ≡ other.policy
        → t.max_load_factor ≡ other.max_load_factor
        → IsWithin float buckets 0 t
        → IsCopyable other
        → (t' : Table F K V) × (copy_contents_from traits float memory
              (elements (λ v. some v) other)
              t
            ≡ returned tt t')
          × CopiesTo other t t'
    copied-CopiesTo other t valid valid_t empty policy factor w c =
        let (vs, copied, size, found) = copies_lem other other.iteration valid (λ x p. p) in
        let (t', run, i) =
          copy_contents_from-InsertsAll traits float memory granted buckets small k low high top vs
            t 0 valid_t w (omega (arith, size, c.room)) (rw factor c.tight)
            (rw (size, factor) c.fits) (rw empty refl) (rw factor c.fits_none) in
        (
          t',
          ap (λ values. copy_contents_from traits float memory values t) copied ∙ run,
          inserted-CopiesTo other t t' vs valid valid_t empty policy size found i,
        )

    -- Where memory is granted and copies keep the value, for a source whose load factor leaves room
    -- for half of the buckets (IsAmple) and asks for no fewer buckets than elements (IsTight), and
    -- whose size is small beside a bound of at most 2^22 buckets (IsCopyable), copy construction
    -- from a valid container returns a valid container with the view, the policy and the size of the
    -- source, within the budget of that bound. From the empty container of the source's load factor
    -- to it there is a sequence of containers, each as an empty one is after a rehash, or with at
    -- most one element and one slot more and the array as an insertion may leave it (GrowsAll).
    pub copy_construct-view :
        (other : Table F K V)
        → IsValid traits other
        → IsCopyable other
        → (t' : Table F K V) × (copy_construct traits float memory (λ v. some v) other
            ≡ returned tt t')
          × CopiesTo other (fresh other.max_load_factor other.policy) t'
    unfolding copy_construct
    copy_construct-view other valid c =
        let start = fresh other.max_load_factor other.policy in
        copied-CopiesTo other start valid (moved_from-IsValid traits start valid.searchable.lawful)
          refl refl refl
          (record {
            ample = c.ample;
            high = omega arith;
            size = omega arith;
            count = omega arith;
            capped = omega arith;
          })
          c

    -- The policy and the load factor of an empty container, exchanged.
    pub adopt-IsValid :
        (other t : Table F K V)
        → IsValid traits other
        → IsValid traits t
        → t.iteration ≡ []
        → IsValid traits (adopt other t)
    adopt-IsValid other t valid valid_t empty =
        let nobody : (x : ℕ) → 0 < count x t.iteration → ⊥ =
          λ x p. absurd (ground (arith, ap (count x) empty)) in
        record {
          searchable = record {
            lawful = valid.searchable.lawful;
            built = valid_t.searchable.built;
            indexed = elim valid_t.searchable.indexed [
              | inl e ↦ inl e
              | inr (has, cap, h) ↦ inr (
                has,
                cap,
                Holds-congr h (hash_at traits (adopt other t)) (hash_at-lt traits (adopt other t))
                    (λ x p. absurd (nobody x p)),
              )
            ];
          };
          arena = valid_t.arena;
          raw = valid_t.raw;
          linked = valid_t.linked;
          distinct = λ x y v w a b e. absurd (nobody x a.0);
        }

    -- Where memory is granted and copies keep the value, for a source whose load factor leaves room
    -- for half of the buckets (IsAmple) and asks for no fewer buckets than elements (IsTight), and
    -- whose size is small beside a bound of at most 2^22 buckets (IsCopyable), copy assignment that
    -- keeps its allocator, to a valid container within the budget of that bound, returns a valid
    -- container with the view, the policy and the size of the source, within the budget. From an
    -- empty container with the bucket count and the capacity of the target and the load factor of
    -- the source to it there is such a sequence of containers as in copy construction (GrowsAll).
    pub copy_assign-view :
        (other t : Table F K V) (n : ℕ) (propagate equal : Bool)
        → IsValid traits other
        → IsValid traits t
        → (propagate && not equal) ≡ false
        → IsWithin float buckets n t
        → IsCopyable other
        → (start t' : Table F K V) × (copy_assign traits float memory propagate equal
              (λ v. some v)
              other
              t
            ≡ returned tt t')
          × (start.iteration ≡ [])
          × (start.bucket_count ≡ t.bucket_count)
          × (start.max_load_capacity ≡ t.max_load_capacity)
          × (start.max_load_factor ≡ other.max_load_factor)
          × CopiesTo other start t'
    unfolding copy_assign
    copy_assign-view other t n propagate equal valid valid_t kept w c =
        let (t1, run, valid1, empty, keeps, slots) = clear-IsValid traits t valid_t in
        let within1 : IsWithin float buckets 0 (adopt other t1) = record {
          ample = c.ample;
          high = omega (arith, slots);
          size = rw empty (omega arith);
          count = omega (arith, keeps.count, w.count);
          capped = omega (arith, keeps.count, keeps.capacity, w.capped);
        } in
        let (t', run', copies) =
          copied-CopiesTo other (adopt other t1) valid (adopt-IsValid other t1 valid valid1 empty)
            empty refl refl within1 c in
        (
          adopt other t1,
          t',
          ap (λ (f : Action (Table F K V) (Unit {0})). f t) (if_false _ _ kept)
              ∙ bind-returned clear
                  (λ _.
                    modify (adopt other)
                    >> copy_contents_from traits float memory (elements (λ v. some v) other))
                  t run
              ∙ run',
          empty,
          keeps.count,
          keeps.capacity,
          refl,
          copies,
        )
