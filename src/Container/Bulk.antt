-- ===== src/Container/Bulk.antt =====
-- `insert(first, last)` and `copy_contents_from`: runs of insertions.
use cpp_unordered_map.Prelude.{
  ℕ, suc, ◌+◌, ◌*◌, ◌≤◌, ◌<◌, ◌^◌, ◌≡◌, refl, ◌∙◌, ap, false, Option, some, List, [], ◌∷◌, map,
  length, ◌==◌, arith, if_false,
}
use cpp_unordered_map.Hash.{Traits, Policy}
use cpp_unordered_map.Index.{null_index}
use cpp_unordered_map.Load.{FloatOps}
use cpp_unordered_map.Outcome.{returned, bind-returned, pure, ◌>>◌}
use cpp_unordered_map.Table.{Table, Memory}
use cpp_unordered_map.Valid.{IsValid}
use cpp_unordered_map.Growth.{compute_load_capacity_ample, IsWithin, Grows-IsWithin}
use cpp_unordered_map.Engine.{emplace_impl}
use cpp_unordered_map.Engine.Reserve.{IsGranted}
use cpp_unordered_map.Engine.Emplace.{emplace_impl-Emplaces}
use cpp_unordered_map.Contents.{view}
use cpp_unordered_map.Contents.Change.{view_same}
use cpp_unordered_map.Contents.Refine.{with_new, Emplaces-view}
use cpp_unordered_map.Container.{insert_all, copy_contents_from, reserve}
use cpp_unordered_map.Container.Growing.{GrowsAll, done, step, resize}
use cpp_unordered_map.Container.Rehash.{IsTight, Rehashes, reserve-Rehashes}

last : (a : ℕ) → a + 0 ≡ a
last a = omega arith

shift : (a b : ℕ) → a + 1 + b ≡ a + suc b
shift a b = omega arith

length-map {ℓ κ} :
    {A : Type ℓ} {B : Type κ} (f : A → B) (xs : List A) → length (map f xs) ≡ length xs
length-map f [] = refl
length-map f (x ∷ xs) = ap suc (length-map f xs)

module _ {ℓ} {K V : Type ℓ} (traits : Traits K V) (policy : Policy K) where
  -- A map after elements are added one by one, each unless its key is there.
  unfoldable pub with_all : List V → (K → Option V) → K → Option V
  with_all [] f = f
  with_all (v ∷ vs) f = with_all vs (with_new traits policy v f)

module _ {ℓ} {F : Type 0} {K V : Type ℓ} (traits : Traits K V) (float : FloatOps F) where
  -- The same nodes in the same order make the same map.
  pub Rehashes-view :
      (k : ℕ) (low : 3 ≤ k) (high : k ≤ 23) (t : Table F K V) (least : ℕ) (t' : Table F K V)
      → IsValid traits t
      → Rehashes traits float k low high t least t'
      → view traits t' ≡ view traits t
  Rehashes-view k low high t least t' valid r =
      view_same traits t t' r.policy valid r.valid
        (λ x v. ((λ s. rw (r.iteration, r.nodes) at s), λ s. rw (r.iteration, r.nodes) s))

  pub Rehashes-IsWithin :
      (k : ℕ) (low : 3 ≤ k) (high : k ≤ 23) (t : Table F K V) (least : ℕ) (t' : Table F K V)
      (buckets n : ℕ)
      → Rehashes traits float k low high t least t'
      → IsWithin float buckets n t
      → 2 ^ k ≤ buckets
      → IsWithin float buckets n t'
  Rehashes-IsWithin k low high t least t' buckets n r w room =
      let cap = compute_load_capacity_ample float t.max_load_factor t'.bucket_count w.ample in
      record {
        ample = rw r.factor w.ample;
        high = omega (arith, r.high, w.high);
        size = rw r.iteration w.size;
        count = ground (arith, r.shape, w.count);
        capped = ground (arith, r.shape, w.capped, cap);
      }

  -- What a run of insertions leaves, and the budget it keeps.
  pub record InsertsAll (buckets : ℕ) (t : Table F K V) (vs : List V) (n : ℕ) (t' : Table F K V)
      : Type ℓ where
    pub valid : IsValid traits t'
    pub shown : view traits t' ≡ with_all traits t.policy vs (view traits t)
    pub policy : t'.policy ≡ t.policy
    pub growth : GrowsAll traits float t t'
    pub within : IsWithin float buckets (n + length vs) t'

  module _ (memory : Memory) (granted : IsGranted memory) (buckets : ℕ)
      (small : buckets ≤ 2 ^ 22) where
    -- Where memory is granted, on a valid container within a budget of steps that bounds its buckets
    -- by 2^22, and a load factor that leaves room for half of the buckets, inserting a range of
    -- values returns a valid container. Its view is that of inserting them one by one into the view;
    -- it is within the budget with one step more for each value.
    pub insert_all-InsertsAll :
        (vs : List V) (t : Table F K V) (n : ℕ)
        → IsValid traits t
        → IsWithin float buckets n t
        → 4 * (n + length vs) + 8 ≤ buckets
        → (t' : Table F K V) × (insert_all traits float memory (map (λ v. some v) vs) t
            ≡ returned tt t')
          × InsertsAll buckets t vs n t'
    unfolding insert_all with_all
    insert_all-InsertsAll [] t n valid w room = (
      t,
      refl,
      record { valid = valid; shown = refl; policy = refl; growth = done; within = rw (last n) w },
    )
    insert_all-InsertsAll (v ∷ vs) t n valid w room =
        let below : t.arena_high_water < null_index = omega (arith, w.high) in
        let few : t.bucket_count ≤ 2 ^ 22 = omega (arith, w.count) in
        let (r, t1, run, e) =
          emplace_impl-Emplaces traits float memory granted t v valid below few in
        let (shown, _) = Emplaces-view traits float t t1 v r valid e in
        let w1 = Grows-IsWithin float buckets n w (omega arith) e.growth in
        let (t', run', i) = insert_all-InsertsAll vs t1 (n + 1) e.valid w1 (omega arith) in
        (
          t',
          bind-returned (emplace_impl traits float memory (some v))
                (λ _. insert_all traits float memory (map (λ v. some v) vs)) t run
              ∙ run',
          record {
            valid = i.valid;
            shown =
                i.shown
                ∙ ap (λ p. with_all traits p vs (view traits t1)) e.growth.policy
                ∙ ap (with_all traits t.policy vs) shown;
            policy = i.policy ∙ e.growth.policy;
            growth = step e.growth i.growth;
            within = rw (shift n (length vs)) at i.within;
          },
        )

    -- An empty container, resized for the values before they are inserted.
    pub reserve_insert_all-InsertsAll :
        (k : ℕ) (low : 3 ≤ k) (high : k ≤ 23)
        → 2 ^ k ≤ buckets
        → (vs : List V) (t : Table F K V) (n : ℕ) → IsValid traits t
        → IsWithin float buckets n t
        → 4 * (n + length vs) + 8 ≤ buckets
        → IsTight float t.max_load_factor
        → float.quotient (length vs) t.max_load_factor < 2 ^ k
        → length t.iteration ≡ 0
        → float.quotient 0 t.max_load_factor < 2 ^ k
        → (t' : Table F K V) × ((reserve traits float memory (length vs)
                >> insert_all traits float memory (map (λ v. some v) vs))
              t
            ≡ returned tt t')
          × InsertsAll buckets t vs n t'
    reserve_insert_all-InsertsAll k low high top vs t n valid w room tight q empty q' =
        let (t1, run, r) =
          reserve-Rehashes traits float k low high memory granted t (length vs) valid tight q
            (rw empty q') in
        let w1 = Rehashes-IsWithin k low high t (length vs) t1 buckets n r w top in
        let (t', run', i) = insert_all-InsertsAll vs t1 n r.valid w1 room in
        (
          t',
          bind-returned (reserve traits float memory (length vs))
                (λ _. insert_all traits float memory (map (λ v. some v) vs)) t run
              ∙ run',
          record {
            valid = i.valid;
            shown =
                i.shown
                ∙ ap (λ p. with_all traits p vs (view traits t1)) r.policy
                ∙ ap (with_all traits t.policy vs)
                    (Rehashes-view k low high t (length vs) t1 valid r);
            policy = i.policy ∙ r.policy;
            growth = resize k low high (length vs) r empty i.growth;
            within = i.within;
          },
        )

    pub copy_contents_from-InsertsAll :
        (k : ℕ) (low : 3 ≤ k) (high : k ≤ 23)
        → 2 ^ k ≤ buckets
        → (vs : List V) (t : Table F K V) (n : ℕ) → IsValid traits t
        → IsWithin float buckets n t
        → 4 * (n + length vs) + 8 ≤ buckets
        → IsTight float t.max_load_factor
        → float.quotient (length vs) t.max_load_factor < 2 ^ k
        → length t.iteration ≡ 0
        → float.quotient 0 t.max_load_factor < 2 ^ k
        → (t' : Table F K V) × (copy_contents_from traits float memory (map (λ v. some v) vs) t
            ≡ returned tt t')
          × InsertsAll buckets t vs n t'
    unfolding copy_contents_from
    copy_contents_from-InsertsAll k low high top [] t n valid w room tight q empty q' =
        insert_all-InsertsAll [] t n valid w room
    copy_contents_from-InsertsAll k low high top (v ∷ vs) t n valid w room tight q empty q' =
        let all = v ∷ vs in
        let values = map (λ v. some v) all in
        let size : length values ≡ length all = length-map (λ (v : V). some v) all in
        let some_there : (length values == 0) ≡ false = ground (arith, size) in
        let (t', run, i) =
          reserve_insert_all-InsertsAll k low high top all t n valid w room tight q empty q' in
        (
          t',
          ap (λ f. f t)
                (if_false (pure tt)
                  (reserve traits float memory (length values)
                    >> insert_all traits float memory values)
                  some_there)
              ∙ ap (λ n. (reserve traits float memory n >> insert_all traits float memory values) t)
                  size
              ∙ run,
          i,
        )
