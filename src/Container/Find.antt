-- ===== src/Container/Find.antt =====
-- `find`, `contains`, `count` and `equal_range`, against the abstract view.
use cpp_unordered_map.Prelude.{
  ℕ, ◌≡◌, ◌≢◌, ◌⊎◌, refl, ◌∙◌, ap, inl, inr, true, false, not, ◌&&◌, Option, some, none, ltb, ◌==◌,
  if◌then◌else◌, arith, if_true, if_false,
}
use cpp_unordered_map.Hash.{Traits}
use cpp_unordered_map.Index.{null_index}
use cpp_unordered_map.Outcome.{Action, returned, bind-returned, pure, read, ◌>>=◌}
use cpp_unordered_map.Table.{Table}
use cpp_unordered_map.Valid.{IsValid, Stores}
use cpp_unordered_map.Arena.{owned-lt}
use cpp_unordered_map.Engine.{find_key, node_of_bucket}
use cpp_unordered_map.Engine.Lookup.{IsAbsent, find_key-FindsKey}
use cpp_unordered_map.Container.{find, contains, count_key}
use cpp_unordered_map.Contents.{has_some, view, view-eq_of_Maps}

module _ {ℓ} {F : Type 0} {K V : Type ℓ} where
  -- A function of a bucket index and the bucket count, read after a search.
  module _ (traits : Traits K V) (t : Table F K V) (valid : IsValid traits t) (key : K) where
    live-ne_null : (x : ℕ) (v : V) → Stores t x v → x ≢ null_index
    live-ne_null x v st e =
        absurd (omega (arith, owned-lt valid.arena x st.0, valid.arena.small, e))

    -- A search returns a bucket exactly where the view has an element.
    search_view :
        (r : ℕ) × (find_key traits key t ≡ returned r t)
        × (((r == t.bucket_count) ≡ false) × ((v : V) × (view traits t key ≡ some v))
            ⊎ ((r == t.bucket_count) ≡ true) × (view traits t key ≡ none))
    search_view =
        let (r, run, finds) = find_key-FindsKey traits valid.searchable key in
        (
          r,
          run,
          elim finds [
            | inl l ↦ inl (
              ground (arith, l.inside),
              (
                l.value,
                view-eq_of_Maps traits t key (some l.value) valid
                    ((t.index.buckets r).node_index, l.stored, l.equal),
              ),
            )
            | inr (e, absent) ↦
                inr (ground (arith, e), view-eq_of_Maps traits t key none valid absent)
          ],
        )

    -- On a valid container `contains` returns, changes nothing, and says whether the view of the
    -- container has an element at the key.
    pub contains-view : contains traits key t ≡ returned (has_some (view traits t key)) t
    unfolding contains
    contains-view =
        let (r, run, cases) = search_view in
        bind-returned (find_key traits key) (λ r. read (λ t. not (r == t.bucket_count))) t run
        ∙ elim cases [
          | inl (e, (v, shown)) ↦ rw (e, shown) refl
          | inr (e, shown) ↦ rw (e, shown) refl
        ]

    pub count_key-view :
        count_key traits key t ≡ returned (if has_some (view traits t key) then 1 else 0) t
    unfolding count_key
    count_key-view =
        let (r, run, cases) = search_view in
        bind-returned (find_key traits key) (λ r. read (λ t. if r == t.bucket_count then 0 else 1))
          t run
        ∙ elim cases [
          | inl (e, (v, shown)) ↦ rw (e, shown) refl
          | inr (e, shown) ↦ rw (e, shown) refl
        ]

    -- A node that holds the element of the view, or the end where there is none.
    abbrev pub PointsTo : ℕ → Option V → Type ℓ
    PointsTo x none = (x ≡ null_index) × IsAbsent traits t key
    PointsTo x (some v) =
        (x ≢ null_index) × Stores t x v × (t.policy.key_equal key (traits.key_of v) ≡ true)

    -- On a valid container `find` returns and changes nothing. Where the view of the container has
    -- an element at the key, the result is a node that stores that element, and not the end; where
    -- it has none, the result is the end, and no stored element has an equal key.
    pub find-PointsTo :
        (x : ℕ) × (find traits key t ≡ returned x t) × PointsTo x (view traits t key)
    unfolding find node_of_bucket
    find-PointsTo =
        let (r, run, finds) = find_key-FindsKey traits valid.searchable key in
        let decide : ℕ → Action (Table F K V) ℕ = λ bucket_index.
          read (λ t. bucket_index == t.bucket_count)
          >>= (λ absent. if absent then pure null_index else node_of_bucket bucket_index) in
        let start = bind-returned (find_key traits key) decide t run in
        elim finds [
          | inl l ↦
              let m = (t.index.buckets r).node_index in
              let present : (r == t.bucket_count) ≡ false = ground (arith, l.inside) in
              let inside : t.has_buckets && ltb r t.bucket_count ≡ true =
                ground (arith, l.inside, l.present) in
              let shown =
                view-eq_of_Maps traits t key (some l.value) valid (m, l.stored, l.equal) in
              (
                m,
                start
                    ∙ ap (λ f. f t) (if_false (pure null_index) (node_of_bucket r) present)
                    ∙ if_true _ _ inside,
                rw shown (live-ne_null m l.value l.stored, l.stored, l.equal),
              )
          | inr (e, absent) ↦
              let missing : (r == t.bucket_count) ≡ true = ground (arith, e) in
              let shown = view-eq_of_Maps traits t key none valid absent in
              (
                null_index,
                start ∙ ap (λ f. f t) (if_true (pure null_index) (node_of_bucket r) missing),
                rw shown (refl, absent),
              )
        ]

    -- `find` by cases: the end and nothing in the view, or a node with the element.
    pub find-cases :
        (x : ℕ) × (find traits key t ≡ returned x t)
        × (((x == null_index) ≡ true) × (view traits t key ≡ none)
            ⊎ ((x == null_index) ≡ false)
              × ((v : V) × (view traits t key ≡ some v)
                  × Stores t x v
                  × (t.policy.key_equal key (traits.key_of v) ≡ true)))
    find-cases = let (x, run, p) = find-PointsTo in (x, run, split x (view traits t key) p)
      where
        split :
            (x : ℕ) (o : Option V)
            → PointsTo x o
            → ((x == null_index) ≡ true) × (o ≡ none)
              ⊎ ((x == null_index) ≡ false)
                × ((v : V) × (o ≡ some v)
                    × Stores t x v
                    × (t.policy.key_equal key (traits.key_of v) ≡ true))
        split x none (e, _) = inl (ground (arith, e), refl)
        split x (some v) (ne, st, same) = inr (ground arith, (v, refl, st, same))
