-- ===== src/Handles/Extract.antt =====
-- `extract` of a key or an iterator, and `insert` of a node handle.
use cpp_unordered_map.Prelude.{
  to_nat, length, ℕ, ◌+◌, ◌≤◌, ◌<◌, ◌^◌, ◌≡◌, ◌⊎◌, ◌↔◌, refl, sym, ◌∙◌, ap, inl, inr, Bool, true,
  false, ◌&&◌, Option, some, none, ltb, ◌==◌, if◌then◌else◌, arith, if_true, if_false,
}
use mathlib.Core.Path.{subst}
use cpp_unordered_map.Hash.{Traits}
use cpp_unordered_map.Index.{null_index}
use cpp_unordered_map.Load.{FloatOps}
use cpp_unordered_map.Outcome.{
  Action, returned, threw, bind-returned, pure, read, require, throw, ◌>>=◌, ◌>>◌,
}
use cpp_unordered_map.Table.{Table, Memory, construct_value}
use cpp_unordered_map.Valid.{IsValid, Stores}
use cpp_unordered_map.Growth.{Grows, Keeps-refl, Keeps-Grows}
use cpp_unordered_map.Engine.{find_key, node_of_bucket, erase_located}
use cpp_unordered_map.Engine.Lookup.{Located, IsAbsent, find_key-FindsKey}
use cpp_unordered_map.Engine.Remove.{Removes, erase_located-Removes}
use cpp_unordered_map.Engine.Reserve.{IsGranted}
use cpp_unordered_map.Engine.Emplace.{HoldsKey}
use cpp_unordered_map.Engine.Add.{add_new, add_new-Adds}
use cpp_unordered_map.Engine.OnKey.{on_key-cases}
use cpp_unordered_map.Container.{locate}
use cpp_unordered_map.Container.Locate.{locate-Located}
use cpp_unordered_map.Handles.{
  extract_located, extract_key, extract_at, insert_handle, insert_moved, InsertReturn,
}

module _ {ℓ} {F : Type 0} {K V : Type ℓ} (traits : Traits K V) (transfer : V → Option V) where
  -- What `extract_located` does on a bucket that a search found.
  module _ (t : Table F K V) (valid : IsValid traits t) (key : K) (r : ℕ)
      (l : Located traits t key r) where
    abbrev m : ℕ
    m = (t.index.buckets r).node_index

    held_node : node_of_bucket r t ≡ returned m t
    unfolding node_of_bucket
    held_node =
        let inside : t.has_buckets && ltb r t.bucket_count ≡ true =
          ground (arith, l.inside, l.present) in
        if_true _ _ inside

    abbrev moving : Bool → Option V → Action (Table F K V) (Option V)
    moving granted o =
        if granted
        then elim o as (λ _. Action (Table F K V) (Option V)) [
          | none ↦ throw
          | some standalone ↦ erase_located r >> pure (some standalone)
        ]
        else throw

    extract_start :
        (granted : Bool)
        → extract_located traits transfer granted r t ≡ moving granted (transfer l.value) t
    unfolding extract_located
    extract_start granted =
        let rest : V → Action (Table F K V) (Option V) = λ v. moving granted (transfer v) in
        bind-returned (node_of_bucket r)
          (λ n. (read (λ t. (t.nodes n).storage) >>= require) >>= rest) t held_node
        ∙ ap (λ o. (require o >>= rest) t) l.stored.1

    -- The stand-alone value is made before anything changes: where it is not, nothing does.
    pub extract_located-threw :
        (granted : Bool)
        → (granted ≡ false) ⊎ (transfer l.value ≡ none)
        → extract_located traits transfer granted r t ≡ threw t
    extract_located-threw granted why =
        extract_start granted
        ∙ elim why [ inl e ↦ rw e refl | inr e ↦ ap (λ o. moving granted o t) e ∙ both granted ]
      where
        both : (b : Bool) → moving b none t ≡ threw t
        both true = refl
        both false = refl

    pub extract_located-Removes :
        (w : V)
        → transfer l.value ≡ some w
        → (t' : Table F K V) × (extract_located traits transfer true r t ≡ returned (some w) t')
          × Removes traits t m t'
    extract_located-Removes w made =
        let (t', run, p) = erase_located-Removes traits t key r valid l in
        (
          t',
          extract_start true
              ∙ ap (λ o. moving true o t) made
              ∙ bind-returned (erase_located r) (λ _. pure (some w)) t run,
          p,
        )

  pub extract_key-cases :
      (t : Table F K V) (key : K)
      → IsValid traits t
      → ((v : V) → (w : V) × (transfer v ≡ some w))
      → ((x : ℕ) × (v : V) × (t' : Table F K V) × (extract_key traits transfer true key t
            ≡ returned (transfer v) t')
          × Stores t x v
          × (t.policy.key_equal key (traits.key_of v) ≡ true)
          × Removes traits t x t')
        ⊎ (extract_key traits transfer true key t ≡ returned none t) × IsAbsent traits t key
  unfolding extract_key
  extract_key-cases t key valid total =
      let (r, run, finds) = find_key-FindsKey traits valid.searchable key in
      let decide : ℕ → Action (Table F K V) (Option V) = λ r.
        read (λ t. r == t.bucket_count)
        >>= (λ absent. if absent then pure none else extract_located traits transfer true r) in
      let start = bind-returned (find_key traits key) decide t run in
      elim finds [
        | inl l ↦
            let present : (r == t.bucket_count) ≡ false = ground (arith, l.inside) in
            let (w, made) = total l.value in
            let (t', run', p) = extract_located-Removes t valid key r l w made in
            inl (
              (t.index.buckets r).node_index,
              l.value,
              t',
              start
                  ∙ ap (λ f. f t)
                      (if_false (pure none) (extract_located traits transfer true r) present)
                  ∙ run'
                  ∙ ap (λ o. returned o t') (sym made),
              l.stored,
              l.equal,
              p,
            )
        | inr (e, absent) ↦
            let missing : (r == t.bucket_count) ≡ true = ground (arith, e) in
            inr (
              start
                  ∙ ap (λ f. f t)
                      (if_true (pure none) (extract_located traits transfer true r) missing),
              absent,
            )
      ]

  -- `extract(const_iterator)` of a live node.
  pub extract_at-Removes :
      (t : Table F K V)
      → IsValid traits t
      → (x : ℕ) (v w : V) → Stores t x v
      → transfer v ≡ some w
      → (t' : Table F K V) × (extract_at traits transfer true x t ≡ returned (some w) t')
        × Removes traits t x t'
  unfolding extract_at
  extract_at-Removes t valid x v w st made =
      let (r, found, l, same) = locate-Located traits t valid x v st in
      let value : some l.value ≡ some v =
        sym l.stored.1 ∙ ap (λ k. (t.nodes k).storage) same ∙ st.1 in
      let made' : transfer l.value ≡ some w =
        ap (λ (o : Option V). elim o [ none ↦ transfer v | some u ↦ transfer u ]) value ∙ made in
      let (t', run, p) = extract_located-Removes t valid (traits.key_of v) r l w made' in
      (
        t',
        bind-returned (locate traits x) (extract_located traits transfer true) t found ∙ run,
        subst (λ m. Removes traits t m t') same p,
      )

  -- What `insert(node_type&&)` reports and leaves, for a handle with the element `v`, of which the
  -- move makes `w`: either the key was absent, `w` is added, and the handle is empty; or the key was
  -- there, nothing changes, and the handle comes back.
  pub record InsertsHandle (float : FloatOps F) (t : Table F K V) (v w : V) (r : InsertReturn V)
      (t' : Table F K V) : Type ℓ where
    pub valid : IsValid traits t'
    pub growth : Grows float t t'
    pub grows : length t'.iteration ≡ length t.iteration + to_nat r.inserted
    pub outcome :
        (r.inserted ≡ true)
          × (r.node ≡ none)
          × IsAbsent traits t (traits.key_of v)
          × ((x : ℕ) (u : V) → Stores t' x u ↔ Stores t x u ⊎ (x ≡ r.position) × (u ≡ w))
        ⊎ (r.inserted ≡ false)
          × (r.node ≡ some v)
          × HoldsKey traits t (traits.key_of v) r.position
          × ((x : ℕ) (u : V) → Stores t' x u ↔ Stores t x u)

  -- Where memory is granted and the container is valid, with its arena below the largest size and at
  -- most 2^22 buckets, and the move makes a value with the same key, inserting a handle that owns a
  -- value returns a valid container. Either the key was absent, the value is stored at the returned
  -- position beside the others, and the handle is empty; or an element with an equal key is at the
  -- returned position, the same elements are stored, and the handle comes back with its value. The
  -- number of elements grows by one exactly if the insertion is reported.
  pub insert_handle-InsertsHandle :
      (float : FloatOps F) (memory : Memory)
      → IsGranted memory
      → (t : Table F K V) (v w : V) → IsValid traits t
      → t.arena_high_water < null_index
      → t.bucket_count ≤ 2 ^ 22
      → transfer v ≡ some w
      → traits.key_of w ≡ traits.key_of v
      → (r : InsertReturn V) × (t' : Table F K V) × (insert_handle traits transfer float memory
            (some v)
            t
          ≡ returned r t')
        × InsertsHandle float t v w r t'
  unfolding insert_handle insert_moved node_of_bucket
  insert_handle-InsertsHandle float memory granted t v w valid below small made key_same =
      let back : ℕ → InsertReturn V =
        λ x. record { position = x; inserted = false; node = some v } in
      let gone : ℕ → InsertReturn V = λ x. record { position = x; inserted = true; node = none } in
      let found : ℕ → Action (Table F K V) (InsertReturn V) = λ x. pure (back x) in
      let missing : Action (Table F K V) (InsertReturn V) =
        add_new traits float memory (λ i. pure (gone i)) (λ i. construct_value i (transfer v)) in
      elim (on_key-cases traits (traits.key_of v) found missing t valid) [
        | inl (x, run, h) ↦ (
          back x,
          t,
          run,
          record {
            valid = valid;
            growth = Keeps-Grows float (Keeps-refl t);
            grows = omega arith;
            outcome = inr (refl, refl, h, λ x u. ((λ s. s), λ s. s));
          },
        )
        | inr (run, absent) ↦
            let (s, t', run', a) =
              add_new-Adds traits float memory gone granted t w valid below small
                (rw key_same absent) in
            (
              gone s,
              t',
              run
                  ∙ ap
                      (λ o.
                        add_new traits float memory (λ i. pure (gone i)) (λ i. construct_value i o)
                          t)
                      made
                  ∙ run',
              record {
                valid = a.valid;
                growth = a.growth;
                grows = omega (arith, a.grows);
                outcome = inl (refl, refl, absent, a.stores);
              },
            )
      ]
