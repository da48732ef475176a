-- ===== src/Container/Locate.antt =====
-- `locate`, `erase(iterator)` and the loop of `erase(first, last)`.
use cpp_unordered_map.Prelude.{
  ℕ, ◌+◌, ◌≤◌, ◌<◌, ◌≡◌, ◌↔◌, refl, ◌∙◌, ap, inl, inr, some, none, List, [], ◌∷◌, length, count,
  arith,
}
use mathlib.Core.Path.{subst}
use cpp_unordered_map.Hash.{Traits}
use cpp_unordered_map.Outcome.{Action, returned, bind-returned, read, require, ◌>>=◌, ◌>>◌}
use cpp_unordered_map.Table.{Table}
use cpp_unordered_map.Valid.{IsValid, Stores}
use cpp_unordered_map.Growth.{Keeps, Keeps-refl}
use cpp_unordered_map.Engine.{key_at, find_key, erase_located}
use cpp_unordered_map.Engine.Lookup.{Located, find_key-FindsKey}
use cpp_unordered_map.Engine.Remove.{Removes, erase_located-Removes}
use cpp_unordered_map.Iterator.{element_at}
use cpp_unordered_map.Container.{locate, erase_at, erase_each}

module _ {ℓ} {F : Type 0} {K V : Type ℓ} (traits : Traits K V) where
  -- The search for the key of a live node finds that node.
  pub locate-Located :
      (t : Table F K V)
      → IsValid traits t
      → (x : ℕ) (v : V) → Stores t x v
      → (r : ℕ) × (locate traits x t ≡ returned r t)
        × Located traits t (traits.key_of v) r
        × ((t.index.buckets r).node_index ≡ x)
  unfolding locate
  locate-Located t valid x v st =
      let key = traits.key_of v in
      let (r, run, finds) = find_key-FindsKey traits valid.searchable key in
      let whole =
        bind-returned (read (λ t. key_at traits t x) >>= require) (find_key traits) t
          (ap (λ o. require (elim o [ none ↦ none | some w ↦ some (traits.key_of w) ]) t) st.1)
        ∙ run in
      elim finds [
        | inl l ↦
            let lawful = valid.searchable.lawful in
            (
              r,
              whole,
              l,
              valid.distinct (t.index.buckets r).node_index x l.value v l.stored st
                  (lawful.equal_symm key (traits.key_of l.value) l.equal),
            )
        | inr (_, absent) ↦
            absurd (ground (arith, absent x v st, valid.searchable.lawful.equal_refl key))
      ]

  -- The key of a live node, found and erased, takes out that node.
  pub locate_erase-Removes :
      (t : Table F K V)
      → IsValid traits t
      → (x : ℕ) (v : V) → Stores t x v
      → (r : ℕ) × (t' : Table F K V) × (locate traits x t ≡ returned r t)
        × (erase_located r t ≡ returned tt t')
        × Removes traits t x t'
  locate_erase-Removes t valid x v st =
      let (r, found, l, same) = locate-Located t valid x v st in
      let (t', run, p) = erase_located-Removes traits t (traits.key_of v) r valid l in
      (r, t', found, run, subst (λ m. Removes traits t m t') same p)

  -- On a valid container, erasing the iterator of a live node returns the node that is then at the
  -- erased position, or the end. The container stays valid, loses that node and no other, has the
  -- last live node moved to the gap, and keeps its bucket count, capacity, policy, load factor and
  -- slots.
  pub erase_at-Removes :
      (t : Table F K V)
      → IsValid traits t
      → (x : ℕ) (v : V) → Stores t x v
      → (t' : Table F K V) × (erase_at traits x t ≡ returned (element_at t' (t.nodes x).aux) t')
        × Removes traits t x t'
  unfolding erase_at
  erase_at-Removes t valid x v st =
      let (r, t', found, run, p) = locate_erase-Removes t valid x v st in
      let finish : ℕ → Action (Table F K V) ℕ = λ position. read (λ t. element_at t position) in
      let rest : ℕ → Action (Table F K V) ℕ =
        λ r. read (λ t. (t.nodes x).aux) >>= (λ position. erase_located r >> finish position) in
      (
        t',
        bind-returned (locate traits x) rest t found
            ∙ bind-returned (erase_located r) (λ _. finish (t.nodes x).aux) t run,
        p,
      )

  -- The container without the elements of some live nodes.
  pub record RemovesAll (t : Table F K V) (doomed : List ℕ) (t' : Table F K V) : Type ℓ where
    pub valid : IsValid traits t'
    pub shrinks : length t'.iteration + length doomed ≡ length t.iteration
    pub keeps : (x : ℕ) (v : V) → Stores t' x v ↔ Stores t x v × (count x doomed ≡ 0)
    pub kept : Keeps t t'
    pub slots : t'.arena_high_water ≡ t.arena_high_water

  Removes-RemovesAll :
      {t t1 t' : Table F K V} (x : ℕ) (doomed : List ℕ)
      → Removes traits t x t1
      → RemovesAll t1 doomed t'
      → count x doomed ≡ 0
      → RemovesAll t (x ∷ doomed) t'
  Removes-RemovesAll x doomed p q fresh = record {
    valid = q.valid;
    shrinks = omega (arith, q.shrinks, p.shrinks);
    keeps = λ y w. (
      (λ s.
          let (a, none_left) = (q.keeps y w).0 s in
          let (b, apart) = (p.keeps y w).0 a in (b, ground arith)),
      λ s.
          (q.keeps y w).1
            ((p.keeps y w).1 (s.0, λ same. absurd (ground (arith, s.1, same))), omega (arith, s.1)),
    );
    kept = record {
      policy = q.kept.policy ∙ p.kept.policy;
      factor = q.kept.factor ∙ p.kept.factor;
      high = omega (arith, q.slots, p.slots);
      size = omega (arith, q.shrinks, p.shrinks);
      count = q.kept.count ∙ p.kept.count;
      capacity = q.kept.capacity ∙ p.kept.capacity;
    };
    slots = q.slots ∙ p.slots;
  }

  -- Nodes that are live and listed once each.
  pub erase_each-RemovesAll :
      (doomed : List ℕ) (t : Table F K V)
      → IsValid traits t
      → ((x : ℕ) → 0 < count x doomed → 0 < count x t.iteration)
      → ((x : ℕ) → count x doomed ≤ 1)
      → (t' : Table F K V) × (erase_each traits doomed t ≡ returned tt t') × RemovesAll t doomed t'
  unfolding erase_each
  erase_each-RemovesAll [] t valid live once = (
    t,
    refl,
    record {
      valid = valid;
      shrinks = omega arith;
      keeps = λ x v. ((λ s. (s, refl)), λ s. s.0);
      kept = Keeps-refl t;
      slots = refl;
    },
  )
  erase_each-RemovesAll (x ∷ doomed) t valid live once =
      let (v, e) = valid.searchable.built x (live x (ground arith)) in
      let (r, t1, found, run, p) = locate_erase-Removes t valid x v (live x (ground arith), e) in
      let still : (y : ℕ) → 0 < count y doomed → 0 < count y t1.iteration = λ y q.
        let (w, e') = valid.searchable.built y (live y (omega arith)) in
        ((p.keeps y w).1
          ((live y (omega arith), e'), λ same. absurd (ground (arith, once y, same)))).0 in
      let (t', run', q) =
        erase_each-RemovesAll doomed t1 p.valid still (λ y. omega (arith, once y)) in
      (
        t',
        bind-returned (locate traits x) (λ r. erase_located r >> erase_each traits doomed) t found
            ∙ bind-returned (erase_located r) (λ _. erase_each traits doomed) t run
            ∙ run',
        Removes-RemovesAll x doomed p q (ground (arith, once x)),
      )
