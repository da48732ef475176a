-- ===== src/Engine/Failing.antt =====
-- `emplace_impl` of an absent key where the larger bucket array cannot be allocated.
use cpp_unordered_map.Prelude.{
  ℕ, ◌+◌, ◌*◌, ◌≤◌, ◌<◌, ◌≡◌, ◌↔◌, refl, ◌∙◌, ap, inl, inr, Bool, true, false, some, none, length,
  ltb, ◌==◌, if◌then◌else◌, arith, if_true, if_false,
}
use cpp_unordered_map.Hash.{Traits}
use cpp_unordered_map.Index.{null_index}
use cpp_unordered_map.Load.{FloatOps}
use cpp_unordered_map.Outcome.{
  Action, threw, undefined, bind-returned, bind-threw, rethrowing, rethrowing-threw, read, require,
  pure, ◌>>=◌, ◌>>◌,
}
use cpp_unordered_map.Table.{
  Table, Memory, acquire_node, destroy_value, release_node, construct_value, link_into_iteration,
}
use cpp_unordered_map.Valid.{IsValid, Stores, ArenaOf}
use cpp_unordered_map.Arena.{Acquires, acquire_node-Acquires}
use cpp_unordered_map.Engine.{
  key_at, find_key, node_of_bucket, reserve_for_one_more, commit_node, insert_known_absent,
  emplace_impl,
}
use cpp_unordered_map.Engine.Lookup.{IsAbsent, find_key-FindsKey}
use cpp_unordered_map.Engine.Rehash.{rehash_to-failure}
use cpp_unordered_map.Engine.Pending.{
  held, Stores-held, held-IsPending, dropped, Stores-dropped, dropped-IsValid,
}

module _ {ℓ} {F : Type 0} {K V : Type ℓ} (traits : Traits K V) where
  -- The elements and the slots are as they were, and every lookup reads through a null pointer.
  pub record IsBroken (t t' : Table F K V) : Type ℓ where
    pub stores : (x : ℕ) (w : V) → Stores t' x w ↔ Stores t x w
    pub iteration : t'.iteration ≡ t.iteration
    pub arena : ArenaOf t' t'.iteration
    pub count : t'.bucket_count ≡ t.bucket_count
    pub lookup : (key : K) → find_key traits key t' ≡ undefined

  module _ (float : FloatOps F) (memory : Memory) (t : Table F K V) (valid : IsValid traits t)
      (v : V) (some_buckets : 0 < t.bucket_count) (full : t.max_load_capacity ≤ length t.iteration)
      (denied : memory.bucket_array (t.bucket_count * 2) ≡ false) where
    module _ (a : Acquires memory t t.iteration) where
      abbrev h : Table F K V
      h = held traits memory t valid a v

      -- What the handler leaves.
      abbrev broken : Table F K V
      broken = record (dropped traits memory t valid a v) { has_buckets = false }

      reserve_for_one_more-threw :
          reserve_for_one_more traits float memory h ≡ threw (record h { has_buckets = false })
      unfolding reserve_for_one_more
      reserve_for_one_more-threw =
          let some_there : (h.bucket_count == 0) ≡ false = ground (arith, some_buckets) in
          let over : ltb h.max_load_capacity (length h.iteration + 1) ≡ true =
            ground (arith, full) in
          rw (some_there, over)
            (rehash_to-failure traits float memory h (t.bucket_count * 2) denied)

      commit_node-threw : commit_node traits float memory a.slot h ≡ threw broken
      unfolding commit_node destroy_value release_node
      commit_node-threw =
          let make_room : Action (Table F K V) (Unit {0}) =
            reserve_for_one_more traits float memory >> link_into_iteration memory a.slot in
          let handler : Action (Table F K V) (Unit {0}) =
            destroy_value a.slot >> release_node a.slot in
          bind-threw (rethrowing make_room handler) (λ _. insert_known_absent traits a.slot) h
            (rethrowing-threw make_room handler h
              (bind-threw (reserve_for_one_more traits float memory)
                (λ _. link_into_iteration memory a.slot) h reserve_for_one_more-threw)
              refl)

      broken-IsBroken : IsBroken t broken
      unfolding find_key
      broken-IsBroken = record {
        stores = Stores-dropped traits memory t valid a v;
        iteration = refl;
        arena = (dropped-IsValid traits memory t valid a v).arena;
        count = refl;
        lookup = λ key. if_false {b = broken.bucket_count == 0} _ _ (ground (arith, some_buckets));
      }

      emplace_broken :
          IsAbsent traits t (traits.key_of v)
          → emplace_impl traits float memory (some v) t ≡ threw broken
      unfolding emplace_impl acquire_node construct_value
      emplace_broken absent =
          let s = a.slot in
          let p = held-IsPending traits memory t valid a v in
          let inserted : Action (Table F K V) (ℕ × Bool) =
            commit_node traits float memory s >>= (λ _. pure (s, true)) in
          let found : ℕ → Action (Table F K V) (ℕ × Bool) = λ existing.
            node_of_bucket existing
            >>= (λ m. destroy_value s >> (release_node s >> pure (m, false))) in
          let decide : ℕ → Action (Table F K V) (ℕ × Bool) = λ existing.
            read (λ t. existing == t.bucket_count)
            >>= (λ absent. if absent then inserted else found existing) in
          let search : K → Action (Table F K V) (ℕ × Bool) =
            λ key. find_key traits key >>= decide in
          let (r, run, finds) = find_key-FindsKey traits p.searchable (traits.key_of v) in
          let start : emplace_impl traits float memory (some v) t ≡ decide r h =
            bind-returned (acquire_node memory) _ t a.run
            ∙ bind-returned (read (λ t. key_at traits t s) >>= require) search h (
                ap (λ o. require (elim o [ none ↦ none | some w ↦ some (traits.key_of w) ]) h)
                  p.value)
            ∙ bind-returned (find_key traits (traits.key_of v)) decide h run in
          elim finds [
            | inl l ↦
                let m = (h.index.buckets r).node_index in
                let old = (Stores-held traits memory t valid a v m l.value).0 l.stored in
                absurd (ground (arith, absent m l.value old, l.equal))
            | inr (e, _) ↦
                let missing : (r == h.bucket_count) ≡ true = ground (arith, e) in
                start
                ∙ ap (λ f. f h) (if_true inserted (found r) missing)
                ∙ bind-threw (commit_node traits float memory s) (λ _. pure (s, true)) h
                    commit_node-threw
          ]

    -- On a valid container with a bucket array that is full, with its arena below the largest size,
    -- a chunk granted and the array of twice the buckets denied, `emplace_impl` of an absent key
    -- throws. The same elements are then at the same nodes, each slot is still owned or free, and
    -- the bucket count is as it was; but the behaviour of every search for a key is undefined.
    pub find_key-emplace_impl :
        t.arena_high_water < null_index
        → memory.chunk t.chunks ≡ true
        → IsAbsent traits t (traits.key_of v)
        → (t' : Table F K V) × (emplace_impl traits float memory (some v) t ≡ threw t')
          × IsBroken t t'
    find_key-emplace_impl below chunk absent =
        elim (acquire_node-Acquires memory t t.iteration valid.arena below) [
          | inl a ↦ (broken a, emplace_broken a absent, broken-IsBroken a)
          | inr (none_left, _) ↦ absurd (ground (arith, none_left, chunk))
        ]
