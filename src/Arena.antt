-- ===== src/Arena.antt =====
-- The node arena: `acquire_node` and `release_node` keep every slot accounted for.
use cpp_unordered_map.Prelude.{
  ℕ, ◌+◌, ◌*◌, ◌%◌, ◌^◌, ◌≤◌, ◌<◌, ◌≡◌, ◌⊎◌, refl, ◌∙◌, sym, inl, inr, true, false, not, List, [],
  ◌∷◌, count, to_nat, ltb, ◌==◌, arith, Bool-cases, if_true, if_false,
}
use mathlib.Core.Path.{subst}
use cpp_unordered_map.Index.{null_index}
use cpp_unordered_map.Load.{chunk_size}
use cpp_unordered_map.Outcome.{returned, threw, bind-returned, bind-threw}
use cpp_unordered_map.Table.{
  Table, Node, Memory, set_aux, ensure_arena_slot, take_slot, acquire_node, release_node,
}
use cpp_unordered_map.Valid.{FreeChain, IsArena, ArenaOf}

module _ {ℓ} {V : Type ℓ} where
  -- The free list reads the links of free slots only.
  FreeChain-congr :
      (nodes nodes' : ℕ → Node V) (head : ℕ) (free : List ℕ)
      → ((x : ℕ) → 0 < count x free → (nodes x).aux ≡ (nodes' x).aux)
      → FreeChain nodes head free
      → FreeChain nodes' head free
  FreeChain-congr nodes nodes' head [] same h = h
  FreeChain-congr nodes nodes' head (x ∷ free) same (e, nn, rest) = (
    e,
    nn,
    rw (same x (ground arith)) at
        (FreeChain-congr nodes nodes' (nodes x).aux free (λ y p. same y (omega arith)) rest),
  )

  module _ {nodes : ℕ → Node V} {head high chunks : ℕ} {owned : List ℕ}
      (a : IsArena nodes head high chunks owned) where
    -- What changes owned slots alone keeps the arena.
    pub IsArena-congr :
        (nodes' : ℕ → Node V)
        → ((x : ℕ) → count x owned ≡ 0 → (nodes x).aux ≡ (nodes' x).aux)
        → IsArena nodes' head high chunks owned
    IsArena-congr nodes' same = record {
      free = a.free;
      chain =
          FreeChain-congr nodes nodes' head a.free (λ x p. same x (ground (arith, a.split x)))
            a.chain;
      split = a.split;
      room = a.room;
      small = a.small;
    }

    pub owned-lt : (x : ℕ) → 0 < count x owned → x < high
    owned-lt x p = ground (arith, a.split x)

    pub owned_once : (x : ℕ) → count x owned ≤ 1
    owned_once x = ground (arith, a.split x)

    -- Only the counts of the owned slots matter.
    pub IsArena-owned :
        (owned' : List ℕ)
        → ((x : ℕ) → count x owned ≡ count x owned')
        → IsArena nodes head high chunks owned'
    IsArena-owned owned' same = record {
      free = a.free;
      chain = a.chain;
      split = λ x. omega (arith, a.split x, same x);
      room = a.room;
      small = a.small;
    }

module _ {ℓ} {F : Type 0} {K V : Type ℓ} where
  -- The members that `acquire_node` may change.
  abbrev pub regrown : Table F K V → ℕ → ℕ → ℕ → Table F K V
  regrown t head high chunks = record t {
    free_list_head = head;
    arena_high_water = high;
    chunks = chunks;
  }

  -- A slot that nobody owned, in an arena that is otherwise as before.
  pub record Acquires (memory : Memory) (t : Table F K V) (owned : List ℕ) : Type ℓ where
    pub slot : ℕ
    pub head : ℕ
    pub high : ℕ
    pub chunks : ℕ
    pub run : acquire_node memory t ≡ returned slot (regrown t head high chunks)
    pub arena : ArenaOf (regrown t head high chunks) (slot ∷ owned)
    pub fresh : count slot owned ≡ 0
    pub most : high ≤ t.arena_high_water + 1

  module _ (memory : Memory) (t : Table F K V) (owned : List ℕ) where
    reuse :
        (x : ℕ) (rest : List ℕ)
        → FreeChain t.nodes t.free_list_head (x ∷ rest)
        → ArenaOf t owned
        → ((y : ℕ) → count y owned + count y (x ∷ rest) ≡ to_nat (ltb y t.arena_high_water))
        → Acquires memory t owned
    unfolding acquire_node
    reuse x rest (e, nn, chain) a split =
        let listed : not (t.free_list_head == null_index) ≡ true = ground arith in
        record {
          slot = t.free_list_head;
          head = (t.nodes t.free_list_head).aux;
          high = t.arena_high_water;
          chunks = t.chunks;
          run =
              bind-returned (ensure_arena_slot memory) (λ _. take_slot) t (if_true _ _ listed)
              ∙ if_true _ _ listed;
          arena = record {
            free = rest;
            chain = rw (← e) at chain;
            split = λ y. ground (arith, split y);
            room = a.room;
            small = a.small;
          };
          fresh = ground (arith, split t.free_list_head);
          most = omega arith;
        }

    -- The first slot never used, in a chunk that is there.
    bump :
        (chunks : ℕ)
        → t.free_list_head ≡ null_index
        → ensure_arena_slot memory t ≡ returned tt (record t { chunks = chunks })
        → t.arena_high_water < chunks * chunk_size
        → t.arena_high_water < null_index
        → ((y : ℕ) → count y owned ≡ to_nat (ltb y t.arena_high_water))
        → Acquires memory t owned
    unfolding acquire_node
    bump chunks e run space below split =
        let unlisted : not (t.free_list_head == null_index) ≡ false = ground arith in
        let word : (t.arena_high_water + 1) % 2 ^ 32 ≡ t.arena_high_water + 1 = omega arith in
        record {
          slot = t.arena_high_water;
          head = t.free_list_head;
          high = (t.arena_high_water + 1) % 2 ^ 32;
          chunks = chunks;
          run =
              bind-returned (ensure_arena_slot memory) (λ _. take_slot) t run
              ∙ if_false _ _ unlisted;
          arena = record {
            free = [];
            chain = e;
            split = λ y. rw word (ground (arith, split y));
            room = rw word (omega arith);
            small = rw word (omega arith);
          };
          fresh = ground (arith, split t.arena_high_water);
          most = omega arith;
        }

    acquire_of :
        (free : List ℕ)
        → FreeChain t.nodes t.free_list_head free
        → ArenaOf t owned
        → ((y : ℕ) → count y owned + count y free ≡ to_nat (ltb y t.arena_high_water))
        → t.arena_high_water < null_index
        → Acquires memory t owned
          ⊎ (memory.chunk t.chunks ≡ false) × (acquire_node memory t ≡ threw t)
    unfolding acquire_node
    acquire_of (x ∷ rest) chain a split below = inl (reuse x rest chain a split)
    acquire_of [] e a split below =
        let unlisted : not (t.free_list_head == null_index) ≡ false = ground arith in
        elim (Bool-cases (ltb t.arena_high_water (t.chunks * chunk_size))) [
          | inl p ↦ inl (
              bump t.chunks e (if_false _ _ unlisted ∙ if_true _ _ p) (ground arith) below
                (λ y. omega (arith, split y)))
          | inr p ↦ elim (Bool-cases (memory.chunk t.chunks)) [
            | inl q ↦ inl (
                bump (t.chunks + 1) e (if_false _ _ unlisted ∙ if_false _ _ p ∙ if_true _ _ q)
                  (omega (arith, a.room)) below (λ y. omega (arith, split y)))
            | inr q ↦ inr (
              q,
              bind-threw (ensure_arena_slot memory) (λ _. take_slot) t
                  (if_false _ _ unlisted ∙ if_false _ _ p ∙ if_false _ _ q),
            )
          ]
        ]

    -- In an arena below its largest size, `acquire_node` returns a slot that nobody owned, and every
    -- slot is still owned or free exactly once and inside the chunks; or, where a chunk is not
    -- granted, it throws and leaves the container as it was.
    pub acquire_node-Acquires :
        ArenaOf t owned
        → t.arena_high_water < null_index
        → Acquires memory t owned
          ⊎ (memory.chunk t.chunks ≡ false) × (acquire_node memory t ≡ threw t)
    acquire_node-Acquires a below = acquire_of a.free a.chain a a.split below

  -- The state after `release_node`.
  abbrev pub released : Table F K V → ℕ → Table F K V
  released t i = record (set_aux i t.free_list_head t) { free_list_head = i }

  -- Where the arena accounts for a slot and for others as owned, releasing that slot returns, and
  -- the arena then accounts for the others as owned and for the slot as free.
  pub release_node-arena :
      (t : Table F K V) (i : ℕ) (owned : List ℕ)
      → ArenaOf t (i ∷ owned)
      → (release_node i t ≡ returned tt (released t i)) × ArenaOf (released t i) owned
  unfolding release_node
  release_node-arena t i owned a =
      let self : ((released t i).nodes i).aux ≡ t.free_list_head = ground arith in
      (
        refl,
        record {
          free = i ∷ a.free;
          chain = (
            refl,
            omega (arith, owned-lt a i (ground arith), a.small),
            subst (λ h. FreeChain (released t i).nodes h a.free) (sym self)
                (FreeChain-congr t.nodes (released t i).nodes t.free_list_head a.free
                  (λ x p. ground (arith, a.split x)) a.chain),
          );
          split = λ x. omega (arith, a.split x);
          room = a.room;
          small = a.small;
        },
      )
