-- ===== src/Engine/Throwing.antt =====
-- `emplace_impl` where the constructor of the element throws.
use cpp_unordered_map.Prelude.{
  ℕ, ◌<◌, ◌≡◌, ◌↔◌, sym, ◌∙◌, inl, inr, none, count, get_or, ◌==◌, arith, if_false,
}
use cpp_unordered_map.Prelude.Swap.{count-get_or}
use cpp_unordered_map.Prelude.{refl}
use cpp_unordered_map.Hash.{Traits}
use cpp_unordered_map.Index.{null_index}
use cpp_unordered_map.Load.{FloatOps}
use cpp_unordered_map.Outcome.{threw, bind-returned, bind-threw}
use cpp_unordered_map.Outcome.{Action, rethrowing, ◌>>=◌, ◌>>◌}
use cpp_unordered_map.Table.{construct_value, release_node}
use cpp_unordered_map.Table.{Table, Memory, storage-set_aux, aux-set_aux, acquire_node}
use cpp_unordered_map.Valid.{IsValid, Stores}
use cpp_unordered_map.Growth.{Keeps, Keeps-refl}
use cpp_unordered_map.Arena.{Acquires, acquire_node-Acquires, regrown, released, release_node-arena}
use cpp_unordered_map.Engine.{emplace_impl}
use cpp_unordered_map.Engine.Reserve.{IsSearchable-nodes}

module _ {ℓ} {F : Type 0} {K V : Type ℓ} (traits : Traits K V) (memory : Memory) where
  module _ (t : Table F K V) (valid : IsValid traits t) (a : Acquires memory t t.iteration) where
    -- The container after the slot is given back.
    abbrev returned_slot : Table F K V
    returned_slot = released (regrown t a.head a.high a.chunks) a.slot

    value_lem : (x : ℕ) → (returned_slot.nodes x).storage ≡ (t.nodes x).storage
    value_lem x = storage-set_aux (regrown t a.head a.high a.chunks) a.slot x a.head

    Stores-lem : (x : ℕ) (w : V) → Stores returned_slot x w ↔ Stores t x w
    Stores-lem x w = ((λ s. (s.0, sym (value_lem x) ∙ s.1)), λ s. (s.0, value_lem x ∙ s.1))

    aux_lem : (x : ℕ) → 0 < count x t.iteration → (returned_slot.nodes x).aux ≡ (t.nodes x).aux
    aux_lem x live =
        aux-set_aux (regrown t a.head a.high a.chunks) a.slot x a.head
        ∙ if_false {b = a.slot == x} _ _ (ground (arith, a.fresh, live))

    returned_slot-IsValid : IsValid traits returned_slot
    returned_slot-IsValid = record {
      searchable =
          IsSearchable-nodes traits t valid.searchable returned_slot.nodes a.slot a.high a.chunks
            (λ x _. sym (value_lem x));
      arena = (release_node-arena (regrown t a.head a.high a.chunks) a.slot t.iteration a.arena).1;
      raw = λ x z. value_lem x ∙ valid.raw x z;
      linked = λ q l.
          aux_lem (get_or t.iteration q 0) (count-get_or t.iteration q 0 l) ∙ valid.linked q l;
      distinct = λ x y w u b c same.
          valid.distinct x y w u ((Stores-lem x w).0 b) ((Stores-lem y u).0 c) same;
    }

  -- Acquiring a slot and constructing in it, whatever follows, where the constructor throws.
  pub acquire_construct-threw {κ} :
      {A : Type κ} (rest : ℕ → Action (Table F K V) A) (t : Table F K V)
      → IsValid traits t
      → t.arena_high_water < null_index
      → (t' : Table F K V) × ((acquire_node memory
              >>= (λ i. rethrowing (construct_value i none) (release_node i) >> rest i))
            t
          ≡ threw t')
        × IsValid traits t'
        × ((x : ℕ) (w : V) → Stores t' x w ↔ Stores t x w)
        × Keeps t t'
  unfolding construct_value release_node
  acquire_construct-threw rest t valid below =
      elim (acquire_node-Acquires memory t t.iteration valid.arena below) [
        | inl a ↦ (
          returned_slot t valid a,
          bind-returned (acquire_node memory) _ t a.run,
          returned_slot-IsValid t valid a,
          Stores-lem t valid a,
          record {
            policy = refl;
            factor = refl;
            high = a.most;
            size = omega arith;
            count = refl;
            capacity = refl;
          },
        )
        | inr (_, run) ↦ (
          t,
          bind-threw (acquire_node memory) _ t run,
          valid,
          λ x w. ((λ s. s), λ s. s),
          Keeps-refl t,
        )
      ]

  -- On a valid container with its arena below the largest size, `emplace_impl` with a constructor
  -- that throws, whatever memory is granted, throws and leaves a valid container with the same
  -- elements at the same nodes, and the same bucket count, capacity, policy and load factor.
  pub emplace_impl-threw :
      (float : FloatOps F) (t : Table F K V)
      → IsValid traits t
      → t.arena_high_water < null_index
      → (t' : Table F K V) × (emplace_impl traits float memory none t ≡ threw t')
        × IsValid traits t'
        × ((x : ℕ) (w : V) → Stores t' x w ↔ Stores t x w)
        × Keeps t t'
  unfolding emplace_impl
  emplace_impl-threw float t valid below =
      elim (acquire_node-Acquires memory t t.iteration valid.arena below) [
        | inl a ↦ (
          returned_slot t valid a,
          bind-returned (acquire_node memory) _ t a.run,
          returned_slot-IsValid t valid a,
          Stores-lem t valid a,
          record {
            policy = refl;
            factor = refl;
            high = a.most;
            size = omega arith;
            count = refl;
            capacity = refl;
          },
        )
        | inr (_, run) ↦ (
          t,
          bind-threw (acquire_node memory) _ t run,
          valid,
          λ x w. ((λ s. s), λ s. s),
          Keeps-refl t,
        )
      ]
