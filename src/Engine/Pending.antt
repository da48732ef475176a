-- ===== src/Engine/Pending.antt =====
-- A new element in its slot before it is linked, and after it is dropped again.
use cpp_unordered_map.Prelude.{
  ℕ, ◌<◌, ◌≡◌, ◌≢◌, ◌↔◌, sym, ◌∙◌, inl, inr, some, none, count, get_or, ◌==◌, if◌then◌else◌, arith,
  ==-cases, if_true, if_false,
}
use cpp_unordered_map.Prelude.Swap.{count-get_or}
use cpp_unordered_map.Hash.{Traits}
use cpp_unordered_map.Table.{
  Table, Memory, set_storage, storage-set_aux, aux-set_aux, storage-set_storage, aux-set_storage,
}
use cpp_unordered_map.Valid.{IsValid, Stores}
use cpp_unordered_map.Arena.{Acquires, regrown, released, release_node-arena, IsArena-congr}
use cpp_unordered_map.Engine.Reserve.{IsSearchable-nodes}
use cpp_unordered_map.Engine.Commit.{IsPending}

module _ {ℓ} {F : Type 0} {K V : Type ℓ} (traits : Traits K V) where
  module _ (memory : Memory) (t : Table F K V) (valid : IsValid traits t)
      (a : Acquires memory t t.iteration) (v : V) where
    abbrev grown : Table F K V
    grown = regrown t a.head a.high a.chunks

    -- The container with the new element constructed and not yet linked.
    abbrev pub held : Table F K V
    held = set_storage a.slot (some v) grown

    apart_of : (x : ℕ) → 0 < count x t.iteration → x ≢ a.slot
    apart_of x live e = absurd (ground (arith, a.fresh, live, e))

    value_held : (x : ℕ) → x ≢ a.slot → (held.nodes x).storage ≡ (t.nodes x).storage
    value_held x apart =
        storage-set_storage grown a.slot x (some v) ∙ if_false {b = a.slot == x} _ _ (ground arith)

    pub Stores-held : (x : ℕ) (w : V) → Stores held x w ↔ Stores t x w
    Stores-held x w = (
      (λ s. (s.0, sym (value_held x (apart_of x s.0)) ∙ s.1)),
      λ s. (s.0, value_held x (apart_of x s.0) ∙ s.1),
    )

    pub held-IsPending : IsPending traits held a.slot v
    held-IsPending = record {
      searchable =
          IsSearchable-nodes traits t valid.searchable held.nodes a.head a.high a.chunks
            (λ x live. sym (value_held x (apart_of x live)));
      arena =
          IsArena-congr a.arena held.nodes (λ x _. sym (aux-set_storage grown a.slot x (some v)));
      fresh = a.fresh;
      value =
          storage-set_storage grown a.slot a.slot (some v)
          ∙ if_true {b = a.slot == a.slot} _ _ (ground arith);
      raw = λ x z apart. value_held x apart ∙ valid.raw x z;
      linked =
          λ q l. aux-set_storage grown a.slot (get_or t.iteration q 0) (some v) ∙ valid.linked q l;
      distinct = λ x y w u b c same.
          valid.distinct x y w u ((Stores-held x w).0 b) ((Stores-held y u).0 c) same;
    }

    -- The container after the new element is destroyed and its slot given back.
    abbrev pub dropped : Table F K V
    dropped = released (set_storage a.slot none held) a.slot

    storage_dropped :
        (x : ℕ) → (dropped.nodes x).storage ≡ (if a.slot == x then none else (held.nodes x).storage)
    storage_dropped x =
        storage-set_aux (set_storage a.slot none held) a.slot x held.free_list_head
        ∙ storage-set_storage held a.slot x none

    value_dropped : (x : ℕ) → x ≢ a.slot → (dropped.nodes x).storage ≡ (t.nodes x).storage
    value_dropped x apart =
        storage_dropped x ∙ if_false {b = a.slot == x} _ _ (ground arith) ∙ value_held x apart

    aux_dropped : (x : ℕ) → x ≢ a.slot → (dropped.nodes x).aux ≡ (t.nodes x).aux
    aux_dropped x apart =
        aux-set_aux (set_storage a.slot none held) a.slot x held.free_list_head
        ∙ if_false {b = a.slot == x} _ _ (ground arith)
        ∙ aux-set_storage held a.slot x none
        ∙ aux-set_storage grown a.slot x (some v)

    pub Stores-dropped : (x : ℕ) (w : V) → Stores dropped x w ↔ Stores t x w
    Stores-dropped x w = (
      (λ s. (s.0, sym (value_dropped x (apart_of x s.0)) ∙ s.1)),
      λ s. (s.0, value_dropped x (apart_of x s.0) ∙ s.1),
    )

    pub dropped-IsValid : IsValid traits dropped
    dropped-IsValid = record {
      searchable =
          IsSearchable-nodes traits t valid.searchable dropped.nodes a.slot a.high a.chunks
            (λ x live. sym (value_dropped x (apart_of x live)));
      arena =
          (release_node-arena (set_storage a.slot none held) a.slot t.iteration (
            IsArena-congr held-IsPending.arena (set_storage a.slot none held).nodes
              (λ x _. sym (aux-set_storage held a.slot x none)))).1;
      raw = λ x z. elim (==-cases a.slot x) [
        | inl e ↦ storage_dropped x ∙ if_true {b = a.slot == x} _ _ (ground arith)
        | inr apart ↦ value_dropped x (ground arith) ∙ valid.raw x z
      ];
      linked = λ q l.
          aux_dropped (get_or t.iteration q 0)
            (apart_of (get_or t.iteration q 0) (count-get_or t.iteration q 0 l))
          ∙ valid.linked q l;
      distinct = λ x y w u b c same.
          valid.distinct x y w u ((Stores-dropped x w).0 b) ((Stores-dropped y u).0 c) same;
    }
