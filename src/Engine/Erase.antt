-- ===== src/Engine/Erase.antt =====
-- The run of `erase_located`, and the nodes after it.
use cpp_unordered_map.Prelude.{
  ◌&&◌, ℕ, ◌-◌, ◌<◌, ◌≡◌, ◌≢◌, ◌∙◌, ap, true, some, none, length, get_or, ltb, ◌==◌, if◌then◌else◌,
  arith, if_true, if_false, pop_back, set, back,
}
use cpp_unordered_map.Index
use cpp_unordered_map.Index.{Index}
use cpp_unordered_map.Outcome.{returned, bind-returned, ◌>>◌}
use cpp_unordered_map.Table.{
  Table, set_aux, set_storage, destroy_value, release_node, unlink_from_iteration, unlink_of,
  storage-set_aux, aux-set_aux, storage-set_storage,
}
use cpp_unordered_map.Arena.{released}
use cpp_unordered_map.Engine.{node_of_bucket, on_index, on_index_lem, erase_located}

module _ {ℓ} {F : Type 0} {K V : Type ℓ} where
  abbrev pub aux_of : Table F K V → ℕ → ℕ
  aux_of t x = (t.nodes x).aux

  abbrev pub last_of : Table F K V → ℕ
  last_of t = get_or t.iteration (length t.iteration - 1) 0

  -- The states after the steps that erase node `m`, over a new index.
  abbrev pub destroyed : Table F K V → Index → ℕ → Table F K V
  destroyed t index m = set_storage m none (record t { index = index })

  abbrev pub unlinked : Table F K V → ℕ → Table F K V
  unlinked t m = record (set_aux (last_of t) (aux_of t m) t) {
    iteration = pop_back (set t.iteration (aux_of t m) (last_of t));
  }

  abbrev pub erased : Table F K V → Index → ℕ → Table F K V
  erased t index m = released (unlinked (destroyed t index m) m) m

  pub storage-erased :
      (t : Table F K V) (index : Index) (m x : ℕ)
      → ((erased t index m).nodes x).storage ≡ (if m == x then none else (t.nodes x).storage)
  storage-erased t index m x =
      let d = destroyed t index m in
      storage-set_aux (unlinked d m) m x t.free_list_head
      ∙ storage-set_aux d (last_of t) x (aux_of d m)
      ∙ storage-set_storage (record t { index = index }) m x none

  pub aux-erased :
      (t : Table F K V) (index : Index) (m x : ℕ)
      → x ≢ m
      → aux_of (erased t index m) x ≡ (
          if last_of t == x then aux_of (destroyed t index m) m else aux_of (destroyed t index m) x)
  aux-erased t index m x ne =
      let d = destroyed t index m in
      aux-set_aux (unlinked d m) m x t.free_list_head
      ∙ if_false {b = m == x} _ _ (ground arith)
      ∙ aux-set_aux d (last_of t) x (aux_of d m)

  -- The run of `erase_located` on a bucket of a linked node.
  pub erase_located-run :
      (t : Table F K V) (r : ℕ) (index : Index)
      → t.has_buckets ≡ true
      → r < t.bucket_count
      → Index.erase_bucket t.index r ≡ some index
      → back t.iteration ≡ some (last_of t)
      → erase_located r t ≡ returned tt (erased t index (t.index.buckets r).node_index)
  unfolding erase_located
  erase_located-run t r index present inside run back_is =
      let held : t.has_buckets && ltb r t.bucket_count ≡ true = ground arith in
      let m = (t.index.buckets r).node_index in
      let d = destroyed t index m in
      let release = release_node m in
      let unlink = unlink_from_iteration m >> release in
      let destroy = destroy_value m >> unlink in
      bind-returned (node_of_bucket r)
        (λ n.
          on_index (λ i. Index.erase_bucket i r)
          >> (destroy_value n >> (unlink_from_iteration n >> release_node n)))
        t (if_true _ _ held)
      ∙ bind-returned (on_index (λ i. Index.erase_bucket i r)) (λ _. destroy) t
          (on_index_lem (λ i. Index.erase_bucket i r) t present run)
      ∙ bind-returned (unlink_from_iteration m) (λ _. release) d (ap (unlink_of m d) back_is)
