-- ===== src/Adapters/Emplace.antt =====
-- `try_emplace_impl` and `operator[]`.
use cpp_unordered_map.Prelude.{
  ℕ, ◌≤◌, ◌<◌, ◌^◌, ◌≡◌, ◌↔◌, ◌∙◌, inl, inr, Bool, true, false, some, none, arith,
}
use cpp_unordered_map.Hash.{Traits}
use cpp_unordered_map.Index.{null_index}
use cpp_unordered_map.Load.{FloatOps}
use cpp_unordered_map.Outcome.{Action, returned, threw, pure, ◌>>◌}
use cpp_unordered_map.Table.{Table, Memory, construct_value}
use cpp_unordered_map.Valid.{IsValid, Stores}
use cpp_unordered_map.Growth.{Keeps}
use cpp_unordered_map.Engine.{node_of_bucket, commit_node}
use cpp_unordered_map.Engine.Lookup.{IsAbsent}
use cpp_unordered_map.Engine.Reserve.{IsGranted}
use cpp_unordered_map.Engine.Emplace.{Emplaces}
use cpp_unordered_map.Engine.Add.{add_new, add_new-Adds}
use cpp_unordered_map.Engine.Throwing.{acquire_construct-threw}
use cpp_unordered_map.Adapters.{map_traits, try_emplace_impl}
use cpp_unordered_map.Engine.OnKey.{on_key-cases, Adds-Emplaces, HoldsKey-Emplaces}

module _ {ℓ} {F : Type 0} {K M : Type ℓ} (is_avalanching : Bool) (float : FloatOps F)
    (memory : Memory) where
  abbrev traits : Traits K (K × M)
  traits = map_traits is_avalanching

  -- Where memory is granted and the container is valid, with its arena below the largest size and at
  -- most 2^22 buckets, `try_emplace_impl` returns and leaves a valid container. Either the key was
  -- absent, and the pair is stored at the returned node beside the others; or an element with an
  -- equal key is at the returned node, and the same elements are stored at the same nodes as before.
  -- The number of elements grows by one exactly if the flag says that the pair is new; the policy
  -- and the load factor stay, and the array grows by one step at most.
  pub try_emplace_impl-Emplaces :
      IsGranted memory
      → (t : Table F K (K × M)) (key : K) (m : M) → IsValid traits t
      → t.arena_high_water < null_index
      → t.bucket_count ≤ 2 ^ 22
      → (r : ℕ × Bool) × (t' : Table F K (K × M)) × (try_emplace_impl traits float memory key
            (some m)
            t
          ≡ returned r t')
        × Emplaces traits float t (key, m) r t'
  unfolding try_emplace_impl node_of_bucket
  try_emplace_impl-Emplaces granted t key m valid below small =
      let missing : Action (Table F K (K × M)) (ℕ × Bool) =
        add_new traits float memory (λ i. pure (i, true))
          (λ i. construct_value i (some (key, m))) in
      elim (on_key-cases traits key (λ x. pure (x, false)) missing t valid) [
        | inl (x, run, h) ↦ ((x, false), t, run, HoldsKey-Emplaces traits float valid h)
        | inr (run, absent) ↦
            let (s, t', run', a) =
              add_new-Adds traits float memory (λ i. (i, true)) granted t (key, m) valid below small
                absent in
            ((s, true), t', run ∙ run', Adds-Emplaces traits float absent a)
      ]

  -- On a valid container with its arena below the largest size, `try_emplace_impl` of an absent key
  -- with a constructor that throws, whatever memory is granted, throws. It leaves a valid container
  -- with the same elements at the same nodes, and the same bucket count, capacity, policy and load
  -- factor.
  pub try_emplace_impl-threw :
      (t : Table F K (K × M)) (key : K)
      → IsValid traits t
      → t.arena_high_water < null_index
      → IsAbsent traits t key
      → (t' : Table F K (K × M)) × (try_emplace_impl traits float memory key none t ≡ threw t')
        × IsValid traits t'
        × ((x : ℕ) (w : K × M) → Stores t' x w ↔ Stores t x w)
        × Keeps t t'
  unfolding try_emplace_impl node_of_bucket
  try_emplace_impl-threw t key valid below absent =
      let missing : Action (Table F K (K × M)) (ℕ × Bool) =
        add_new traits float memory (λ i. pure (i, true)) (λ i. construct_value i none) in
      elim (on_key-cases traits key (λ x. pure (x, false)) missing t valid) [
        | inl (x, run, (w, st, same)) ↦ absurd (ground (arith, absent x w st, same))
        | inr (run, _) ↦
            let rest : ℕ → Action (Table F K (K × M)) (ℕ × Bool) =
              λ i. commit_node traits float memory i >> pure (i, true) in
            let (t', run', ok, same, kept) =
              acquire_construct-threw traits memory rest t valid below in
            (t', run ∙ run', ok, same, kept)
      ]
