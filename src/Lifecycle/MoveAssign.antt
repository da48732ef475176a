-- ===== src/Lifecycle/MoveAssign.antt =====
-- Move assignment.
use cpp_unordered_map.Prelude.{ℕ, ◌≤◌, ◌^◌, ◌≡◌, ◌⊎◌, Bool, true, false, [], length}
use cpp_unordered_map.Hash.{Traits}
use cpp_unordered_map.Load.{FloatOps}
use cpp_unordered_map.Outcome.{Outcome}
use cpp_unordered_map.Table.{Table, Memory}
use cpp_unordered_map.Valid.{IsValid}
use cpp_unordered_map.Growth.{Keeps, IsWithin}
use cpp_unordered_map.Contents.{view}
use cpp_unordered_map.Engine.Reserve.{IsGranted}
use cpp_unordered_map.Lifecycle.Move.{Steals}
use cpp_unordered_map.Lifecycle.Copy.{IsCopyable, CopiesTo}

module _ {ℓ} {F : Type 0} {K V : Type ℓ} (traits : Traits K V) where
  module _ (float : FloatOps F) (memory : Memory) (granted : IsGranted memory) (buckets : ℕ)
      (small : buckets ≤ 2 ^ 22) (k : ℕ) (low : 3 ≤ k) (high : k ≤ 23) (top : 2 ^ k ≤ buckets)
      (other : Table F K V) (valid : IsValid traits other)
      (c : IsCopyable traits float memory granted buckets small k low high top other) where
    abbrev Copied : Table F K V → Table F K V → Type ℓ
    Copied start t' =
        CopiesTo traits float memory granted buckets small k low high top other start t'

    -- The elements moved one by one, and the other container cleared.
    pub record Moves (start t' other' : Table F K V) : Type ℓ where
      pub copied : Copied start t'
      pub valid_left : IsValid traits other'
      pub no_element : other'.iteration ≡ []
      pub no_slot : other'.arena_high_water ≡ 0
      pub kept : Keeps other other'

    -- What assignment leaves: the array and the slots are taken over, or the elements are moved.
    pub record Assigns (t' other' : Table F K V) (taken : Bool) : Type ℓ where
      pub valid_target : IsValid traits t'
      pub shown : view traits t' ≡ view traits other
      pub size : length t'.iteration ≡ length other.iteration
      pub policy : t'.policy ≡ other.policy
      pub factor : t'.max_load_factor ≡ other.max_load_factor
      pub valid_left : IsValid traits other'
      pub no_element : other'.iteration ≡ []
      pub no_slot : other'.arena_high_water ≡ 0
      pub storage :
          (taken ≡ true) × Steals traits other t' other'
          ⊎ (taken ≡ false)
            × IsWithin float buckets (length other.iteration) t'
            × Keeps other other'
