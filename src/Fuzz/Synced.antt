-- ===== src/Fuzz/Synced.antt =====
-- The state of a run of the fuzzer, and the operations that resize the tested map or copy it.
use cpp_unordered_map.Prelude.{ℕ, ◌+◌, ◌*◌, ◌≤◌, ◌^◌, ◌≡◌, ap, Bool}
use cpp_unordered_map.Hash.{Traits}
use cpp_unordered_map.Load.{FloatOps}
use cpp_unordered_map.Outcome.{returned, bind-returned, ◌>>◌}
use cpp_unordered_map.Table.{Table, Memory}
use cpp_unordered_map.Engine.Reserve.{IsGranted}
use cpp_unordered_map.Container.{rehash, reserve}
use cpp_unordered_map.Container.Rehash.{Rehashes}
use cpp_unordered_map.Container.Bulk.{Rehashes-view}
use cpp_unordered_map.Adapters.{map_traits}
use cpp_unordered_map.Handles.{left_of}
use cpp_unordered_map.Fuzz.{Oracle, Pair, on_tested, change_oracle}
use cpp_unordered_map.Fuzz.Standard.{KeepsLikeStandard}
use cpp_unordered_map.Fuzz.Agree.{Agrees, same-Agrees}
use cpp_unordered_map.Fuzz.Follow.{Follows}
use cpp_unordered_map.Fuzz.Bounded.{
  IsEightTenths, IsBounded, Grows-IsBounded, rehash-IsBounded, reserve-IsBounded, low, high,
}

module _ (is_avalanching : Bool) {F O : Type 0} (standard : Oracle O) (float : FloatOps F) where
  abbrev traits : Traits ℕ (ℕ × ℕ)
  traits = map_traits is_avalanching

  -- After `n` operations: the maps agree, and the tested one is in its bounds.
  pub record Synced (n : ℕ) (s : Pair F O) : Type 0 where
    pub agrees : Agrees is_avalanching standard s
    pub bounded : IsBounded float n s.0

  module _ (default : IsEightTenths float float.default_max_load_factor) (n : ℕ)
      (budget : 4 * n + 8 ≤ 2 ^ 22) where
    pub Follows-Synced :
        (s s' : Pair F O)
        → Synced n s
        → Follows is_avalanching standard float s s'
        → Synced (n + 1) s'
    Follows-Synced s s' y f = record {
      agrees = f.agrees;
      bounded = Grows-IsBounded float default n budget s.0 y.bounded s'.0 f.growth;
    }

    Rehashes-Synced :
        (t t' : Table F ℕ (ℕ × ℕ)) (o o' : O) (least : ℕ)
        → Synced n (t, o)
        → Rehashes traits float 22 low high t least t'
        → IsBounded float (n + 1) t'
        → standard.size o' ≡ standard.size o
        → ((k : ℕ) → standard.value_at o' k ≡ standard.value_at o k)
        → Synced (n + 1) (t', o')
    Rehashes-Synced t t' o o' least y r bounded size value = record {
      agrees =
          same-Agrees is_avalanching standard t t' o y.agrees r.valid r.policy o' size value
            (Rehashes-view traits float 22 low high t least t' y.agrees.valid r);
      bounded = bounded;
    }

    module _ (memory : Memory) (granted : IsGranted memory) where
      pub rehash_both-Synced :
          (request : ℕ) (t : Table F ℕ (ℕ × ℕ)) (o : O)
          → KeepsLikeStandard standard standard.rehash_to
          → request ≤ 2 ^ 20
          → Synced n (t, o)
          → (s' : Pair F O) × ((on_tested (rehash traits float memory request)
                  >> change_oracle (standard.rehash_to request))
                (t, o)
              ≡ returned tt s')
            × Synced (n + 1) s'
      rehash_both-Synced request t o keeps small y =
          let (t', run, r, bounded) =
            rehash-IsBounded float default n budget t y.bounded traits memory granted y.agrees.valid
              request small in
          (
            (t', standard.rehash_to request o),
            bind-returned (on_tested (rehash traits float memory request))
                (λ _. change_oracle (standard.rehash_to request)) (t, o)
                (ap (λ k. left_of o k) run),
            Rehashes-Synced t t' o (standard.rehash_to request o) request y r bounded
                (keeps.size o request) (keeps.value o request),
          )

      pub reserve_both-Synced :
          (request : ℕ) (t : Table F ℕ (ℕ × ℕ)) (o : O)
          → KeepsLikeStandard standard standard.reserve_for
          → request ≤ 2 ^ 20
          → Synced n (t, o)
          → (s' : Pair F O) × ((on_tested (reserve traits float memory request)
                  >> change_oracle (standard.reserve_for request))
                (t, o)
              ≡ returned tt s')
            × Synced (n + 1) s'
      reserve_both-Synced request t o keeps small y =
          let (t', run, r, bounded) =
            reserve-IsBounded float default n budget t y.bounded traits memory granted
              y.agrees.valid request small in
          (
            (t', standard.reserve_for request o),
            bind-returned (on_tested (reserve traits float memory request))
                (λ _. change_oracle (standard.reserve_for request)) (t, o)
                (ap (λ k. left_of o k) run),
            Rehashes-Synced t t' o (standard.reserve_for request o) request y r bounded
                (keeps.size o request) (keeps.value o request),
          )
