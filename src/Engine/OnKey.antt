-- ===== src/Engine/OnKey.antt =====
-- A search for a key and the branch on its result, as the operations with a key make it.
use cpp_unordered_map.Prelude.{
  ℕ, ◌≡◌, ◌⊎◌, refl, ◌∙◌, ap, inl, inr, true, false, not, ◌&&◌, ltb, ◌==◌, if◌then◌else◌, arith,
  if_true, if_false,
}
use cpp_unordered_map.Hash.{Traits}
use cpp_unordered_map.Outcome.{Action, bind-returned, read, ◌>>=◌}
use cpp_unordered_map.Table.{Table}
use cpp_unordered_map.Valid.{IsValid}
use cpp_unordered_map.Growth.{Keeps-refl, Keeps-Grows}
use cpp_unordered_map.Load.{FloatOps}
use cpp_unordered_map.Engine.Add.{Adds}
use cpp_unordered_map.Engine.{find_key, node_of_bucket}
use cpp_unordered_map.Engine.Lookup.{IsAbsent, find_key-FindsKey}
use cpp_unordered_map.Engine.Emplace.{HoldsKey, Emplaces}

module _ {ℓ} {F : Type 0} {K V : Type ℓ} (traits : Traits K V) where
  -- A search for a key, and what is done with its bucket where it is there and where it is not.
  abbrev pub on_key {κ} :
      {A : Type κ}
      → K
      → (ℕ → Action (Table F K V) A)
      → Action (Table F K V) A
      → Action (Table F K V) A
  on_key key found missing = find_key traits key >>= (λ existing.
      read (λ t. not (existing == t.bucket_count))
      >>= (λ present. if present then (node_of_bucket existing >>= found) else missing))

  -- Such a search goes one way or the other.
  pub on_key-cases {κ} :
      {A : Type κ} (key : K) (found : ℕ → Action (Table F K V) A) (missing : Action (Table F K V) A)
      (t : Table F K V)
      → IsValid traits t
      → ((x : ℕ) × (on_key key found missing t ≡ found x t) × HoldsKey traits t key x)
        ⊎ (on_key key found missing t ≡ missing t) × IsAbsent traits t key
  unfolding node_of_bucket
  on_key-cases {A = A} key found missing t valid =
      let (r, run, finds) = find_key-FindsKey traits valid.searchable key in
      let decide : ℕ → Action (Table F K V) A = λ existing.
        read (λ t. not (existing == t.bucket_count))
        >>= (λ present. if present then (node_of_bucket existing >>= found) else missing) in
      let start = bind-returned (find_key traits key) decide t run in
      elim finds [
        | inl l ↦
            let present : not (r == t.bucket_count) ≡ true = ground (arith, l.inside) in
            let inside : t.has_buckets && ltb r t.bucket_count ≡ true =
              ground (arith, l.inside, l.present) in
            inl (
              (t.index.buckets r).node_index,
              start
                  ∙ ap (λ f. f t) (if_true (node_of_bucket r >>= found) missing present)
                  ∙ bind-returned (node_of_bucket r) found t (if_true _ _ inside),
              (l.value, l.stored, l.equal),
            )
        | inr (e, absent) ↦
            let gone : not (r == t.bucket_count) ≡ false = ground (arith, e) in
            inr (start ∙ ap (λ f. f t) (if_false (node_of_bucket r >>= found) missing gone), absent)
      ]

  -- What is added or found, in the terms of `emplace_impl`.
  pub Adds-Emplaces :
      (float : FloatOps F) {t : Table F K V} {v : V} {s : ℕ} {t' : Table F K V}
      → IsAbsent traits t (traits.key_of v)
      → Adds traits float t v s t'
      → Emplaces traits float t v (s, true) t'
  Adds-Emplaces float absent a = record {
    valid = a.valid;
    growth = a.growth;
    grows = omega (arith, a.grows);
    outcome = inl (refl, absent, a.stores);
  }

  pub HoldsKey-Emplaces :
      (float : FloatOps F) {t : Table F K V} {v : V} {x : ℕ}
      → IsValid traits t
      → HoldsKey traits t (traits.key_of v) x
      → Emplaces traits float t v (x, false) t
  HoldsKey-Emplaces float {t} valid h = record {
    valid = valid;
    growth = Keeps-Grows float (Keeps-refl t);
    grows = omega arith;
    outcome = inr (refl, h, λ x w. ((λ s. s), λ s. s));
  }
