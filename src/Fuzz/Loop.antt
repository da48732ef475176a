-- ===== src/Fuzz/Loop.antt =====
-- The loop of a fuzzer's `run_operations`, by what one operation and the cross-check do.
use cpp_unordered_map.Prelude.{
  ℕ, zero, suc, ◌+◌, ◌%◌, ◌^◌, ◌≤◌, ◌<◌, ◌≡◌, ◌⊎◌, refl, ◌∙◌, ap, inl, inr, Bool, true, false,
  Option, none, some, length, ◌==◌, if◌then◌else◌, arith, Bool-cases,
}
use cpp_unordered_map.Outcome.{Action, returned, bind-returned, pure, ◌>>=◌, ◌>>◌}
use cpp_unordered_map.Fuzz.Stream.{ByteStream, exhausted}
use cpp_unordered_map.Fuzz.Reads.{Reads}

-- `width` bytes are read by each operation, `spent` by a number of them; `total` bytes are few.
module _ {S : Type 0} (apply : ByteStream → Action S (Option ByteStream))
    (full_check : Action S (Unit {0})) (Good : ℕ → S → Type 0) (width total : ℕ)
    (positive : 0 < width) (spent : ℕ → ℕ) (spent-suc : (n : ℕ) → spent (n + 1) ≡ spent n + width)
    (few_lem : (n : ℕ) → spent n < total → n + 1 ≤ 1_000_000)
    (ended : (stream : ByteStream) (s : S)
      → exhausted stream ≡ true
      → apply stream s ≡ returned none s)
    (goes : (n : ℕ)
      → n ≤ 1_000_000
      → (stream : ByteStream) (s : S) → exhausted stream ≡ false
      → Good n s
      → (stream' : ByteStream) × (s' : S) × (apply stream s ≡ returned (some stream') s')
        × Good (n + 1) s'
        × Reads width stream stream')
    (crosses : (n : ℕ) (s : S) → n ≤ 2 ^ 20 → Good n s → full_check s ≡ returned tt s)
    (loop : ℕ → ℕ → ByteStream → Action S (Unit {0}))
    (round : (fuel n : ℕ) (stream : ByteStream) (s : S)
      → loop (suc fuel) n stream s
        ≡ (apply stream >>= (λ next. elim next [
          | none ↦ full_check
          | some rest ↦
              (if (n + 1) % 1024 == 0 then full_check else pure tt) >> loop fuel (n + 1) rest
        ]))
            s) where
  -- The periodic cross-check, or none.
  crosses_if :
      (b : Bool) (n : ℕ) (s : S)
      → n ≤ 2 ^ 20
      → Good n s
      → (if b then full_check else pure tt) s ≡ returned tt s
  crosses_if true n s few y = crosses n s few y
  crosses_if false n s few y = refl

  pub loop-returned :
      (fuel operations : ℕ) (stream : ByteStream) (s : S)
      → Good operations s
      → length stream.data_ ≤ total
      → stream.cursor ≤ length stream.data_
      → length stream.data_ < fuel + stream.cursor
      → operations ≤ 1_000_000
      → (spent operations ≤ stream.cursor) ⊎ (length stream.data_ ≤ stream.cursor)
      → (n : ℕ) × (s' : S) × (loop fuel operations stream s ≡ returned tt s') × Good n s'
  loop-returned zero operations stream s y short inside enough few so_far = absurd (omega arith)
  loop-returned (suc fuel) operations stream s y short inside enough few so_far =
      let cross : Action S (Unit {0}) =
        if (operations + 1) % 1024 == 0 then full_check else pure tt in
      let again : ByteStream → Action S (Unit {0}) = loop fuel (operations + 1) in
      let next : Option ByteStream → Action S (Unit {0}) =
        λ next. elim next [ none ↦ full_check | some rest ↦ cross >> again rest ] in
      elim (Bool-cases (exhausted stream)) [
        | inl over ↦ (
          operations,
          s,
          round fuel operations stream s
              ∙ bind-returned (apply stream) next s (ended stream s over)
              ∙ crosses operations s (omega arith) y,
          y,
        )
        | inr more ↦
            let unread : stream.cursor < length stream.data_ = ground (arith, more) in
            let (stream', s1, run, y1, r) = goes operations few stream s more y in
            let size = ap length r.same in
            let fewer : operations + 1 ≤ 1_000_000 =
              few_lem operations (ground (arith, so_far, unread, short)) in
            let (n, s', run', a) =
              loop-returned fuel (operations + 1) stream' s1 y1 (omega (arith, size, short))
                (ground (arith, r.inside, size, inside))
                (ground (arith, r.far, r.inside, size, enough, inside, unread, positive)) fewer
                (ground (arith, so_far, unread, r.far, size, spent-suc operations)) in
            (
              n,
              s',
              round fuel operations stream s
                  ∙ bind-returned (apply stream) next s run
                  ∙ bind-returned cross (λ _. again stream') s1
                      (crosses_if ((operations + 1) % 1024 == 0) (operations + 1) s1
                        (omega (arith, fewer)) y1)
                  ∙ run',
              a,
            )
      ]
