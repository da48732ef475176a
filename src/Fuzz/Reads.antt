-- ===== src/Fuzz/Reads.antt =====
-- How far reading moves in the stream.
use cpp_unordered_map.Prelude.{
  ℕ, zero, suc, ◌+◌, ◌*◌, ◌%◌, ◌^◌, ◌≤◌, ◌≡◌, ◌⊎◌, refl, ◌∙◌, ap, inl, inr, length, arith,
  Bool-cases,
}
use mathlib.Core.Path.{subst}
use cpp_unordered_map.Fuzz.Stream.{ByteStream, exhausted, next_byte, next_bytes, next_u32}

-- By `n` bytes at least, or to the end; never past it.
pub record Reads (n : ℕ) (s s' : ByteStream) : Type 0 where
  pub same : s'.data_ ≡ s.data_
  pub forward : s.cursor ≤ s'.cursor
  pub far : (s.cursor + n ≤ s'.cursor) ⊎ (length s.data_ ≤ s'.cursor)
  pub inside : (s'.cursor ≤ length s.data_) ⊎ (s'.cursor ≡ s.cursor)

pub Reads-refl : (s : ByteStream) → Reads 0 s s
Reads-refl s = record {
  same = refl;
  forward = omega arith;
  far = inl (omega arith);
  inside = inr refl;
}

pub Reads-trans :
    (m n : ℕ) (s s1 s' : ByteStream) → Reads m s s1 → Reads n s1 s' → Reads (m + n) s s'
Reads-trans m n s s1 s' p q =
    let size = ap length p.same in
    record {
      same = q.same ∙ p.same;
      forward = omega (arith, p.forward, q.forward);
      far = ground (arith, p.far, q.far, p.forward, q.forward, size);
      inside = ground (arith, p.inside, q.inside, size);
    }

pub next_byte-Reads : (s : ByteStream) → Reads 1 s (next_byte s).1
unfolding next_byte
next_byte-Reads s = elim (Bool-cases (exhausted s)) [
  | inl ended ↦
      rw ended
        (record { same = refl; forward = omega arith; far = inr (ground arith); inside = inr refl })
  | inr more ↦ rw more (record {
    same = refl;
    forward = omega arith;
    far = inl (omega arith);
    inside = inl (ground arith);
  })
]

next_bytes-Reads : (n value : ℕ) (s : ByteStream) → Reads n s (next_bytes n value s).1
unfolding next_bytes
next_bytes-Reads zero value s = Reads-refl s
next_bytes-Reads (suc n) value s =
    let (byte, s1) = next_byte s in
    let next = value * 256 % 2 ^ 32 + byte in
    let one_more : 1 + n ≡ suc n = omega arith in
    subst (λ k. Reads k s (next_bytes n next s1).1) one_more
      (Reads-trans 1 n s s1 (next_bytes n next s1).1 (next_byte-Reads s)
        (next_bytes-Reads n next s1))

pub next_u32-Reads : (s : ByteStream) → Reads 4 s (next_u32 s).1
unfolding next_u32
next_u32-Reads s = next_bytes-Reads 4 0 s
