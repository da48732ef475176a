-- ===== src/Fuzz/Stream.antt =====
-- fuzz/differential_fuzz.cpp: the stream of bytes that operations are decoded from, and the
-- generator that makes it.
use Prim.Native.Nat.{bit_xor}
use cpp_unordered_map.Prelude.{
  ℕ, zero, suc, ◌+◌, ◌*◌, ◌/◌, ◌%◌, ◌^◌, Bool, List, [], ◌∷◌, length, get_or, leb, if◌then◌else◌,
}

-- `data_` and `cursor_`; `size_` is the length of the data.
pub record ByteStream : Type 0 where
  pub data_ : List ℕ
  pub cursor : ℕ

abbrev pub exhausted : ByteStream → Bool
exhausted stream = leb (length stream.data_) stream.cursor

-- Past the end, zeros.
unfoldable pub next_byte : ByteStream → ℕ × ByteStream
next_byte stream = if exhausted stream then (0, stream) else (
  get_or stream.data_ stream.cursor 0,
  record { data_ = stream.data_; cursor = stream.cursor + 1 },
)

-- The low byte of a shifted word is zero, so that a byte is added to it.
unfoldable pub next_bytes : ℕ → ℕ → ByteStream → ℕ × ByteStream
unfolding next_byte
next_bytes zero value stream = (value, stream)
next_bytes (suc n) value stream =
    let (byte, stream') = next_byte stream in next_bytes n (value * 256 % 2 ^ 32 + byte) stream'

unfoldable pub next_u32 : ByteStream → ℕ × ByteStream
unfolding next_bytes
next_u32 stream = next_bytes 4 0 stream

-- `g_state` after a call, and the byte that it returns.
unfoldable pub prng_byte : ℕ → ℕ × ℕ
prng_byte g_state =
    let a = bit_xor g_state (g_state * 2 ^ 13 % 2 ^ 64) in
    let b = bit_xor a (a / 2 ^ 7) in
    let c = bit_xor b (b * 2 ^ 17 % 2 ^ 64) in (c / 2 ^ 24 % 256, c)

-- The bytes of the buffer that `main` fills.
unfoldable pub buffer : ℕ → ℕ → List ℕ
unfolding prng_byte
buffer zero g_state = []
buffer (suc n) g_state = let (byte, g_state') = prng_byte g_state in byte ∷ buffer n g_state'
