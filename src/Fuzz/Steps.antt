-- ===== src/Fuzz/Steps.antt =====
-- What one operation of a fuzzer leaves, and which stream.
use cpp_unordered_map.Prelude.{◌≡◌, ◌⊎◌, refl, inl, inr, Bool, true, false, if◌then◌else◌}
use cpp_unordered_map.Outcome.{Action, returned, bind-returned, pure, ◌>>◌}
use cpp_unordered_map.Fuzz.Stream.{ByteStream, next_u32}

module _ {S : Type 0} (s : S) (Good : S → Type 0) (stream : ByteStream) where
  -- The operation returns a good state, and a request was read from the stream, or none.
  pub record Steps (m : Action S ByteStream) : Type 0 where
    pub stream' : ByteStream
    pub after : S
    pub run : m s ≡ returned stream' after
    pub good : Good after
    pub reads : (stream' ≡ stream) ⊎ (stream' ≡ (next_u32 stream).1)

  pub Steps-if :
      (b : Bool) {x y : Action S ByteStream} → Steps x → Steps y → Steps (if b then x else y)
  Steps-if true p q = p
  Steps-if false p q = q

  pub keep-Steps :
      (m : Action S (Unit {0}))
      → (s' : S) × (m s ≡ returned tt s') × Good s'
      → Steps (m >> pure stream)
  keep-Steps m (s', run, y) = record {
    stream' = stream;
    after = s';
    run = bind-returned m (λ _. pure stream) s run;
    good = y;
    reads = inl refl;
  }

  pub read-Steps :
      (m : Action S (Unit {0}))
      → (s' : S) × (m s ≡ returned tt s') × Good s'
      → Steps (m >> pure (next_u32 stream).1)
  read-Steps m (s', run, y) = record {
    stream' = (next_u32 stream).1;
    after = s';
    run = bind-returned m (λ _. pure (next_u32 stream).1) s run;
    good = y;
    reads = inr refl;
  }
