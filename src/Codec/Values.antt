-- ===== src/Codec/Values.antt =====
-- The encodings and decodings of the basic types of protocol/src/codec.rs on streams.
use sensor_sensei.Common.{
  ℕ, zero, suc, ◌+◌, ◌-◌, ◌%◌, ◌^◌, ◌≤◌, ◌<◌, min, ◌==◌, ◌≡◌, refl, subst, arith, List, [], ◌∷◌,
  ◌++◌, false, length, take, drop, take-append-drop, length-take, length-drop,
}
use sensor_sensei.Common.Outcome.{ok, ◌>>=◌}
use sensor_sensei.Codec.Traits.{Encoder, Decoder, usize_mod, read_discard, read_discard_loop}
use sensor_sensei.Codec.Leb.Bounds.{
  groups, signed_groups, to_uleb128-groups, to_sleb128-signed_groups,
}
use sensor_sensei.Codec.Stream.{
  IsStream, Consumes, Consumes-pure, Consumes-bind, Consumes-read, IsSink, Emits,
}
use sensor_sensei.Codec.Wire.{
  to_le_bytes, from_le_bytes, encode_u8, encode_u32, encode_u64, encode_i64, encode_f32, decode_u8,
  decode_u32, decode_u64, decode_i64, decode_f32,
}
use sensor_sensei.Codec.RoundTrip.{uleb_loop-groups}
use sensor_sensei.Codec.Signed.{sleb_loop-signed_groups}

module _ {S E : Type 0} (e : Encoder S E) (View : S → List ℕ → Type 0) (sink : IsSink e View) where
  pub encode_u8-Emits : (v : ℕ) → Emits View (encode_u8 e v) (v ∷ [])
  unfolding encode_u8
  encode_u8-Emits v s out h = sink.emit_lem s out (v ∷ []) h

  pub encode_u32-Emits : (v : ℕ) → v < 2 ^ 32 → Emits View (encode_u32 e v) (groups 4 v)
  unfolding encode_u32
  encode_u32-Emits v lt s out h =
      rw (to_uleb128-groups 4 v (omega arith)) (sink.emit_lem s out (groups 4 v) h)

  pub encode_u64-Emits : (v : ℕ) → v < 2 ^ 64 → Emits View (encode_u64 e v) (groups 9 v)
  unfolding encode_u64
  encode_u64-Emits v lt s out h =
      rw (to_uleb128-groups 9 v (omega arith)) (sink.emit_lem s out (groups 9 v) h)

  pub encode_i64-Emits : (v : ℕ) → v < 2 ^ 64 → Emits View (encode_i64 e v) (signed_groups 9 v)
  unfolding encode_i64
  encode_i64-Emits v lt s out h =
      rw (to_sleb128-signed_groups 9 v (omega arith)) (sink.emit_lem s out (signed_groups 9 v) h)

  pub encode_f32-Emits : (v : ℕ) → Emits View (encode_f32 e v) (to_le_bytes v)
  unfolding encode_f32
  encode_f32-Emits v s out h = sink.emit_lem s out (to_le_bytes v) h

positive : (n : ℕ) → 0 < n → (n == 0) ≡ false
positive n h = ground arith

module _ {S E : Type 0} (d : Decoder S E) (Holds : S → List ℕ → Type 0)
    (stream : IsStream d Holds) where
  pub decode_u8-Consumes : (v : ℕ) → Consumes d Holds (decode_u8 d) v (v ∷ [])
  unfolding decode_u8
  decode_u8-Consumes v s rest h =
      let (s', e, h', o) = stream.read_lem s (v ∷ []) rest h in (s', rw e, h', o)

  pub decode_u32-Consumes : (v : ℕ) → v < 2 ^ 32 → Consumes d Holds (decode_u32 d) v (groups 4 v)
  unfolding decode_u32
  decode_u32-Consumes v lt =
      subst (λ r. Consumes d Holds (decode_u32 d) r (groups 4 v)) (omega arith)
        (uleb_loop-groups d Holds stream 32 4 v 0 0 (omega arith) (omega arith) (omega arith))

  -- The groups of a number below 2^64 are decoded to it.
  pub decode_u64-Consumes :
      (v : ℕ)
      → v < 2 ^ 64
      → (s : S) (rest : List ℕ) → Holds s (groups 9 v ++ rest)
      → (s' : S) × (decode_u64 d s ≡ ok v s')
        × Holds s' rest
        × (d.current_offset s' ≡ (d.current_offset s + length (groups 9 v)) % usize_mod)
  unfolding decode_u64
  decode_u64-Consumes v lt =
      subst (λ r. Consumes d Holds (decode_u64 d) r (groups 9 v)) (omega arith)
        (uleb_loop-groups d Holds stream 64 9 v 0 0 (omega arith) (omega arith) (omega arith))

  -- The signed groups of a 64-bit pattern are decoded to it.
  pub decode_i64-Consumes :
      (v : ℕ)
      → v < 2 ^ 64
      → (s : S) (rest : List ℕ) → Holds s (signed_groups 9 v ++ rest)
      → (s' : S) × (decode_i64 d s ≡ ok v s')
        × Holds s' rest
        × (d.current_offset s' ≡ (d.current_offset s + length (signed_groups 9 v)) % usize_mod)
  unfolding decode_i64
  decode_i64-Consumes v lt =
      subst (λ r. Consumes d Holds (decode_i64 d) r (signed_groups 9 v)) (omega arith)
        (sleb_loop-signed_groups d Holds stream 9 v 0 0 (omega arith) (omega arith) refl)

  pub decode_f32-Consumes : (v : ℕ) → v < 2 ^ 32 → Consumes d Holds (decode_f32 d) v (to_le_bytes v)
  unfolding decode_f32 to_le_bytes
  decode_f32-Consumes v lt s rest h =
      let (s', e, h', o) = stream.read_lem s (to_le_bytes v) rest h in (s', rw e (rw bytes), h', o)
    where
      bytes : from_le_bytes (to_le_bytes v) ≡ v
      bytes = omega arith

  chunk :
      (xs : List ℕ) (m : ℕ)
      → m ≤ length xs
      → Consumes d Holds (d.read_bytes m) (take m xs) (take m xs)
  chunk xs m le =
      subst (λ n. Consumes d Holds (d.read_bytes n) (take m xs) (take m xs))
        (omega (arith, length-take m xs)) (Consumes-read d Holds stream (take m xs))

  -- With a unit of fuel for each byte the loop ends, and has read the `n` bytes.
  read_discard_loop-Consumes :
      (fuel n : ℕ) (xs : List ℕ)
      → length xs ≡ n
      → n ≤ fuel
      → Consumes d Holds (read_discard_loop d fuel n) tt xs
  unfolding read_discard_loop
  read_discard_loop-Consumes zero n [] len le = rw (← len) (Consumes-pure d Holds stream tt)
  read_discard_loop-Consumes zero n (x ∷ xs) len le = absurd (omega arith)
  read_discard_loop-Consumes (suc fuel) n [] len le = rw (← len) (Consumes-pure d Holds stream tt)
  read_discard_loop-Consumes (suc fuel) n (x ∷ xs) len le =
      let m : ℕ = min n 16 in
      let all : List ℕ = x ∷ xs in
      let first = chunk all m (omega arith) in
      let others =
        read_discard_loop-Consumes fuel (n - m) (drop m all) (omega (arith, length-drop m all))
          (omega arith) in
      let whole =
        Consumes-bind d Holds stream _ (λ _. read_discard_loop d fuel (n - m)) _ tt _ _ first
          others in
      rw (positive n (omega arith)) (
        subst
          (λ t. Consumes d Holds (d.read_bytes m >>= λ _. read_discard_loop d fuel (n - m)) tt t)
          (take-append-drop m all) whole)

  -- Discarding reads exactly as many bytes as asked for, in pieces.
  pub read_discard-Consumes :
      (xs : List ℕ) (s : S) (rest : List ℕ)
      → Holds s (xs ++ rest)
      → (s' : S) × (read_discard d (length xs) s ≡ ok tt s')
        × Holds s' rest
        × (d.current_offset s' ≡ (d.current_offset s + length xs) % usize_mod)
  unfolding read_discard
  read_discard-Consumes xs = read_discard_loop-Consumes _ _ xs refl (omega arith)
