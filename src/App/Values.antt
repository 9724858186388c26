-- ===== src/App/Values.antt =====
-- The decodings of the sensor values of protocol/src/app/v1.rs, known ones and unknown ones.
use sensor_sensei.Common.{
  ℕ, ◌+◌, ◌%◌, ◌^◌, ◌≤◌, ◌<◌, leb, ◌≡◌, subst, arith, List, [], ◌++◌, length, length-append,
  append_assoc, false,
}
use sensor_sensei.Common.Outcome.{ok, err}
use sensor_sensei.Codec.Traits.{Decoder, usize_mod}
use sensor_sensei.Codec.Leb.Bounds.{groups, signed_groups}
use sensor_sensei.Codec.Stream.{IsStream, Consumes}
use sensor_sensei.Codec.Wire.{to_le_bytes}
use sensor_sensei.Codec.Values.{
  decode_u32-Consumes, decode_i64-Consumes, decode_f32-Consumes, read_discard-Consumes,
}
use sensor_sensei.App.Packet.{
  SensorValue, temperature, pressure, altitude, air_quality, unknown, SensorValuePoint, wire_id,
  decode_kind, decode_value, decode_point, checked_sub,
}
use sensor_sensei.App.RoundTrip.{advance, leb_add, add_sub}

-- The bytes that the decoder looks into, and those that it skips behind them.
abbrev pub known_bytes : SensorValue → List ℕ
known_bytes (temperature v) = to_le_bytes v
known_bytes (pressure v) = to_le_bytes v
known_bytes (altitude v) = to_le_bytes v
known_bytes (air_quality v) = to_le_bytes v
known_bytes (unknown id len) = []

-- A value that the wire can carry, with an array of `len` bytes.
abbrev pub IsSized : SensorValue → ℕ → Type 0
IsSized (unknown id n) len = (4 ≤ id) × (id < 2 ^ 32) × (n ≡ len)
IsSized (temperature v) len = v < 2 ^ 32
IsSized (pressure v) len = v < 2 ^ 32
IsSized (altitude v) len = v < 2 ^ 32
IsSized (air_quality v) len = v < 2 ^ 32

wire_id-lt : (v : SensorValue) (len : ℕ) → IsSized v len → wire_id v < 2 ^ 32
wire_id-lt (unknown id n) len h = h.1
wire_id-lt _ len h = omega arith

length-known_bytes-le : (v : SensorValue) → length (known_bytes v) ≤ 4
unfolding to_le_bytes
length-known_bytes-le (unknown id n) = omega arith
length-known_bytes-le _ = omega arith

leb_short : (a b : ℕ) → b < a → leb a b ≡ false
leb_short a b h = ground arith

module _ {S E : Type 0} (d : Decoder S E) (Holds : S → List ℕ → Type 0)
    (stream : IsStream d Holds) where
  decode_kind-Consumes :
      (v : SensorValue) (len : ℕ)
      → IsSized v len
      → len < 2 ^ 32
      → Consumes d Holds (decode_kind d (wire_id v) len) v (known_bytes v)
  unfolding decode_kind
  decode_kind-Consumes (temperature v) len h lt s rest held =
      let (s', e, held', o) = decode_f32-Consumes d Holds stream v h s rest held in
      (s', rw e, held', o)
  decode_kind-Consumes (pressure v) len h lt s rest held =
      let (s', e, held', o) = decode_f32-Consumes d Holds stream v h s rest held in
      (s', rw e, held', o)
  decode_kind-Consumes (altitude v) len h lt s rest held =
      let (s', e, held', o) = decode_f32-Consumes d Holds stream v h s rest held in
      (s', rw e, held', o)
  decode_kind-Consumes (air_quality v) len h lt s rest held =
      let (s', e, held', o) = decode_f32-Consumes d Holds stream v h s rest held in
      (s', rw e, held', o)
  decode_kind-Consumes (unknown id n) len h lt s rest held =
      (s, ground arith, held, omega (arith, stream.offset_lt s _ held))

  -- A sensor value is decoded from its array whatever bytes a later version appended, and unknown
  -- values are skipped whole. A pressure is an f32, as in the code, where doc/protocol.md 4.3.6
  -- has a u32.
  pub decode_value-Consumes :
      (v : SensorValue) (tail : List ℕ)
      → IsSized v (length (known_bytes v) + length tail)
      → length tail + 4 < 2 ^ 32
      → (s : S) (rest : List ℕ)
      → Holds s (
          (groups 4 (wire_id v)
            ++ (groups 4 (length (known_bytes v) + length tail) ++ (known_bytes v ++ tail)))
          ++ rest)
      → (s' : S) × (decode_value d s ≡ ok v s')
        × Holds s' rest
        × (d.current_offset s'
            ≡ (d.current_offset s
                + length (
                    groups 4 (wire_id v)
                    ++ (groups 4 (length (known_bytes v) + length tail)
                        ++ (known_bytes v ++ tail))))
              % usize_mod)
  unfolding decode_value checked_sub
  decode_value-Consumes v tail h lt s rest held =
      let known = known_bytes v in
      let n : ℕ = length known in
      let len : ℕ = n + length tail in
      let id = groups 4 (wire_id v) in
      let size = groups 4 len in
      let small : len < 2 ^ 32 = omega (arith, length-known_bytes-le v) in
      let at_size = subst (λ t. Holds s t) (append_assoc id (size ++ (known ++ tail)) rest) held in
      let (s1, e1, h1, o1) =
        decode_u32-Consumes d Holds stream (wire_id v) (wire_id-lt v len h) s _ at_size in
      let at_known = subst (λ t. Holds s1 t) (append_assoc size (known ++ tail) rest) h1 in
      let (s2, e2, h2, o2) = decode_u32-Consumes d Holds stream len small s1 _ at_known in
      let at_tail = subst (λ t. Holds s2 t) (append_assoc known tail rest) h2 in
      let (s3, e3, h3, o3) = decode_kind-Consumes v len h small s2 _ at_tail in
      let (s4, e4, h4, o4) = read_discard-Consumes d Holds stream tail s3 rest h3 in
      let read =
        advance _ _ n (stream.offset_lt s2 _ h2) (omega (arith, length-known_bytes-le v)) o3 in
      (
        s4,
        rw (e1, e2, e3, read, leb_add n (length tail), add_sub n (length tail), e4),
        h4,
        omega (
          arith,
          length-append id (size ++ (known ++ tail)),
          length-append size (known ++ tail),
          length-append known tail,
        ),
      )

  pub decode_point-Consumes :
      (p : SensorValuePoint) (bytes : List ℕ)
      → p.time_offset < 2 ^ 64
      → Consumes d Holds (decode_value d) p.value bytes
      → Consumes d Holds (decode_point d) p (signed_groups 9 p.time_offset ++ bytes)
  unfolding decode_point
  decode_point-Consumes p bytes lt value s rest held =
      let field = signed_groups 9 p.time_offset in
      let held' = subst (λ t. Holds s t) (append_assoc field bytes rest) held in
      let (s1, e1, h1, o1) = decode_i64-Consumes d Holds stream p.time_offset lt s _ held' in
      let (s2, e2, h2, o2) = value s1 rest h1 in
      (s2, rw (e1, e2), h2, omega (arith, length-append field bytes))

  -- An array that is declared shorter than the value in it is a decoding error. A pressure is an
  -- f32, as in the code, where doc/protocol.md 4.3.6 has a u32.
  pub decode_value_short :
      (v : SensorValue) (len : ℕ) (s : S) (rest : List ℕ)
      → IsSized v len
      → len < length (known_bytes v)
      → Holds s (groups 4 (wire_id v) ++ (groups 4 len ++ (known_bytes v ++ rest)))
      → (s' : S) × (decode_value d s ≡ err (d.decoding_error s') s')
  unfolding decode_value checked_sub
  decode_value_short v len s rest h short held =
      let known = known_bytes v in
      let n : ℕ = length known in
      let small : len < 2 ^ 32 = omega (arith, length-known_bytes-le v) in
      let (s1, e1, h1, o1) =
        decode_u32-Consumes d Holds stream (wire_id v) (wire_id-lt v len h) s _ held in
      let (s2, e2, h2, o2) = decode_u32-Consumes d Holds stream len small s1 _ h1 in
      let (s3, e3, h3, o3) = decode_kind-Consumes v len h small s2 _ h2 in
      let read =
        advance _ _ n (stream.offset_lt s2 _ h2) (omega (arith, length-known_bytes-le v)) o3 in
      (s3, rw (e1, e2, e3, read, leb_short n len short))
