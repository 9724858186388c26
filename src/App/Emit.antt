-- ===== src/App/Emit.antt =====
-- The encodings of protocol/src/app/v1.rs against the documented bytes (App/Format).
use sensor_sensei.Common.{ℕ, ◌%◌, ◌^◌, ◌≤◌, ◌<◌, ◌≡◌, arith, List, [], ◌∷◌, ◌++◌, length}
use sensor_sensei.Common.Outcome.{M, ok, ◌>>=◌}
use sensor_sensei.Codec.Traits.{Encoder}
use sensor_sensei.Codec.Leb.Bounds.{groups, signed_groups, length-groups, to_uleb128-groups}
use sensor_sensei.Codec.Stream.{IsSink, Emits, Emits-pure, Emits-then}
use sensor_sensei.Codec.Wire.{to_le_bytes, encode_u8, encode_u32, encode_i64, encode_f32}
use sensor_sensei.Codec.Values.{
  encode_u8-Emits, encode_u32-Emits, encode_i64-Emits, encode_f32-Emits,
}
use sensor_sensei.App.Packet.{
  HandshakeEnd, Packet, handshake_start, handshake_end, ack, sensor_data, reset_connection,
  SensorValue, temperature, pressure, altitude, air_quality, unknown, SensorValuePoint,
  encode_handshake_start, encode_handshake_end, encode_tail, encode_body, encode_packet,
  encode_known, encode_payload, encode_value, encode_point,
}
use sensor_sensei.App.Format.{sized, packet_bytes, IsValid, value_bytes, IsValue, point_bytes}

tail_mod : (n : ℕ) → n ≤ 10 → n % 2 ^ 32 ≡ n
tail_mod n h = omega arith

module _ {S E : Type 0} (e : Encoder S E) (View : S → List ℕ → Type 0) (sink : IsSink e View) where
  -- Two bytes, then what `m` emits.
  version_then :
      (a b : ℕ) (m : M S E (Unit {0})) (bytes : List ℕ)
      → Emits View m bytes
      → Emits View (encode_u8 e a >>= λ _. encode_u8 e b >>= λ _. m) (a ∷ b ∷ bytes)
  version_then a b m bytes h =
      Emits-then View (encode_u8 e a) (encode_u8 e b >>= λ _. m) (a ∷ []) (b ∷ bytes)
        (encode_u8-Emits e View sink a)
        (Emits-then View (encode_u8 e b) m (b ∷ []) bytes (encode_u8-Emits e View sink b) h)

  encode_handshake_end-Emits :
      (p : HandshakeEnd)
      → p.epoch < 2 ^ 64
      → Emits View (encode_handshake_end e p) (p.major ∷ p.minor ∷ sized (groups 9 p.epoch))
  unfolding encode_handshake_end encode_tail
  encode_handshake_end-Emits p lt =
      let field = groups 9 p.epoch in
      let n : ℕ = length field in
      rw
        (
          to_uleb128-groups 9 p.epoch (omega arith),
          tail_mod n (omega (arith, length-groups 9 p.epoch)),
        )
        (version_then p.major p.minor _ (sized field) (
          Emits-then View (encode_u32 e n) (e.emit_bytes field) (groups 4 n) field
            (encode_u32-Emits e View sink n (omega (arith, length-groups 9 p.epoch)))
            (λ s out h. sink.emit_lem s out field h)))

  -- Encoding a packet emits its documented bytes.
  pub encode_packet-Emits :
      (p : Packet)
      → IsValid p
      → (s : S) (out : List ℕ) → View s out
      → (s' : S) × (encode_packet e p s ≡ ok tt s') × View s' (out ++ packet_bytes p)
  unfolding encode_packet encode_body encode_handshake_start groups
  encode_packet-Emits (handshake_start p) v =
      Emits-then View (encode_u8 e 0) _ (0 ∷ []) (p.major ∷ p.minor ∷ sized [])
        (encode_u8-Emits e View sink 0)
        (version_then p.major p.minor (encode_u32 e 0) (sized [])
          (encode_u32-Emits e View sink 0 (omega arith)))
  encode_packet-Emits (handshake_end p) v =
      Emits-then View (encode_u8 e 1) _ (1 ∷ []) _ (encode_u8-Emits e View sink 1)
        (encode_handshake_end-Emits p v.1)
  encode_packet-Emits ack v =
      Emits-then View (encode_u8 e 2) _ (2 ∷ []) [] (encode_u8-Emits e View sink 2)
        (Emits-pure View)
  encode_packet-Emits (sensor_data p) v =
      Emits-then View (encode_u8 e 3) _ (3 ∷ []) (p.count ∷ []) (encode_u8-Emits e View sink 3)
        (encode_u8-Emits e View sink p.count)
  encode_packet-Emits reset_connection v =
      Emits-then View (encode_u8 e 4) _ (4 ∷ []) [] (encode_u8-Emits e View sink 4)
        (Emits-pure View)

  encode_known-Emits : (v : ℕ) → Emits View (encode_known e v) (sized (to_le_bytes v))
  unfolding encode_known to_le_bytes
  encode_known-Emits v =
      Emits-then View (encode_u32 e 4) (encode_f32 e v) (groups 4 4) (to_le_bytes v)
        (encode_u32-Emits e View sink 4 (omega arith)) (encode_f32-Emits e View sink v)

  -- Encoding a value emits its documented bytes; of an unknown value no more than its header.
  pub encode_value-Emits :
      (v : SensorValue) → IsValue v → Emits View (encode_value e v) (value_bytes v)
  unfolding encode_value encode_payload
  encode_value-Emits (unknown id len) h =
      Emits-then View (encode_u32 e id) (encode_u32 e len) (groups 4 id) (groups 4 len)
        (encode_u32-Emits e View sink id h.1) (encode_u32-Emits e View sink len h.2)
  encode_value-Emits (temperature v) h =
      Emits-then View (encode_u32 e 0) (encode_known e v) (groups 4 0) _
        (encode_u32-Emits e View sink 0 (omega arith)) (encode_known-Emits v)
  encode_value-Emits (pressure v) h =
      Emits-then View (encode_u32 e 1) (encode_known e v) (groups 4 1) _
        (encode_u32-Emits e View sink 1 (omega arith)) (encode_known-Emits v)
  encode_value-Emits (altitude v) h =
      Emits-then View (encode_u32 e 2) (encode_known e v) (groups 4 2) _
        (encode_u32-Emits e View sink 2 (omega arith)) (encode_known-Emits v)
  encode_value-Emits (air_quality v) h =
      Emits-then View (encode_u32 e 3) (encode_known e v) (groups 4 3) _
        (encode_u32-Emits e View sink 3 (omega arith)) (encode_known-Emits v)

  -- Encoding a point emits its time offset and its value.
  pub encode_point-Emits :
      (p : SensorValuePoint)
      → p.time_offset < 2 ^ 64
      → IsValue p.value
      → (s : S) (out : List ℕ) → View s out
      → (s' : S) × (encode_point e p s ≡ ok tt s') × View s' (out ++ point_bytes p)
  unfolding encode_point
  encode_point-Emits p lt h =
      Emits-then View (encode_i64 e p.time_offset) (encode_value e p.value)
        (signed_groups 9 p.time_offset) (value_bytes p.value)
        (encode_i64-Emits e View sink p.time_offset lt) (encode_value-Emits p.value h)
