-- ===== src/App/Packet.antt =====
-- protocol/src/app/v1.rs: packets and sensor values, with `encode` and `decode` as the source
-- composes them. An f32 is its bit pattern and an i64 its bit pattern below 2 ^ 64.
use sensor_sensei.Common.{
  ℕ, ◌+◌, ◌-◌, ◌%◌, ◌^◌, ◌==◌, leb, min, if◌then◌else◌, List, Option, none, some, length,
}
use sensor_sensei.Common.Outcome.{M, panic, pure, ◌>>=◌, ◌>>◌}
use sensor_sensei.Codec.Traits.{Encoder, Decoder, usize_mod, read_discard, offset, fail_decoding}
use sensor_sensei.Codec.Leb.{to_uleb128}
use sensor_sensei.Codec.Wire.{
  encode_u8, encode_u32, encode_i64, encode_f32, decode_u8, decode_u32, decode_u64, decode_i64,
  decode_f32,
}

pub record HandshakeStart : Type 0 where
  pub major : ℕ
  pub minor : ℕ

pub record HandshakeEnd : Type 0 where
  pub major : ℕ
  pub minor : ℕ
  pub epoch : ℕ

pub record SensorData : Type 0 where
  pub count : ℕ

pub data Packet : Type 0 where
  handshake_start : HandshakeStart → Packet
  handshake_end : HandshakeEnd → Packet
  ack : Packet
  sensor_data : SensorData → Packet
  reset_connection : Packet

pub data SensorValue : Type 0 where
  temperature pressure altitude air_quality : ℕ → SensorValue
  unknown : ℕ → ℕ → SensorValue

pub record SensorValuePoint : Type 0 where
  pub value : SensorValue
  pub time_offset : ℕ

abbrev pub packet_id : Packet → ℕ
packet_id (handshake_start p) = 0
packet_id (handshake_end p) = 1
packet_id ack = 2
packet_id (sensor_data p) = 3
packet_id reset_connection = 4

-- `SensorValue::id`: the discriminant, which for `Unknown` is u32::MAX and not its field `id`.
abbrev pub value_id : SensorValue → ℕ
value_id (temperature v) = 0
value_id (pressure v) = 1
value_id (altitude v) = 2
value_id (air_quality v) = 3
value_id (unknown id len) = 2 ^ 32 - 1

-- The id that goes on the wire is the field of `Unknown`, the discriminant of the others.
abbrev pub wire_id : SensorValue → ℕ
wire_id (unknown id len) = id
wire_id v = value_id v

-- `current_offset().wrapping_sub(pos)`
abbrev pub wrapping_sub : ℕ → ℕ → ℕ
wrapping_sub a b = (a + usize_mod - b) % usize_mod

module _ {S E : Type 0} (e : Encoder S E) where
  unfoldable pub encode_handshake_start : HandshakeStart → M S E (Unit {0})
  encode_handshake_start p = do encode_u8 e p.major; encode_u8 e p.minor; encode_u32 e 0

  -- The rest of `HandshakeEnd::encode`, once the epoch stands in the buffer `tail`.
  unfoldable pub encode_tail : HandshakeEnd → Option (List ℕ) → M S E (Unit {0})
  encode_tail p none = λ _. panic
  encode_tail p (some tail) = do
    encode_u8 e p.major
    encode_u8 e p.minor
    encode_u32 e (length tail % 2 ^ 32)
    e.emit_bytes tail

  unfoldable pub encode_handshake_end : HandshakeEnd → M S E (Unit {0})
  encode_handshake_end p = encode_tail p (to_uleb128 10 p.epoch)

  unfoldable pub encode_body : Packet → M S E (Unit {0})
  encode_body (handshake_start p) = encode_handshake_start p
  encode_body (handshake_end p) = encode_handshake_end p
  encode_body ack = pure tt
  encode_body (sensor_data p) = encode_u8 e p.count
  encode_body reset_connection = pure tt

  unfoldable pub encode_packet : Packet → M S E (Unit {0})
  encode_packet p = do encode_u8 e (packet_id p); encode_body p

  unfoldable pub encode_known : ℕ → M S E (Unit {0})
  encode_known v = do encode_u32 e 4; encode_f32 e v

  unfoldable pub encode_payload : SensorValue → M S E (Unit {0})
  encode_payload (temperature v) = encode_known v
  encode_payload (pressure v) = encode_known v
  encode_payload (altitude v) = encode_known v
  encode_payload (air_quality v) = encode_known v
  encode_payload (unknown id len) = encode_u32 e len

  unfoldable pub encode_value : SensorValue → M S E (Unit {0})
  encode_value v = do encode_u32 e (wire_id v); encode_payload v

  unfoldable pub encode_point : SensorValuePoint → M S E (Unit {0})
  encode_point p = do encode_i64 e p.time_offset; encode_value p.value

module _ {S E : Type 0} (d : Decoder S E) where
  unfoldable pub decode_handshake_start : M S E HandshakeStart
  decode_handshake_start = do
    major ← decode_u8 d
    minor ← decode_u8 d
    tail_len ← decode_u32 d
    read_discard d tail_len
    pure (record { major = major; minor = minor })

  -- `checked_sub`, with a decoding error below zero.
  unfoldable pub checked_sub : ℕ → ℕ → M S E ℕ
  checked_sub a b = if leb b a then pure (a - b) else fail_decoding d

  -- The epoch and what is left of `tail_len` after it; versions other than 1 are not looked into.
  unfoldable pub decode_epoch : ℕ → ℕ → M S E (ℕ × ℕ)
  decode_epoch major tail_len =
      let versioned = (do
        pos ← offset d
        epoch ← decode_u64 d
        now ← offset d
        left ← checked_sub tail_len (wrapping_sub now pos)
        pure (epoch, left)) in
      if major == 1 then versioned else pure (0, tail_len)

  unfoldable pub decode_handshake_end : M S E HandshakeEnd
  decode_handshake_end = do
    major ← decode_u8 d
    minor ← decode_u8 d
    tail_len ← decode_u32 d
    (epoch, left) ← decode_epoch major tail_len
    read_discard d (min left (2 ^ 32 - 1))
    pure (record { major = major; minor = minor; epoch = epoch })

  unfoldable pub decode_sensor_data : M S E SensorData
  decode_sensor_data = do count ← decode_u8 d; pure (record { count = count })

  unfoldable pub decode_body : ℕ → M S E Packet
  decode_body id =
      let start = (do p ← decode_handshake_start; pure (handshake_start p)) in
      let end = (do p ← decode_handshake_end; pure (handshake_end p)) in
      let values = (do p ← decode_sensor_data; pure (sensor_data p)) in
      if id == 0
      then start
      else if id == 1
      then end
      else if id == 2
      then pure ack
      else if id == 3
      then values
      else if id == 4
      then pure reset_connection
      else fail_decoding d

  unfoldable pub decode_packet : M S E Packet
  decode_packet = do id ← decode_u8 d; decode_body id

  unfoldable pub decode_kind : ℕ → ℕ → M S E SensorValue
  decode_kind kind value_len =
      if kind == 0
      then (do v ← decode_f32 d; pure (temperature v))
      else if kind == 1
      then (do v ← decode_f32 d; pure (pressure v))
      else if kind == 2
      then (do v ← decode_f32 d; pure (altitude v))
      else if kind == 3
      then (do v ← decode_f32 d; pure (air_quality v))
      else pure (unknown kind (value_len % 2 ^ 32))

  unfoldable pub decode_value : M S E SensorValue
  decode_value = do
    kind ← decode_u32 d
    value_len ← decode_u32 d
    pos ← offset d
    value ← decode_kind kind value_len
    now ← offset d
    left ← checked_sub value_len (wrapping_sub now pos)
    read_discard d left
    pure value

  unfoldable pub decode_point : M S E SensorValuePoint
  decode_point = do
    time_offset ← decode_i64 d
    value ← decode_value
    pure (record { value = value; time_offset = time_offset })
