-- ===== src/App/Format.antt =====
-- The bytes of each packet, as an independent description of the encodings of
-- protocol/src/app/v1.rs: those of doc/protocol.md, section 4.3, but for a pressure.
use sensor_sensei.Common.{ℕ, ◌^◌, ◌≤◌, ◌<◌, ◌≡◌, List, [], ◌∷◌, ◌++◌, length}
use sensor_sensei.Codec.Leb.Bounds.{groups, signed_groups}
use sensor_sensei.Codec.Wire.{to_le_bytes}
use sensor_sensei.App.Packet.{
  Packet, handshake_start, handshake_end, ack, sensor_data, reset_connection, SensorValue,
  temperature, pressure, altitude, air_quality, unknown, SensorValuePoint,
}

-- A length field and the array behind it.
abbrev pub sized : List ℕ → List ℕ
sized tail = groups 4 (length tail) ++ tail

abbrev pub packet_bytes : Packet → List ℕ
packet_bytes (handshake_start p) = 0 ∷ p.major ∷ p.minor ∷ sized []
packet_bytes (handshake_end p) = 1 ∷ p.major ∷ p.minor ∷ sized (groups 9 p.epoch)
packet_bytes ack = 2 ∷ []
packet_bytes (sensor_data p) = 3 ∷ p.count ∷ []
packet_bytes reset_connection = 4 ∷ []

-- An epoch is a u64, and only version 1 has one on the wire.
abbrev pub IsValid : Packet → Type 0
IsValid (handshake_end p) = (p.major ≡ 1) × (p.epoch < 2 ^ 64)
IsValid _ = Unit {0}

-- The type and the array of a value, as v1.rs writes them: a pressure is an f32 there, where
-- doc/protocol.md, section 4.3.6, has a u32.
abbrev pub value_bytes : SensorValue → List ℕ
value_bytes (unknown id len) = groups 4 id ++ groups 4 len
value_bytes (temperature v) = groups 4 0 ++ sized (to_le_bytes v)
value_bytes (pressure v) = groups 4 1 ++ sized (to_le_bytes v)
value_bytes (altitude v) = groups 4 2 ++ sized (to_le_bytes v)
value_bytes (air_quality v) = groups 4 3 ++ sized (to_le_bytes v)

abbrev pub IsValue : SensorValue → Type 0
IsValue (unknown id len) = (4 ≤ id) × (id < 2 ^ 32) × (len < 2 ^ 32)
IsValue (temperature v) = v < 2 ^ 32
IsValue (pressure v) = v < 2 ^ 32
IsValue (altitude v) = v < 2 ^ 32
IsValue (air_quality v) = v < 2 ^ 32

-- The number of bytes that the decoder discards behind what the encoder wrote.
abbrev pub missing : SensorValue → ℕ
missing (unknown id len) = len
missing _ = 0

abbrev pub point_bytes : SensorValuePoint → List ℕ
point_bytes p = signed_groups 9 p.time_offset ++ value_bytes p.value
