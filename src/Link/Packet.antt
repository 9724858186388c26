-- ===== src/Link/Packet.antt =====
-- protocol/src/link/v1.rs: `LinkPhase`, `LinkPacket::write`, `LinkPacket::read`.
use sensor_sensei.Common.{
  ℕ, zero, suc, ◌+◌, ◌*◌, ◌/◌, ◌%◌, ◌^◌, bit_and, bit_or, ltb, ◌==◌, if◌then◌else◌, List, [], ◌∷◌,
  Option, none, some, length, drop, get_or,
}
use sensor_sensei.Common.Outcome.{M, ok, panic, pending, pure, ◌>>=◌, ◌>>◌}
use sensor_sensei.Codec.Wire.{shl}
use sensor_sensei.Link.Phy.{PhysicalLayer}

pub data LinkPhase : Type 0 where
  handshake_phase data_phase : LinkPhase

abbrev pub to_bits : LinkPhase → ℕ
to_bits handshake_phase = 2
to_bits data_phase = 0

abbrev pub from_bits : ℕ → LinkPhase
from_bits bits = if bits == 2 then handshake_phase else data_phase

pub record LinkPacket : Type 0 where
  pub phase : LinkPhase
  pub id : ℕ
  pub payload : List ℕ

-- `u64::from_be_bytes([b[0], b[1], b[2], b[3], b[4], 0, 0, 0])`
unfoldable pub from_be_five : List ℕ → ℕ
from_be_five b =
    get_or b 0 0 * 2 ^ 56
    + get_or b 1 0 * 2 ^ 48
    + get_or b 2 0 * 2 ^ 40
    + get_or b 3 0 * 2 ^ 32
    + get_or b 4 0 * 2 ^ 24

-- `&x.to_be_bytes()[..5]`
unfoldable pub to_be_five : ℕ → List ℕ
to_be_five x =
    (x / 2 ^ 56 % 256)
    ∷ (x / 2 ^ 48 % 256)
    ∷ (x / 2 ^ 40 % 256)
    ∷ (x / 2 ^ 32 % 256)
    ∷ (x / 2 ^ 24 % 256)
    ∷ []

unfoldable pub header : LinkPhase → ℕ → ℕ → ℕ
header phase id sig_bits =
    let header_meta = bit_or (shl 8 (to_bits phase) 6) (shl 8 (bit_and id 15) 2) in
    bit_or (shl 64 header_meta 56) (sig_bits / 64)

-- `break` with what was found, or another round.
abbrev pub found_or : {P E A : Type 0} → Option A → M P E (Option A) → M P E (Option A)
found_or (some packet) more = pure (some packet)
found_or none more = more

abbrev pub returned : {P E A : Type 0} → Option A → M P E A
returned (some packet) = pure packet
returned none = λ _. pending

-- The HMAC-SHA256 of the crates `hmac` and `sha2`: key, message, and 32 bytes.
module _ (hmac : List ℕ → List ℕ → List ℕ) where
  unfoldable pub sign_payload : List ℕ → List ℕ → ℕ
  sign_payload payload sig_key = from_be_five (hmac sig_key payload)

  module _ {P E : Type 0} (phy : PhysicalLayer P E) where
    unfoldable pub write_packet : LinkPacket → List ℕ → M P E (Unit {0})
    write_packet packet sig_key = do
      phy.write (to_be_five (header packet.phase packet.id (sign_payload packet.payload sig_key)))
      phy.write packet.payload
      phy.flush

  -- The body of the loop of `read`: what is received is skipped (`none`), or its signature is that
  -- of its payload.
  unfoldable pub check : List ℕ → List ℕ → Option (LinkPhase × ℕ)
  check sig_key bytes =
      let header_meta = get_or bytes 0 0 in
      let sig_bits = shl 64 (from_be_five bytes) 6 in
      let actual_sig = bit_and (sign_payload (drop 5 bytes) sig_key) 0xffffffffc0000000 in
      let found = some (from_bits (header_meta / 64), bit_and (header_meta / 4) 15) in
      if ltb (length bytes) 6 then none else if actual_sig == sig_bits then found else none

  module _ {P E : Type 0} (phy : PhysicalLayer P E) (sig_key : List ℕ) where
    -- `LinkPacket::read`, given up after `budget` receptions: `none`.
    unfoldable pub read_within : ℕ → M P E (Option (LinkPhase × ℕ))
    read_within zero = pure none
    read_within (suc budget) = do
      phy.read
      received ← λ p. ok (phy.rx_buffer p) p
      let more = read_within budget
      found_or (check sig_key received) more

    unfoldable pub read_packet : ℕ → M P E (LinkPhase × ℕ)
    read_packet fuel = do found ← read_within fuel; returned found

-- `&phy.rx_buffer()[5..]`, which panics on less than five bytes.
unfoldable pub get_payload : {P E : Type 0} → PhysicalLayer P E → M P E (List ℕ)
get_payload phy p =
    if ltb (length (phy.rx_buffer p)) 5 then panic else ok (drop 5 (phy.rx_buffer p)) p
