-- ===== src/Link/Header.antt =====
-- The header of the link packets of protocol/src/link/v1.rs, as `write` puts it together and as
-- `read` checks it.
use sensor_sensei.Common.{
  ℕ, ◌+◌, ◌*◌, ◌/◌, ◌%◌, ◌^◌, ◌≤◌, ◌<◌, bit_and, bit_or, ltb, List, ◌++◌, some, length, drop,
  get_or, ◌≡◌, refl, ap, arith, false, ==_refl,
}
use sensor_sensei.Common.Bits.{bit_or-disjoint, bit_or_comm, bit_and-ones, bit_and-shl, ones}
use sensor_sensei.Codec.Wire.{shl}
use sensor_sensei.Link.Packet.{
  LinkPhase, handshake_phase, data_phase, to_bits, from_bits, from_be_five, to_be_five,
  sign_payload, header, check,
}

id_bits : (id : ℕ) → bit_and id 15 ≡ id % 16
id_bits id = bit_and-ones 4 id

low_meta : (id : ℕ) → shl 8 (bit_and id 15) 2 ≡ id % 16 * 4
low_meta id = omega (arith, id_bits id)

above : (s a b : ℕ) → b < 2 ^ s → bit_or (a * 2 ^ s) b ≡ a * 2 ^ s + b
above s a b h = omega (arith, bit_or_comm (a * 2 ^ s) b, bit_or-disjoint s b a h)

to_bits-le : (phase : LinkPhase) → to_bits phase ≤ 2
to_bits-le handshake_phase = omega arith
to_bits-le data_phase = omega arith

-- The six bits of phase and id, above two clear bits.
meta_value :
    (phase : LinkPhase) (id : ℕ)
    → bit_or (shl 8 (to_bits phase) 6) (shl 8 (bit_and id 15) 2) ≡ to_bits phase * 64 + id % 16 * 4
meta_value handshake_phase id = rw (low_meta id) (above 6 2 (id % 16 * 4) (omega arith))
meta_value data_phase id = rw (low_meta id) (above 6 0 (id % 16 * 4) (omega arith))

header_value :
    (phase : LinkPhase) (id sig : ℕ)
    → sig < 2 ^ 64
    → header phase id sig ≡ (to_bits phase * 16 + id % 16) * 2 ^ 58 + sig / 64
unfolding header
header_value phase id sig lt =
    let six : ℕ = to_bits phase * 16 + id % 16 in
    let at_top : shl 64 (to_bits phase * 64 + id % 16 * 4) 56 ≡ six * 2 ^ 58 =
      omega (arith, to_bits-le phase) in
    rw (meta_value phase id, at_top) (above 58 six (sig / 64) (omega arith))

-- What the five bytes of a header keep of it.
kept : (x : ℕ) → x < 2 ^ 64 → from_be_five (to_be_five x) ≡ x / 2 ^ 24 * 2 ^ 24
unfolding from_be_five to_be_five
kept x lt = omega arith

masked : (sig : ℕ) → sig < 2 ^ 64 → bit_and sig 0xffffffffc0000000 ≡ sig / 2 ^ 30 * 2 ^ 30
masked sig lt = omega (
  arith,
  bit_and-shl 30 sig (ones 34),
  ap (λ (t : ℕ). t * 2 ^ 30) (bit_and-ones 34 (sig / 2 ^ 30)),
)

first_byte :
    (x : ℕ) (payload : List ℕ) → x < 2 ^ 64 → get_or (to_be_five x ++ payload) 0 0 ≡ x / 2 ^ 56
unfolding to_be_five
first_byte x payload lt = omega arith

five_bytes :
    (x : ℕ) (payload : List ℕ)
    → from_be_five (to_be_five x ++ payload) ≡ from_be_five (to_be_five x)
unfolding to_be_five from_be_five
five_bytes x payload = refl

long_frame :
    (x : ℕ) (payload : List ℕ)
    → 0 < length payload
    → ltb (length (to_be_five x ++ payload)) 6 ≡ false
unfolding to_be_five
long_frame x payload h = ground arith

pub five_or_more : (x : ℕ) (payload : List ℕ) → ltb (length (to_be_five x ++ payload)) 5 ≡ false
unfolding to_be_five
five_or_more x payload = ground arith

pub payload_after : (x : ℕ) (payload : List ℕ) → drop 5 (to_be_five x ++ payload) ≡ payload
unfolding to_be_five
payload_after x payload = refl

from_bits-to_bits : (phase : LinkPhase) → from_bits (to_bits phase) ≡ phase
from_bits-to_bits handshake_phase = refl
from_bits-to_bits data_phase = refl

module _ (hmac : List ℕ → List ℕ → List ℕ) (key : List ℕ) where
  -- The frame of a packet, as `write` puts it together.
  abbrev pub frame : LinkPhase → ℕ → List ℕ → List ℕ
  frame phase id payload = to_be_five (header phase id (sign_payload hmac payload key)) ++ payload

  -- A frame that was written with the same key passes, and gives its phase and id back.
  pub check-frame :
      (phase : LinkPhase) (id : ℕ) (payload : List ℕ)
      → sign_payload hmac payload key < 2 ^ 64
      → 0 < length payload
      → check hmac key (frame phase id payload) ≡ some (phase, id % 16)
  unfolding check
  check-frame phase id payload lt some_payload =
      let sig : ℕ = sign_payload hmac payload key in
      let x : ℕ = header phase id sig in
      let value = header_value phase id sig lt in
      let small : x < 2 ^ 64 = omega (arith, value, to_bits-le phase) in
      let bits : shl 64 (from_be_five (to_be_five x ++ payload)) 6 ≡ sig / 2 ^ 30 * 2 ^ 30 =
        omega (arith, five_bytes x payload, kept x small, value) in
      let phase_bits : get_or (to_be_five x ++ payload) 0 0 / 64 ≡ to_bits phase =
        omega (arith, first_byte x payload small, value) in
      let id_field : bit_and (get_or (to_be_five x ++ payload) 0 0 / 4) 15 ≡ id % 16 = omega (
        arith,
        first_byte x payload small,
        value,
        id_bits (get_or (to_be_five x ++ payload) 0 0 / 4),
      ) in
      rw (
        long_frame x payload some_payload,
        payload_after x payload,
        masked sig lt,
        bits,
        ==_refl (sig / 2 ^ 30 * 2 ^ 30),
        phase_bits,
        id_field,
        from_bits-to_bits phase,
      )

  -- What passes has a payload, and carries the 34 bits of its signature.
  pub check-some :
      (bytes : List ℕ) (found : LinkPhase × ℕ)
      → check hmac key bytes ≡ some found
      → (6 ≤ length bytes)
        × (bit_and (sign_payload hmac (drop 5 bytes) key) 0xffffffffc0000000
            ≡ shl 64 (from_be_five bytes) 6)
        × (found.1 < 16)
  unfolding check
  check-some bytes found e = ground (arith, id_bits (get_or bytes 0 0 / 4))
