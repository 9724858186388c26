-- ===== src/Codec/Wire.antt =====
-- protocol/src/codec.rs: `AsyncEncode` and `AsyncDecode` of the basic types. An f32 is its bit
-- pattern, a number below 2 ^ 32, and an i64 its bit pattern below 2 ^ 64.
use sensor_sensei.Common.{
  ℕ, zero, suc, ◌+◌, ◌-◌, ◌*◌, ◌/◌, ◌%◌, ◌^◌, bit_and, bit_or, ltb, ◌==◌, if◌then◌else◌, ◌&&◌, List,
  [], ◌∷◌, Option, none, some, get_or, not,
}
use sensor_sensei.Common.Outcome.{M, panic, pure, ◌>>=◌}
use sensor_sensei.Codec.Traits.{Encoder, Decoder}
use sensor_sensei.Codec.Leb.{to_uleb128, to_sleb128}

-- `x << k` on a type of `w` bits.
abbrev pub shl : ℕ → ℕ → ℕ → ℕ
shl w x k = x * 2 ^ k % 2 ^ w

unfoldable pub to_le_bytes : ℕ → List ℕ
to_le_bytes v = (v % 256) ∷ (v / 256 % 256) ∷ (v / 65536 % 256) ∷ (v / 16777216 % 256) ∷ []

unfoldable pub from_le_bytes : List ℕ → ℕ
from_le_bytes b = get_or b 0 0 + get_or b 1 0 * 256 + get_or b 2 0 * 65536 + get_or b 3 0 * 16777216

-- `!0 << shift` fills the bits above the last group with the sign.
abbrev pub sign_extend : ℕ → ℕ → ℕ → ℕ
sign_extend val byte shift =
    if ltb shift 64 && not (bit_and byte 0x40 == 0)
    then bit_or val (shl 64 (2 ^ 64 - 1) shift)
    else val

module _ {S E : Type 0} (e : Encoder S E) where
  unfoldable pub emit_slice : Option (List ℕ) → M S E (Unit {0})
  emit_slice none = λ _. panic
  emit_slice (some bytes) = e.emit_bytes bytes

  unfoldable pub encode_u8 : ℕ → M S E (Unit {0})
  encode_u8 v = e.emit_bytes (v ∷ [])

  unfoldable pub encode_u32 : ℕ → M S E (Unit {0})
  unfolding emit_slice
  encode_u32 v = emit_slice (to_uleb128 5 v)

  unfoldable pub encode_u64 : ℕ → M S E (Unit {0})
  unfolding emit_slice
  encode_u64 v = emit_slice (to_uleb128 10 v)

  unfoldable pub encode_i64 : ℕ → M S E (Unit {0})
  unfolding emit_slice
  encode_i64 v = emit_slice (to_sleb128 10 v)

  unfoldable pub encode_f32 : ℕ → M S E (Unit {0})
  unfolding to_le_bytes
  encode_f32 v = e.emit_bytes (to_le_bytes v)

module _ {S E : Type 0} (d : Decoder S E) where
  unfoldable pub decode_u8 : M S E ℕ
  decode_u8 = do buf ← d.read_bytes 1; pure (get_or buf 0 0)

  -- The loop of `uleb128_encoding!` over the rounds left, on a type of `w` bits.
  unfoldable pub uleb_loop : ℕ → ℕ → ℕ → ℕ → M S E ℕ
  uleb_loop w zero val shift = pure val
  uleb_loop w (suc rounds) val shift = do
    buf ← d.read_bytes 1
    let byte = get_or buf 0 0
    let val' = bit_or val (shl w (bit_and byte 0x7f) shift)
    let more = uleb_loop w rounds val' (shift + 7)
    if bit_and byte 0x80 == 0 then pure val' else more

  unfoldable pub decode_u32 : M S E ℕ
  unfolding uleb_loop
  decode_u32 = uleb_loop 32 5 0 0

  unfoldable pub decode_u64 : M S E ℕ
  unfolding uleb_loop
  decode_u64 = uleb_loop 64 10 0 0

  unfoldable pub sleb_loop : ℕ → ℕ → ℕ → M S E ℕ
  sleb_loop zero val shift = pure val
  sleb_loop (suc rounds) val shift = do
    buf ← d.read_bytes 1
    let byte = get_or buf 0 0
    let val' = bit_or val (shl 64 (bit_and byte 0x7f) shift)
    let more = sleb_loop rounds val' (shift + 7)
    if bit_and byte 0x80 == 0 then pure (sign_extend val' byte (shift + 7)) else more

  unfoldable pub decode_i64 : M S E ℕ
  unfolding sleb_loop
  decode_i64 = sleb_loop 10 0 0

  unfoldable pub decode_f32 : M S E ℕ
  unfolding from_le_bytes
  decode_f32 = do buf ← d.read_bytes 4; pure (from_le_bytes buf)
