-- ===== src/Codec/Leb.antt =====
-- protocol/src/codec.rs: `to_leb128`, unsigned for u32 and u64 and signed for i64.
-- An i64 is its bit pattern, a number below 2 ^ 64. `none` is an index past the end of the buffer,
-- which is a panic; `room` is the number of bytes of the buffer that are still free.
pub mod Bounds
use sensor_sensei.Common.{
  ℕ, zero, suc, ◌+◌, ◌-◌, ◌*◌, ◌/◌, ◌%◌, ◌^◌, bit_and, bit_or, ltb, leb, ◌==◌, if◌then◌else◌, ◌&&◌,
  ◌||◌, Bool, not, List, [], ◌∷◌, Option, none, some,
}
use mathlib.Core.Option

-- The loop of `uleb128_encoding!`: a byte with the top bit set while more than seven bits are left.
unfoldable pub to_uleb128 : ℕ → ℕ → Option (List ℕ)
to_uleb128 zero val = none
to_uleb128 (suc room) val =
    let byte = bit_or 0x80 (bit_and val 0x7f % 256) in
    let rest = Option.map (λ bytes. byte ∷ bytes) (to_uleb128 room (val / 128)) in
    if ltb 0x7f val then rest else some ((val % 256) ∷ [])

-- `val >> 7` on an i64 keeps the sign: the seven highest bits of a negative number become ones.
unfoldable pub sar7 : ℕ → ℕ
sar7 val = if leb (2 ^ 63) val then val / 128 + (2 ^ 64 - 2 ^ 57) else val / 128

abbrev pub minus_one : ℕ
minus_one = 2 ^ 64 - 1

-- The test of `sleb128_encoding!`: nothing is left but copies of the sign that `byte` shows.
abbrev pub sign_only : ℕ → ℕ → Bool
sign_only val byte =
    (val == 0 && bit_and byte 0x40 == 0) || (val == minus_one && not (bit_and byte 0x40 == 0))

unfoldable pub to_sleb128 : ℕ → ℕ → Option (List ℕ)
unfolding sar7
to_sleb128 zero val = none
to_sleb128 (suc room) val =
    let byte = bit_and val 0x7f % 256 in
    let rest = Option.map (λ bytes. bit_or 0x80 byte ∷ bytes) (to_sleb128 room (sar7 val)) in
    if sign_only (sar7 val) byte then some (byte ∷ []) else rest
