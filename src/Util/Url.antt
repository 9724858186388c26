-- ===== src/Util/Url.antt =====
-- util/src/encoding.rs: `hex_digit_to_value`, `url_decode_next`, `url_decode`. The buffer is a list
-- of bytes that each step returns anew; `none` is an access out of its range, which is a panic.
use sensor_sensei.Common.{
  ℕ, zero, suc, ◌+◌, ◌-◌, ◌*◌, ◌%◌, bit_or, ltb, leb, ◌==◌, if◌then◌else◌, ◌&&◌, ◌||◌, Bool, List,
  [], ◌∷◌, ◌++◌, Option, none, some, length, take, drop, get_or,
}
use sensor_sensei.Util.Memchr.{Memchr}

unfoldable pub set : List ℕ → ℕ → ℕ → List ℕ
set [] i v = []
set (x ∷ xs) zero v = v ∷ xs
set (x ∷ xs) (suc i) v = x ∷ set xs i v

abbrev pub in_range : ℕ → ℕ → ℕ → Bool
in_range lo hi c = leb lo c && leb c hi

unfoldable pub hex_digit_to_value : ℕ → Option ℕ
hex_digit_to_value c =
    if in_range b'0' b'9' c
    then some (c - b'0')
    else if in_range b'a' b'f' c
    then some (c - b'a' + 10)
    else if in_range b'A' b'F' c
    then some (c - b'A' + 10)
    else none

abbrev pub is_special : ℕ → Bool
is_special c = c == b'+' || c == b'%'

-- `data[..end].copy_within(from.., to)`, for `to ≤ from ≤ end`.
unfoldable pub copy_within : List ℕ → ℕ → ℕ → ℕ → List ℕ
copy_within buf end from to =
    take to buf ++ (drop from (take end buf) ++ drop (to + (end - from)) buf)

-- The buffer with the offsets from which the loop goes on.
pub record Cursor : Type 0 where
  pub buf : List ℕ
  pub begin_offset : ℕ
  pub end_offset : ℕ

-- An escape, if both digits are hexadecimal.
unfoldable pub escape : Cursor → ℕ → Option ℕ → Option ℕ → Cursor
escape c at (some digit1) (some digit2) = record {
  buf =
      copy_within (set c.buf at (bit_or (digit1 * 16 % 256) digit2)) c.end_offset (at + 3) (at + 1);
  begin_offset = at + 1;
  end_offset = c.end_offset - 2;
}
escape c at _ _ = record c { begin_offset = at + 1 }

-- The step at the special byte at `at`.
unfoldable pub special_byte : Cursor → ℕ → Cursor
special_byte c at =
    if get_or c.buf at 0 == b'+'
    then record c { buf = set c.buf at b' '; begin_offset = at + 1 }
    else if ltb (at + 2) c.end_offset
    then escape c at (hex_digit_to_value (get_or c.buf (at + 1) 0))
        (hex_digit_to_value (get_or c.buf (at + 2) 0))
    else record c { begin_offset = at + 1 }

unfoldable pub special_at : Cursor → Option ℕ → Option Cursor
special_at c none = some (record c { begin_offset = c.end_offset })
special_at c (some found) =
    let at = found + c.begin_offset in
    if ltb at (length c.buf) then some (special_byte c at) else none

-- Past these two tests every index and range is inside the buffer: `special_byte` goes on from `at`
-- below `end_offset` only.
unfoldable pub slice_fits : Cursor → Bool
slice_fits c = leb c.begin_offset c.end_offset && leb c.end_offset (length c.buf)

module _ (m : Memchr) where
  unfoldable pub url_decode_next : Cursor → Option Cursor
  url_decode_next c =
      let found = m.memchr2 b'+' b'%' (drop c.begin_offset (take c.end_offset c.buf)) in
      if slice_fits c then special_at c found else none

  abbrev pub decoded_bytes : Cursor → Option (List ℕ)
  decoded_bytes c = if leb c.end_offset (length c.buf) then some (take c.end_offset c.buf) else none

  abbrev pub after_next : Option Cursor → (Cursor → Option (List ℕ)) → Option (List ℕ)
  after_next none go_on = none
  after_next (some c) go_on = go_on c

  -- The loop of `url_decode`: each round brings the two offsets nearer to each other. `none` is also
  -- a loop that is still running.
  unfoldable pub url_decode_loop : ℕ → Cursor → Option (List ℕ)
  url_decode_loop zero c = if ltb c.begin_offset c.end_offset then none else decoded_bytes c
  url_decode_loop (suc fuel) c =
      let more = after_next (url_decode_next c) (url_decode_loop fuel) in
      if ltb c.begin_offset c.end_offset then more else decoded_bytes c

  unfoldable pub url_decode : List ℕ → Option (List ℕ)
  url_decode buf =
      url_decode_loop (length buf) (record { buf = buf; begin_offset = 0; end_offset = length buf })
