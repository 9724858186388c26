-- ===== src/Util/Form.antt =====
-- util/src/encoding.rs: the iterator `DecodeFormUrlEncoded` over the key-value pairs of form data.
pub mod Pairs
use sensor_sensei.Common.{
  ℕ, zero, suc, ◌+◌, ltb, leb, ◌&&◌, if◌then◌else◌, List, [], ◌∷◌, Option, none, some, length, take,
  drop,
}
use mathlib.Core.Option
use sensor_sensei.Util.Memchr.{Memchr}
use sensor_sensei.Util.Url.{url_decode}

-- What `next` does: it ends, or yields a key and a value and keeps the rest of the data. `stuck` is
-- an access out of range, which is a panic, or a loop that is still running.
pub data Next : Type 0 where
  done : Next
  yields : List ℕ → List ℕ → List ℕ → Next
  stuck : Next

unfoldable pub yield_decoded : Option (List ℕ) → Option (List ℕ) → List ℕ → Next
yield_decoded (some key) (some val) rest = yields key val rest
yield_decoded _ _ rest = stuck

module _ (m : Memchr) where
  -- From the first `=` on, the value ends at `&` or at the end; `raw_val[1..]` wants one byte.
  unfoldable pub after_key : List ℕ → List ℕ → Next
  after_key raw_key bytes =
      let kv_end = Option.get_or (m.memchr b'&' bytes) (length bytes) in
      let pair =
        yield_decoded (url_decode m raw_key) (url_decode m (drop 1 (take kv_end bytes)))
          (drop 1 (drop kv_end bytes)) in
      if leb kv_end (length bytes) && ltb 0 kv_end then pair else stuck

  unfoldable pub next_at : List ℕ → Option ℕ → Next
  next_at bytes none = done
  next_at bytes (some kv_sep) =
      let pair = after_key (take kv_sep bytes) (drop kv_sep bytes) in
      if leb kv_sep (length bytes) then pair else stuck

  unfoldable pub next : List ℕ → Next
  next bytes = next_at bytes (m.memchr b'=' bytes)

abbrev pub prepend : {A : Type 0} → A → Option (List A) → Option (List A)
prepend x rest = Option.map (λ xs. x ∷ xs) rest

abbrev pub Pair : Type 0
Pair = List ℕ × List ℕ

abbrev pub pairs_after : Next → (List ℕ → Option (List Pair)) → Option (List Pair)
pairs_after done go_on = some []
pairs_after (yields key val rest) go_on = prepend (key, val) (go_on rest)
pairs_after stuck go_on = none

-- All pairs that the iterator yields, on fuel: each takes its `=` off the data.
unfoldable pub pairs : Memchr → ℕ → List ℕ → Option (List Pair)
pairs m zero bytes = none
pairs m (suc fuel) bytes = pairs_after (next m bytes) (pairs m fuel)
