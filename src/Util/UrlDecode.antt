-- ===== src/Util/UrlDecode.antt =====
-- The loop of `url_decode` (util/src/encoding.rs) against its description (Util/UrlSpec).
use sensor_sensei.Common.{
  ℕ, zero, suc, ◌≤◌, List, [], ◌∷◌, ◌++◌, some, length, ◌≡◌, refl, sym, arith, append-nil,
}
use sensor_sensei.Util.Url.{Cursor, decoded_bytes, url_decode_loop, url_decode}
use sensor_sensei.Util.Memchr.{Memchr, IsMemchr}
use sensor_sensei.Util.UrlSpec.{url_spec}
use sensor_sensei.Util.UrlStep.{end_inside, taken, ltb-false, ltb-true, At, next-Step}

module _ (m : Memchr) (laws : IsMemchr m) where
  ended :
      (c : Cursor) (front junk : List ℕ)
      → At c front [] junk
      → decoded_bytes m c ≡ some (front ++ url_spec [])
  unfolding url_spec
  ended c front junk a = rw (end_inside c front [] junk a, taken c front [] junk a) refl

  -- With a round for each byte that is left, the loop ends, and has decoded them.
  url_decode_loop-url_spec :
      (fuel : ℕ) (c : Cursor) (front todo junk : List ℕ)
      → At c front todo junk
      → length todo ≤ fuel
      → url_decode_loop m fuel c ≡ some (front ++ url_spec todo)
  unfolding url_decode_loop
  url_decode_loop-url_spec zero c front [] junk a le =
      rw (ltb-false c.begin_offset c.end_offset (omega (arith, a.begin_eq, a.end_eq)))
        (ended c front junk a)
  url_decode_loop-url_spec zero c front (x ∷ todo) junk a le = absurd (omega arith)
  url_decode_loop-url_spec (suc fuel) c front [] junk a le =
      rw (ltb-false c.begin_offset c.end_offset (omega (arith, a.begin_eq, a.end_eq)))
        (ended c front junk a)
  url_decode_loop-url_spec (suc fuel) c front (x ∷ todo) junk a le =
      let (c', e, s) = next-Step m laws c front (x ∷ todo) junk a (omega arith) in
      let more =
        url_decode_loop-url_spec fuel c' s.front' s.todo' s.junk' s.stands
          (omega (arith, s.fewer)) in
      rw (
        ltb-true c.begin_offset c.end_offset (omega (arith, a.begin_eq, a.end_eq)),
        e,
        more,
        s.kept,
      )

  -- Decoding in place ends on every buffer, without an access out of its range, and gives the
  -- functional reading.
  pub url_decode-url_spec : (buf : List ℕ) → url_decode m buf ≡ some (url_spec buf)
  unfolding url_decode
  url_decode-url_spec buf =
      url_decode_loop-url_spec (length buf) _ [] buf []
        (record { buf_eq = sym (append-nil buf); begin_eq = refl; end_eq = omega arith })
        (omega arith)
