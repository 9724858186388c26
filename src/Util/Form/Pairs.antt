-- ===== src/Util/Form/Pairs.antt =====
-- The pairs of well formed data, and percent encoding.
use sensor_sensei.Common.{
  ℕ, zero, suc, ◌+◌, ◌*◌, ◌-◌, ◌/◌, ◌%◌, ◌<◌, bit_or, ◌==◌, ltb, leb, ◌&&◌, true, length-append,
  if◌then◌else◌, List, [], ◌∷◌, ◌++◌, none, some, length, take, drop, All, ◌≡◌, refl, ap, ◌∙◌,
  arith, false, take-length_append, drop-length_append,
}
use mathlib.Core.List.{map}
use sensor_sensei.Common.Bits.{bit_or-disjoint, bit_or_comm}
use sensor_sensei.Util.Memchr.{Memchr, IsMemchr, first_index}
use sensor_sensei.Util.Url.{hex_digit_to_value, url_decode}
use sensor_sensei.Util.UrlSpec.{url_spec}
use sensor_sensei.Util.UrlDecode.{url_decode-url_spec}
use sensor_sensei.Util.Form.{done, yields, yield_decoded, after_key, next_at, next, pairs}

abbrev pub Lacks : ℕ → List ℕ → Type 0
Lacks b t = All (λ c. (c == b) ≡ false) t

first_index-append :
    (b : ℕ) (t rest : List ℕ)
    → Lacks b t
    → first_index (λ c. c == b) (t ++ (b ∷ rest)) ≡ some (length t)
unfolding first_index
first_index-append b [] rest h = ground arith
first_index-append b (c ∷ t) rest (h, hs) = rw (h, first_index-append b t rest hs)

first_index-none : (b : ℕ) (t : List ℕ) → Lacks b t → first_index (λ c. c == b) t ≡ none
unfolding first_index
first_index-none b [] h = refl
first_index-none b (c ∷ t) (h, hs) = rw (h, first_index-none b t hs)

take-length : (t : List ℕ) → take (length t) t ≡ t
take-length [] = refl
take-length (x ∷ t) = ap (λ l. x ∷ l) (take-length t)

drop-length : (t : List ℕ) → drop (length t) t ≡ []
drop-length [] = refl
drop-length (x ∷ t) = drop-length t

-- The data of raw pairs, as a form sends them.
abbrev pub form_bytes : List (List ℕ × List ℕ) → List ℕ
form_bytes [] = []
form_bytes ((k, v) ∷ []) = k ++ (b'=' ∷ v)
form_bytes ((k, v) ∷ (p ∷ ps)) = k ++ (b'=' ∷ (v ++ (b'&' ∷ form_bytes (p ∷ ps))))

abbrev pub IsPair : List ℕ × List ℕ → Type 0
IsPair (k, v) = Lacks b'=' k × Lacks b'&' v

abbrev pub read_pair : List ℕ × List ℕ → List ℕ × List ℕ
read_pair (k, v) = (url_spec k, url_spec v)

front_inside : (k rest : List ℕ) → leb (length k) (length (k ++ rest)) ≡ true
front_inside k rest = ground (arith, length-append k rest)

whole_inside :
    (v : List ℕ) → (leb (length (b'=' ∷ v)) (length (b'=' ∷ v)) && ltb 0 (length (b'=' ∷ v))) ≡ true
whole_inside v = ground arith

value_inside :
    (v rest : List ℕ)
    → (leb (length (b'=' ∷ v)) (length ((b'=' ∷ v) ++ rest)) && ltb 0 (length (b'=' ∷ v))) ≡ true
value_inside v rest = ground (arith, length-append (b'=' ∷ v) rest)

module _ (m : Memchr) (laws : IsMemchr m) where
  next_last :
      (k v : List ℕ)
      → Lacks b'=' k
      → Lacks b'&' v
      → next m (k ++ (b'=' ∷ v)) ≡ yields (url_spec k) (url_spec v) []
  unfolding next next_at after_key yield_decoded
  next_last k v hk hv = rw (
    laws.memchr_lem b'=',
    first_index-append b'=' k v hk,
    front_inside k (b'=' ∷ v),
    take-length_append k,
    drop-length_append k,
    laws.memchr_lem b'&',
    first_index-none b'&' (b'=' ∷ v) (refl, hv),
    whole_inside v,
    take-length v,
    drop-length v,
    url_decode-url_spec m laws k,
    url_decode-url_spec m laws v,
  )

  next_more :
      (k v rest : List ℕ)
      → Lacks b'=' k
      → Lacks b'&' v
      → next m (k ++ (b'=' ∷ (v ++ (b'&' ∷ rest)))) ≡ yields (url_spec k) (url_spec v) rest
  unfolding next next_at after_key yield_decoded
  next_more k v rest hk hv = rw (
    laws.memchr_lem b'=',
    first_index-append b'=' k (v ++ (b'&' ∷ rest)) hk,
    front_inside k (b'=' ∷ (v ++ (b'&' ∷ rest))),
    take-length_append k,
    drop-length_append k,
    laws.memchr_lem b'&',
    first_index-append b'&' (b'=' ∷ v) rest (refl, hv),
    value_inside v (b'&' ∷ rest),
    take-length_append v,
    drop-length_append v,
    url_decode-url_spec m laws k,
    url_decode-url_spec m laws v,
  )

  next_end : next m [] ≡ done
  unfolding next next_at first_index
  next_end = rw (laws.memchr_lem b'=' []) refl

  -- The iterator yields the pairs of well formed data, keys and values decoded, and ends.
  pub pairs-form_bytes :
      (kvs : List (List ℕ × List ℕ)) (fuel : ℕ)
      → All IsPair kvs
      → length kvs < fuel
      → pairs m fuel (form_bytes kvs) ≡ some (map read_pair kvs)
  unfolding pairs
  pairs-form_bytes kvs zero h lt = absurd (omega arith)
  pairs-form_bytes [] (suc fuel) h lt = rw next_end refl
  pairs-form_bytes ((k, v) ∷ []) (suc zero) h lt = absurd (omega arith)
  pairs-form_bytes ((k, v) ∷ []) (suc (suc fuel)) ((hk, hv), _) lt =
      rw (next_last k v hk hv, next_end) refl
  pairs-form_bytes ((k, v) ∷ (p ∷ ps)) (suc fuel) ((hk, hv), hs) lt =
      rw
        (next_more k v (form_bytes (p ∷ ps)) hk hv, pairs-form_bytes (p ∷ ps) fuel hs (omega arith))

-- `%XY` for a byte, with the digits in upper case.
unfoldable pub hex_digit : ℕ → ℕ
hex_digit n = if ltb n 10 then n + b'0' else n - 10 + b'A'

unfoldable pub percent_encode : List ℕ → List ℕ
percent_encode [] = []
percent_encode (b ∷ bs) = b'%' ∷ hex_digit (b / 16) ∷ hex_digit (b % 16) ∷ percent_encode bs

hex_digit_to_value-hex_digit : (n : ℕ) → n < 16 → hex_digit_to_value (hex_digit n) ≡ some n
unfolding hex_digit hex_digit_to_value
hex_digit_to_value-hex_digit n lt = ground arith

two_digits : (b : ℕ) → b < 256 → bit_or (b / 16 * 16 % 256) (b % 16) ≡ b
two_digits b lt = omega (
  arith,
  ap (λ (t : ℕ). bit_or t (b % 16)) small,
  bit_or_comm (b / 16 * 16) (b % 16),
  bit_or-disjoint 4 (b % 16) (b / 16) (omega arith),
)
  where
    small : b / 16 * 16 % 256 ≡ b / 16 * 16
    small = omega arith

-- Every text of bytes survives percent encoding.
pub url_spec-percent_encode :
    (bytes : List ℕ) → All (λ b. b < 256) bytes → url_spec (percent_encode bytes) ≡ bytes
unfolding url_spec percent_encode
url_spec-percent_encode [] h = refl
url_spec-percent_encode (b ∷ bs) (lt, hs) = rw (
  hex_digit_to_value-hex_digit (b / 16) (omega arith),
  hex_digit_to_value-hex_digit (b % 16) (omega arith),
  two_digits b lt,
  url_spec-percent_encode bs hs,
)

module _ (m : Memchr) (laws : IsMemchr m) where
  -- Decoding percent-encoded bytes gives the bytes.
  pub url_decode-percent_encode :
      (bytes : List ℕ) → All (λ b. b < 256) bytes → url_decode m (percent_encode bytes) ≡ some bytes
  url_decode-percent_encode bytes h =
      url_decode-url_spec m laws (percent_encode bytes) ∙ ap some (url_spec-percent_encode bytes h)
