-- ===== src/Util/UrlSpec.antt =====
-- The recursive description of URL decoding, and where the first escape of a text stands.
use sensor_sensei.Common.{
  ℕ, ◌*◌, ◌%◌, ◌≤◌, bit_or, ◌==◌, if◌then◌else◌, true, false, List, [], ◌∷◌, ◌++◌, Option, none,
  some, length, ◌≡◌, refl, ap, arith, ◌⊎◌, inl, inr, Bool-cases,
}
use sensor_sensei.Util.Memchr.{first_index}
use sensor_sensei.Util.Url.{hex_digit_to_value, is_special}

abbrev pub plain : ℕ → ℕ
plain c = if c == b'+' then b' ' else c

-- The byte of an escape of `c`, `x` and `y`, if they are one.
abbrev pub joined : Option ℕ → Option ℕ → Option ℕ
joined (some a) (some b) = some (bit_or (a * 16 % 256) b)
joined _ _ = none

abbrev pub escaped : ℕ → ℕ → ℕ → Option ℕ
escaped c x y = if c == b'%' then joined (hex_digit_to_value x) (hex_digit_to_value y) else none

abbrev pub decoded : ℕ → Option ℕ → List ℕ → List ℕ → List ℕ
decoded c (some v) behind next = v ∷ behind
decoded c none behind next = plain c ∷ next

unfoldable pub url_spec : List ℕ → List ℕ
url_spec [] = []
url_spec (c ∷ []) = plain c ∷ []
url_spec (c ∷ x ∷ []) = plain c ∷ url_spec (x ∷ [])
url_spec (c ∷ x ∷ y ∷ r) =
    let behind = url_spec r in
    let next = url_spec (x ∷ y ∷ r) in decoded c (escaped c x y) behind next

pub plain_step :
    (c : ℕ) (t : List ℕ) → (c == b'%') ≡ false → url_spec (c ∷ t) ≡ plain c ∷ url_spec t
unfolding url_spec
plain_step c [] h = refl
plain_step c (x ∷ []) h = refl
plain_step c (x ∷ y ∷ r) h = rw h

-- A text splits at its first special byte, and what stands before it decodes to itself.
pub record Splits (t : List ℕ) : Type 0 where
  pub pre : List ℕ
  pub at : ℕ
  pub rest : List ℕ
  pub whole : t ≡ pre ++ (at ∷ rest)
  pub found : first_index is_special t ≡ some (length pre)
  pub special : is_special at ≡ true
  pub same : url_spec t ≡ pre ++ url_spec (at ∷ rest)

pub split : (t : List ℕ) → ((first_index is_special t ≡ none) × (url_spec t ≡ t)) ⊎ Splits t
unfolding first_index
split [] = inl (refl, unfold url_spec in refl)
split (c ∷ t) = elim (Bool-cases (is_special c)) [
  | inl sp ↦ inr (record {
    pre = [];
    at = c;
    rest = t;
    whole = refl;
    found = rw sp;
    special = sp;
    same = refl;
  })
  | inr pl ↦ elim (split t) [
    | inl (e, s) ↦ inl (rw (pl, e), rw (plain_step c t (ground arith), s) (ground arith))
    | inr s ↦ inr (record {
      pre = c ∷ s.pre;
      at = s.at;
      rest = s.rest;
      whole = ap (λ l. c ∷ l) s.whole;
      found = rw (pl, s.found);
      special = s.special;
      same = rw (plain_step c t (ground arith), s.same) (ground arith);
    })
  ]
]

pub escape_spec :
    (x y z a b : ℕ) (r : List ℕ)
    → (x == b'%') ≡ true
    → hex_digit_to_value y ≡ some a
    → hex_digit_to_value z ≡ some b
    → url_spec (x ∷ y ∷ z ∷ r) ≡ bit_or (a * 16 % 256) b ∷ url_spec r
unfolding url_spec
escape_spec x y z a b r p h1 h2 = rw (p, h1, h2)

pub stays_plain : (x : ℕ) → (x == b'+') ≡ false → plain x ≡ x
stays_plain x np = rw np

pub broken_spec :
    (x y z : ℕ) (o1 o2 : Option ℕ) (r : List ℕ)
    → (x == b'%') ≡ true
    → hex_digit_to_value y ≡ o1
    → hex_digit_to_value z ≡ o2
    → joined o1 o2 ≡ none
    → url_spec (x ∷ y ∷ z ∷ r) ≡ x ∷ url_spec (y ∷ z ∷ r)
unfolding url_spec
broken_spec x y z o1 o2 r p h1 h2 j = rw (p, h1, h2, j, stays_plain x (ground arith))

pub alone_spec : (x : ℕ) → (x == b'+') ≡ false → url_spec (x ∷ []) ≡ x ∷ url_spec []
unfolding url_spec
alone_spec x np = rw np

pub pair_spec : (x y : ℕ) → (x == b'+') ≡ false → url_spec (x ∷ y ∷ []) ≡ x ∷ url_spec (y ∷ [])
unfolding url_spec
pair_spec x y np = rw np

-- Decoding does not make a text longer.
pub length-url_spec-le : (t : List ℕ) → length (url_spec t) ≤ length t
unfolding url_spec
length-url_spec-le [] = omega arith
length-url_spec-le (c ∷ []) = omega arith
length-url_spec-le (c ∷ x ∷ []) = omega arith
length-url_spec-le (c ∷ x ∷ y ∷ r) =
    ground (arith, length-url_spec-le r, length-url_spec-le (x ∷ y ∷ r))
