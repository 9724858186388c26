-- ===== src/Util/UrlStep.antt =====
-- One round of `url_decode` (util/src/encoding.rs) on the buffer and its offsets.
use sensor_sensei.Common.{
  ℕ, suc, ◌+◌, ◌-◌, ◌*◌, ◌%◌, ◌≤◌, ◌<◌, bit_or, ltb, leb, ◌==◌, true, false, List, [], ◌∷◌, ◌++◌,
  Option, none, some, length, take, drop, get_or, ◌≡◌, refl, ap, ◌∙◌, arith, inl, inr,
  length-append, append_assoc, append-nil, Bool-cases, take-length_append, drop-length_append,
}
use sensor_sensei.Util.Url.{
  set, hex_digit_to_value, is_special, copy_within, Cursor, escape, special_byte, special_at,
  slice_fits, url_decode_next,
}
use sensor_sensei.Util.Memchr.{Memchr, IsMemchr}
use sensor_sensei.Util.UrlSpec.{
  url_spec, plain_step, Splits, split, escape_spec, broken_spec, alone_spec, pair_spec,
}

-- The cursor stands behind `front`, before `todo`; what follows `todo` is left over.
pub record At (c : Cursor) (front todo junk : List ℕ) : Type 0 where
  pub buf_eq : c.buf ≡ front ++ (todo ++ junk)
  pub begin_eq : c.begin_offset ≡ length front
  pub end_eq : c.end_offset ≡ length front + length todo

get_or-append :
    (xs ys : List ℕ) (k n : ℕ) → n ≡ length xs + k → get_or (xs ++ ys) n 0 ≡ get_or ys k 0
get_or-append [] ys k n e = ap (λ (i : ℕ). get_or ys i 0) (omega arith)
get_or-append (x ∷ xs) ys k n e =
    let e' : n ≡ suc (length xs + k) = omega arith in rw e' (get_or-append xs ys k _ refl)

get_or-at : (xs ys : List ℕ) (y : ℕ) → get_or (xs ++ (y ∷ ys)) (length xs) 0 ≡ y
get_or-at [] ys y = refl
get_or-at (x ∷ xs) ys y = get_or-at xs ys y

set-at : (xs ys : List ℕ) (y v : ℕ) → set (xs ++ (y ∷ ys)) (length xs) v ≡ xs ++ (v ∷ ys)
unfolding set
set-at [] ys y v = refl
set-at (x ∷ xs) ys y v = ap (λ l. x ∷ l) (set-at xs ys y v)

take-at : (n : ℕ) (xs ys : List ℕ) → n ≡ length xs → take n (xs ++ ys) ≡ xs
take-at n xs ys e = rw e (take-length_append xs ys)

drop-at : (n : ℕ) (xs ys : List ℕ) → n ≡ length xs → drop n (xs ++ ys) ≡ ys
drop-at n xs ys e = rw e (drop-length_append xs ys)

module _ (c : Cursor) (front todo junk : List ℕ) (a : At c front todo junk) where
  pub taken : take c.end_offset c.buf ≡ front ++ todo
  taken =
      rw (a.buf_eq, ← append_assoc front todo junk)
        (take-at c.end_offset (front ++ todo) junk
          (omega (arith, a.end_eq, length-append front todo)))

  window : drop c.begin_offset (take c.end_offset c.buf) ≡ todo
  window = rw taken (drop-at c.begin_offset front todo a.begin_eq)

-- What one round does: fewer bytes are left, and the decoded text stays the same.
pub record Step (c : Cursor) (front todo : List ℕ) : Type 0 where
  pub front' : List ℕ
  pub todo' : List ℕ
  pub junk' : List ℕ
  pub stands : At c front' todo' junk'
  pub fewer : length todo' < length todo
  pub kept : front' ++ url_spec todo' ≡ front ++ url_spec todo

pub ltb-false : (a b : ℕ) → b ≤ a → ltb a b ≡ false
ltb-false a b h = ground arith

pub ltb-true : (a b : ℕ) → a < b → ltb a b ≡ true
ltb-true a b h = ground arith

regroup : (a b c d : List ℕ) → a ++ ((b ++ c) ++ d) ≡ (a ++ b) ++ (c ++ d)
regroup a b c d = simp append_assoc

-- A round that leaves `v` for the byte `x`, and `rest'` to be decoded.
leaves :
    (c' : Cursor) (front rest rest' junk' : List ℕ) (x v : ℕ)
    → c'.buf ≡ front ++ (v ∷ (rest' ++ junk'))
    → c'.begin_offset ≡ length front + 1
    → c'.end_offset ≡ length front + suc (length rest')
    → length rest' ≤ length rest
    → url_spec (x ∷ rest) ≡ v ∷ url_spec rest'
    → Step c' front (x ∷ rest)
leaves c' front rest rest' junk' x v b o e le s = record {
  front' = front ++ (v ∷ []);
  todo' = rest';
  junk' = junk';
  stands = record {
    buf_eq = rw (append_assoc front (v ∷ []) (rest' ++ junk')) b;
    begin_eq = omega (arith, length-append front (v ∷ []));
    end_eq = omega (arith, length-append front (v ∷ []));
  };
  fewer = omega arith;
  kept = rw (append_assoc front (v ∷ []) (url_spec rest'), s);
}

-- The round at a special byte `x` behind `front`, before `rest`.
module _ (c : Cursor) (front : List ℕ) (x : ℕ) (rest junk : List ℕ)
    (b : c.buf ≡ front ++ (x ∷ (rest ++ junk)))
    (e : c.end_offset ≡ length front + suc (length rest)) where
  at_front : get_or c.buf (length front) 0 ≡ x
  at_front = rw b (get_or-at front (rest ++ junk) x)

  stays :
      url_spec (x ∷ rest) ≡ x ∷ url_spec rest
      → Step (record c { begin_offset = length front + 1 }) front (x ∷ rest)
  stays s = leaves _ front rest rest junk x x b refl e (omega arith) s

  plus-Step :
      (x == b'+') ≡ true
      → Step
          (record c { buf = set c.buf (length front) b' '; begin_offset = length front + 1 })
          front
          (x ∷ rest)
  plus-Step p =
      leaves _ front rest rest junk x b' ' (rw b (set-at front (rest ++ junk) x b' ')) refl e
        (omega arith) (rw (plain_step x rest (ground arith), p))

-- The same for an escape, whose digits `y` and `z` go.
module _ (c : Cursor) (front : List ℕ) (x y z : ℕ) (r junk : List ℕ)
    (b : c.buf ≡ front ++ (x ∷ y ∷ z ∷ (r ++ junk)))
    (e : c.end_offset ≡ length front + suc (suc (suc (length r)))) where
  second : get_or c.buf (length front + 1) 0 ≡ y
  second = rw b (get_or-append front _ 1 _ refl)

  third : get_or c.buf (length front + 2) 0 ≡ z
  third = rw b (get_or-append front _ 2 _ refl)

  -- The buffer with `v` in place of the special byte, before and after the shift by two bytes.
  written : (v : ℕ) → set c.buf (length front) v ≡ front ++ (v ∷ y ∷ z ∷ (r ++ junk))
  written v = rw b (set-at front _ x v)

  copied :
      (v : ℕ) → drop (length front + 3) (take c.end_offset (front ++ (v ∷ y ∷ z ∷ (r ++ junk)))) ≡ r
  copied v =
      let ends = append_assoc front (v ∷ y ∷ z ∷ r) junk in
      let digits = append_assoc front (v ∷ y ∷ z ∷ []) r in
      rw
        (
          ← ends,
          take-at c.end_offset (front ++ (v ∷ y ∷ z ∷ r)) junk
              (omega (arith, length-append front (v ∷ y ∷ z ∷ r))),
          ← digits,
        )
        (drop-at _ (front ++ (v ∷ y ∷ z ∷ [])) r
          (omega (arith, length-append front (v ∷ y ∷ z ∷ []))))

  kept_front :
      (v : ℕ) → take (length front + 1) (front ++ (v ∷ y ∷ z ∷ (r ++ junk))) ≡ front ++ (v ∷ [])
  kept_front v =
      rw (← append_assoc front (v ∷ []) (y ∷ z ∷ (r ++ junk)))
        (take-at _ (front ++ (v ∷ [])) _ (omega (arith, length-append front (v ∷ []))))

  shifted : (v : ℕ) → List ℕ
  shifted v =
      drop (length front + 1 + (c.end_offset - (length front + 3)))
        (front ++ (v ∷ y ∷ z ∷ (r ++ junk)))

  moved :
      (v : ℕ)
      → copy_within (set c.buf (length front) v) c.end_offset (length front + 3) (length front + 1)
        ≡ front ++ (v ∷ (r ++ shifted v))
  unfolding copy_within shifted
  moved v = rw (written v, copied v, kept_front v) (append_assoc front (v ∷ []) _)

  -- Both digits are hexadecimal, or one is not.
  escape-Step :
      (o1 o2 : Option ℕ)
      → hex_digit_to_value y ≡ o1
      → hex_digit_to_value z ≡ o2
      → (x == b'%') ≡ true
      → Step (escape c (length front) o1 o2) front (x ∷ y ∷ z ∷ r)
  unfolding escape
  escape-Step (some a) (some b') h1 h2 p =
      let v : ℕ = bit_or (a * 16 % 256) b' in
      leaves _ front (y ∷ z ∷ r) r (shifted v) x v (moved v) refl (omega arith) (omega arith)
        (escape_spec x y z a b' r p h1 h2)
  escape-Step none o2 h1 h2 p =
      stays c front x (y ∷ z ∷ r) junk b e (broken_spec x y z none o2 r p h1 h2 refl)
  escape-Step (some a) none h1 h2 p =
      stays c front x (y ∷ z ∷ r) junk b e (broken_spec x y z (some a) none r p h1 h2 refl)

percent : (x : ℕ) → is_special x ≡ true → (x == b'+') ≡ false → (x == b'%') ≡ true
percent x sp np = ground arith

special-Step :
    (c : Cursor) (front : List ℕ) (x : ℕ) (rest junk : List ℕ)
    → c.buf ≡ front ++ (x ∷ (rest ++ junk))
    → c.end_offset ≡ length front + suc (length rest)
    → is_special x ≡ true
    → (x == b'+') ≡ false
    → Step (special_byte c (length front)) front (x ∷ rest)
unfolding special_byte
special-Step c front x [] junk b e sp np =
    rw (at_front c front x [] junk b e, np, ltb-false (length front + 2) c.end_offset (omega arith))
      (stays c front x [] junk b e (alone_spec x np))
special-Step c front x (y ∷ []) junk b e sp np =
    rw
      (
        at_front c front x (y ∷ []) junk b e,
        np,
        ltb-false (length front + 2) c.end_offset (omega arith),
      )
      (stays c front x (y ∷ []) junk b e (pair_spec x y np))
special-Step c front x (y ∷ z ∷ r) junk b e sp np =
    rw
      (
        at_front c front x (y ∷ z ∷ r) junk b e,
        np,
        ltb-true (length front + 2) c.end_offset (omega arith),
        second c front x y z r junk b e,
        third c front x y z r junk b e,
      )
      (escape-Step c front x y z r junk b e _ _ refl refl (percent x sp np))

-- One round at the special byte that `memchr2` found.
byte-Step :
    (c : Cursor) (front : List ℕ) (x : ℕ) (rest junk : List ℕ)
    → c.buf ≡ front ++ (x ∷ (rest ++ junk))
    → c.end_offset ≡ length front + suc (length rest)
    → is_special x ≡ true
    → Step (special_byte c (length front)) front (x ∷ rest)
unfolding special_byte
byte-Step c front x rest junk b e sp = elim (Bool-cases (x == b'+')) [
  | inl p ↦ rw (at_front c front x rest junk b e, p) (plus-Step c front x rest junk b e p)
  | inr np ↦ special-Step c front x rest junk b e sp np
]

-- Bytes that stay, before the bytes that the round is about.
wider :
    (c' : Cursor) (front pre t todo : List ℕ)
    → length t ≤ length todo
    → url_spec todo ≡ pre ++ url_spec t
    → Step c' (front ++ pre) t
    → Step c' front todo
wider c' front pre t todo le same s = record {
  front' = s.front';
  todo' = s.todo';
  junk' = s.junk';
  stands = s.stands;
  fewer = omega (arith, s.fewer);
  kept = rw (s.kept, same) (append_assoc front pre (url_spec t));
}

found-Step :
    (c : Cursor) (front todo junk : List ℕ)
    → At c front todo junk
    → (s : Splits todo) → Step (special_byte c (length s.pre + c.begin_offset)) front todo
found-Step c front todo junk a s =
    let before : List ℕ = front ++ s.pre in
    let place : length s.pre + c.begin_offset ≡ length before =
      omega (arith, a.begin_eq, length-append front s.pre) in
    let size : length todo ≡ length s.pre + suc (length s.rest) =
      ap (λ l. length l) s.whole ∙ length-append s.pre (s.at ∷ s.rest) in
    let buf_eq : c.buf ≡ before ++ (s.at ∷ (s.rest ++ junk)) =
      a.buf_eq
      ∙ ap (λ l. front ++ (l ++ junk)) s.whole
      ∙ regroup front s.pre (s.at ∷ s.rest) junk in
    let end_eq : c.end_offset ≡ length before + suc (length s.rest) =
      omega (arith, a.end_eq, size, length-append front s.pre) in
    rw place (
      wider _ front s.pre (s.at ∷ s.rest) todo (omega arith) s.same
        (byte-Step c before s.at s.rest junk buf_eq end_eq s.special))

-- All accesses of a round are inside the buffer.
module _ (c : Cursor) (front todo junk : List ℕ) (a : At c front todo junk) where
  length-buf : length c.buf ≡ length front + length todo + length junk
  length-buf = omega (
    arith,
    ap (λ (l : List ℕ). length l) a.buf_eq,
    length-append front (todo ++ junk),
    length-append todo junk,
  )

  pub end_inside : leb c.end_offset (length c.buf) ≡ true
  end_inside = ground (arith, length-buf, a.end_eq)

  slice_inside : slice_fits c ≡ true
  unfolding slice_fits
  slice_inside = rw end_inside (ground (arith, a.begin_eq, a.end_eq))

module _ (m : Memchr) (laws : IsMemchr m) where
  -- One round of the loop of `url_decode`.
  pub next-Step :
      (c : Cursor) (front todo junk : List ℕ)
      → At c front todo junk
      → 0 < length todo
      → (c' : Cursor) × (url_decode_next m c ≡ some c') × Step c' front todo
  unfolding url_decode_next special_at
  next-Step c front todo junk a some_left = elim (split todo) [
    | inl (none_found, same) ↦ (
      record c { begin_offset = c.end_offset },
      rw
          (
            slice_inside c front todo junk a,
            laws.memchr2_lem,
            window c front todo junk a,
            none_found,
          )
          refl,
      record {
        front' = front ++ todo;
        todo' = [];
        junk' = junk;
        stands = record {
          buf_eq = rw (append_assoc front todo junk) a.buf_eq;
          begin_eq = omega (arith, a.end_eq, length-append front todo);
          end_eq = omega (arith, a.end_eq, length-append front todo);
        };
        fewer = some_left;
        kept = rw (same) (unfold url_spec in append-nil (front ++ todo));
      },
    )
    | inr s ↦
        let inside : ltb (length s.pre + c.begin_offset) (length c.buf) ≡ true = ltb-true _ _ (
          omega (
            arith,
            length-buf c front todo junk a,
            a.begin_eq,
            ap (λ (l : List ℕ). length l) s.whole,
            length-append s.pre (s.at ∷ s.rest),
          )) in
        (
          special_byte c (length s.pre + c.begin_offset),
          rw
              (
                slice_inside c front todo junk a,
                laws.memchr2_lem,
                window c front todo junk a,
                s.found,
                inside,
              )
              refl,
          found-Step c front todo junk a s,
        )
  ]
