-- ===== src/Codec/Signed.antt =====
-- The signed LEB128 decoding of protocol/src/codec.rs: `sleb_loop` on `signed_groups`.
use sensor_sensei.Common.{
  ℕ, zero, suc, ◌+◌, ◌-◌, ◌*◌, ◌%◌, ◌^◌, ◌≤◌, ◌<◌, bit_and, bit_or, ltb, ◌==◌, ◌≡◌, ap, ◌∙◌, arith,
  ◌⊎◌, inl, inr, List, [], ◌∷◌, ◌++◌, Bool-cases, true, false,
}
use native.Mathlib.Nat.{
  mod-lt, mod-eq-sub-mul-div, mul-div-mul_right, pow-suc, div-add-mod, add-zero, add-suc,
}
use sensor_sensei.Common.Bits.{sign_bit, bit_or-disjoint, pow-pos}
use sensor_sensei.Codec.Traits.{Decoder}
use sensor_sensei.Codec.Leb.{sar7, sign_only}
use sensor_sensei.Codec.Leb.Bounds.{signed_groups, InRange, sar7-step, sign_only_last}
use sensor_sensei.Codec.Stream.{IsStream, Consumes}
use sensor_sensei.Codec.Wire.{shl, sleb_loop, sign_extend}
use sensor_sensei.Codec.RoundTrip.{
  last_bit, more_bit, low_of_more, low_of_last, shift_seven, group_below,
}

abbrev w64 : ℕ
w64 = 2 ^ 64

pow_split : (s t : ℕ) → 2 ^ (s + t) ≡ 2 ^ s * 2 ^ t
pow_split s zero = rw (add-zero) (omega arith)
pow_split s (suc t) = omega (
  arith,
  ap (λ (n : ℕ). 2 ^ n) (add-suc s t),
  pow-suc 2 (s + t),
  ap (λ (n : ℕ). 2 ^ s * n) (pow-suc 2 t),
  pow_split s t,
)

mod_scale : (g p q : ℕ) → 0 < p → g * p % (q * p) ≡ g % q * p
mod_scale g p q h = omega (
  arith,
  mod-eq-sub-mul-div (g * p) (q * p),
  ap (λ (t : ℕ). q * p * t) (mul-div-mul_right g q h),
  ap (λ (t : ℕ). t * p) (div-add-mod g q),
)

complement : (s : ℕ) → s ≤ 64 → w64 ≡ 2 ^ (64 - s) * 2 ^ s
complement s h = ap (λ (t : ℕ). 2 ^ t) whole ∙ pow_split (64 - s) s
  where
    whole : 64 ≡ 64 - s + s
    whole = omega arith

-- A shifted value keeps the bits below `s` clear, within 64 bits.
shl_scale : (g s : ℕ) → s ≤ 64 → shl 64 g s ≡ g % 2 ^ (64 - s) * 2 ^ s
shl_scale g s h = rw (complement s h) (mod_scale g (2 ^ s) (2 ^ (64 - s)) (pow-pos s))

shl_room : (g s : ℕ) → s ≤ 64 → shl 64 g s + 2 ^ s ≤ w64
shl_room g s h = omega (
  arith,
  shl_scale g s h,
  complement s h,
  grow (g % 2 ^ (64 - s)) (2 ^ (64 - s)) (2 ^ s) (mod-lt g (pow-pos (64 - s))),
)
  where
    grow : (x q p : ℕ) → x < q → x * p + p ≤ q * p
    grow x q p lt = grind arith

or_shl : (g val s : ℕ) → s ≤ 64 → val < 2 ^ s → bit_or val (shl 64 g s) ≡ val + shl 64 g s
or_shl g val s h hv = rw (shl_scale g s h) (bit_or-disjoint s val (g % 2 ^ (64 - s)) hv)

scale : (p q : ℕ) → 0 < q → p ≤ q * p
scale p q lt = grind arith

pow_le : (s : ℕ) → s ≤ 64 → 2 ^ s ≤ w64
pow_le s le = omega (arith, complement s le, scale (2 ^ s) (2 ^ (64 - s)) (pow-pos (64 - s)))

-- The ones above bit `t`.
shl_ones : (t : ℕ) → t ≤ 64 → shl 64 (2 ^ 64 - 1) t ≡ w64 - 2 ^ t
shl_ones t h = omega (arith, pow-pos t, pow_le t h)

sar7_cases :
    (v : ℕ) → v < w64 → (v % 128 + 128 * sar7 v ≡ v) ⊎ (v % 128 + 128 * sar7 v ≡ v + 127 * w64)
unfolding sar7
sar7_cases v h = ground arith

-- What the last group leaves: nothing, or the bits above it all ones.
sign_only_cases :
    (v : ℕ)
    → v < w64
    → sign_only (sar7 v) (v % 128) ≡ true
    → ((v < 64) × ((bit_and (v % 128) 0x40 == 0) ≡ true))
      ⊎ ((v ≡ w64 - 128 + v % 128) × (64 ≤ v % 128) × ((bit_and (v % 128) 0x40 == 0) ≡ false))
unfolding sar7
sign_only_cases v h e = ground (arith, sign_bit (v % 128))

module _ (v val s : ℕ) (k : ℕ) (place : s + 7 * k ≡ 63) (hv : val < 2 ^ s) where
  -- `val'` of the loop after the group `g`.
  joined : bit_or val (shl 64 (v % 128) s) ≡ val + shl 64 (v % 128) s
  joined = or_shl (v % 128) val s (omega arith) hv

  joined_below : bit_or val (shl 64 (v % 128) s) < 2 ^ (s + 7)
  joined_below =
      omega (arith, joined, shift_seven s, group_below (v % 128) val (2 ^ s) (omega arith) hv)

  -- One more group does not change the number modulo 2 ^ 64.
  step_value :
      v < w64
      → (bit_or val (shl 64 (v % 128) s) + sar7 v * 2 ^ (s + 7)) % w64 ≡ (val + v * 2 ^ s) % w64
  step_value h = elim (sar7_cases v h) [
    | inl e ↦
        omega
          (arith, joined, ap (λ (t : ℕ). sar7 v * t) (shift_seven s), ap (λ (t : ℕ). t * 2 ^ s) e)
    | inr e ↦
        omega
          (arith, joined, ap (λ (t : ℕ). sar7 v * t) (shift_seven s), ap (λ (t : ℕ). t * 2 ^ s) e)
  ]

  positive_value : v < 64 → bit_or val (shl 64 (v % 128) s) ≡ (val + v * 2 ^ s) % w64
  positive_value small =
      let whole : v % 128 ≡ v = omega arith in
      omega (arith, joined, ap (λ (t : ℕ). t * 2 ^ s) whole, shl_room v s (omega arith), hv)

  extended_value :
      v ≡ w64 - 128 + v % 128
      → s + 7 < 64
      → bit_or (bit_or val (shl 64 (v % 128) s)) (shl 64 (2 ^ 64 - 1) (s + 7))
        ≡ (val + v * 2 ^ s) % w64
  extended_value neg room = omega (
    arith,
    joined,
    or_shl (2 ^ 64 - 1) (bit_or val (shl 64 (v % 128) s)) (s + 7) (omega arith) joined_below,
    shl_ones (s + 7) (omega arith),
    pow_le (s + 7) (omega arith),
    shift_seven s,
    pow-pos s,
    ap (λ (t : ℕ). t * 2 ^ s) neg,
    group_below (v % 128) val (2 ^ s) (omega arith) hv,
  )

  full_value :
      v ≡ w64 - 128 + v % 128 → s ≡ 63 → bit_or val (shl 64 (v % 128) s) ≡ (val + v * 2 ^ s) % w64
  full_value neg full = omega (
    arith,
    joined,
    ap (λ (t : ℕ). 2 ^ t) full,
    ap (λ (t : ℕ). t * 2 ^ s) neg,
    shl_room (v % 128) s (omega arith),
  )

  last_value :
      v < w64
      → sign_only (sar7 v) (v % 128) ≡ true
      → sign_extend (bit_or val (shl 64 (v % 128) s)) (v % 128) (s + 7) ≡ (val + v * 2 ^ s) % w64
  last_value h e = elim (sign_only_cases v h e) [
    | inl (small, clear) ↦ rw clear (ground (arith, positive_value small))
    | inr (neg, high, set) ↦ elim (Bool-cases (ltb (s + 7) 64)) [
      | inl room ↦ rw (room, set) (extended_value neg (ground arith))
      | inr full ↦ rw full (full_value neg (ground arith))
    ]
  ]

module _ {S E : Type 0} (d : Decoder S E) (Holds : S → List ℕ → Type 0)
    (stream : IsStream d Holds) where
  sleb_last :
      (k b val shift : ℕ)
      → b < 128
      → Consumes d Holds
          (sleb_loop d (suc k) val shift)
          (sign_extend (bit_or val (shl 64 b shift)) b (shift + 7))
          (b ∷ [])
  unfolding sleb_loop
  sleb_last k b val shift h s rest held =
      let (s', e, held', o) = stream.read_lem s (b ∷ []) rest held in
      (s', rw (e, last_bit b h, low_of_last b h), held', o)

  sleb_more :
      (k g val shift r : ℕ) (bytes : List ℕ)
      → g < 128
      → Consumes d Holds (sleb_loop d k (bit_or val (shl 64 g shift)) (shift + 7)) r bytes
      → Consumes d Holds (sleb_loop d (suc k) val shift) r ((g + 128) ∷ bytes)
  unfolding sleb_loop
  sleb_more k g val shift r bytes h tail s rest held =
      let (s', e, held', o) = stream.read_lem s ((g + 128) ∷ []) (bytes ++ rest) held in
      let (s'', e', held'', o') = tail s' rest held' in
      (s'', rw (e, more_bit g h, low_of_more g h) e', held'', omega arith)

  pub sleb_loop-signed_groups :
      (k v val shift : ℕ)
      → InRange (64 * 128 ^ k) v
      → val < 2 ^ shift
      → shift + 7 * k ≡ 63
      → Consumes d Holds
          (sleb_loop d (suc k) val shift)
          ((val + v * 2 ^ shift) % w64)
          (signed_groups k v)
  unfolding signed_groups
  sleb_loop-signed_groups zero v val shift h hv place =
      rw (← last_value v val shift zero place hv (omega arith) (sign_only_last v h))
        (sleb_last zero (v % 128) val shift (omega arith))
  sleb_loop-signed_groups (suc k) v val shift h hv place =
      let tail =
        sleb_loop-signed_groups k (sar7 v) (bit_or val (shl 64 (v % 128) shift)) (shift + 7)
          (sar7-step k v h) (joined_below v val shift (suc k) place hv) (omega arith) in
      elim (Bool-cases (sign_only (sar7 v) (v % 128))) [
        | inl last ↦
            rw (last, ← last_value v val shift (suc k) place hv (omega arith) last)
              (sleb_last (suc k) (v % 128) val shift (omega arith))
        | inr more ↦
            rw (more, ← step_value v val shift (suc k) place hv (omega arith))
              (sleb_more (suc k) (v % 128) val shift _ (signed_groups k (sar7 v)) (omega arith)
                tail)
      ]
