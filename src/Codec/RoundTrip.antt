-- ===== src/Codec/RoundTrip.antt =====
-- The unsigned LEB128 decoding of protocol/src/codec.rs on groups of seven bits.
use sensor_sensei.Common.{
  ℕ, zero, suc, ◌+◌, ◌*◌, ◌/◌, ◌%◌, ◌^◌, ◌<◌, bit_and, bit_or, ltb, ◌==◌, ◌≡◌, ap, arith, inl, inr,
  List, [], ◌∷◌, ◌++◌, Bool-cases, true, false,
}
use native.Mathlib.Nat.{mod-eq_of_lt, div-add-mod, pow-suc, add_assoc}
use native.Mathlib.Numerals.{towards_suc}
use sensor_sensei.Common.Bits.{low_seven, top_bit, bit_or-disjoint}
use sensor_sensei.Codec.Traits.{Decoder}
use sensor_sensei.Codec.Leb.Bounds.{groups}
use sensor_sensei.Codec.Stream.{IsStream, Consumes}
use sensor_sensei.Codec.Wire.{shl, uleb_loop}

add_group :
    (w g val shift : ℕ)
    → val < 2 ^ shift
    → g * 2 ^ shift < 2 ^ w
    → bit_or val (shl w g shift) ≡ val + g * 2 ^ shift
add_group w g val shift h fits = rw (mod-eq_of_lt fits) (bit_or-disjoint shift val g h)

pub shift_seven : (s : ℕ) → 2 ^ (s + 7) ≡ 128 * 2 ^ s
shift_seven s = simp towards_suc (omega arith)

pub group_below : (g val p : ℕ) → g < 128 → val < p → val + g * p < 128 * p
group_below g val p h hv = grind arith

-- The lowest group of `v` and the rest, counted from bit `s` on.
split_group : (v s : ℕ) → v * 2 ^ s ≡ v % 128 * 2 ^ s + v / 128 * 2 ^ (s + 7)
split_group v s = omega (
  arith,
  ap (λ (t : ℕ). t * 2 ^ s) (div-add-mod v 128),
  ap (λ (t : ℕ). v / 128 * t) (shift_seven s),
)

pub last_bit : (b : ℕ) → b < 128 → (bit_and b 0x80 == 0) ≡ true
last_bit b h = ground (arith, top_bit b)

pub more_bit : (g : ℕ) → g < 128 → (bit_and (g + 128) 0x80 == 0) ≡ false
more_bit g h = ground (arith, top_bit (g + 128))

pub low_of_more : (g : ℕ) → g < 128 → bit_and (g + 128) 0x7f ≡ g
low_of_more g h = omega (arith, low_seven (g + 128))

pub low_of_last : (g : ℕ) → g < 128 → bit_and g 0x7f ≡ g
low_of_last g h = omega (arith, low_seven g)

module _ {S E : Type 0} (d : Decoder S E) (Holds : S → List ℕ → Type 0)
    (stream : IsStream d Holds) where
  uleb_last :
      (w k b val shift : ℕ)
      → b < 128
      → Consumes d Holds (uleb_loop d w (suc k) val shift) (bit_or val (shl w b shift)) (b ∷ [])
  unfolding uleb_loop
  uleb_last w k b val shift h s rest held =
      let (s', e, held', o) = stream.read_lem s (b ∷ []) rest held in
      (s', rw (e, last_bit b h, low_of_last b h), held', o)

  uleb_more :
      (w k g val shift r : ℕ) (bytes : List ℕ)
      → g < 128
      → Consumes d Holds (uleb_loop d w k (bit_or val (shl w g shift)) (shift + 7)) r bytes
      → Consumes d Holds (uleb_loop d w (suc k) val shift) r ((g + 128) ∷ bytes)
  unfolding uleb_loop
  uleb_more w k g val shift r bytes h tail s rest held =
      let (s', e, held', o) = stream.read_lem s ((g + 128) ∷ []) (bytes ++ rest) held in
      let (s'', e', held'', o') = tail s' rest held' in
      (s'', rw (e, more_bit g h, low_of_more g h) e', held'', omega arith)

  pub uleb_loop-groups :
      (w k v val shift : ℕ)
      → v < 128 ^ suc k
      → val < 2 ^ shift
      → val + v * 2 ^ shift < 2 ^ w
      → Consumes d Holds (uleb_loop d w (suc k) val shift) (val + v * 2 ^ shift) (groups k v)
  unfolding groups
  uleb_loop-groups w zero v val shift h hv fits =
      rw (← add_group w v val shift hv (omega arith)) (uleb_last w zero v val shift (omega arith))
  uleb_loop-groups w (suc k) v val shift h hv fits =
      let g : ℕ = v % 128 in
      let split = split_group v shift in
      let joined = add_group w g val shift hv (omega arith) in
      let tail =
        uleb_loop-groups w k (v / 128) (bit_or val (shl w g shift)) (shift + 7)
          (omega (arith, pow-suc 128 (suc k)))
          (omega (arith, joined, shift_seven shift, group_below g val (2 ^ shift) (omega arith) hv))
          (omega (arith, joined)) in
      elim (Bool-cases (ltb 127 v)) [
        | inl more ↦
            rw (more, split, ← add_assoc, ← joined)
              (uleb_more w (suc k) g val shift _ (groups k (v / 128)) (omega arith) tail)
        | inr last ↦
            rw (last, ← add_group w v val shift hv (omega arith))
              (uleb_last w (suc k) v val shift (ground arith))
      ]
