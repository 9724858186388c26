-- ===== src/Codec/Leb/Bounds.antt =====
-- What `to_leb128` of protocol/src/codec.rs writes, in plain arithmetic.
use sensor_sensei.Common.{
  ℕ, zero, suc, ◌+◌, ◌*◌, ◌/◌, ◌%◌, ◌^◌, ◌≤◌, ◌<◌, bit_and, bit_or, ltb, if◌then◌else◌, ◌≡◌, subst,
  arith, ◌⊎◌, inl, inr, List, [], ◌∷◌, some, length, All, true,
}
use sensor_sensei.Common.Bits.{bit_and-ones, set_top, sign_bit}
use native.Mathlib.Nat.{pow-suc}
use sensor_sensei.Codec.Leb.{to_uleb128, to_sleb128, sar7, sign_only}

low_group : (v : ℕ) → bit_and v 0x7f ≡ v % 128
low_group v = bit_and-ones 7 v

group_byte : (v : ℕ) → bit_and v 0x7f % 256 ≡ v % 128
group_byte v = omega (arith, low_group v)

more_byte : (v : ℕ) → bit_or 0x80 (v % 128) ≡ v % 128 + 128
more_byte v = set_top (v % 128) (omega arith)

abbrev pub IsByte : ℕ → Type 0
IsByte b = b < 256

-- The groups of seven bits of `v`, lowest first, the top bit set on all but the last.
unfoldable pub groups : ℕ → ℕ → List ℕ
groups zero v = v ∷ []
groups (suc k) v =
    let rest = groups k (v / 128) in if ltb 127 v then (v % 128 + 128) ∷ rest else v ∷ []

-- The unsigned encoder ends within its buffer and writes the groups of the number.
pub to_uleb128-groups : (k v : ℕ) → v < 128 ^ suc k → to_uleb128 (suc k) v ≡ some (groups k v)
unfolding to_uleb128 groups
to_uleb128-groups zero v h = ground arith
to_uleb128-groups (suc k) v h =
    rw (group_byte v, more_byte v)
      (ground (arith, to_uleb128-groups k (v / 128), pow-suc 128 (suc k)))

pub groups_shape :
    (k v : ℕ)
    → v < 128 ^ suc k
    → (1 ≤ length (groups k v)) × (length (groups k v) ≤ suc k) × All IsByte (groups k v)
unfolding groups
groups_shape zero v h = omega arith
groups_shape (suc k) v h = ground (arith, groups_shape k (v / 128), pow-suc 128 (suc k))

pub length-groups : (k v : ℕ) → (1 ≤ length (groups k v)) × (length (groups k v) ≤ suc k)
unfolding groups
length-groups zero v = omega arith
length-groups (suc k) v = ground (arith, length-groups k (v / 128))

-- The bit pattern `v` of an i64 stands for a number between -b and b - 1.
abbrev pub InRange : ℕ → ℕ → Type 0
InRange b v = ((v < 2 ^ 63) × (v < b)) ⊎ ((2 ^ 63 ≤ v) × (v < 2 ^ 64) × (2 ^ 64 ≤ v + b))

unfoldable pub signed_groups : ℕ → ℕ → List ℕ
unfolding sar7
signed_groups zero v = (v % 128) ∷ []
signed_groups (suc k) v =
    let rest = signed_groups k (sar7 v) in
    if sign_only (sar7 v) (v % 128) then (v % 128) ∷ [] else (v % 128 + 128) ∷ rest

sar7-InRange : (b v : ℕ) → InRange (b * 128) v → InRange b (sar7 v)
unfolding sar7
sar7-InRange b v (inl h) = ground arith
sar7-InRange b v (inr h) = ground arith

pub sar7-step : (k v : ℕ) → InRange (64 * 128 ^ suc k) v → InRange (64 * 128 ^ k) (sar7 v)
sar7-step k v h =
    let e : 64 * 128 ^ suc k ≡ 64 * 128 ^ k * 128 = omega (arith, pow-suc 128 k) in
    sar7-InRange _ v (subst (λ b. InRange b v) e h)

pub sign_only_last : (v : ℕ) → InRange 64 v → sign_only (sar7 v) (v % 128) ≡ true
unfolding sar7
sign_only_last v (inl h) = ground (arith, sign_bit (v % 128))
sign_only_last v (inr h) = ground (arith, sign_bit (v % 128))

-- The signed encoder ends within its buffer and writes the signed groups of the number.
pub to_sleb128-signed_groups :
    (k v : ℕ) → InRange (64 * 128 ^ k) v → to_sleb128 (suc k) v ≡ some (signed_groups k v)
unfolding to_sleb128 signed_groups
to_sleb128-signed_groups zero v h = rw (group_byte v, sign_only_last v h)
to_sleb128-signed_groups (suc k) v h =
    rw (group_byte v, more_byte v)
      (ground (arith, to_sleb128-signed_groups k (sar7 v) (sar7-step k v h)))

pub signed_groups_shape :
    (k v : ℕ)
    → (1 ≤ length (signed_groups k v))
      × (length (signed_groups k v) ≤ suc k)
      × All IsByte (signed_groups k v)
unfolding signed_groups
signed_groups_shape zero v = omega arith
signed_groups_shape (suc k) v = ground (arith, signed_groups_shape k (sar7 v))
