-- ===== src/Web/Flash.antt =====
-- The texts of a configuration of gateway-board/src/config.rs: as they are serialized, and as
-- `load_from_env` makes them.
use sensor_sensei.Common.{
  ℕ, zero, suc, ◌-◌, ◌*◌, ◌≤◌, min, ltb, Bool, true, false, List, [], ◌∷◌, Option, none, some,
  length, take-length_append, length-append, ◌≡◌, ◌⊎◌, refl, arith, Bool-cases, inl, inr,
}
use sensor_sensei.Web.Config.{
  Config, SerializedString, EnvVariables, string_from, serialize, serialize_option, deserialize,
  try_decode, load_from_env, csrf_from, hex_digits, default_ap_ssid, repeat, and_then, or_kept,
}

module _ (is_utf8 : List ℕ → Bool) where
  -- A text that a `heapless::String<N>` can hold.
  abbrev pub IsText : ℕ → List ℕ → Type 0
  IsText n bytes = (length bytes ≤ n) × (is_utf8 bytes ≡ true)

  abbrev pub IsTextOption : ℕ → Option (List ℕ) → Type 0
  IsTextOption n none = Unit {0}
  IsTextOption n (some bytes) = IsText n bytes

  pub deserialize-serialize :
      (n : ℕ) (bytes : List ℕ)
      → n ≤ 255
      → IsText n bytes
      → deserialize is_utf8 n (serialize n bytes) ≡ some bytes
  unfolding deserialize serialize string_from
  deserialize-serialize n bytes few (short, text) =
      let stored : min (length bytes) 255 ≡ length bytes = omega arith in
      let fits : ltb n (length bytes) ≡ false = ground arith in
      rw (stored, fits, take-length_append bytes (repeat (n - length bytes)), text, fits) refl

  pub try_decode-serialize :
      (n : ℕ) (uninit : SerializedString) (text : Option (List ℕ))
      → n ≤ 255
      → IsTextOption n text
      → try_decode is_utf8 n (serialize_option n uninit text) ≡ some text
  unfolding try_decode serialize_option
  try_decode-serialize n uninit none few valid = refl
  try_decode-serialize n uninit (some bytes) few valid =
      rw (deserialize-serialize n bytes few valid) refl

  -- The texts of a configuration are what their types can hold.
  abbrev pub IsConfig : Config → Type 0
  IsConfig c =
      IsTextOption 32 c.wifi_sta_ssid
      × IsTextOption 64 c.wifi_sta_pass
      × IsText 32 c.wifi_ap_ssid
      × IsTextOption 64 c.influx_db.host

length-hex_digits : (n x : ℕ) → length (hex_digits n x) ≡ n
unfolding hex_digits
length-hex_digits zero x = refl
length-hex_digits (suc n) x = omega (arith, length-hex_digits n x)

-- The CSRF token has eight characters for each random number: four of them fill its 32 bytes.
pub length-csrf_from : (randoms : List ℕ) → length (csrf_from randoms) ≡ 8 * length randoms
unfolding csrf_from
length-csrf_from [] = refl
length-csrf_from (x ∷ xs) = omega (
  arith,
  length-append (hex_digits 8 x) (csrf_from xs),
  length-hex_digits 8 x,
  length-csrf_from xs,
)

module _ (is_utf8 : List ℕ → Bool) (parse_ip parse_u16 : List ℕ → Option ℕ) where
  abbrev Utf8 : Option (List ℕ) → Type 0
  Utf8 none = Unit {0}
  Utf8 (some bytes) = is_utf8 bytes ≡ true

  pub string_from-cases :
      (n : ℕ) (bytes : List ℕ)
      → (string_from n bytes ≡ none) ⊎ ((string_from n bytes ≡ some bytes) × (length bytes ≤ n))
  unfolding string_from
  string_from-cases n bytes = elim (Bool-cases (ltb n (length bytes))) [
    | inl long ↦ inl (rw long refl)
    | inr short ↦ inr (rw short refl, ground arith)
  ]

  string_from-IsText :
      (n : ℕ) (text : Option (List ℕ))
      → Utf8 text
      → IsTextOption is_utf8 n (and_then text (string_from n))
  string_from-IsText n none valid = tt
  string_from-IsText n (some bytes) valid = elim (string_from-cases n bytes) [
    | inl long ↦ rw long tt
    | inr (fits, short) ↦ rw fits (short, valid)
  ]

  ap_ssid-IsText :
      (text : Option (List ℕ))
      → Utf8 text
      → is_utf8 default_ap_ssid ≡ true
      → IsText is_utf8 32 (or_kept (string_from 32 (or_kept text default_ap_ssid)) default_ap_ssid)
  unfolding string_from
  ap_ssid-IsText none valid ascii = (omega arith, ascii)
  ap_ssid-IsText (some bytes) valid ascii = elim (string_from-cases 32 bytes) [
    | inl long ↦ rw long (omega arith, ascii)
    | inr (fits, short) ↦ rw fits (short, valid)
  ]

  -- Whatever texts the build was given, the configuration made from them can be saved.
  pub load_from_env-IsConfig :
      (env : EnvVariables) (randoms : List ℕ)
      → Utf8 env.wifi_sta_ssid
      → Utf8 env.wifi_sta_pass
      → Utf8 env.wifi_ap_ssid
      → Utf8 env.influx_db_host
      → is_utf8 default_ap_ssid ≡ true
      → IsConfig is_utf8 (load_from_env parse_ip parse_u16 env randoms)
  unfolding load_from_env
  load_from_env-IsConfig env randoms ssid pass ap_ssid host ascii = (
    string_from-IsText 32 env.wifi_sta_ssid ssid,
    string_from-IsText 64 env.wifi_sta_pass pass,
    ap_ssid-IsText env.wifi_ap_ssid ap_ssid ascii,
    string_from-IsText 64 env.influx_db_host host,
  )
