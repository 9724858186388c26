-- ===== src/Web/Config.antt =====
-- gateway-board/src/config.rs. A `heapless::String<N>` is its bytes, an IP address its 32 bits. The
-- standard library's parsers and UTF-8 test, SHA-256 and the bytes of an uninitialised value come
-- from outside.
use sensor_sensei.Common.{
  ℕ, zero, suc, ◌+◌, ◌-◌, ◌/◌, ◌%◌, ◌^◌, min, ltb, ◌==◌, if◌then◌else◌, Bool, List, [], ◌∷◌, ◌++◌,
  Option, none, some, length, take,
}

pub record InfluxDbConfig : Type 0 where
  pub host : Option (List ℕ)
  pub port : ℕ
  pub org : List ℕ
  pub bucket : List ℕ
  pub api_token : List ℕ

pub record Config : Type 0 where
  pub wifi_sta_ssid : Option (List ℕ)
  pub wifi_sta_pass : Option (List ℕ)
  pub wifi_ap_ssid : List ℕ
  pub dns_server_1 : ℕ
  pub dns_server_2 : ℕ
  pub influx_db : InfluxDbConfig
  pub csrf_token : List ℕ

-- `heapless::String::<N>::from_str`
unfoldable pub string_from : ℕ → List ℕ → Option (List ℕ)
string_from n bytes = if ltb n (length bytes) then none else some bytes

abbrev pub repeat : ℕ → List ℕ
repeat zero = []
repeat (suc n) = 0 ∷ repeat n

pub record SerializedString : Type 0 where
  pub string_length : ℕ
  pub data_bytes : List ℕ

pub record SerializedOption : Type 0 where
  pub is_some : ℕ
  pub value : SerializedString

-- `SerializedString::<N>::from`; a `heapless::String<N>` has at most `N` bytes.
unfoldable pub serialize : ℕ → List ℕ → SerializedString
serialize n bytes = record {
  string_length = min (length bytes) 255;
  data_bytes = bytes ++ repeat (n - length bytes);
}

unfoldable pub serialize_option : ℕ → SerializedString → Option (List ℕ) → SerializedOption
serialize_option n uninit (some bytes) = record { is_some = 1; value = serialize n bytes }
serialize_option n uninit none = record { is_some = 0; value = uninit }

pub record SerializedConfigPayload : Type 0 where
  pub wifi_sta_ssid : SerializedOption
  pub wifi_sta_pass : SerializedOption
  pub wifi_ap_ssid : SerializedString
  pub dns_server_1 : ℕ
  pub dns_server_2 : ℕ
  pub influx_db_host : SerializedOption
  pub influx_db_port : ℕ

pub record SerializedConfig : Type 0 where
  pub version : ℕ
  pub checksum : List ℕ
  pub payload : SerializedConfigPayload

abbrev pub current_config_version : ℕ
current_config_version = 3

-- `map(…).transpose()` on what is there.
abbrev pub present : Option (List ℕ) → Option (Option (List ℕ))
present (some bytes) = some (some bytes)
present none = none

module _ (is_utf8 : List ℕ → Bool) where
  unfoldable pub deserialize : ℕ → SerializedString → Option (List ℕ)
  deserialize n s =
      let bytes = take s.string_length s.data_bytes in
      if ltb n s.string_length then none else if is_utf8 bytes then string_from n bytes else none

  -- `try_decode`: what fails to decode is `none`.
  unfoldable pub try_decode : ℕ → SerializedOption → Option (Option (List ℕ))
  try_decode n s =
      let decoded = deserialize n s.value in if s.is_some == 0 then some none else present decoded

-- `if let Ok(x) = …`
abbrev pub or_kept : {A : Type 0} → Option A → A → A
or_kept (some a) kept = a
or_kept none kept = kept

pub record EnvVariables : Type 0 where
  pub wifi_sta_ssid : Option (List ℕ)
  pub wifi_sta_pass : Option (List ℕ)
  pub wifi_ap_ssid : Option (List ℕ)
  pub dns_server_1 : Option (List ℕ)
  pub dns_server_2 : Option (List ℕ)
  pub influx_db_host : Option (List ℕ)
  pub influx_db_port : Option (List ℕ)
  pub influx_db_api_token : Option (List ℕ)
  pub influx_db_org : Option (List ℕ)
  pub influx_db_bucket : Option (List ℕ)

abbrev pub and_then : {A B : Type 0} → Option A → (A → Option B) → Option B
and_then (some a) f = f a
and_then none f = none

-- One digit of `{:08x}`.
abbrev pub hex_char : ℕ → ℕ
hex_char d = if ltb d 10 then 48 + d else 87 + d

unfoldable pub hex_digits : ℕ → ℕ → List ℕ
hex_digits zero x = []
hex_digits (suc n) x = hex_char (x / 16 ^ n % 16) ∷ hex_digits n x

unfoldable pub csrf_from : List ℕ → List ℕ
csrf_from [] = []
csrf_from (random ∷ more) = hex_digits 8 random ++ csrf_from more

-- `lora-gateway-wifi`
abbrev pub default_ap_ssid : List ℕ
default_ap_ssid =
    b'l' ∷ b'o' ∷ b'r' ∷ b'a' ∷ b'-' ∷ b'g' ∷ b'a' ∷ b't' ∷ b'e' ∷ b'w' ∷ b'a' ∷ b'y' ∷ b'-' ∷ b'w'
    ∷ b'i' ∷ b'f' ∷ b'i' ∷ []

abbrev pub my_org : List ℕ
my_org = b'm' ∷ b'y' ∷ b'_' ∷ b'o' ∷ b'r' ∷ b'g' ∷ []

abbrev pub my_bucket : List ℕ
my_bucket = b'm' ∷ b'y' ∷ b'_' ∷ b'b' ∷ b'u' ∷ b'c' ∷ b'k' ∷ b'e' ∷ b't' ∷ []

abbrev pub my_token : List ℕ
my_token = b'm' ∷ b'y' ∷ b'_' ∷ b't' ∷ b'o' ∷ b'k' ∷ b'e' ∷ b'n' ∷ []

-- `randoms` are the four values that the generator returns.
module _ (parse_ip parse_u16 : List ℕ → Option ℕ) where
  unfoldable pub load_from_env : EnvVariables → List ℕ → Config
  load_from_env env randoms = record {
    wifi_sta_ssid = and_then env.wifi_sta_ssid (string_from 32);
    wifi_sta_pass = and_then env.wifi_sta_pass (string_from 64);
    wifi_ap_ssid =
        or_kept (string_from 32 (or_kept env.wifi_ap_ssid default_ap_ssid)) default_ap_ssid;
    dns_server_1 = or_kept (and_then env.dns_server_1 parse_ip) 0x01010101;
    dns_server_2 = or_kept (and_then env.dns_server_2 parse_ip) 0x01000001;
    influx_db = record {
      host = and_then env.influx_db_host (string_from 64);
      port = or_kept (and_then env.influx_db_port parse_u16) 8086;
      org = or_kept env.influx_db_org my_org;
      bucket = or_kept env.influx_db_bucket my_bucket;
      api_token = or_kept env.influx_db_api_token my_token;
    };
    csrf_token = csrf_from randoms;
  }
