-- ===== src/Web/Reload.antt =====
-- `load_from_flash` of gateway-board/src/config.rs after `save_to_flash`, byte by byte.
use sensor_sensei.Common.{
  ℕ, zero, suc, ◌-◌, ◌≤◌, ◌<◌, ◌^◌, Bool, true, List, [], ◌++◌, Option, none, some, length, take,
  drop, take-length_append, drop-length_append, length-append, ◌≡◌, refl, sym, ap, ◌∙◌, arith,
  append-nil, drop-drop, ◌/◌,
}
use sensor_sensei.Common.Bytes.{same_bytes_refl}
use sensor_sensei.Web.Config.{
  Config, SerializedString, SerializedOption, SerializedConfigPayload, serialize, serialize_option,
  repeat,
}
use sensor_sensei.Web.Flash.{IsConfig, IsTextOption, deserialize-serialize, try_decode-serialize}
use sensor_sensei.Web.Stored.{
  FlashStorage, Uninitialised, nvs_partition_offset, config_size, le_bytes, from_le, string_bytes,
  option_bytes, tail_bytes, payload_bytes, config_bytes, string_in, option_in, payload_in,
  payload_from, saved_bytes, save_to_flash, load_payload, load_bytes, load_from_flash,
}

take_front : (n : ℕ) (xs ys : List ℕ) → length xs ≡ n → take n (xs ++ ys) ≡ xs
take_front n xs ys e = ap (λ (k : ℕ). take k (xs ++ ys)) (sym e) ∙ take-length_append xs ys

drop_front : (n : ℕ) (xs ys : List ℕ) → length xs ≡ n → drop n (xs ++ ys) ≡ ys
drop_front n xs ys e = ap (λ (k : ℕ). drop k (xs ++ ys)) (sym e) ∙ drop-length_append xs ys

string_in-string_bytes :
    (n : ℕ) (s : SerializedString) (rest : List ℕ)
    → length s.data_bytes ≡ n
    → string_in n (string_bytes s ++ rest) ≡ (s, rest)
unfolding string_in
string_in-string_bytes n s rest e =
    rw (take_front n s.data_bytes rest e, drop_front n s.data_bytes rest e) refl

option_in-option_bytes :
    (n : ℕ) (o : SerializedOption) (rest : List ℕ)
    → length o.value.data_bytes ≡ n
    → option_in n (option_bytes o ++ rest) ≡ (o, rest)
unfolding option_in
option_in-option_bytes n o rest e = rw (string_in-string_bytes n o.value rest e) refl

from_le-four : (x : ℕ) → x < 2 ^ 32 → from_le (le_bytes 4 x) ≡ x
unfolding from_le le_bytes
from_le-four x small = omega arith

from_le-two : (x : ℕ) → x < 2 ^ 16 → from_le (le_bytes 2 x) ≡ x
unfolding from_le le_bytes
from_le-two x small = omega arith

length-le_bytes : (n x : ℕ) → length (le_bytes n x) ≡ n
unfolding le_bytes
length-le_bytes zero x = refl
length-le_bytes (suc n) x = omega (arith, length-le_bytes n (x / 256))

-- The sizes of the texts and of the integers of a payload.
abbrev IsSized : SerializedConfigPayload → Type 0
IsSized p =
    (length p.wifi_sta_ssid.value.data_bytes ≡ 32)
    × (length p.wifi_sta_pass.value.data_bytes ≡ 64)
    × (length p.wifi_ap_ssid.data_bytes ≡ 32)
    × (length p.influx_db_host.value.data_bytes ≡ 64)
    × (p.dns_server_1 < 2 ^ 32)
    × (p.dns_server_2 < 2 ^ 32)
    × (p.influx_db_port < 2 ^ 16)

-- The four fields behind the padding.
tail_in :
    (p : SerializedConfigPayload)
    → IsSized p
    → (from_le (take 4 (tail_bytes p)) ≡ p.dns_server_1)
      × (from_le (take 4 (drop 4 (tail_bytes p))) ≡ p.dns_server_2)
      × (option_in 64 (drop 8 (tail_bytes p)) ≡ (p.influx_db_host, le_bytes 2 p.influx_db_port))
tail_in p (_, _, _, host, first, second, _) =
    let last : List ℕ = option_bytes p.influx_db_host ++ le_bytes 2 p.influx_db_port in
    let one : List ℕ = le_bytes 4 p.dns_server_1 in
    let two : List ℕ = le_bytes 4 p.dns_server_2 in
    let dropped : drop 8 (one ++ (two ++ last)) ≡ last =
      drop-drop 4 4 (one ++ (two ++ last))
      ∙ ap (λ (xs : List ℕ). drop 4 xs) (drop_front 4 one (two ++ last) (length-le_bytes 4 _))
      ∙ drop_front 4 two last (length-le_bytes 4 _) in
    (
      ap (λ (xs : List ℕ). from_le xs) (take_front 4 one (two ++ last) (length-le_bytes 4 _))
          ∙ from_le-four p.dns_server_1 first,
      ap (λ (xs : List ℕ). from_le (take 4 xs))
            (drop_front 4 one (two ++ last) (length-le_bytes 4 _))
          ∙ ap (λ (xs : List ℕ). from_le xs) (take_front 4 two last (length-le_bytes 4 _))
          ∙ from_le-four p.dns_server_2 second,
      ap (λ (xs : List ℕ). option_in 64 xs) dropped
          ∙ option_in-option_bytes 64 p.influx_db_host (le_bytes 2 p.influx_db_port) host,
    )

payload_in-payload_bytes :
    (padding : List ℕ) (p : SerializedConfigPayload)
    → length padding ≡ 3
    → IsSized p
    → payload_in (payload_bytes padding p) ≡ p
unfolding payload_in payload_bytes
payload_in-payload_bytes padding p three sized =
    let (ssid, pass, ap_ssid, _, _, _, port) = sized in
    let (first, second, host) = tail_in p sized in
    let last : List ℕ = padding ++ tail_bytes p in
    let port_read : from_le (take 2 (le_bytes 2 p.influx_db_port)) ≡ p.influx_db_port =
      ap (λ (xs : List ℕ). from_le (take 2 xs)) (sym (append-nil (le_bytes 2 p.influx_db_port)))
      ∙ ap (λ (xs : List ℕ). from_le xs)
          (take_front 2 (le_bytes 2 p.influx_db_port) [] (length-le_bytes 2 _))
      ∙ from_le-two p.influx_db_port port in
    rw
      (
        option_in-option_bytes 32 p.wifi_sta_ssid
            (option_bytes p.wifi_sta_pass ++ (string_bytes p.wifi_ap_ssid ++ last)) ssid,
        option_in-option_bytes 64 p.wifi_sta_pass (string_bytes p.wifi_ap_ssid ++ last) pass,
        string_in-string_bytes 32 p.wifi_ap_ssid last ap_ssid,
        drop_front 3 padding (tail_bytes p) three,
        first,
        second,
        host,
        port_read,
      )
      refl

length-repeat : (n : ℕ) → length (repeat n) ≡ n
length-repeat zero = refl
length-repeat (suc n) = omega (arith, length-repeat n)

length-serialize :
    (n : ℕ) (bytes : List ℕ) → length bytes ≤ n → length (serialize n bytes).data_bytes ≡ n
unfolding serialize
length-serialize n bytes short =
    omega (arith, length-append bytes (repeat (n - length bytes)), length-repeat (n - length bytes))

length-serialize_option :
    (is_utf8 : List ℕ → Bool) (n : ℕ) (uninit : SerializedString) (text : Option (List ℕ))
    → length uninit.data_bytes ≡ n
    → IsTextOption is_utf8 n text
    → length (serialize_option n uninit text).value.data_bytes ≡ n
unfolding serialize_option
length-serialize_option is_utf8 n uninit none sized valid = sized
length-serialize_option is_utf8 n uninit (some bytes) sized (short, _) =
    length-serialize n bytes short

-- The sizes of what is not initialised.
abbrev pub IsUninitialised : Uninitialised → Type 0
IsUninitialised u =
    (length u.header_padding ≡ 3)
    × (length u.payload_padding ≡ 3)
    × (length u.short_value.data_bytes ≡ 32)
    × (length u.long_value.data_bytes ≡ 64)

-- The integers of a configuration are machine integers.
abbrev pub IsMachineSized : Config → Type 0
IsMachineSized c =
    (c.dns_server_1 < 2 ^ 32) × (c.dns_server_2 < 2 ^ 32) × (c.influx_db.port < 2 ^ 16)

-- What a write that succeeds has written is read.
pub record IsStorage {F : Type 0} (storage : FlashStorage F) : Type 0 where
  pub write_lem :
      (offset : ℕ) (bytes : List ℕ) (flash : F)
      → (storage.write offset bytes flash).0 ≡ true
      → storage.read offset (length bytes) (storage.write offset bytes flash).1 ≡ some bytes

length-payload_bytes :
    (padding : List ℕ) (p : SerializedConfigPayload)
    → length padding ≡ 3
    → IsSized p
    → length (payload_bytes padding p) ≡ 212
unfolding payload_bytes
length-payload_bytes padding p three (ssid, pass, ap_ssid, host, _, _, _) =
    let last : List ℕ = option_bytes p.influx_db_host ++ le_bytes 2 p.influx_db_port in
    omega (
      arith,
      three,
      ssid,
      pass,
      ap_ssid,
      host,
      length-append (option_bytes p.wifi_sta_ssid) (
          option_bytes p.wifi_sta_pass
          ++ (string_bytes p.wifi_ap_ssid ++ (padding ++ tail_bytes p))),
      length-append (option_bytes p.wifi_sta_pass)
          (string_bytes p.wifi_ap_ssid ++ (padding ++ tail_bytes p)),
      length-append (string_bytes p.wifi_ap_ssid) (padding ++ tail_bytes p),
      length-append padding (tail_bytes p),
      length-append (le_bytes 4 p.dns_server_1) (le_bytes 4 p.dns_server_2 ++ last),
      length-append (le_bytes 4 p.dns_server_2) last,
      length-append (option_bytes p.influx_db_host) (le_bytes 2 p.influx_db_port),
      length-le_bytes 4 p.dns_server_1,
      length-le_bytes 4 p.dns_server_2,
      length-le_bytes 2 p.influx_db_port,
    )

module _ {F : Type 0} (storage : FlashStorage F) (laws : IsStorage storage)
    (sha256 : List ℕ → List ℕ) (hashes : (bytes : List ℕ) → length (sha256 bytes) ≡ 32)
    (uninit : Uninitialised) (uninitialised : IsUninitialised uninit)
    (is_utf8 : List ℕ → Bool) where
  payload_from-IsSized :
      (c : Config)
      → IsConfig is_utf8 c
      → IsMachineSized c
      → IsSized (payload_from storage sha256 uninit c)
  unfolding payload_from
  payload_from-IsSized c (ssid, pass, (short, _), host) (first, second, port) =
      let (_, _, short_value, long_value) = uninitialised in
      (
        length-serialize_option is_utf8 32 uninit.short_value c.wifi_sta_ssid short_value ssid,
        length-serialize_option is_utf8 64 uninit.long_value c.wifi_sta_pass long_value pass,
        length-serialize 32 c.wifi_ap_ssid short,
        length-serialize_option is_utf8 64 uninit.long_value c.influx_db.host long_value host,
        first,
        second,
        port,
      )

  -- What `load_from_flash` takes from the payload of a configuration.
  abbrev Restored : Config → Config → Config
  Restored saved c = record saved {
    csrf_token = c.csrf_token;
    influx_db = record {
      host = saved.influx_db.host;
      port = saved.influx_db.port;
      org = c.influx_db.org;
      bucket = c.influx_db.bucket;
      api_token = c.influx_db.api_token;
    };
  }

  load_payload-Restored :
      (saved c : Config)
      → IsConfig is_utf8 saved
      → load_payload storage sha256 is_utf8 (payload_from storage sha256 uninit saved) c
        ≡ Restored saved c
  unfolding load_payload payload_from
  load_payload-Restored saved c (ssid, pass, ap_ssid, host) =
      rw
        (
          try_decode-serialize is_utf8 32 uninit.short_value saved.wifi_sta_ssid (omega arith) ssid,
          try_decode-serialize is_utf8 64 uninit.long_value saved.wifi_sta_pass (omega arith) pass,
          deserialize-serialize is_utf8 32 saved.wifi_ap_ssid (omega arith) ap_ssid,
          try_decode-serialize is_utf8 64 uninit.long_value saved.influx_db.host (omega arith) host,
        )
        refl

  load_bytes-saved_bytes :
      (saved c : Config)
      → IsConfig is_utf8 saved
      → IsMachineSized saved
      → (load_bytes storage sha256 is_utf8 (saved_bytes storage sha256 uninit saved) c
          ≡ Restored saved c)
        × (length (saved_bytes storage sha256 uninit saved) ≡ config_size)
  unfolding load_bytes config_bytes
  load_bytes-saved_bytes saved c valid machine =
      let p : SerializedConfigPayload = payload_from storage sha256 uninit saved in
      let (header, three, _, _) = uninitialised in
      let sized = payload_from-IsSized saved valid machine in
      let image : List ℕ = payload_bytes uninit.payload_padding p in
      let sum : List ℕ = sha256 image in
      let behind : drop 35 (sum ++ (uninit.header_padding ++ image)) ≡ image =
        drop-drop 32 3 (sum ++ (uninit.header_padding ++ image))
        ∙ ap (λ (xs : List ℕ). drop 3 xs)
            (drop_front 32 sum (uninit.header_padding ++ image) (hashes image))
        ∙ drop_front 3 uninit.header_padding image header in
      (
        rw
            (
              take_front 32 sum (uninit.header_padding ++ image) (hashes image),
              behind,
              same_bytes_refl sum,
              payload_in-payload_bytes uninit.payload_padding p three sized,
            )
            (load_payload-Restored saved c valid),
        omega (
          arith,
          length-append sum (uninit.header_padding ++ image),
          length-append uninit.header_padding image,
          hashes image,
          header,
          length-payload_bytes uninit.payload_padding p three sized,
        ),
      )

  -- After a write that succeeded, the bytes that save_to_flash wrote are loaded: every stored
  -- field is that of the saved configuration, and the CSRF token and the names of InfluxDB are
  -- those in memory. The padding and the values that are not initialised may be any bytes, and are
  -- those of the checksum when a move of the struct keeps them.
  pub load_from_flash-save_to_flash :
      (saved c : Config) (flash : F)
      → IsConfig is_utf8 saved
      → IsMachineSized saved
      → (storage.write nvs_partition_offset (saved_bytes storage sha256 uninit saved) flash).0
        ≡ true
      → load_from_flash storage sha256 is_utf8 (save_to_flash storage sha256 uninit saved flash) c
        ≡ record saved {
          csrf_token = c.csrf_token;
          influx_db = record {
            host = saved.influx_db.host;
            port = saved.influx_db.port;
            org = c.influx_db.org;
            bucket = c.influx_db.bucket;
            api_token = c.influx_db.api_token;
          };
        }
  unfolding load_from_flash save_to_flash
  load_from_flash-save_to_flash saved c flash valid machine written =
      let (loads, size) = load_bytes-saved_bytes saved c valid machine in
      let shown =
        ap
          (λ (k : ℕ).
            storage.read nvs_partition_offset k
              (storage.write nvs_partition_offset (saved_bytes storage sha256 uninit saved)
                flash).1)
          (sym size)
        ∙ laws.write_lem nvs_partition_offset (saved_bytes storage sha256 uninit saved) flash
            written in
      rw shown loads
