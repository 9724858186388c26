-- ===== src/Web/Stored.antt =====
-- `save_to_flash` and `load_from_flash` of gateway-board/src/config.rs on the bytes of the structs, which
-- are `repr(C)`: the header has 33 bytes, the payload is aligned to 4 as its addresses are, so that
-- three bytes of padding precede it and three stand in it, and the whole has 248 bytes. Padding and
-- what is not initialised have some bytes (`Uninitialised`), which a move of the struct is taken to
-- keep.
use sensor_sensei.Common.{
  ℕ, zero, suc, ◌+◌, ◌*◌, ◌/◌, ◌%◌, ◌==◌, if◌then◌else◌, Bool, not, List, [], ◌∷◌, ◌++◌, Option,
  none, some, take, drop, get_or,
}
use sensor_sensei.Common.Bytes.{same_bytes}
use sensor_sensei.Web.Config.{
  Config, SerializedString, SerializedOption, SerializedConfigPayload, SerializedConfig,
  current_config_version, serialize, serialize_option, deserialize, try_decode, or_kept,
}

-- The flash of the crate esp-storage: `write` says whether it succeeded and what the flash is then;
-- `read` is given the offset and the number of bytes.
pub record FlashStorage (F : Type 0) : Type 0 where
  pub write : ℕ → List ℕ → F → Bool × F
  pub read : ℕ → ℕ → F → Option (List ℕ)

pub record Uninitialised : Type 0 where
  pub header_padding : List ℕ
  pub payload_padding : List ℕ
  pub short_value : SerializedString
  pub long_value : SerializedString

abbrev pub nvs_partition_offset : ℕ
nvs_partition_offset = 0x9000

-- `size_of::<SerializedConfig>()`
abbrev pub config_size : ℕ
config_size = 248

-- An integer in memory, the lowest byte first.
unfoldable pub le_bytes : ℕ → ℕ → List ℕ
le_bytes zero x = []
le_bytes (suc n) x = x % 256 ∷ le_bytes n (x / 256)

unfoldable pub from_le : List ℕ → ℕ
from_le [] = 0
from_le (b ∷ bs) = b + 256 * from_le bs

abbrev pub string_bytes : SerializedString → List ℕ
string_bytes s = s.string_length ∷ s.data_bytes

abbrev pub option_bytes : SerializedOption → List ℕ
option_bytes o = o.is_some ∷ string_bytes o.value

-- The bytes behind those of an option's texts.
abbrev pub tail_bytes : SerializedConfigPayload → List ℕ
tail_bytes p =
    le_bytes 4 p.dns_server_1
    ++ (le_bytes 4 p.dns_server_2 ++ (option_bytes p.influx_db_host ++ le_bytes 2 p.influx_db_port))

unfoldable pub payload_bytes : List ℕ → SerializedConfigPayload → List ℕ
payload_bytes padding p =
    option_bytes p.wifi_sta_ssid
    ++ (option_bytes p.wifi_sta_pass ++ (string_bytes p.wifi_ap_ssid ++ (padding ++ tail_bytes p)))

unfoldable pub config_bytes : Uninitialised → SerializedConfig → List ℕ
config_bytes uninit config =
    config.version
    ∷ (config.checksum
        ++ (uninit.header_padding ++ payload_bytes uninit.payload_padding config.payload))

-- A text of `n` bytes at the start of the memory, and what follows it.
unfoldable pub string_in : ℕ → List ℕ → SerializedString × List ℕ
string_in n [] = (record { string_length = 0; data_bytes = [] }, [])
string_in n (len ∷ rest) = (record { string_length = len; data_bytes = take n rest }, drop n rest)

unfoldable pub option_in : ℕ → List ℕ → SerializedOption × List ℕ
option_in n [] = (record { is_some = 0; value = record { string_length = 0; data_bytes = [] } }, [])
option_in n (flag ∷ rest) =
    let text = string_in n rest in (record { is_some = flag; value = text.0 }, text.1)

unfoldable pub payload_in : List ℕ → SerializedConfigPayload
payload_in bytes =
    let ssid = option_in 32 bytes in
    let pass = option_in 64 ssid.1 in
    let ap_ssid = string_in 32 pass.1 in
    let addresses = drop 3 ap_ssid.1 in
    let host = option_in 64 (drop 8 addresses) in
    record {
      wifi_sta_ssid = ssid.0;
      wifi_sta_pass = pass.0;
      wifi_ap_ssid = ap_ssid.0;
      dns_server_1 = from_le (take 4 addresses);
      dns_server_2 = from_le (take 4 (drop 4 addresses));
      influx_db_host = host.0;
      influx_db_port = from_le (take 2 host.1);
    }

module _ {F : Type 0} (storage : FlashStorage F) (sha256 : List ℕ → List ℕ) where
  module _ (uninit : Uninitialised) where
    unfoldable pub payload_from : Config → SerializedConfigPayload
    payload_from c = record {
      wifi_sta_ssid = serialize_option 32 uninit.short_value c.wifi_sta_ssid;
      wifi_sta_pass = serialize_option 64 uninit.long_value c.wifi_sta_pass;
      wifi_ap_ssid = serialize 32 c.wifi_ap_ssid;
      dns_server_1 = c.dns_server_1;
      dns_server_2 = c.dns_server_2;
      influx_db_host = serialize_option 64 uninit.long_value c.influx_db.host;
      influx_db_port = c.influx_db.port;
    }

    abbrev pub saved_bytes : Config → List ℕ
    saved_bytes c = config_bytes uninit (record {
      version = current_config_version;
      checksum = sha256 (payload_bytes uninit.payload_padding (payload_from c));
      payload = payload_from c;
    })

    -- A write that fails is only logged.
    unfoldable pub save_to_flash : Config → F → F
    save_to_flash c flash = (storage.write nvs_partition_offset (saved_bytes c) flash).1

  module _ (is_utf8 : List ℕ → Bool) where
    unfoldable pub load_payload : SerializedConfigPayload → Config → Config
    load_payload p c = record c {
      wifi_sta_ssid = or_kept (try_decode is_utf8 32 p.wifi_sta_ssid) c.wifi_sta_ssid;
      wifi_sta_pass = or_kept (try_decode is_utf8 64 p.wifi_sta_pass) c.wifi_sta_pass;
      wifi_ap_ssid = or_kept (deserialize is_utf8 32 p.wifi_ap_ssid) c.wifi_ap_ssid;
      dns_server_1 = p.dns_server_1;
      dns_server_2 = p.dns_server_2;
      influx_db = record {
        host = or_kept (try_decode is_utf8 64 p.influx_db_host) c.influx_db.host;
        port = p.influx_db_port;
        org = c.influx_db.org;
        bucket = c.influx_db.bucket;
        api_token = c.influx_db.api_token;
      };
    }

    -- The version, the checksum and the payload at their places in the bytes that were read.
    unfoldable pub load_bytes : List ℕ → Config → Config
    load_bytes bytes c =
        if not (get_or bytes 0 0 == current_config_version)
        then c
        else if not (same_bytes (take 32 (drop 1 bytes)) (sha256 (drop 36 bytes)))
        then c
        else load_payload (payload_in (drop 36 bytes)) c

    abbrev pub loaded : Option (List ℕ) → Config → Config
    loaded none c = c
    loaded (some bytes) c = load_bytes bytes c

    unfoldable pub load_from_flash : F → Config → Config
    load_from_flash flash c = loaded (storage.read nvs_partition_offset config_size flash) c
