-- ===== src/Examples/Web.antt =====
-- Form data and the configuration at concrete values.
use sensor_sensei.Common.{
  length, length, suc, All, ◌++◌, sym, subst, ◌∙◌, ℕ, Bool, true, List, [], ◌∷◌, Option, none, some,
  get_or, ◌≡◌, ◌≢◌, refl, ap, arith,
}
use mathlib.Core.List.{map}
use sensor_sensei.Examples.Memchr.{searches, searches-IsMemchr}
use sensor_sensei.Util.Url.{url_decode, url_decode_loop, url_decode_next, special_at, slice_fits}
use sensor_sensei.Util.UrlSpec.{url_spec}
use sensor_sensei.Util.UrlDecode.{url_decode-url_spec}
use sensor_sensei.Util.Form.{Pair, pairs, next, next_at, yield_decoded, after_key}
use sensor_sensei.Util.Memchr.{first_index}
use sensor_sensei.Util.Form.Pairs.{
  form_bytes, read_pair, percent_encode, pairs-form_bytes, url_decode-percent_encode,
}
use sensor_sensei.Web.Config.{Config, repeat}
use sensor_sensei.Web.Flash.{IsConfig}
use sensor_sensei.Web.Stored.{FlashStorage, Uninitialised, save_to_flash, load_from_flash}
use sensor_sensei.Web.Reload.{IsStorage, load_from_flash-save_to_flash}
use sensor_sensei.Web.Dashboard.{handle_dashboard_post}
use sensor_sensei.Web.Http.{post, TcpSocket, HttpServerError, HttpServerResponse}
use sensor_sensei.Web.Api.{World, dispatch_http_request}
use sensor_sensei.Web.Api.Gated.{Keeps, dispatch_http_request-foreign}
use sensor_sensei.Common.Bytes.{codes}
use sensor_sensei.Common.Outcome.{Outcome, ok, pending}
use sensor_sensei.Web.Gate.{IsForeign, handle_dashboard_post-IsConfig}

-- `a%20b+c%2`
abbrev escaped : List ℕ
escaped = 97 ∷ 37 ∷ 50 ∷ 48 ∷ 98 ∷ 43 ∷ 99 ∷ 37 ∷ 50 ∷ []

url_decode-url_spec_example : url_decode searches escaped ≡ some (url_spec escaped)
url_decode-url_spec_example = url_decode-url_spec searches searches-IsMemchr escaped

url_decode-percent_encode_example :
    url_decode searches (percent_encode (0 ∷ 255 ∷ 37 ∷ [])) ≡ some (0 ∷ 255 ∷ 37 ∷ [])
url_decode-percent_encode_example =
    url_decode-percent_encode searches searches-IsMemchr (0 ∷ 255 ∷ 37 ∷ []) (omega arith)

abbrev raw_pairs : List Pair
raw_pairs = (107 ∷ [], 37 ∷ 52 ∷ 49 ∷ []) ∷ (106 ∷ [], []) ∷ []

-- `k=%41&j=`
pairs-form_bytes_example : pairs searches 3 (form_bytes raw_pairs) ≡ some (map read_pair raw_pairs)
pairs-form_bytes_example =
    pairs-form_bytes searches searches-IsMemchr raw_pairs 3
      (((refl, tt), (refl, (refl, (refl, tt)))), (((refl, tt), tt), tt)) (omega arith)

abbrev any_text : List ℕ → Bool
any_text bytes = true

abbrev no_number : List ℕ → Option ℕ
no_number bytes = none

abbrev home : Config
home = record {
  wifi_sta_ssid = some (104 ∷ 111 ∷ []);
  wifi_sta_pass = none;
  wifi_ap_ssid = 97 ∷ 112 ∷ [];
  dns_server_1 = 1;
  dns_server_2 = 2;
  influx_db = record { host = none; port = 8086; org = []; bucket = []; api_token = [] };
  csrf_token = 120 ∷ 121 ∷ [];
}

-- A flash that keeps the last bytes written.
abbrev last_written : FlashStorage (List ℕ)
last_written = record {
  write = λ offset bytes flash. (true, bytes);
  read = λ offset size flash. some flash;
}

last_written-IsStorage : IsStorage last_written
last_written-IsStorage = record { write_lem = λ offset bytes flash written. refl }

abbrev zeros : List ℕ → List ℕ
zeros bytes = repeat 32

abbrev garbage : Uninitialised
garbage = record {
  header_padding = 1 ∷ 2 ∷ 3 ∷ [];
  payload_padding = 4 ∷ 5 ∷ 6 ∷ [];
  short_value = record { string_length = 7; data_bytes = repeat 32 };
  long_value = record { string_length = 8; data_bytes = repeat 64 };
}

abbrev empty_config : Config
empty_config = record {
  wifi_sta_ssid = none;
  wifi_sta_pass = none;
  wifi_ap_ssid = [];
  dns_server_1 = 0;
  dns_server_2 = 0;
  influx_db = record { host = none; port = 8086; org = []; bucket = []; api_token = [] };
  csrf_token = [];
}

load_from_flash-save_to_flash_example :
    load_from_flash last_written zeros any_text
      (save_to_flash last_written zeros garbage home [])
      empty_config
    ≡ record home {
      csrf_token = empty_config.csrf_token;
      influx_db = record {
        host = home.influx_db.host;
        port = home.influx_db.port;
        org = empty_config.influx_db.org;
        bucket = empty_config.influx_db.bucket;
        api_token = empty_config.influx_db.api_token;
      };
    }
load_from_flash-save_to_flash_example =
    load_from_flash-save_to_flash last_written last_written-IsStorage zeros (λ bytes. refl) garbage
      (refl, refl, refl, refl) any_text home empty_config []
      ((omega arith, refl), tt, (omega arith, refl), tt) (omega arith, omega arith, omega arith)
      refl

-- A submission with a wrong token, `csrf_token=zz&wifi_ap_ssid=evil`.
abbrev csrf_name : List ℕ
csrf_name = b'c' ∷ b's' ∷ b'r' ∷ b'f' ∷ b'_' ∷ b't' ∷ b'o' ∷ b'k' ∷ b'e' ∷ b'n' ∷ []

abbrev wifi_ap_name : List ℕ
wifi_ap_name =
    b'w' ∷ b'i' ∷ b'f' ∷ b'i' ∷ b'_' ∷ b'a' ∷ b'p' ∷ b'_' ∷ b's' ∷ b's' ∷ b'i' ∷ b'd' ∷ []

abbrev attack : List Pair
attack = (csrf_name, (122 ∷ 122 ∷ [])) ∷ (wifi_ap_name, (101 ∷ 118 ∷ [])) ∷ []

other_texts : (122 ∷ 122 ∷ []) ≢ home.csrf_token
other_texts e = let h : 122 ≡ 120 = ap (λ xs. get_or xs 0 0) e in omega (arith, h)

other_text : (101 ∷ 118 ∷ []) ≢ home.csrf_token
other_text e = let h : 101 ≡ 120 = ap (λ xs. get_or xs 0 0) e in omega (arith, h)

abbrev attack_body : List ℕ
attack_body = codes "csrf_token=zz&wifi_ap_ssid=ev"

attack_read : pairs searches (suc (length attack_body)) attack_body ≡ some attack
unfolding pairs next next_at yield_decoded url_decode url_decode_loop url_decode_next special_at
    slice_fits first_index after_key
attack_read = refl

attack-IsForeign :
    (form : List Pair)
    → pairs searches (suc (length attack_body)) attack_body ≡ some form
    → All (IsForeign home.csrf_token) form
attack-IsForeign form e =
    let both : some attack ≡ some form = sym attack_read ∙ e in
    let same : attack ≡ form = cc in
    subst (λ f. All (IsForeign home.csrf_token) f) same
      (λ is_token. other_texts, (λ is_token. other_text, tt))

abbrev page_socket : TcpSocket (List ℕ) ℕ
page_socket = record { read = λ size k. ok [] k; write_all = λ bytes k. ok tt (k ++ bytes) }

abbrev at_home : World (List ℕ) (List ℕ)
at_home = record { sock = []; config = home; flash = [] }

abbrev restarted : List ℕ → Outcome (List ℕ) HttpServerError HttpServerResponse
restarted k = pending

abbrev no_text : ℕ → List ℕ
no_text n = []

dispatch_http_request-foreign_example :
    Keeps
      (λ response. response.status ≡ 400)
      home
      (save_to_flash last_written zeros garbage home [])
      (dispatch_http_request page_socket searches any_text no_number no_number restarted
        last_written zeros garbage no_text no_text
        (record { method = post; body = attack_body })
        at_home)
dispatch_http_request-foreign_example =
    dispatch_http_request-foreign page_socket searches any_text no_number no_number restarted
      no_text no_text last_written zeros garbage (record { method = post; body = attack_body })
      at_home refl attack-IsForeign

handle_dashboard_post-IsConfig_example :
    IsConfig any_text (handle_dashboard_post any_text no_number no_number true attack home).saved
handle_dashboard_post-IsConfig_example =
    handle_dashboard_post-IsConfig any_text no_number no_number true attack home
      ((omega arith, refl), tt, (omega arith, refl), tt)
