-- ===== src/Web/Dashboard.antt =====
-- gateway-board/src/net/http/api.rs: what a form submission does to the configuration, and which
-- answer it gets. The form fields are those of `decode_form_url_encoded` (Util/Form).
use sensor_sensei.Common.{
  ℕ, ◌&&◌, if◌then◌else◌, Bool, true, false, not, List, [], ◌∷◌, Option, none, some,
}
use mathlib.Core.Option
use sensor_sensei.Common.Bytes.{same_bytes}
use sensor_sensei.Util.Form.{Pair}
use sensor_sensei.Web.Config.{Config, string_from, or_kept}

pub data ConfigurationVariable : Type 0 where
  var_csrf_token var_wifi_sta_ssid var_wifi_sta_password var_wifi_ap_ssid var_dns_server_1
        var_dns_server_2 var_influx_db_host var_influx_db_port var_html_form_action :
      ConfigurationVariable

pub data HtmlFormAction : Type 0 where
  apply save_and_reboot : HtmlFormAction

-- The names of the fields, as in the source.
abbrev pub field_names : List (List ℕ × ConfigurationVariable)
field_names =
    (b'c' ∷ b's' ∷ b'r' ∷ b'f' ∷ b'_' ∷ b't' ∷ b'o' ∷ b'k' ∷ b'e' ∷ b'n' ∷ [], var_csrf_token)
    ∷ (
      b'w' ∷ b'i' ∷ b'f' ∷ b'i' ∷ b'_' ∷ b's' ∷ b't' ∷ b'a' ∷ b'_' ∷ b's' ∷ b's' ∷ b'i' ∷ b'd' ∷ [],
      var_wifi_sta_ssid,
    )
    ∷ (
      b'w' ∷ b'i' ∷ b'f' ∷ b'i' ∷ b'_' ∷ b's' ∷ b't' ∷ b'a' ∷ b'_' ∷ b'p' ∷ b'a' ∷ b's' ∷ b's'
          ∷ b'w' ∷ b'o' ∷ b'r' ∷ b'd' ∷ [],
      var_wifi_sta_password,
    )
    ∷ (
      b'w' ∷ b'i' ∷ b'f' ∷ b'i' ∷ b'_' ∷ b'a' ∷ b'p' ∷ b'_' ∷ b's' ∷ b's' ∷ b'i' ∷ b'd' ∷ [],
      var_wifi_ap_ssid,
    )
    ∷ (
      b'd' ∷ b'n' ∷ b's' ∷ b'_' ∷ b's' ∷ b'e' ∷ b'r' ∷ b'v' ∷ b'e' ∷ b'r' ∷ b'_' ∷ b'1' ∷ [],
      var_dns_server_1,
    )
    ∷ (
      b'd' ∷ b'n' ∷ b's' ∷ b'_' ∷ b's' ∷ b'e' ∷ b'r' ∷ b'v' ∷ b'e' ∷ b'r' ∷ b'_' ∷ b'2' ∷ [],
      var_dns_server_2,
    )
    ∷ (
      b'i' ∷ b'n' ∷ b'f' ∷ b'l' ∷ b'u' ∷ b'x' ∷ b'_' ∷ b'd' ∷ b'b' ∷ b'_' ∷ b'h' ∷ b'o' ∷ b's'
          ∷ b't' ∷ [],
      var_influx_db_host,
    )
    ∷ (
      b'i' ∷ b'n' ∷ b'f' ∷ b'l' ∷ b'u' ∷ b'x' ∷ b'_' ∷ b'd' ∷ b'b' ∷ b'_' ∷ b'p' ∷ b'o' ∷ b'r'
          ∷ b't' ∷ [],
      var_influx_db_port,
    )
    ∷ (b'a' ∷ b'c' ∷ b't' ∷ b'i' ∷ b'o' ∷ b'n' ∷ [], var_html_form_action)
    ∷ []

abbrev pub find_text : {A : Type 0} → List ℕ → List (List ℕ × A) → Option A
find_text key [] = none
find_text key ((name, a) ∷ others) =
    let rest = find_text key others in if same_bytes key name then some a else rest

unfoldable pub variable_from : List ℕ → Option ConfigurationVariable
variable_from key = find_text key field_names

unfoldable pub action_from : List ℕ → Option HtmlFormAction
action_from value = find_text value (
    (b'a' ∷ b'p' ∷ b'p' ∷ b'l' ∷ b'y' ∷ [], apply)
    ∷ (
      b's' ∷ b'a' ∷ b'v' ∷ b'e' ∷ b'-' ∷ b'r' ∷ b'e' ∷ b'b' ∷ b'o' ∷ b'o' ∷ b't' ∷ [],
      save_and_reboot,
    )
    ∷ [])

-- `(_unchanged_)`
abbrev pub unchanged_mark : List ℕ
unchanged_mark =
    b'(' ∷ b'_' ∷ b'u' ∷ b'n' ∷ b'c' ∷ b'h' ∷ b'a' ∷ b'n' ∷ b'g' ∷ b'e' ∷ b'd' ∷ b'_' ∷ b')' ∷ []

-- The locals of `handle_dashboard_post`.
pub record Form : Type 0 where
  pub config : Config
  pub valid_csrf_token : Bool
  pub action : HtmlFormAction

abbrev pub is_csrf_token : ConfigurationVariable → Bool
is_csrf_token var_csrf_token = true
is_csrf_token _ = false

-- An empty text clears an optional setting.
abbrev pub or_cleared : List ℕ → Option (List ℕ)
or_cleared [] = none
or_cleared (b ∷ bs) = some (b ∷ bs)

-- A text that is too long keeps the current value.
unfoldable pub set_optional : ℕ → List ℕ → Option (List ℕ) → Option (List ℕ)
set_optional n value current = or_kept (Option.map or_cleared (string_from n value)) current

module _ (is_utf8 : List ℕ → Bool) (parse_ip parse_u16 : List ℕ → Option ℕ) where
  -- The `match config_var`.
  unfoldable pub set_field : ConfigurationVariable → List ℕ → Form → Form
  set_field var_csrf_token [] f = f
  set_field var_csrf_token (b ∷ bs) f = record f {
    valid_csrf_token = same_bytes f.config.csrf_token (b ∷ bs);
  }
  set_field var_wifi_sta_ssid value f = record f {
    config = record f.config { wifi_sta_ssid = set_optional 32 value f.config.wifi_sta_ssid };
  }
  set_field var_wifi_sta_password value f =
      if same_bytes value unchanged_mark then f else record f {
        config = record f.config { wifi_sta_pass = set_optional 64 value f.config.wifi_sta_pass };
      }
  set_field var_wifi_ap_ssid value f = record f {
    config = record f.config {
      wifi_ap_ssid = or_kept (string_from 32 value) f.config.wifi_ap_ssid;
    };
  }
  set_field var_dns_server_1 value f = record f {
    config = record f.config { dns_server_1 = or_kept (parse_ip value) f.config.dns_server_1 };
  }
  set_field var_dns_server_2 value f = record f {
    config = record f.config { dns_server_2 = or_kept (parse_ip value) f.config.dns_server_2 };
  }
  set_field var_influx_db_host value f = record f {
    config = record f.config {
      influx_db = record f.config.influx_db {
        host = set_optional 64 value f.config.influx_db.host;
      };
    };
  }
  set_field var_influx_db_port value f = record f {
    config = record f.config {
      influx_db = record f.config.influx_db {
        port = or_kept (parse_u16 value) f.config.influx_db.port;
      };
    };
  }
  set_field var_html_form_action value f = record f {
    action = or_kept (action_from value) f.action;
  }

  -- The rest of the loop's body, for a known name: `more` is the loop on the fields that follow.
  unfoldable pub known_field : ConfigurationVariable → List ℕ → (Form → Form) → Form → Form
  known_field var value more f =
      let stopped = not f.valid_csrf_token && not (is_csrf_token var) in
      if not (is_utf8 value) then more f else if stopped then f else more (set_field var value f)

  abbrev pub any_field : Option ConfigurationVariable → List ℕ → (Form → Form) → Form → Form
  any_field none value more f = more f
  any_field (some var) value more f = known_field var value more f

  unfoldable pub process_form : List Pair → Form → Form
  process_form [] f = f
  process_form ((key, value) ∷ others) f =
      let more = process_form others in any_field (variable_from key) value more f

-- The answers, by the function that writes each.
pub data Answer : Type 0 where
  return_bad_request return_processing_form_page return_reboot_page : Answer

-- What a submission leaves: the configuration in memory and in the flash, the answer, and whether
-- the board reboots.
pub record Posted : Type 0 where
  pub config : Config
  pub saved : Config
  pub answer : Answer
  pub reboots : Bool

abbrev pub answer_to : HtmlFormAction → Answer
answer_to apply = return_processing_form_page
answer_to save_and_reboot = return_reboot_page

-- The reboot comes after the page: `written` is whether the socket took it.
abbrev pub reboots_after : HtmlFormAction → Bool → Bool
reboots_after apply written = false
reboots_after save_and_reboot written = written

module _ (is_utf8 : List ℕ → Bool) (parse_ip parse_u16 : List ℕ → Option ℕ) where
  unfoldable pub handle_dashboard_post : Bool → List Pair → Config → Posted
  handle_dashboard_post written form c =
      let f =
        process_form is_utf8 parse_ip parse_u16 form
          (record { config = c; valid_csrf_token = false; action = apply }) in
      record {
        config = f.config;
        saved = f.config;
        answer = if f.valid_csrf_token then answer_to f.action else return_bad_request;
        reboots = if f.valid_csrf_token then reboots_after f.action written else false;
      }
