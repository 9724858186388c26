-- ===== src/Web/Gate.antt =====
-- `handle_dashboard_post` of gateway-board/src/net/http/api.rs: the CSRF token and the texts of the
-- configuration.
use sensor_sensei.Common.{
  ℕ, ◌&&◌, Bool, true, false, not, List, [], ◌∷◌, Option, none, some, All, ◌≡◌, ◌≢◌, ◌⊎◌, refl, sym,
  ap, subst, ◌∙◌, Bool-cases, inl, inr,
}
use sensor_sensei.Common.Bytes.{same_bytes, same_bytes-≡}
use sensor_sensei.Util.Form.{Pair}
use sensor_sensei.Web.Config.{Config, string_from, or_kept}
use sensor_sensei.Web.Flash.{IsText, IsTextOption, IsConfig, string_from-cases}
use sensor_sensei.Web.Dashboard.{
  ConfigurationVariable, var_csrf_token, var_wifi_sta_ssid, var_wifi_sta_password, var_wifi_ap_ssid,
  var_dns_server_1, var_dns_server_2, var_influx_db_host, var_influx_db_port, var_html_form_action,
  apply, Form, return_bad_request, variable_from, unchanged_mark, or_cleared, set_optional,
  set_field, known_field, process_form, handle_dashboard_post, is_csrf_token, any_field,
}

-- A field that is no CSRF token, or not the one of the configuration.
abbrev pub IsForeign : List ℕ → Pair → Type 0
IsForeign token p = variable_from p.0 ≡ some var_csrf_token → p.1 ≢ token

csrf_cases : (var : ConfigurationVariable) → (var ≡ var_csrf_token) ⊎ (is_csrf_token var ≡ false)
csrf_cases var_csrf_token = inl refl
csrf_cases _ = inr refl

module _ (is_utf8 : List ℕ → Bool) (parse_ip parse_u16 : List ℕ → Option ℕ) where
  -- A token that is not the one of the configuration leaves the form as it is.
  wrong_token :
      (value : List ℕ) (f : Form)
      → f.valid_csrf_token ≡ false
      → value ≢ f.config.csrf_token
      → set_field is_utf8 parse_ip parse_u16 var_csrf_token value f ≡ f
  unfolding set_field
  wrong_token [] f closed other = refl
  wrong_token (b ∷ bs) f closed other =
      elim (Bool-cases (same_bytes f.config.csrf_token (b ∷ bs))) [
        | inl same ↦ absurd (other (sym (same_bytes-≡ f.config.csrf_token (b ∷ bs) same)))
        | inr differs ↦ rw (differs, ← closed) refl
      ]

  token_goes_on : (valid : Bool) → (not valid && not (is_csrf_token var_csrf_token)) ≡ false
  token_goes_on true = refl
  token_goes_on false = refl

  token_field :
      (value : List ℕ) (more : Form → Form) (f : Form)
      → is_utf8 value ≡ true
      → f.valid_csrf_token ≡ false
      → value ≢ f.config.csrf_token
      → more f ≡ f
      → known_field is_utf8 parse_ip parse_u16 var_csrf_token value more f ≡ f
  unfolding known_field
  token_field value more f text closed other e =
      rw (text, token_goes_on f.valid_csrf_token) (ap more (wrong_token value f closed other) ∙ e)

  known_field-closed :
      (var : ConfigurationVariable) (value : List ℕ) (more : Form → Form) (f : Form)
      → f.valid_csrf_token ≡ false
      → (var ≡ var_csrf_token → value ≢ f.config.csrf_token)
      → more f ≡ f
      → known_field is_utf8 parse_ip parse_u16 var value more f ≡ f
  unfolding known_field
  known_field-closed var value more f closed foreign e = elim (Bool-cases (is_utf8 value)) [
    | inr invalid ↦ rw (invalid, e) refl
    | inl text ↦ elim (csrf_cases var) [
      | inl token ↦
          subst (λ v. known_field is_utf8 parse_ip parse_u16 v value more f ≡ f) (sym token)
            (token_field value more f text closed (foreign token) e)
      | inr other ↦ rw (text, closed, other) refl
    ]
  ]

  any_field-closed :
      (o : Option ConfigurationVariable) (value : List ℕ) (more : Form → Form) (f : Form)
      → f.valid_csrf_token ≡ false
      → (o ≡ some var_csrf_token → value ≢ f.config.csrf_token)
      → more f ≡ f
      → any_field is_utf8 parse_ip parse_u16 o value more f ≡ f
  any_field-closed none value more f closed foreign e = e
  any_field-closed (some var) value more f closed foreign e =
      known_field-closed var value more f closed (λ token. foreign (ap some token)) e

  process_form-closed :
      (form : List Pair) (f : Form)
      → f.valid_csrf_token ≡ false
      → All (IsForeign f.config.csrf_token) form
      → process_form is_utf8 parse_ip parse_u16 form f ≡ f
  unfolding process_form
  process_form-closed [] f closed foreign = refl
  process_form-closed ((key, value) ∷ others) f closed (first, rest) =
      any_field-closed (variable_from key) value (process_form is_utf8 parse_ip parse_u16 others) f
        closed first (process_form-closed others f closed rest)

  -- A form without the CSRF token of the configuration changes nothing, is answered with a bad
  -- request, and reboots nothing, whatever its other fields are and in whatever order.
  pub handle_dashboard_post-foreign :
      (written : Bool) (form : List Pair) (c : Config)
      → All (IsForeign c.csrf_token) form
      → handle_dashboard_post is_utf8 parse_ip parse_u16 written form c
        ≡ record { config = c; saved = c; answer = return_bad_request; reboots = false }
  unfolding handle_dashboard_post
  handle_dashboard_post-foreign written form c foreign =
      rw
        (process_form-closed form (record { config = c; valid_csrf_token = false; action = apply })
          refl foreign)
        refl

  string_from-IsText :
      (n : ℕ) (value current : List ℕ)
      → is_utf8 value ≡ true
      → IsText is_utf8 n current
      → IsText is_utf8 n (or_kept (string_from n value) current)
  string_from-IsText n value current text valid =
      elim (string_from-cases is_utf8 parse_ip parse_u16 n value) [
        | inl long ↦ rw long valid
        | inr (fits, short) ↦ rw fits (short, text)
      ]

  cleared-IsText :
      (n : ℕ) (value : List ℕ) → IsText is_utf8 n value → IsTextOption is_utf8 n (or_cleared value)
  cleared-IsText n [] valid = tt
  cleared-IsText n (b ∷ bs) valid = valid

  set_optional-IsText :
      (n : ℕ) (value : List ℕ) (current : Option (List ℕ))
      → is_utf8 value ≡ true
      → IsTextOption is_utf8 n current
      → IsTextOption is_utf8 n (set_optional n value current)
  unfolding set_optional
  set_optional-IsText n value current text valid =
      elim (string_from-cases is_utf8 parse_ip parse_u16 n value) [
        | inl long ↦ rw long valid
        | inr (fits, short) ↦ rw fits (cleared-IsText n value (short, text))
      ]

  password-IsConfig :
      (value : List ℕ) (f : Form)
      → is_utf8 value ≡ true
      → IsConfig is_utf8 f.config
      → IsConfig is_utf8 (set_field is_utf8 parse_ip parse_u16 var_wifi_sta_password value f).config
  unfolding set_field
  password-IsConfig value f text (ssid, pass, ap_ssid, host) =
      elim (Bool-cases (same_bytes value unchanged_mark)) [
        | inl same ↦ rw same (ssid, pass, ap_ssid, host)
        | inr other ↦
            rw other
              (ssid, set_optional-IsText 64 value f.config.wifi_sta_pass text pass, ap_ssid, host)
      ]

  set_field-IsConfig :
      (var : ConfigurationVariable) (value : List ℕ) (f : Form)
      → is_utf8 value ≡ true
      → IsConfig is_utf8 f.config
      → IsConfig is_utf8 (set_field is_utf8 parse_ip parse_u16 var value f).config
  unfolding set_field
  set_field-IsConfig var_csrf_token [] f text valid = valid
  set_field-IsConfig var_csrf_token (b ∷ bs) f text valid = valid
  set_field-IsConfig var_wifi_sta_ssid value f text (ssid, pass, ap_ssid, host) =
      (set_optional-IsText 32 value f.config.wifi_sta_ssid text ssid, pass, ap_ssid, host)
  set_field-IsConfig var_wifi_sta_password value f text valid = password-IsConfig value f text valid
  set_field-IsConfig var_wifi_ap_ssid value f text (ssid, pass, ap_ssid, host) =
      (ssid, pass, string_from-IsText 32 value f.config.wifi_ap_ssid text ap_ssid, host)
  set_field-IsConfig var_dns_server_1 value f text valid = valid
  set_field-IsConfig var_dns_server_2 value f text valid = valid
  set_field-IsConfig var_influx_db_host value f text (ssid, pass, ap_ssid, host) =
      (ssid, pass, ap_ssid, set_optional-IsText 64 value f.config.influx_db.host text host)
  set_field-IsConfig var_influx_db_port value f text valid = valid
  set_field-IsConfig var_html_form_action value f text valid = valid

  any_field-IsConfig :
      (o : Option ConfigurationVariable) (value : List ℕ) (more : Form → Form) (f : Form)
      → IsConfig is_utf8 f.config
      → ((g : Form) → IsConfig is_utf8 g.config → IsConfig is_utf8 (more g).config)
      → IsConfig is_utf8 (any_field is_utf8 parse_ip parse_u16 o value more f).config
  unfolding known_field
  any_field-IsConfig none value more f valid ih = ih f valid
  any_field-IsConfig (some var) value more f valid ih = elim (Bool-cases (is_utf8 value)) [
    | inr invalid ↦ rw invalid (ih f valid)
    | inl text ↦ elim (Bool-cases (not f.valid_csrf_token && not (is_csrf_token var))) [
      | inl stopped ↦ rw (text, stopped) valid
      | inr going ↦ rw (text, going) (ih _ (set_field-IsConfig var value f text valid))
    ]
  ]

  process_form-IsConfig :
      (form : List Pair) (f : Form)
      → IsConfig is_utf8 f.config
      → IsConfig is_utf8 (process_form is_utf8 parse_ip parse_u16 form f).config
  unfolding process_form
  process_form-IsConfig [] f valid = valid
  process_form-IsConfig ((key, value) ∷ others) f valid =
      any_field-IsConfig (variable_from key) value (process_form is_utf8 parse_ip parse_u16 others)
        f valid (process_form-IsConfig others)

  -- No form, whatever its fields, leaves a configuration that the flash cannot hold.
  pub handle_dashboard_post-IsConfig :
      (written : Bool) (form : List Pair) (c : Config)
      → IsConfig is_utf8 c
      → IsConfig is_utf8 (handle_dashboard_post is_utf8 parse_ip parse_u16 written form c).saved
  unfolding handle_dashboard_post
  handle_dashboard_post-IsConfig written form c valid =
      process_form-IsConfig form (record { config = c; valid_csrf_token = false; action = apply })
        valid
