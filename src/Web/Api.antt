-- ===== src/Web/Api.antt =====
-- gateway-board/src/net/http/api.rs: the handler of the server, which answers with a page and
-- changes the configuration. The state has the socket, the configuration and the flash.
use sensor_sensei.Common.{ℕ, suc, true, List, [], ◌∷◌, Option, none, some, length, Bool}
use sensor_sensei.Common.Outcome.{Outcome, ok, err, panic, pending, M, pure, ◌>>=◌, ◌>>◌}
use sensor_sensei.Util.Memchr.{Memchr}
use sensor_sensei.Util.Form.{Pair, pairs}
use sensor_sensei.Web.Config.{Config}
use sensor_sensei.Web.Stored.{FlashStorage, Uninitialised, save_to_flash}
use sensor_sensei.Web.Dashboard.{
  Answer, return_processing_form_page, return_reboot_page, Posted, handle_dashboard_post,
}
use sensor_sensei.Web.Http.{
  HttpMethod, get, post, HttpServerError, TcpSocket, HttpServerRequest, HttpServerResponse,
  write_all, write_all_vectored,
}
use sensor_sensei.Web.Pages.{
  form_page_1, form_page_2, form_page_3, form_page_4, form_page_5, form_page_6, form_page_7,
  form_page_8, form_page_9, form_page_10, processing_page, reboot_page,
}
pub mod Gated

pub record World (K F : Type 0) : Type 0 where
  pub sock : K
  pub config : Config
  pub flash : F

-- A call that only uses the socket.
abbrev pub with_socket :
    {K F A : Type 0}
    → World K F
    → Outcome K HttpServerError A
    → Outcome (World K F) HttpServerError A
with_socket w (ok a k) = ok a (record w { sock = k })
with_socket w (err e k) = err e (record w { sock = k })
with_socket w panic = panic
with_socket w pending = pending

-- `as_deref().unwrap_or("")`
abbrev pub or_empty : Option (List ℕ) → List ℕ
or_empty none = []
or_empty (some text) = text

abbrev pub Three : Type 0
Three = List (List ℕ) × List (List ℕ) × List (List ℕ)

-- The three parts of the page with the form; the addresses and the port as texts come from the
-- standard library.
unfoldable pub form_texts : (ℕ → List ℕ) → (ℕ → List ℕ) → Config → Three
form_texts ip_text port_text c = (
  form_page_1
      ∷ c.csrf_token
      ∷ form_page_2
      ∷ or_empty c.wifi_sta_ssid
      ∷ form_page_3
      ∷ c.wifi_ap_ssid
      ∷ form_page_4
      ∷ ip_text c.dns_server_1
      ∷ form_page_5
      ∷ [],
  form_page_6 ∷ ip_text c.dns_server_2 ∷ form_page_7 ∷ or_empty c.influx_db.host ∷ form_page_8 ∷ [],
  form_page_9 ∷ port_text c.influx_db.port ∷ form_page_10 ∷ [],
)

module _ {K E : Type 0} (tcp : TcpSocket K E) where
  abbrev pub Reply : Type 0
  Reply = M K HttpServerError HttpServerResponse

  unfoldable pub write_form_page : Three → Reply
  write_form_page (first, second, third) =
      write_all_vectored tcp first
      >> (write_all_vectored tcp second
          >> (write_all_vectored tcp third >> pure (record { status = 200 })))

  unfoldable pub return_dashboard_form : (ℕ → List ℕ) → (ℕ → List ℕ) → Config → Reply
  return_dashboard_form ip_text port_text c = write_form_page (form_texts ip_text port_text c)

  unfoldable pub write_processing_page : Reply
  write_processing_page = write_all tcp processing_page >> pure (record { status = 202 })

  unfoldable pub write_reboot_page : Reply
  write_reboot_page = write_all tcp reboot_page >> pure (record { status = 200 })

  -- After the page for a reboot the connection is closed and the board resets, which does not
  -- return: `restart` is what the hardware does then.
  unfoldable pub write_answer : Reply → Answer → Reply
  write_answer restart Answer.return_bad_request = sensor_sensei.Web.Http.return_bad_request tcp
  write_answer restart return_processing_form_page = write_processing_page
  write_answer restart return_reboot_page = write_reboot_page >> restart

  module _ (m : Memchr) (is_utf8 : List ℕ → Bool) (parse_ip parse_u16 : List ℕ → Option ℕ)
      (restart : Reply) {F : Type 0} (storage : FlashStorage F) (sha256 : List ℕ → List ℕ)
      (uninit : Uninitialised) where
    -- The form's fields decide on the configuration, which is saved, and then the answer is written.
    unfoldable pub post_fields :
        Option (List Pair) → M (World K F) HttpServerError HttpServerResponse
    post_fields none w = panic
    post_fields (some form) w =
        let posted = handle_dashboard_post is_utf8 parse_ip parse_u16 true form w.config in
        let flash = save_to_flash storage sha256 uninit posted.saved w.flash in
        with_socket (record { sock = w.sock; config = posted.config; flash = flash })
          (write_answer restart posted.answer w.sock)

    unfoldable pub dispatch_http_request :
        (ℕ → List ℕ)
        → (ℕ → List ℕ)
        → HttpServerRequest
        → M (World K F) HttpServerError HttpServerResponse
    dispatch_http_request ip_text port_text request w = answer request.method
      where
        answer : HttpMethod → Outcome (World K F) HttpServerError HttpServerResponse
        answer get = with_socket w (return_dashboard_form ip_text port_text w.config w.sock)
        answer post = post_fields (pairs m (suc (length request.body)) request.body) w
