-- ===== src/Web/Api/Gated.antt =====
-- `dispatch_http_request` of gateway-board/src/net/http/api.rs on requests without the CSRF token.
use sensor_sensei.Common.{
  ℕ, suc, true, List, Option, none, some, All, length, Bool, ◌≡◌, refl, sym, ap,
}
use sensor_sensei.Common.Bytes.{codes}
use sensor_sensei.Common.Outcome.{Outcome, ok, err, panic, pending, M, bind, pure, ◌>>◌}
use sensor_sensei.Util.Memchr.{Memchr}
use sensor_sensei.Util.Form.{Pair, pairs}
use sensor_sensei.Web.Config.{Config}
use sensor_sensei.Web.Stored.{FlashStorage, Uninitialised, save_to_flash}
use sensor_sensei.Web.Gate.{IsForeign, handle_dashboard_post-foreign}
use sensor_sensei.Web.Http.{
  get, post, HttpServerError, TcpSocket, HttpServerRequest, HttpServerResponse, write_all,
  write_all_vectored, return_bad_request,
}
use sensor_sensei.Web.Api.{
  World, with_socket, Three, form_texts, write_form_page, Reply, return_dashboard_form,
  write_answer, post_fields, dispatch_http_request,
}

-- The configuration and the flash are these, whether the answer was written or not. A
-- response to a form has the status 400.
abbrev pub Keeps :
    {K F : Type 0}
    → (HttpServerResponse → Type 0)
    → Config
    → F
    → Outcome (World K F) HttpServerError HttpServerResponse
    → Type 0
Keeps Q config flash (ok response w) = Q response × (w.config ≡ config) × (w.flash ≡ flash)
Keeps Q config flash (err e w) = (w.config ≡ config) × (w.flash ≡ flash)
Keeps Q config flash panic = Unit
Keeps Q config flash pending = Unit

module _ {K E : Type 0} (tcp : TcpSocket K E) (m : Memchr) (is_utf8 : List ℕ → Bool)
    (parse_ip parse_u16 : List ℕ → Option ℕ) (restart : Reply tcp) (ip_text port_text : ℕ → List ℕ)
    {F : Type 0} (storage : FlashStorage F) (sha256 : List ℕ → List ℕ)
    (uninit : Uninitialised) where
  with_socket-Keeps :
      (Q : HttpServerResponse → Type 0) (w : World K F)
      (o : Outcome K HttpServerError HttpServerResponse)
      → ((response : HttpServerResponse) (k : K) → o ≡ ok response k → Q response)
      → Keeps Q w.config w.flash (with_socket w o)
  with_socket-Keeps Q w (ok response k) q = (q response k refl, refl, refl)
  with_socket-Keeps Q w (err e k) q = (refl, refl)
  with_socket-Keeps Q w panic q = tt
  with_socket-Keeps Q w pending q = tt

  -- Each response that the call gives has this status.
  abbrev GivesStatus : ℕ → M K HttpServerError HttpServerResponse → Type 0
  GivesStatus status m =
      (k k' : K) (response : HttpServerResponse) → m k ≡ ok response k' → response.status ≡ status

  pure_gives : (status : ℕ) → GivesStatus status (pure (record { status = status }))
  pure_gives status k k' response e =
      let same : record { status = status } ≡ response = cc in
      ap (λ (r : HttpServerResponse). r.status) (sym same)

  last_gives :
      (status : ℕ) (first : M K HttpServerError (Unit {0})) (last : Reply tcp)
      → GivesStatus status last
      → GivesStatus status (first >> last)
  last_gives status first last gives k k' response e = go (first k) e
    where
      go :
          (o : Outcome K HttpServerError (Unit {0}))
          → bind o (λ _. last) ≡ ok response k'
          → response.status ≡ status
      go (ok a k'') e' = gives k'' k' response e'
      go (err x k'') e' = cc
      go panic e' = cc
      go pending e' = cc

  bad_request-400 : GivesStatus 400 (return_bad_request tcp)
  unfolding return_bad_request
  bad_request-400 =
      last_gives 400 (write_all tcp (codes "HTTP/1.0 400 Bad Request\r\nConnection: close\r\n\r\n"))
        (pure (record { status = 400 })) (pure_gives 400)

  form_page-200 : (texts : Three) → GivesStatus 200 (write_form_page tcp texts)
  unfolding write_form_page
  form_page-200 (first, second, third) =
      let finally : Reply tcp = pure (record { status = 200 }) in
      let then_third : Reply tcp = write_all_vectored tcp third >> finally in
      last_gives 200 (write_all_vectored tcp first) (write_all_vectored tcp second >> then_third) (
        last_gives 200 (write_all_vectored tcp second) then_third
          (last_gives 200 (write_all_vectored tcp third) finally (pure_gives 200)))

  post_fields-Keeps :
      (fields : Option (List Pair)) (w : World K F)
      → ((form : List Pair) → fields ≡ some form → All (IsForeign w.config.csrf_token) form)
      → Keeps
          (λ response. response.status ≡ 400)
          w.config
          (save_to_flash storage sha256 uninit w.config w.flash)
          (post_fields tcp m is_utf8 parse_ip parse_u16 restart storage sha256 uninit fields w)
  unfolding post_fields write_answer
  post_fields-Keeps none w foreign = tt
  post_fields-Keeps (some form) w foreign =
      rw
        (handle_dashboard_post-foreign is_utf8 parse_ip parse_u16 true form w.config
          (foreign form refl))
        (with_socket-Keeps (λ response. response.status ≡ 400)
          (record w { flash = save_to_flash storage sha256 uninit w.config w.flash })
          (return_bad_request tcp w.sock) (λ response k. bad_request-400 w.sock k response))

  -- A POST request whose form does not carry the CSRF token of the configuration leaves the
  -- configuration in memory as it is, whether or not the answer can be written, and a response
  -- that is written has the status 400. The flash is written all the same, with that unchanged
  -- configuration, by a write that may fail.
  pub dispatch_http_request-foreign :
      (request : HttpServerRequest) (w : World K F)
      → request.method ≡ post
      → ((form : List Pair)
          → pairs m (suc (length request.body)) request.body ≡ some form
          → All (IsForeign w.config.csrf_token) form)
      → Keeps
          (λ response. response.status ≡ 400)
          w.config
          (save_to_flash storage sha256 uninit w.config w.flash)
          (dispatch_http_request tcp m is_utf8 parse_ip parse_u16 restart storage sha256 uninit
            ip_text port_text request w)
  unfolding dispatch_http_request
  dispatch_http_request-foreign request w is_post foreign =
      rw is_post (post_fields-Keeps (pairs m (suc (length request.body)) request.body) w foreign)

  pub dispatch_http_request-get :
      (request : HttpServerRequest) (w : World K F)
      → request.method ≡ get
      → Keeps
          (λ response. response.status ≡ 200)
          w.config
          w.flash
          (dispatch_http_request tcp m is_utf8 parse_ip parse_u16 restart storage sha256 uninit
            ip_text port_text request w)
  unfolding dispatch_http_request return_dashboard_form
  dispatch_http_request-get request w is_get = rw is_get (
      with_socket-Keeps (λ response. response.status ≡ 200) w
        (return_dashboard_form tcp ip_text port_text w.config w.sock)
        (λ response k. form_page-200 (form_texts ip_text port_text w.config) w.sock k response))
