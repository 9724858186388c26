-- ===== src/Web/Server/Rounds.antt =====
-- The loop of the server goes on.
use sensor_sensei.Common.{ℕ, zero, suc, List, Option, none, some, ◌≡◌, refl, ap, ◌∙◌}
use sensor_sensei.Common.Outcome.{Outcome, ok, err, panic, pending, M, bind, Ended}
use sensor_sensei.Util.Memchr.{Memchr, IsMemchr}
use sensor_sensei.Web.Http.{HttpServerError, HttpServerRequest, HttpServerResponse}
use sensor_sensei.Web.Server.{Connection, on_socket}
use sensor_sensei.Web.Server.Runs.{IsTcpSocket}
use sensor_sensei.Web.Server.Framing.{IsRequest}
use sensor_sensei.Web.Server.Requests.{handle_client_request-Ended}
use sensor_sensei.Web.Server.Loop.{
  Either, Sockets, HttpServer, or_logged, accepted, chosen, selected, accept_socket,
  accept_socket_dual_stack, accept_socket_single_stack, finish_connection, then_finish, serve, run,
}

-- A result or an error.
abbrev pub Returns : {K E A : Type 0} → Outcome K E A → Type 0
Returns o = Ended (λ _ _. Unit) o

-- The calls return, and the sockets follow the law of reads and writes with a log for each.
pub record IsSockets {K E S : Type 0} (net : Sockets K E S) (log : S → K → List ℕ) : Type 0 where
  pub tcp_lem : (sock : S) → IsTcpSocket (net.tcp sock) (log sock)
  pub accept_lem : (sock : S) (port : ℕ) (k : K) → Returns (net.accept sock port k)
  pub select_lem : (ap sta : S) (port : ℕ) (k : K) → Returns (net.select ap sta port k)
  pub flush_lem : (sock : S) (k : K) → Returns (net.flush sock k)

module _ {K E S : Type 0} (net : Sockets K E S) where
  accepted-ok :
      (sock : S) (o : Outcome K E (Unit {0}))
      → Returns o
      → (r : Option S) × (k : K) × (accepted sock o ≡ ok r k)
  accepted-ok sock (ok a k) returns = (some sock, k, refl)
  accepted-ok sock (err e k) returns = (none, k, refl)
  accepted-ok sock panic returns = absurd returns
  accepted-ok sock pending returns = absurd returns

  selected-ok :
      (ap sta : S) (o : Outcome K ⊥ (Either E))
      → Returns o
      → (r : Option S) × (k : K) × (selected ap sta o ≡ ok r k)
  selected-ok ap sta (ok r k) returns = (chosen ap sta r, k, refl)
  selected-ok ap sta (err e k) returns = absurd e
  selected-ok ap sta panic returns = absurd returns
  selected-ok ap sta pending returns = absurd returns

  flushed-ok :
      (o : Outcome K E (Unit {0})) (next : K → K)
      → Returns o
      → (k : K) × (bind (or_logged o) (λ _ k'. ok tt (next k')) ≡ ok tt k)
  flushed-ok (ok a k) next returns = (next k, refl)
  flushed-ok (err e k) next returns = (next k, refl)
  flushed-ok panic next returns = absurd returns
  flushed-ok pending next returns = absurd returns

  module _ (log : S → K → List ℕ) (laws : IsSockets net log) where
    accept_socket-ok :
        (port : ℕ) (ap : S) (sta : Option S) (k : K)
        → (r : Option S) × (k' : K) × (accept_socket net port ap sta k ≡ ok r k')
    unfolding accept_socket_dual_stack accept_socket_single_stack
    accept_socket-ok port ap (some sta) k =
        selected-ok ap sta (net.select ap sta port k) (laws.select_lem ap sta port k)
    accept_socket-ok port ap none k =
        accepted-ok ap (net.accept ap port k) (laws.accept_lem ap port k)

    finish_connection-ok : (sock : S) (k : K) → (k' : K) × (finish_connection net sock k ≡ ok tt k')
    unfolding finish_connection
    finish_connection-ok sock k =
        flushed-ok (net.flush sock k)
          (λ k. net.abort sock (net.wait 1000 (net.close sock (net.wait 1000 k))))
          (laws.flush_lem sock k)

    module _ (m : Memchr) (searches : IsMemchr m) (n : ℕ) (parse_usize : List ℕ → Option ℕ)
        (handler : S → HttpServerRequest → M K HttpServerError HttpServerResponse)
        (handles : (sock : S) (start : List ℕ) (request : HttpServerRequest) (k : K)
          → IsRequest (log sock) parse_usize n start request k
          → Returns (handler sock request k)) where
      then_finish-ok :
          (Q : HttpServerResponse → Connection K → Type 0) (sock : S)
          (o : Outcome (Connection K) HttpServerError HttpServerResponse)
          → Ended Q o
          → (c : Connection K) × (then_finish m net n parse_usize handler sock o ≡ ok tt c)
      then_finish-ok Q sock (ok res c) ended =
          let (k, e) = finish_connection-ok sock c.sock in
          (record { sock = k; buffer = c.buffer }, ap (on_socket c.buffer) e)
      then_finish-ok Q sock (err x c) ended =
          let (k, e) = finish_connection-ok sock c.sock in
          (record { sock = k; buffer = c.buffer }, ap (on_socket c.buffer) e)
      then_finish-ok Q sock panic ended = absurd ended
      then_finish-ok Q sock pending ended = absurd ended

      serve-ok :
          (sock : Option S) (c : Connection K)
          → (c' : Connection K) × (serve m net n parse_usize handler sock c ≡ ok tt c')
      serve-ok none c = (c, refl)
      serve-ok (some sock) c = then_finish-ok _ sock _ (
          handle_client_request-Ended m searches (net.tcp sock) (log sock) (laws.tcp_lem sock) n
            parse_usize (handler sock) (log sock c.sock) (λ _ _. Unit)
            (handles sock (log sock c.sock)) c refl)

      -- With calls of the sockets that return, and a handler that returns on every request, the
      -- loop of the server completes any number of rounds, whatever the clients send and whichever
      -- calls fail, with one socket and with two: no panic, error or endless read ends it.
      pub run-ok :
          (server : HttpServer S) (rounds : ℕ) (c : Connection K)
          → (c' : Connection K) × (run m net n parse_usize handler server rounds c ≡ ok tt c')
      unfolding run
      run-ok server zero c = (c, refl)
      run-ok server (suc rounds) c =
          let (sock, k, accepts) =
            accept_socket-ok server.port server.ap_socket server.sta_socket c.sock in
          let (c', serves) = serve-ok sock (record { sock = k; buffer = c.buffer }) in
          let (end, runs) = run-ok server rounds c' in
          let after : Outcome (Connection K) HttpServerError (Option S)
              → Outcome (Connection K) HttpServerError (Unit {0}) =
            λ o. bind o (λ sock c.
              bind (serve m net n parse_usize handler sock c)
                (λ _. run m net n parse_usize handler server rounds)) in
          (
            end,
            ap (λ o. after (on_socket c.buffer o)) accepts
                ∙ (ap (λ o. bind o (λ _. run m net n parse_usize handler server rounds)) serves
                    ∙ runs),
          )
