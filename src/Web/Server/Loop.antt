-- ===== src/Web/Server/Loop.antt =====
-- gateway-board/src/net/http/server.rs: the server, its two sockets, and its loop of connections.
use sensor_sensei.Common.{ℕ, zero, suc, Option, none, some, List}
use sensor_sensei.Common.Outcome.{Outcome, ok, err, panic, pending, M, bind, ◌>>=◌}
use sensor_sensei.Util.Memchr.{Memchr}
use sensor_sensei.Web.Http.{HttpServerError, TcpSocket, HttpServerRequest, HttpServerResponse}
use sensor_sensei.Web.Server.{Connection, on_socket, Run, handle_client_request}

-- `Either` of the crate embassy-futures, of two results of `accept`, where `none` is `Ok(())`.
pub data Either (E : Type 0) : Type 0 where
  first second : Option E → Either E

-- What the server uses of the sockets `S` beyond their reads and writes, in the state `K`, and of
-- the timer: `wait` is `Timer::after` with a number of milliseconds. `select` is the race of the
-- `accept` of both.
pub record Sockets (K E S : Type 0) : Type 0 where
  pub tcp : S → TcpSocket K E
  pub accept : S → ℕ → M K E (Unit {0})
  pub select : S → S → ℕ → M K ⊥ (Either E)
  pub flush : S → M K E (Unit {0})
  pub close : S → K → K
  pub abort : S → K → K
  pub wait : ℕ → K → K

-- The endpoint has no address but a port. The address of `sta_socket` is only logged and shown.
pub record HttpServer (S : Type 0) : Type 0 where
  pub port : ℕ
  pub ap_socket : S
  pub sta_socket : Option S

-- `unwrap_or_else` with a closure that only logs.
abbrev pub or_logged : {K E A : Type 0} → Outcome K E A → Outcome K HttpServerError (Unit {0})
or_logged (ok a k) = ok tt k
or_logged (err e k) = ok tt k
or_logged panic = panic
or_logged pending = pending

abbrev pub accepted :
    {K E S : Type 0} → S → Outcome K E (Unit {0}) → Outcome K HttpServerError (Option S)
accepted sock (ok a k) = ok (some sock) k
accepted sock (err e k) = ok none k
accepted sock panic = panic
accepted sock pending = pending

abbrev pub chosen : {E S : Type 0} → S → S → Either E → Option S
chosen ap sta (first none) = some ap
chosen ap sta (second none) = some sta
chosen ap sta (first (some e)) = none
chosen ap sta (second (some e)) = none

abbrev pub selected :
    {K E S : Type 0} → S → S → Outcome K ⊥ (Either E) → Outcome K HttpServerError (Option S)
selected ap sta (ok r k) = ok (chosen ap sta r) k
selected ap sta (err e k) = absurd e
selected ap sta panic = panic
selected ap sta pending = pending

module _ {K E S : Type 0} (net : Sockets K E S) where
  unfoldable pub accept_socket_dual_stack : ℕ → S → S → M K HttpServerError (Option S)
  accept_socket_dual_stack port ap sta k = selected ap sta (net.select ap sta port k)

  unfoldable pub accept_socket_single_stack : ℕ → S → M K HttpServerError (Option S)
  accept_socket_single_stack port sock k = accepted sock (net.accept sock port k)

  abbrev pub accept_socket : ℕ → S → Option S → M K HttpServerError (Option S)
  accept_socket port ap (some sta) = accept_socket_dual_stack port ap sta
  accept_socket port ap none = accept_socket_single_stack port ap

  unfoldable pub finish_connection : S → M K HttpServerError (Unit {0})
  finish_connection sock k =
      bind (or_logged (net.flush sock k))
        (λ _ k'. ok tt (net.abort sock (net.wait 1000 (net.close sock (net.wait 1000 k')))))

module _ {K E S : Type 0} (m : Memchr) (net : Sockets K E S) (n : ℕ)
    (parse_usize : List ℕ → Option ℕ)
    (handler : S → HttpServerRequest → M K HttpServerError HttpServerResponse) where
  -- `match` on the result of the request, both branches of which log, and the end.
  abbrev pub then_finish :
      S
      → Outcome (Connection K) HttpServerError HttpServerResponse
      → Outcome (Connection K) HttpServerError (Unit {0})
  then_finish sock (ok res c) = on_socket c.buffer (finish_connection net sock c.sock)
  then_finish sock (err e c) = on_socket c.buffer (finish_connection net sock c.sock)
  then_finish sock panic = panic
  then_finish sock pending = pending

  abbrev pub serve : Option S → Run K (Unit {0})
  serve none c = ok tt c
  serve (some sock) c =
      then_finish sock (handle_client_request m (net.tcp sock) n parse_usize (handler sock) c)

  -- The loop of `run` does not end: this is its first rounds.
  unfoldable pub run : HttpServer S → ℕ → Run K (Unit {0})
  run server zero c = ok tt c
  run server (suc rounds) c =
      ((λ c.
            on_socket c.buffer
              (accept_socket net server.port server.ap_socket server.sta_socket c.sock))
          >>= λ sock c. bind (serve sock c) (λ _. run server rounds))
        c
