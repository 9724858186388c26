-- ===== src/Examples/Server.antt =====
-- The loop of the HTTP server with two sockets on one wire.
use sensor_sensei.Common.{ℕ, none, some, ◌≡◌}
use sensor_sensei.Common.Outcome.{ok, err}
use sensor_sensei.Examples.Memchr.{searches, searches-IsMemchr}
use sensor_sensei.Examples.Http.{
  Wire, wire, seen_on, wire-IsTcpSocket, digit_of, count_body, post_in_one,
}
use sensor_sensei.Web.Server.{Connection}
use sensor_sensei.Web.Server.Loop.{Sockets, HttpServer, run, first}
use sensor_sensei.Web.Server.Rounds.{IsSockets, run-ok}

data Side : Type 0 where
  access_point station : Side

-- A client is at the access point, and every flush fails.
abbrev two_sides : Sockets Wire ℕ Side
two_sides = record {
  tcp = λ side. wire;
  accept = λ side port k. ok tt k;
  select = λ ap sta port k. ok (first none) k;
  flush = λ side k. err 0 k;
  close = λ side k. k;
  abort = λ side k. k;
  wait = λ ms k. k;
}

two_sides-IsSockets : IsSockets two_sides (λ side. seen_on)
two_sides-IsSockets = record {
  tcp_lem = λ side. wire-IsTcpSocket;
  accept_lem = λ side port k. tt;
  select_lem = λ ap sta port k. tt;
  flush_lem = λ side k. tt;
}

abbrev dual_stack : HttpServer Side
dual_stack = record { port = 80; ap_socket = access_point; sta_socket = some station }

run-ok_example :
    (c : Connection Wire) × (run searches two_sides 1024 digit_of
        (λ side. count_body)
        dual_stack
        3
        post_in_one
      ≡ ok tt c)
run-ok_example =
    run-ok two_sides (λ side. seen_on) two_sides-IsSockets searches searches-IsMemchr 1024 digit_of
      (λ side. count_body) (λ side start request k framed. tt) dual_stack 3 post_in_one
