-- ===== src/Web/Client.antt =====
-- gateway-board/src/net/http/client.rs: the HTTP client. Loops that still run when their fuel ends
-- are `pending`.
use sensor_sensei.Common.{
  ℕ, zero, suc, ◌-◌, ◌==◌, ◌||◌, if◌then◌else◌, Bool, not, List, [], ◌∷◌, ◌++◌, Option, none, some,
  length, take, drop,
}
use sensor_sensei.Common.Bytes.{codes, same_bytes}
use sensor_sensei.Common.Outcome.{
  Outcome, ok, err, panic, pending, M, pure, bind, ◌>>=◌, ◌>>◌, throw,
}
use sensor_sensei.Util.Memchr.{Memchr, first_index}
use sensor_sensei.Web.Http.{HttpMethod, method_text, TcpSocket}
pub mod Sent
pub mod Response
pub mod Exchange
pub mod Finish
pub mod Closed

pub data HttpClientError (C E : Type 0) : Type 0 where
  allocation_failure : HttpClientError C E
  connect : C → HttpClientError C E
  io : E → HttpClientError C E
  buffer_overflow : HttpClientError C E
  invalid_http_response : HttpClientError C E
  dns_error : HttpClientError C E

-- The `Stack` of the crate embassy-net with the socket that a request opens, in the state `K`.
pub record Network (K C E : Type 0) : Type 0 where
  pub dns_query : List ℕ → M K (Unit {0}) (List ℕ)
  pub new_socket : M K (Unit {0}) (Unit {0})
  pub tcp_connect : ℕ → ℕ → M K C (Unit {0})
  pub socket : TcpSocket K E
  pub flush : M K E (Unit {0})

-- The formatting of the standard library into a `heapless::String` of a capacity: `format` is given
-- the pieces, and its error is ignored.
pub record Formatter : Type 0 where
  pub format : ℕ → List (List ℕ) → List ℕ
  pub decimal : ℕ → List ℕ
  pub float : ℕ → List ℕ

-- The client, whose buffer and connection a request borrows.
pub record HttpClient (K : Type 0) : Type 0 where
  pub stack : K
  pub body_buf : List ℕ

-- A call of the network, whose error becomes one of the client.
abbrev pub on_stack :
    {K C E F A : Type 0}
    → (F → HttpClientError C E)
    → HttpClient K
    → Outcome K F A
    → Outcome (HttpClient K) (HttpClientError C E) A
on_stack from c (ok a k) = ok a (record c { stack = k })
on_stack from c (err e k) = err (from e) (record c { stack = k })
on_stack from c panic = panic
on_stack from c pending = pending

unfoldable pub extend_from_slice : {K X : Type 0} → List ℕ → M (HttpClient K) X (Unit {0})
extend_from_slice bytes c = ok tt (record c { body_buf = c.body_buf ++ bytes })

abbrev pub clear_body : {K X : Type 0} → M (HttpClient K) X (Unit {0})
clear_body c = ok tt (record c { body_buf = [] })

abbrev pub starts_with : List ℕ → List ℕ → Bool
starts_with pattern text = same_bytes (take (length pattern) text) pattern

abbrev pub line_capacity : ℕ
line_capacity = 128

module _ {K C E : Type 0} (network : Network K C E) where
  abbrev pub Run : Type 0 → Type 0
  Run A = M (HttpClient K) (HttpClientError C E) A

  unfoldable pub write_all : List ℕ → Run (Unit {0})
  write_all bytes c = on_stack (λ e. io e) c (network.socket.write_all bytes c.stack)

  unfoldable pub read : ℕ → Run (List ℕ)
  read size c = on_stack (λ e. io e) c (network.socket.read size c.stack)

  unfoldable pub header : List ℕ → List ℕ → Run (Unit {0})
  header name value =
      write_all name >> (write_all (codes ": ") >> (write_all value >> write_all (codes "\r\n")))

  -- `res[0]`
  abbrev pub first_address : List ℕ → Run ℕ
  first_address [] = λ _. panic
  first_address (address ∷ addresses) = pure address

  abbrev pub look_up : List ℕ → Run (List ℕ)
  look_up host c = on_stack (λ _. dns_error) c (network.dns_query host c.stack)

  abbrev pub new_socket : Run (Unit {0})
  new_socket c = on_stack (λ _. allocation_failure) c (network.new_socket c.stack)

  abbrev pub connect_address : ℕ → ℕ → Run (Unit {0})
  connect_address port address c =
      on_stack (λ e. connect e) c (network.tcp_connect address port c.stack)

  unfoldable pub connect_to : List ℕ → ℕ → Run (Unit {0})
  connect_to host port = look_up host >>= λ res.
      first_address res >>= λ address. new_socket >> connect_address port address

  unfoldable pub request : HttpMethod → List ℕ → ℕ → List ℕ → Run (Unit {0})
  request method host port path =
      connect_to host port
      >> (write_all (method_text method)
          >> (write_all (codes " ")
              >> (write_all path
                  >> (write_all (codes " HTTP/1.0\r\n")
                      >> (clear_body >> header (codes "Host") host)))))

  module _ (m : Memchr) (is_utf8 : List ℕ → Bool) (parse_u16 : List ℕ → Option ℕ) where
    abbrev pub line_or : Option ℕ → List ℕ → Run (List ℕ) → Run (List ℕ)
    line_or (some line_len) filled more = pure (take line_len filled)
    line_or none filled more =
        if length filled == line_capacity then throw buffer_overflow else more

    -- The loop of `read_line` on the filled part of the buffer; it returns the line.
    unfoldable pub line_loop : ℕ → List ℕ → Run (List ℕ)
    line_loop zero filled = λ _. pending
    line_loop (suc fuel) filled =
        line_or (m.memchr2 b'\r' b'\n' filled) filled
          (read (line_capacity - length filled) >>= λ bytes. line_loop fuel (filled ++ bytes))

    unfoldable pub read_line : ℕ → Run (List ℕ)
    read_line fuel = read line_capacity >>= line_loop fuel

    abbrev pub until_empty : List ℕ → Run (Unit {0}) → Run (Unit {0})
    until_empty [] more = pure tt
    until_empty (b ∷ bs) more = more

    -- The rest of the response is read and dropped.
    unfoldable pub drain : ℕ → Run (Unit {0})
    drain zero = λ _. pending
    drain (suc fuel) =
        let more = drain fuel in read line_capacity >>= λ bytes. until_empty bytes more

    abbrev pub ok_or_invalid : {A : Type 0} → Option A → Run A
    ok_or_invalid none = throw invalid_http_response
    ok_or_invalid (some a) = pure a

    unfoldable pub status_of : List ℕ → Run ℕ
    status_of line =
        let res_line = drop 9 line in
        if not (is_utf8 line)
        then throw invalid_http_response
        else if not (starts_with (codes "HTTP/1.0 ") line || starts_with (codes "HTTP/1.1 ") line)
        then throw invalid_http_response
        else ok_or_invalid (first_index (λ b. b == b' ') res_line) >>= λ status_len.
            ok_or_invalid (parse_u16 (take status_len res_line))

    unfoldable pub read_response : ℕ → Run ℕ
    read_response fuel =
        read_line fuel >>= λ line. status_of line >>= λ status. drain fuel >> pure status

    module _ (formatter : Formatter) where
      unfoldable pub send_body : Run (Unit {0})
      send_body c =
          (header (codes "Content-Length")
                (formatter.format 10 (formatter.decimal (length c.body_buf) ∷ []))
              >> (write_all (codes "\r\n")
                  >> (write_all c.body_buf
                      >> (λ c'. on_stack (λ e. io e) c' (network.flush c'.stack)))))
            c

      unfoldable pub finish : ℕ → Run ℕ
      finish fuel = send_body >> read_response fuel
