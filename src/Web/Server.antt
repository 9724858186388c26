-- ===== src/Web/Server.antt =====
-- gateway-board/src/net/http/server.rs: reading a request into the buffer of `n` bytes and passing
-- it to the handler. A loop that is still running when its fuel ends is `pending`.
use sensor_sensei.Common.{
  ℕ, zero, suc, ◌+◌, ◌-◌, ltb, leb, ◌==◌, if◌then◌else◌, List, [], ◌∷◌, ◌++◌, Option, none, some,
  length, take, drop,
}
use sensor_sensei.Common.Bytes.{codes}
use sensor_sensei.Common.Outcome.{
  Outcome, ok, err, panic, pending, M, pure, bind, ◌>>=◌, ◌>>◌, throw,
}
use sensor_sensei.Util.Memchr.{Memchr}
use sensor_sensei.Web.Http.{
  HttpMethod, method_from, HttpServerError, socket_error, socket_eof, full_buffer, TcpSocket,
  HttpServerRequest, HttpServerResponse, return_bad_request,
}
pub mod Runs
pub mod Searches
pub mod Framing
pub mod Requests
pub mod Arrivals
pub mod Answers
pub mod Loop
pub mod Rounds

-- The two `&mut` arguments of the server's functions.
pub record Connection (K : Type 0) : Type 0 where
  pub sock : K
  pub buffer : List ℕ

pub record ReadUntilBytesMatch : Type 0 where
  pub start : ℕ
  pub pattern : ℕ

abbrev pub Run : Type 0 → Type 0 → Type 0
Run K A = M (Connection K) HttpServerError A

-- A call that only uses the socket.
abbrev pub on_socket :
    {K A : Type 0} → List ℕ → Outcome K HttpServerError A → Outcome (Connection K) HttpServerError A
on_socket buffer (ok a k) = ok a (record { sock = k; buffer = buffer })
on_socket buffer (err e k) = err e (record { sock = k; buffer = buffer })
on_socket buffer panic = panic
on_socket buffer pending = pending

-- `&buffer[..end]`
abbrev pub slice_to : {K : Type 0} → ℕ → Run K (List ℕ)
slice_to end c = if leb end (length c.buffer) then ok (take end c.buffer) c else panic

unfoldable pub shift_buffer : {K : Type 0} → ℕ → Run K (Unit {0})
shift_buffer count c =
    if leb count (length c.buffer) then ok tt (record c { buffer = drop count c.buffer }) else panic

abbrev pub append_read :
    {K E : Type 0}
    → List ℕ
    → Outcome K E (List ℕ)
    → Outcome (Connection K) HttpServerError (Unit {0})
append_read old (ok [] k) = err socket_eof (record { sock = k; buffer = old })
append_read old (ok (b ∷ bs) k) = ok tt (record { sock = k; buffer = old ++ (b ∷ bs) })
append_read old (err e k) = err socket_error (record { sock = k; buffer = old })
append_read old panic = panic
append_read old pending = pending

-- The result of a search in `buf[offset..]`: found, or go on.
abbrev pub at_or_read : {K A : Type 0} → Option A → (A → A) → Run K A → Run K A
at_or_read (some pos) place more = pure (place pos)
at_or_read none place more = more

abbrev pub match_or : ℕ → Option ℕ → Option ReadUntilBytesMatch → Option ReadUntilBytesMatch
match_or i (some pos) others = some (record { start = pos; pattern = i })
match_or i none others = others

-- The `for` loop over the patterns, the first of which has the index `i`.
unfoldable pub first_match : Memchr → ℕ → List (List ℕ) → List ℕ → Option ReadUntilBytesMatch
first_match m i [] bytes = none
first_match m i (pattern ∷ patterns) bytes =
    match_or i (m.memmem_find pattern bytes) (first_match m (suc i) patterns bytes)

abbrev pub crlf_crlf : List ℕ
crlf_crlf = codes "\r\n\r\n"

abbrev pub content_length_name : List ℕ
content_length_name = codes "Content-Length: "

module _ {K E : Type 0} (tcp : TcpSocket K E) (n : ℕ) where
  unfoldable pub read_append : Run K (Unit {0})
  read_append c =
      if length c.buffer == n
      then err full_buffer c
      else append_read c.buffer (tcp.read (n - length c.buffer) c.sock)

  -- `while remaining > 0`
  unfoldable pub read_body : ℕ → ℕ → Run K (Unit {0})
  read_body zero content_length c = pending
  read_body (suc fuel) content_length c =
      let more = (read_append >> read_body fuel content_length) c in
      if ltb 0 (content_length - length c.buffer) then more else ok tt c

  abbrev pub bad_request : Run K HttpServerResponse
  bad_request c = on_socket c.buffer (return_bad_request tcp c.sock)

module _ {K E : Type 0} (m : Memchr) (tcp : TcpSocket K E) (n : ℕ) where
  unfoldable pub read_until_byte : ℕ → ℕ → ℕ → Run K ℕ
  read_until_byte zero byte offset c = pending
  read_until_byte (suc fuel) byte offset c =
      let more = read_append tcp n >> read_until_byte fuel byte (length c.buffer) in
      if leb offset (length c.buffer)
      then at_or_read (m.memchr byte (drop offset c.buffer)) (λ pos. offset + pos) more c
      else panic

  unfoldable pub read_until_bytes : ℕ → List (List ℕ) → ℕ → Run K ReadUntilBytesMatch
  read_until_bytes zero patterns offset c = pending
  read_until_bytes (suc fuel) patterns offset c =
      let more = read_append tcp n >> read_until_bytes fuel patterns (length c.buffer) in
      if leb offset (length c.buffer)
      then at_or_read (first_match m 0 patterns (drop offset c.buffer))
          (λ found. record found { start = offset + found.start }) more c
      else panic

  -- `from_utf8` and then `parse::<usize>`, of the standard library, are one parameter. The handler
  -- has the socket; what it writes into the body is gone when the next request clears the buffer.
  module _ (parse_usize : List ℕ → Option ℕ)
      (handler : HttpServerRequest → M K HttpServerError HttpServerResponse) where
    unfoldable pub call_handler : HttpMethod → ℕ → Run K HttpServerResponse
    call_handler method content_length = slice_to content_length >>= λ body c.
        on_socket c.buffer (handler (record { method = method; body = body }) c.sock)

    unfoldable pub on_headers : HttpMethod → ℕ → ℕ → Run K HttpServerResponse
    on_headers method content_length headers_end =
        if ltb 0 content_length
        then shift_buffer (headers_end + 4)
          >> (read_body tcp n (suc n) content_length >> call_handler method content_length)
        else call_handler method content_length

    abbrev pub on_content_length : HttpMethod → Option ℕ → Run K HttpServerResponse
    on_content_length method none = bad_request tcp n
    on_content_length method (some content_length) =
        read_until_bytes (suc n) (crlf_crlf ∷ []) 0 >>= λ found.
        on_headers method content_length found.start

    unfoldable pub on_match : HttpMethod → ReadUntilBytesMatch → Run K HttpServerResponse
    on_match method found =
        if found.pattern == 0
        then shift_buffer (found.start + 16)
          >> (read_until_byte (suc n) b'\r' 0 >>= λ content_length_end.
              slice_to content_length_end >>= λ text. on_content_length method (parse_usize text))
        else on_headers method 0 found.start

    abbrev pub on_method : ℕ → Option HttpMethod → Run K HttpServerResponse
    on_method method_end none = bad_request tcp n
    on_method method_end (some method) =
        shift_buffer (method_end + 1)
        >> (read_until_bytes (suc n) (content_length_name ∷ crlf_crlf ∷ []) 0 >>= on_match method)

    unfoldable pub handle_client_request : Run K HttpServerResponse
    handle_client_request c =
        (read_until_byte (suc n) b' ' 0 >>= λ method_end.
        slice_to method_end >>= λ text. on_method method_end (method_from text))
          (record c { buffer = [] })
