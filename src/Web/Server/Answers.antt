-- ===== src/Web/Server/Answers.antt =====
-- `handle_client_request` of net/http/server.rs on a request that one read delivers.
use sensor_sensei.Common.{
  ℕ, suc, ◌+◌, ◌-◌, ◌≤◌, ◌==◌, leb, ltb, List, [], ◌∷◌, ◌++◌, Option, none, some, length, drop,
  drop-drop, length-append, append_assoc, take-length_append, drop-length_append, ◌≡◌, refl, sym,
  ap, ◌∙◌, arith, true, false,
}
use sensor_sensei.Common.Bytes.{same_bytes}
use sensor_sensei.Common.Outcome.{Outcome, ok, M}
use sensor_sensei.Util.Memchr.{Memchr, IsMemchr, first_index}
use sensor_sensei.Web.Http.{
  HttpMethod, method_text, method_from, get, post, HttpServerError, TcpSocket, HttpServerRequest,
  HttpServerResponse,
}
use sensor_sensei.Web.Server.{
  Connection, ReadUntilBytesMatch, on_socket, read_until_byte, first_match, read_body, crlf_crlf,
  content_length_name, call_handler, on_headers, on_content_length, on_match, on_method,
  handle_client_request,
}
use sensor_sensei.Util.Search.{first_index-empty}
use sensor_sensei.Web.Server.Framing.{shift_buffer-ok}
use sensor_sensei.Web.Server.Arrivals.{
  FirstAt, FirstAt-end, finds, byte_seen, bytes_seen, byte_arrives,
}

module _ (m : Memchr) (laws : IsMemchr m) where
  module _ {K E : Type 0} (tcp : TcpSocket K E) (n : ℕ) (parse_usize : List ℕ → Option ℕ)
      (handler : HttpServerRequest → M K HttpServerError HttpServerResponse)
      (method : HttpMethod) where
    -- The handler is given the body; what comes after it stays in the buffer.
    abbrev handled : List ℕ → List ℕ → K → Outcome (Connection K) HttpServerError HttpServerResponse
    handled body extra k =
        on_socket (body ++ extra) (handler (record { method = method; body = body }) k)

    body_handled :
        (body extra : List ℕ) (k : K)
        → call_handler m tcp n parse_usize handler method
            (length body)
            (record { sock = k; buffer = body ++ extra })
          ≡ handled body extra k
    unfolding call_handler
    body_handled body extra k =
        let fits : leb (length body) (length (body ++ extra)) ≡ true =
          ground (arith, length-append body extra) in
        rw (fits, take-length_append body extra) refl

    headers_handled :
        (head body extra : List ℕ) (k : K)
        → 1 ≤ length body
        → on_headers m tcp n parse_usize handler method
            (length body)
            (length head)
            (record { sock = k; buffer = head ++ (crlf_crlf ++ (body ++ extra)) })
          ≡ handled body extra k
    unfolding on_headers read_body
    headers_handled head body extra k some_body =
        let all : List ℕ = head ++ (crlf_crlf ++ (body ++ extra)) in
        let has_body : ltb 0 (length body) ≡ true = ground arith in
        let whole : ltb 0 (length body - length (body ++ extra)) ≡ false =
          ground (arith, length-append body extra) in
        let rest : drop (length head + 4) all ≡ body ++ extra =
          rw (drop-drop (length head) 4 all, drop-length_append head (crlf_crlf ++ (body ++ extra)))
            refl in
        let le : length head + 4 ≤ length all =
          omega (arith, length-append head (crlf_crlf ++ (body ++ extra))) in
        rw
          (
            has_body,
            shift_buffer-ok (length head + 4) (record { sock = k; buffer = all }) le,
            rest,
            whole,
          )
          (body_handled body extra k)

    announced_handled :
        (text body extra : List ℕ) (k : K)
        → 1 ≤ length body
        → FirstAt crlf_crlf text (body ++ extra)
        → on_content_length m tcp n parse_usize handler method
            (some (length body))
            (record { sock = k; buffer = text ++ (crlf_crlf ++ (body ++ extra)) })
          ≡ handled body extra k
    unfolding first_match
    announced_handled text body extra k some_body first =
        let c : Connection K = record {
          sock = k;
          buffer = text ++ (crlf_crlf ++ (body ++ extra));
        } in
        let found : ReadUntilBytesMatch = record { start = length text; pattern = 0 } in
        let seen =
          bytes_seen m laws tcp n (crlf_crlf ∷ []) found c
            (rw (finds m laws crlf_crlf text (body ++ extra) first) refl) in
        rw seen (headers_handled text body extra k some_body)

    match_handled :
        (a digits b body extra : List ℕ) (k : K)
        → 1 ≤ length body
        → first_index (λ c. c == b'\r') (digits ++ (b ++ (crlf_crlf ++ (body ++ extra))))
          ≡ some (length digits)
        → FirstAt crlf_crlf (digits ++ b) (body ++ extra)
        → parse_usize digits ≡ some (length body)
        → on_match m tcp n parse_usize handler method
            (record { start = length a; pattern = 0 })
            (record {
              sock = k;
              buffer =
                  a ++ (content_length_name ++ (digits ++ (b ++ (crlf_crlf ++ (body ++ extra)))));
            })
          ≡ handled body extra k
    unfolding on_match
    match_handled a digits b body extra k some_body at first parse =
        let tail : List ℕ = digits ++ (b ++ (crlf_crlf ++ (body ++ extra))) in
        let all : List ℕ = a ++ (content_length_name ++ tail) in
        let rest : drop (length a + 16) all ≡ tail =
          rw (drop-drop (length a) 16 all, drop-length_append a (content_length_name ++ tail))
            refl in
        let le : length a + 16 ≤ length all =
          omega (arith, length-append a (content_length_name ++ tail)) in
        let c : Connection K = record { sock = k; buffer = tail } in
        let seen : read_until_byte m tcp n (suc n) b'\r' 0 c ≡ ok (length digits) c =
          byte_seen m laws tcp n n b'\r' 0 (length digits) c (omega arith) at
          ∙ ap (λ j. ok j c) (omega arith) in
        let fits : leb (length digits) (length tail) ≡ true =
          ground (arith, length-append digits (b ++ (crlf_crlf ++ (body ++ extra)))) in
        rw
          (
            shift_buffer-ok (length a + 16) (record { sock = k; buffer = all }) le,
            rest,
            seen,
            fits,
            take-length_append digits (b ++ (crlf_crlf ++ (body ++ extra))),
            parse,
            ← append_assoc digits b (crlf_crlf ++ (body ++ extra)),
          )
          (announced_handled (digits ++ b) body extra k some_body first)

    method_handled :
        (a digits b body extra : List ℕ) (k : K)
        → 1 ≤ length body
        → FirstAt content_length_name a (digits ++ (b ++ (crlf_crlf ++ (body ++ extra))))
        → first_index (λ c. c == b'\r') (digits ++ (b ++ (crlf_crlf ++ (body ++ extra))))
          ≡ some (length digits)
        → FirstAt crlf_crlf (digits ++ b) (body ++ extra)
        → parse_usize digits ≡ some (length body)
        → on_method m tcp n parse_usize handler
            (length (method_text method))
            (some method)
            (record {
              sock = k;
              buffer =
                  method_text method
                  ++ (b' '
                      ∷ (a
                          ++ (content_length_name
                              ++ (digits ++ (b ++ (crlf_crlf ++ (body ++ extra)))))));
            })
          ≡ handled body extra k
    unfolding first_match
    method_handled a digits b body extra k some_body named at first parse =
        let tail : List ℕ = digits ++ (b ++ (crlf_crlf ++ (body ++ extra))) in
        let line : List ℕ = a ++ (content_length_name ++ tail) in
        let all : List ℕ = method_text method ++ (b' ' ∷ line) in
        let rest : drop (length (method_text method) + 1) all ≡ line =
          rw
            (
              drop-drop (length (method_text method)) 1 all,
              drop-length_append (method_text method) (b' ' ∷ line),
            )
            refl in
        let le : length (method_text method) + 1 ≤ length all =
          omega (arith, length-append (method_text method) (b' ' ∷ line)) in
        let c : Connection K = record { sock = k; buffer = line } in
        let found : ReadUntilBytesMatch = record { start = length a; pattern = 0 } in
        let seen =
          bytes_seen m laws tcp n (content_length_name ∷ crlf_crlf ∷ []) found c
            (rw (finds m laws content_length_name a tail named) refl) in
        rw
          (
            shift_buffer-ok (length (method_text method) + 1) (record { sock = k; buffer = all })
                le,
            rest,
            seen,
          )
          (match_handled a digits b body extra k some_body at first parse)

method_ends :
    (method : HttpMethod) (line : List ℕ)
    → first_index (λ b. b == b' ') (method_text method ++ (b' ' ∷ line))
      ≡ some (length (method_text method))
unfolding first_index
method_ends get line = refl
method_ends post line = refl

method_from-method_text : (method : HttpMethod) → method_from (method_text method) ≡ some method
unfolding method_from same_bytes
method_from-method_text get = refl
method_from-method_text post = refl

module _ (m : Memchr) (laws : IsMemchr m) {K E : Type 0} (tcp : TcpSocket K E) (n : ℕ)
    (parse_usize : List ℕ → Option ℕ)
    (handler : HttpServerRequest → M K HttpServerError HttpServerResponse) where
  line_arrives :
      (byte i : ℕ) (bytes : List ℕ) (k k' : K)
      → tcp.read (suc n) k ≡ ok bytes k'
      → first_index (λ b. b == byte) bytes ≡ some i
      → read_until_byte m tcp (suc n) (suc (suc n)) byte 0 (record { sock = k; buffer = [] })
        ≡ ok i (record { sock = k'; buffer = bytes })
  line_arrives byte i [] k k' e at =
      let no_byte : ◌≡◌ {A = Option ℕ} none (some i) = sym (first_index-empty byte) ∙ at in cc
  line_arrives byte i (b ∷ bs) k k' e at = byte_arrives m laws tcp n byte i b bs k k' e at

  -- A request that one read delivers, with a Content-Length of at least one, the name of which
  -- stands first where it is, and whose first empty line is the one behind the headers, is given
  -- to the handler with its method and the whole body, whatever the buffer held before.
  pub handle_client_request-handler :
      (method : HttpMethod) (a digits b body extra : List ℕ) (c : Connection K) (k : K)
      → tcp.read (suc n) c.sock
        ≡ ok
            (method_text method
              ++ (b' '
                  ∷ (a
                      ++ (content_length_name
                          ++ (digits ++ (b ++ (crlf_crlf ++ (body ++ extra))))))))
            k
      → 1 ≤ length body
      → FirstAt content_length_name a (digits ++ (b ++ (crlf_crlf ++ (body ++ extra))))
      → first_index (λ c. c == b'\r') (digits ++ (b ++ (crlf_crlf ++ (body ++ extra))))
        ≡ some (length digits)
      → FirstAt crlf_crlf ((a ++ content_length_name) ++ (digits ++ b)) (body ++ extra)
      → parse_usize digits ≡ some (length body)
      → handle_client_request m tcp (suc n) parse_usize handler c
        ≡ on_socket (body ++ extra) (handler (record { method = method; body = body }) k)
  unfolding handle_client_request
  handle_client_request-handler method a digits b body extra c k e some_body named at first parse =
      let line : List ℕ =
        b' ' ∷ (a ++ (content_length_name ++ (digits ++ (b ++ (crlf_crlf ++ (body ++ extra)))))) in
      let text : List ℕ = method_text method in
      let fits : leb (length text) (length (text ++ line)) ≡ true =
        ground (arith, length-append text line) in
      rw
        (
          line_arrives b' ' (length text) (text ++ line) c.sock k e (
              method_ends method
                (a ++ (content_length_name ++ (digits ++ (b ++ (crlf_crlf ++ (body ++ extra))))))),
          fits,
          take-length_append text line,
          method_from-method_text method,
        )
        (method_handled m laws tcp (suc n) parse_usize handler method a digits b body extra k
          some_body named at
          (FirstAt-end crlf_crlf (a ++ content_length_name) (digits ++ b) (body ++ extra) first)
          parse)
