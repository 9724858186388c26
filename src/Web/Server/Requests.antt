-- ===== src/Web/Server/Requests.antt =====
-- `handle_client_request` of net/http/server.rs: which requests the handler is given.
use sensor_sensei.Common.{
  take-plus, ℕ, suc, ◌+◌, ◌≤◌, ◌==◌, leb, ltb, List, [], ◌∷◌, ◌++◌, Option, none, some, length,
  take, drop, take-append-drop, length-take, append_assoc, append-nil, ◌≡◌, ◌⊎◌, inl, inr, refl,
  sym, ap, ◌∙◌, arith, Bool-cases, true,
}
use sensor_sensei.Common.Bytes.{codes}
use sensor_sensei.Common.Outcome.{Ended, bind-Ended, Outcome, ok, err, panic, pending, M, ◌>>=◌}
use sensor_sensei.Util.Memchr.{Memchr, IsMemchr, StandsAt, first_index}
use sensor_sensei.Web.Http.{
  HttpMethod, method_text, method_from, HttpServerError, TcpSocket, HttpServerRequest,
  HttpServerResponse, return_bad_request, write_all,
}
use sensor_sensei.Web.Server.{
  Connection, ReadUntilBytesMatch, on_socket, slice_to, read_until_byte, read_until_bytes,
  read_body, bad_request, crlf_crlf, content_length_name, call_handler, on_headers,
  on_content_length, on_match, on_method, handle_client_request,
}
use sensor_sensei.Web.Server.Runs.{IsTcpSocket, Holds}
use sensor_sensei.Web.Server.Searches.{
  read_until_byte-Ended, read_until_bytes-Ended, read_body-Ended, Found, Whole, Matched,
}
use sensor_sensei.Util.Search.{first_index-<, take-first_index, first_index-empty}
use sensor_sensei.Web.Server.Framing.{
  Announced, Framed, IsRequest, method_from-method_text, shift_buffer-ok, shift-Holds, sized,
  announced_before, slice_to-Ended, headers_then_line, onto_line, headers_then_line-Framed,
}

module _ {K E : Type 0} (m : Memchr) (laws : IsMemchr m) (tcp : TcpSocket K E) (log : K → List ℕ)
    (socket : IsTcpSocket tcp log) (n : ℕ) (parse_usize : List ℕ → Option ℕ)
    (handler : HttpServerRequest → M K HttpServerError HttpServerResponse) (start : List ℕ)
    (Good : HttpServerResponse → K → Type 0)
    (handles : (request : HttpServerRequest) (k : K)
      → IsRequest log parse_usize n start request k
      → Ended Good (handler request k)) where
  -- The handler's answer, or the one to a bad request.
  abbrev Answered : HttpServerResponse → Connection K → Type 0
  Answered response c = Good response c.sock ⊎ (response.status ≡ 400)

  on_socket-Ended :
      (buffer : List ℕ) (o : Outcome K HttpServerError HttpServerResponse)
      → Ended Good o
      → Ended Answered (on_socket buffer o)
  on_socket-Ended buffer (ok response k) good = inl good
  on_socket-Ended buffer (err e k) good = tt
  on_socket-Ended buffer panic good = good
  on_socket-Ended buffer pending good = good

  bad_request-Ended : (c : Connection K) → Ended Answered (bad_request tcp n c)
  unfolding return_bad_request write_all
  bad_request-Ended c =
      elim (socket.write_lem (codes "HTTP/1.0 400 Bad Request\r\nConnection: close\r\n\r\n")
        c.sock) [ inl (k', e, _) ↦ rw e (inr refl) | inr (error, k', e) ↦ rw e tt ]

  call_handler-Ended :
      (method : HttpMethod) (content_length : ℕ) (head after : List ℕ) (c : Connection K)
      → Framed (log c.sock) start method head after
      → take content_length after ≡ take content_length c.buffer
      → content_length ≤ length c.buffer
      → length c.buffer ≤ n
      → ((content_length ≡ 0) ⊎ Announced parse_usize head content_length)
      → Ended Answered (call_handler m tcp n parse_usize handler method content_length c)
  unfolding call_handler
  call_handler-Ended method content_length head after c framed same le room announced =
      let fits : leb content_length (length c.buffer) ≡ true = ground arith in
      let length_body : length (take content_length c.buffer) ≡ content_length =
        omega (arith, length-take content_length c.buffer) in
      rw fits (
        on_socket-Ended c.buffer _ (
          handles (record { method = method; body = take content_length c.buffer }) c.sock
            (
              head,
              drop content_length after,
              framed
                  ∙ ap
                      (λ (xs : List ℕ).
                        start ++ (method_text method ++ (b' ' ∷ (head ++ (crlf_crlf ++ xs)))))
                      (sym (take-append-drop content_length after)
                        ∙ ap (λ (xs : List ℕ). xs ++ drop content_length after) same),
              omega arith,
              sized parse_usize content_length head c.buffer length_body announced,
            )))

  on_headers-Ended :
      (method : HttpMethod) (content_length headers_end : ℕ) (head before : List ℕ)
      (c : Connection K)
      → Holds log n before c
      → StandsAt crlf_crlf c.buffer headers_end
      → before ++ take headers_end c.buffer ≡ start ++ (method_text method ++ (b' ' ∷ head))
      → ((content_length ≡ 0) ⊎ Announced parse_usize head content_length)
      → Ended Answered (on_headers m tcp n parse_usize handler method content_length headers_end c)
  unfolding on_headers
  on_headers-Ended method content_length headers_end head before c (read, room) (line, in_range)
        begins announced =
      let before' : List ℕ = before ++ take (headers_end + 4) c.buffer in
      let c' : Connection K = record c { buffer = drop (headers_end + 4) c.buffer } in
      let ended =
        headers_then_line start method headers_end head before c.buffer (line, in_range) begins in
      let holds = shift-Holds log n (headers_end + 4) before c (read, room) in
      elim (Bool-cases (ltb 0 content_length)) [
        | inl some_body ↦
            rw (some_body, shift_buffer-ok (headers_end + 4) c in_range)
              (bind-Ended (Whole log n before' c'.buffer content_length) Answered
                (read_body tcp n (suc n) content_length c')
                (λ _. call_handler m tcp n parse_usize handler method content_length)
                (read_body-Ended m laws tcp log socket n (suc n) content_length before' c'.buffer c'
                  holds ([], sym (append-nil c'.buffer)) (omega arith))
                (λ _ c2 ((read', room'), later, whole).
                  call_handler-Ended method content_length head c2.buffer c2
                    (headers_then_line-Framed start method (log c2.sock) head before' c2.buffer
                      read' ended)
                    refl whole room' announced))
        | inr no_body ↦
            let empty : content_length ≡ 0 = ground arith in
            rw no_body (
              call_handler-Ended method content_length head c'.buffer c
                (headers_then_line-Framed start method (log c.sock) head before' c'.buffer holds.0
                  ended)
                (rw empty refl) (omega arith) room announced)
      ]

  -- After `Content-Length: `, of which `before` ends.
  after_name :
      (method : HttpMethod) (a before : List ℕ) (c : Connection K)
      → Holds log n before c
      → before ≡ start ++ (method_text method ++ (b' ' ∷ (a ++ content_length_name)))
      → (end : ℕ) → first_index (λ b. b == b'\r') c.buffer ≡ some end
      → (o : Option ℕ) → parse_usize (take end c.buffer) ≡ o
      → Ended Answered (on_content_length m tcp n parse_usize handler method o c)
  after_name method a before c holds begins end at none e = bad_request-Ended c
  after_name method a before c (read, room) begins end at (some content_length) e =
      let in_buffer = first_index-< (λ b. b == b'\r') c.buffer end at in
      bind-Ended (Found log n before (crlf_crlf ∷ []) c.buffer) Answered
        (read_until_bytes m tcp n (suc n) (crlf_crlf ∷ []) 0 c)
        (λ found. on_headers m tcp n parse_usize handler method content_length found.start)
        (read_until_bytes-Ended m laws tcp log socket n (suc n) 0 (crlf_crlf ∷ []) before c.buffer
          [] c.buffer c (read, room) ([], sym (append-nil c.buffer)) refl refl (omega arith))
        (λ found c2 (holds, (later, grown), matched). elim matched [
          | inl (_, stands) ↦
              let (b, split, first) =
                announced_before end found.start c.buffer later c2.buffer grown at stands in
              let text : List ℕ = take end c.buffer in
              on_headers-Ended method content_length found.start
                (a ++ (content_length_name ++ (text ++ b))) before c2 holds stands
                (ap (λ (xs : List ℕ). xs ++ take found.start c2.buffer) begins
                  ∙ onto_line start method (a ++ content_length_name) (take found.start c2.buffer)
                  ∙ ap (λ (xs : List ℕ). start ++ (method_text method ++ (b' ' ∷ xs)))
                      (append_assoc a content_length_name (take found.start c2.buffer)
                        ∙ ap (λ (xs : List ℕ). a ++ (content_length_name ++ xs)) split))
                (inr (a, text, b, refl, first, e))
          | inr other ↦ absurd other
        ])

  on_match-Ended :
      (method : HttpMethod) (found : ReadUntilBytesMatch) (before : List ℕ) (c : Connection K)
      → Holds log n before c
      → before ≡ start ++ (method_text method ++ (b' ' ∷ []))
      → Matched 0 (content_length_name ∷ crlf_crlf ∷ []) c.buffer found
      → Ended Answered (on_match m tcp n parse_usize handler method found c)
  unfolding on_match
  on_match-Ended method found before c holds begins (inl (first, (name, fits))) =
      let count : ℕ = found.start + 16 in
      let c' : Connection K = record c { buffer = drop count c.buffer } in
      let before' : List ℕ = before ++ take count c.buffer in
      let holds' = shift-Holds log n count before c holds in
      let a : List ℕ = take found.start c.buffer in
      let begins' : before' ≡ start ++ (method_text method ++ (b' ' ∷ (a ++ content_length_name))) =
        ap (λ (xs : List ℕ). xs ++ take count c.buffer) begins
        ∙ onto_line start method [] (take count c.buffer)
        ∙ ap (λ (xs : List ℕ). start ++ (method_text method ++ (b' ' ∷ xs)))
            (take-plus found.start 16 c.buffer ∙ ap (λ (xs : List ℕ). a ++ xs) name) in
      rw (first, shift_buffer-ok count c fits)
        (bind-Ended
          (λ end s. Holds log n before' s × (first_index (λ b. b == b'\r') s.buffer ≡ some end))
          Answered (read_until_byte m tcp n (suc n) b'\r' 0 c')
          (λ end. slice_to end >>= λ text.
            on_content_length m tcp n parse_usize handler method (parse_usize text))
          (read_until_byte-Ended m laws tcp log socket n (suc n) b'\r' 0 before' [] c'.buffer c'
            holds' refl refl (first_index-empty b'\r') (omega arith))
          (λ end s (holds2, at).
            let in_buffer = first_index-< (λ b. b == b'\r') s.buffer end at in
            slice_to-Ended Answered end
              (λ text. on_content_length m tcp n parse_usize handler method (parse_usize text)) s
              (omega arith) (after_name method a before' s holds2 begins' end at _ refl)))
  on_match-Ended method found before c (read, room) begins (inr (inl (second, stands))) =
      let head : List ℕ = take found.start c.buffer in
      rw second (
        on_headers-Ended method 0 found.start head before c (read, room) stands
          (ap (λ (xs : List ℕ). xs ++ head) begins ∙ onto_line start method [] head) (inl refl))
  on_match-Ended method found before c holds begins (inr (inr other)) = absurd other

  on_method-Ended :
      (end : ℕ) (c : Connection K) (o : Option HttpMethod)
      → Holds log n start c
      → first_index (λ b. b == b' ') c.buffer ≡ some end
      → method_from (take end c.buffer) ≡ o
      → Ended Answered (on_method m tcp n parse_usize handler end o c)
  on_method-Ended end c none holds at e = bad_request-Ended c
  on_method-Ended end c (some method) holds at e =
      let in_buffer = first_index-< (λ b. b == b' ') c.buffer end at in
      let c' : Connection K = record c { buffer = drop (end + 1) c.buffer } in
      let before : List ℕ = start ++ take (end + 1) c.buffer in
      let holds' = shift-Holds log n (end + 1) start c holds in
      let begins : before ≡ start ++ (method_text method ++ (b' ' ∷ [])) =
        ap (λ (xs : List ℕ). start ++ xs)
          (take-first_index b' ' c.buffer end at
            ∙ ap (λ (xs : List ℕ). xs ++ (b' ' ∷ []))
                (method_from-method_text (take end c.buffer) method e)) in
      rw (shift_buffer-ok (end + 1) c (omega arith)) (
        bind-Ended (Found log n before (content_length_name ∷ crlf_crlf ∷ []) c'.buffer) Answered
          (read_until_bytes m tcp n (suc n) (content_length_name ∷ crlf_crlf ∷ []) 0 c')
          (on_match m tcp n parse_usize handler method)
          (read_until_bytes-Ended m laws tcp log socket n (suc n) 0
            (content_length_name ∷ crlf_crlf ∷ []) before c'.buffer [] c'.buffer c' holds'
            ([], sym (append-nil c'.buffer)) refl refl (omega arith))
          (λ found s (holds2, _, matched).
            on_match-Ended method found before s holds2 begins matched))

  -- With a socket whose calls return, and a handler that ends with a good answer on every request
  -- as described by IsRequest, the server ends without a panic, and its answer is the handler's or
  -- a bad request: the handler is given a method and a body that stand in what was read in this
  -- connection, the body of the announced length behind an empty line, and within the capacity.
  pub handle_client_request-Ended :
      (c : Connection K)
      → log c.sock ≡ start
      → Ended Answered (handle_client_request m tcp n parse_usize handler c)
  unfolding handle_client_request
  handle_client_request-Ended c e =
      let c' : Connection K = record c { buffer = [] } in
      bind-Ended (λ end s. Holds log n start s × (first_index (λ b. b == b' ') s.buffer ≡ some end))
        Answered (read_until_byte m tcp n (suc n) b' ' 0 c')
        (λ end.
          slice_to end >>= λ text. on_method m tcp n parse_usize handler end (method_from text))
        (read_until_byte-Ended m laws tcp log socket n (suc n) b' ' 0 start [] [] c'
          (e ∙ sym (append-nil start), omega arith) refl refl (first_index-empty b' ')
          (omega arith))
        (λ end s (holds, at).
          let in_buffer = first_index-< (λ b. b == b' ') s.buffer end at in
          slice_to-Ended Answered end
            (λ text. on_method m tcp n parse_usize handler end (method_from text)) s (omega arith)
            (on_method-Ended end s _ holds at refl))
