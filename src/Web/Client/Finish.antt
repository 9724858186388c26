-- ===== src/Web/Client/Finish.antt =====
-- `HttpClientRequest::finish` of net/http/client.rs: the body goes out with its length, and the
-- response is read.
use sensor_sensei.Common.{
  ℕ, ◌≤◌, ◌<◌, ◌^◌, Bool, List, [], ◌++◌, Option, some, length, take, append-nil, ◌≡◌, refl, sym,
  subst, ap, ◌∙◌, arith,
}
use sensor_sensei.Common.Bytes.{codes}
use sensor_sensei.Common.Outcome.{M, ◌>>◌, Ended, bind-Ended, weaken-Ended}
use sensor_sensei.Util.Memchr.{Memchr, IsMemchr, first_index}
use sensor_sensei.Web.Client.{
  HttpClientError, io, Network, Formatter, HttpClient, on_stack, line_capacity, write_all,
  read_response, send_body, finish,
}
use sensor_sensei.Web.Client.Sent.{
  IsNetwork, Answering, Sends, on_stack-Ended, write_then-Sends, header_then-Sends, header_text,
}
use sensor_sensei.Web.Client.Response.{is_eol}
use sensor_sensei.Web.Client.Exchange.{
  IsFormatter, printed, IsStatus, Answered, read_response-Ended,
}

-- What ends the headers, and the body.
abbrev pub body_text : Formatter → List ℕ → List ℕ
body_text formatter body =
    header_text (codes "Content-Length") (formatter.decimal (length body)) ++ (codes "\r\n" ++ body)

-- The first line of the response gives the status.
abbrev pub HasStatus : (List ℕ → Option ℕ) → List ℕ → ℕ → Type 0
HasStatus parse_u16 response status =
    (i : ℕ) × (first_index is_eol (take line_capacity response) ≡ some i)
    × IsStatus parse_u16 (take i response) status

module _ (m : Memchr) (searches : IsMemchr m) (is_utf8 : List ℕ → Bool)
    (parse_u16 : List ℕ → Option ℕ) (formatter : Formatter) (formats : IsFormatter formatter)
    {K C E : Type 0} (network : Network K C E) (log arrives : K → List ℕ) (bound : ℕ)
    (laws : IsNetwork network log arrives bound) where
  -- What comes is the reply to what was done, and has a line.
  abbrev Ready : HttpClient K → Type 0
  Ready c = (arrives c.stack ≡ laws.reply (log c.stack)) × Answering bound (arrives c.stack)

  -- The body went out behind its length, and the status is that of the reply.
  abbrev pub Finished : HttpClient K → ℕ → HttpClient K → Type 0
  Finished c status c' =
      (log c'.stack ≡ log c.stack ++ body_text formatter c.body_buf)
      × HasStatus parse_u16 (laws.reply (log c'.stack)) status

  flushed-Sends :
      (c : HttpClient K)
      → Ended
          (λ _ c'. (log c'.stack ≡ log c.stack) × Ready c')
          (on_stack {C = C} (λ e. io e) c (network.flush c.stack))
  flushed-Sends c =
      weaken-Ended _ (λ _ c'. (log c'.stack ≡ log c.stack) × Ready c') _
        (on_stack-Ended network log arrives bound laws (λ e. io e) c
          (λ _ k.
            (log k ≡ log c.stack)
            × (arrives k ≡ laws.reply (log c.stack))
            × Answering bound (arrives k))
          (network.flush c.stack) (laws.flush_lem c.stack))
        (λ _ c' ((kept, comes, answers), _).
          (kept, (comes ∙ ap (λ (xs : List ℕ). laws.reply xs) (sym kept), answers)))

  body_flushed :
      (body : List ℕ) (c : HttpClient K)
      → c.body_buf ≡ body
      → Ended
          (λ _ c'. Sends log c body Ready c')
          ((write_all network body
              >> (λ c'. on_stack {C = C} (λ e. io e) c' (network.flush c'.stack)))
            c)
  body_flushed body c e =
      weaken-Ended (λ _ c'. Sends log c (body ++ []) Ready c') (λ _ c'. Sends log c body Ready c') _
        (write_then-Sends network log arrives bound laws body [] body Ready
          (λ c'. on_stack {C = C} (λ e. io e) c' (network.flush c'.stack))
          (λ c1 _.
            weaken-Ended (λ _ c'. (log c'.stack ≡ log c1.stack) × Ready c')
              (λ _ c'. Sends log c1 [] Ready c') _ (flushed-Sends c1)
              (λ _ c2 (kept, ready). (kept ∙ sym (append-nil (log c1.stack)), ready)))
          c e)
        (λ _ c2 (sent, ready).
          (sent ∙ ap (λ (xs : List ℕ). log c.stack ++ xs) (append-nil body), ready))

  send_body-Sends :
      (c : HttpClient K)
      → length c.body_buf < 10 ^ 10
      → Ended
          (λ _ c'. Sends log c (body_text formatter c.body_buf) Ready c')
          (send_body network m is_utf8 parse_u16 formatter c)
  unfolding send_body
  send_body-Sends c short =
      let body : List ℕ = c.body_buf in
      let number : List ℕ = formatter.decimal (length body) in
      let flushes : M (HttpClient K) (HttpClientError C E) (Unit {0}) =
        λ c'. on_stack (λ e. io e) c' (network.flush c'.stack) in
      rw (printed formatter formats 10 (length body) short (omega arith)) (
        header_then-Sends network log arrives bound laws (codes "Content-Length") number
          (codes "\r\n" ++ body) body Ready
          (write_all network (codes "\r\n") >> (write_all network body >> flushes))
          (write_then-Sends network log arrives bound laws (codes "\r\n") body body Ready
            (write_all network body >> flushes) (body_flushed body))
          c refl)

  -- Over a network whose calls return, where a look-up that succeeds has an address, and with a
  -- server that answers with a line within its first 128 bytes, finishing a request neither panics
  -- nor runs on; on success the length, an empty line and the body have been sent after what was
  -- sent before, and the status is the one in the first line of what the server sent in reply.
  pub finish-Sends :
      (fuel : ℕ) (c : HttpClient K)
      → length c.body_buf < 10 ^ 10
      → bound ≤ fuel
      → line_capacity < fuel
      → Ended (Finished c) (finish network m is_utf8 parse_u16 formatter fuel c)
  unfolding finish
  finish-Sends fuel c short enough enough' =
      bind-Ended (λ _ c'. Sends log c (body_text formatter c.body_buf) Ready c') (Finished c)
        (send_body network m is_utf8 parse_u16 formatter c)
        (λ _. read_response network m is_utf8 parse_u16 fuel) (send_body-Sends c short)
        (λ _ c1 (sent, (comes, ready)).
          weaken-Ended (Answered m searches is_utf8 parse_u16 network log arrives c1) (Finished c) _
            (read_response-Ended m searches is_utf8 parse_u16 network log arrives bound laws fuel c1
              ready enough enough')
            (λ status c2 (has_status, kept). (
              kept ∙ sent,
              subst (λ xs. HasStatus parse_u16 xs status)
                  (comes ∙ ap (λ (xs : List ℕ). laws.reply xs) (sym kept)) has_status,
            )))
