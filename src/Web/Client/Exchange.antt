-- ===== src/Web/Client/Exchange.antt =====
-- `HttpClientResponse::read` and `HttpClientRequest::finish` of net/http/client.rs.
use sensor_sensei.Common.{
  concat, ℕ, ◌+◌, ◌≤◌, ◌<◌, ◌^◌, ◌==◌, ◌||◌, if◌then◌else◌, Bool, not, true, false, List, [], ◌∷◌,
  ◌++◌, Option, none, some, length, take, drop, append_assoc, append-nil, take-append-drop, ◌≡◌,
  refl, sym, ap, subst, ◌∙◌, arith,
}
use sensor_sensei.Common.Bytes.{codes}
use sensor_sensei.Common.Outcome.{M, pure, ◌>>◌, ◌>>=◌, throw, Ended, bind-Ended, weaken-Ended}
use sensor_sensei.Util.Memchr.{Memchr, IsMemchr, first_index}
use sensor_sensei.Util.Search.{take-first_index}
use sensor_sensei.Web.Client.{
  HttpClientError, invalid_http_response, Network, Formatter, HttpClient, line_capacity,
  starts_with, read_line, drain, ok_or_invalid, status_of, read_response,
}
use sensor_sensei.Web.Client.Sent.{IsNetwork, Answering}
use sensor_sensei.Web.Client.Response.{is_eol, IsLine, read_line-Ended, drain-Ended}

pub record IsFormatter (formatter : Formatter) : Type 0 where
  -- What fits into the string is all there.
  pub format_lem :
      (capacity : ℕ) (pieces : List (List ℕ))
      → length (concat pieces) ≤ capacity
      → formatter.format capacity pieces ≡ concat pieces
  pub decimal_short :
      (digits n : ℕ) → n < 10 ^ digits → 0 < digits → length (formatter.decimal n) ≤ digits

pub printed :
    (formatter : Formatter) (formats : IsFormatter formatter) (digits n : ℕ)
    → n < 10 ^ digits
    → 0 < digits
    → formatter.format digits (formatter.decimal n ∷ []) ≡ formatter.decimal n
printed formatter formats digits n small some_digit =
    formats.format_lem digits (formatter.decimal n ∷ []) (
      omega (
        arith,
        formats.decimal_short digits n small some_digit,
        ap (λ (xs : List ℕ). length xs) (append-nil (formatter.decimal n)),
      ))
    ∙ append-nil (formatter.decimal n)

-- The status that a line gives: the number between the version and the next blank.
abbrev pub IsStatus : (List ℕ → Option ℕ) → List ℕ → ℕ → Type 0
IsStatus parse_u16 line status =
    ((starts_with (codes "HTTP/1.0 ") line || starts_with (codes "HTTP/1.1 ") line) ≡ true)
    × ((text after : List ℕ) × (line ≡ take 9 line ++ (text ++ (b' ' ∷ after)))
        × (parse_u16 text ≡ some status))

not-false : (b : Bool) → not b ≡ false → b ≡ true
not-false true e = refl
not-false false e = cc

-- A test that stops with an error.
unless :
    {S X A : Type 0} (Q : A → S → Type 0) (b : Bool) (bad good : M S X A) (s : S)
    → Ended Q (bad s)
    → (b ≡ false → Ended Q (good s))
    → Ended Q ((if b then bad else good) s)
unless Q true bad good s stops goes_on = stops
unless Q false bad good s stops goes_on = goes_on refl

blank_at :
    (line : List ℕ) (at : ℕ)
    → first_index (λ b. b == b' ') (drop 9 line) ≡ some at
    → line ≡ take 9 line ++ (take at (drop 9 line) ++ (b' ' ∷ drop (at + 1) (drop 9 line)))
blank_at line at found =
    let rest : List ℕ = drop 9 line in
    let split : rest ≡ take at rest ++ (b' ' ∷ drop (at + 1) rest) =
      sym (take-append-drop (at + 1) rest)
      ∙ ap (λ (xs : List ℕ). xs ++ drop (at + 1) rest) (take-first_index b' ' rest at found)
      ∙ append_assoc (take at rest) (b' ' ∷ []) (drop (at + 1) rest) in
    sym (take-append-drop 9 line) ∙ ap (λ (xs : List ℕ). take 9 line ++ xs) split

module _ (m : Memchr) (searches : IsMemchr m) (is_utf8 : List ℕ → Bool)
    (parse_u16 : List ℕ → Option ℕ) {K C E : Type 0} (network : Network K C E) where
  ok_or_invalid-Ended :
      {A : Type 0} (o : Option A) (c : HttpClient K)
      → Ended (λ a c'. (o ≡ some a) × (c' ≡ c)) (ok_or_invalid network m is_utf8 parse_u16 o c)
  ok_or_invalid-Ended none c = tt
  ok_or_invalid-Ended (some a) c = (refl, refl)

  status_of-Ended :
      (line : List ℕ) (c : HttpClient K)
      → Ended
          (λ status c'. IsStatus parse_u16 line status × (c' ≡ c))
          (status_of network m is_utf8 parse_u16 line c)
  unfolding status_of
  status_of-Ended line c =
      let Q : ℕ → HttpClient K → Type 0 = λ status c'. IsStatus parse_u16 line status × (c' ≡ c) in
      let rest : List ℕ = drop 9 line in
      let parsed : M (HttpClient K) (HttpClientError C E) ℕ =
        ok_or_invalid network m is_utf8 parse_u16 (first_index (λ b. b == b' ') rest) >>= λ at.
        ok_or_invalid network m is_utf8 parse_u16 (parse_u16 (take at rest)) in
      let version : Bool =
        starts_with (codes "HTTP/1.0 ") line || starts_with (codes "HTTP/1.1 ") line in
      unless Q (not (is_utf8 line)) (throw invalid_http_response)
        (if not version then throw invalid_http_response else parsed) c tt
        (λ _. unless Q (not version) (throw invalid_http_response) parsed c tt (λ valid.
          bind-Ended (λ at c'. (first_index (λ b. b == b' ') rest ≡ some at) × (c' ≡ c)) Q
            (ok_or_invalid network m is_utf8 parse_u16 (first_index (λ b. b == b' ') rest) c)
            (λ at. ok_or_invalid network m is_utf8 parse_u16 (parse_u16 (take at rest)))
            (ok_or_invalid-Ended (first_index (λ b. b == b' ') rest) c)
            (λ at c1 (found, same).
              weaken-Ended (λ status c'. (parse_u16 (take at rest) ≡ some status) × (c' ≡ c1)) Q _
                (ok_or_invalid-Ended (parse_u16 (take at rest)) c1)
                (λ status c2 (number, same'). (
                  (
                    not-false version valid,
                    (take at rest, drop (at + 1) rest, blank_at line at found, number),
                  ),
                  same' ∙ same,
                )))))

  -- What the response says, of which everything is read.
  abbrev pub Answered : (K → List ℕ) → (K → List ℕ) → HttpClient K → ℕ → HttpClient K → Type 0
  Answered log arrives c status c' =
      ((i : ℕ) × (first_index is_eol (take line_capacity (arrives c.stack)) ≡ some i)
        × IsStatus parse_u16 (take i (arrives c.stack)) status)
      × (log c'.stack ≡ log c.stack)

  module _ (log arrives : K → List ℕ) (bound : ℕ) (laws : IsNetwork network log arrives bound) where
    pub read_response-Ended :
        (fuel : ℕ) (c : HttpClient K)
        → Answering bound (arrives c.stack)
        → bound ≤ fuel
        → line_capacity < fuel
        → Ended (Answered log arrives c) (read_response network m is_utf8 parse_u16 fuel c)
    unfolding read_response
    read_response-Ended fuel c ((i, found), short) enough enough' =
        bind-Ended
          (IsLine m searches is_utf8 parse_u16 network log arrives bound laws (arrives c.stack) i c)
          (Answered log arrives c) (read_line network m is_utf8 parse_u16 fuel c)
          (λ line. status_of network m is_utf8 parse_u16 line >>= λ status.
            drain network m is_utf8 parse_u16 fuel >> pure status)
          (read_line-Ended m searches is_utf8 parse_u16 network log arrives bound laws fuel i c
            found enough')
          (λ line c1 (e, kept, less).
            bind-Ended (λ status c'. IsStatus parse_u16 line status × (c' ≡ c1))
              (Answered log arrives c) (status_of network m is_utf8 parse_u16 line c1)
              (λ status. drain network m is_utf8 parse_u16 fuel >> pure status)
              (status_of-Ended line c1)
              (λ status c2 (is_status, same).
                bind-Ended (λ _ c'. log c'.stack ≡ log c2.stack) (Answered log arrives c)
                  (drain network m is_utf8 parse_u16 fuel c2) (λ _. pure status)
                  (drain-Ended m searches is_utf8 parse_u16 network log arrives bound laws fuel c2
                    (omega (arith, ap (λ (x : HttpClient K). length (arrives (x.stack))) same)))
                  (λ _ c3 kept'. (
                    (i, found, subst (λ xs. IsStatus parse_u16 xs status) e is_status),
                    kept' ∙ ap (λ (x : HttpClient K). log (x.stack)) same ∙ kept,
                  ))))
