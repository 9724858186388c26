-- ===== src/Web/Server/Framing.antt =====
-- What net/http/server.rs takes for a request, and where its parts stand in what was read.
use sensor_sensei.Common.{
  take-take, take-plus, take-front, ℕ, ◌+◌, ◌≤◌, ◌==◌, leb, List, [], ◌∷◌, ◌++◌, Option, none, some,
  length, take, drop, take-append-drop, length-take, length-drop, append_assoc, ◌≡◌, ◌⊎◌, inl, inr,
  refl, sym, ap, subst, ◌∙◌, arith, Bool-cases, true,
}
use sensor_sensei.Common.Bytes.{codes, same_bytes, same_bytes-≡}
use sensor_sensei.Common.Outcome.{Ended, ok, M, ◌>>=◌}
use sensor_sensei.Util.Memchr.{StandsAt, first_index}
use sensor_sensei.Web.Http.{
  HttpMethod, method_text, method_from, get, post, HttpServerError, HttpServerRequest,
}
use sensor_sensei.Web.Server.{Connection, slice_to, shift_buffer, crlf_crlf, content_length_name}
use sensor_sensei.Web.Server.Runs.{Holds}
use sensor_sensei.Util.Search.{
  first_index-front, first_index-take, first_index-<, first_index-before,
}

-- The headers announce a body of `len` bytes: the text after `Content-Length: `, up to the next
-- `\r`, is read as this number.
abbrev pub Announced : (List ℕ → Option ℕ) → List ℕ → ℕ → Type 0
Announced parse_usize head len =
    (a text b : List ℕ) × (head ≡ a ++ (content_length_name ++ (text ++ b)))
    × (first_index (λ c. c == b'\r') ((text ++ b) ++ crlf_crlf) ≡ some (length text))
    × (parse_usize text ≡ some len)

-- What was read is `start`, then the request line and the headers, an empty line, and `after`.
abbrev pub Framed : List ℕ → List ℕ → HttpMethod → List ℕ → List ℕ → Type 0
Framed read start method head after =
    read ≡ start ++ (method_text method ++ (b' ' ∷ (head ++ (crlf_crlf ++ after))))

-- A request in what the socket `k` has delivered after `start`: its body is what comes after the
-- empty line, in the announced length.
abbrev pub IsRequest :
    {K : Type 0} → (K → List ℕ) → (List ℕ → Option ℕ) → ℕ → List ℕ → HttpServerRequest → K → Type 0
IsRequest log parse_usize n start request k =
    (head rest : List ℕ) × Framed (log k) start request.method head (request.body ++ rest)
    × (length request.body ≤ n)
    × ((request.body ≡ []) ⊎ Announced parse_usize head (length request.body))

pub method_from-method_text :
    (value : List ℕ) (method : HttpMethod)
    → method_from value ≡ some method
    → value ≡ method_text method
unfolding method_from
method_from-method_text value method e = elim (Bool-cases (same_bytes value (codes "GET"))) [
  | inl is_get ↦
      let first : ◌≡◌ {A = Option HttpMethod} (some get) (some method) = sym (rw is_get refl) ∙ e in
      let is_method : get ≡ method = cc in
      same_bytes-≡ value (codes "GET") is_get ∙ ap (λ x. method_text x) is_method
  | inr other ↦ elim (Bool-cases (same_bytes value (codes "POST"))) [
    | inl is_post ↦
        let second : ◌≡◌ {A = Option HttpMethod} (some post) (some method) =
          sym (rw (other, is_post) refl) ∙ e in
        let is_method : post ≡ method = cc in
        same_bytes-≡ value (codes "POST") is_post ∙ ap (λ x. method_text x) is_method
    | inr neither ↦
        let no_method : ◌≡◌ {A = Option HttpMethod} none (some method) =
          sym (rw (other, neither) refl) ∙ e in
        cc
  ]
]

pub shift_buffer-ok :
    {K : Type 0} (count : ℕ) (c : Connection K)
    → count ≤ length c.buffer
    → shift_buffer count c ≡ ok tt (record c { buffer = drop count c.buffer })
unfolding shift_buffer
shift_buffer-ok count c le =
    let fits : leb count (length c.buffer) ≡ true = ground arith in rw fits refl

pub shift-Holds :
    {K : Type 0} (log : K → List ℕ) (n count : ℕ) (before : List ℕ) (c : Connection K)
    → Holds log n before c
    → Holds log n (before ++ take count c.buffer) (record c { buffer = drop count c.buffer })
shift-Holds log n count before c (read, room) = (
  read
      ∙ ap (λ (xs : List ℕ). before ++ xs) (sym (take-append-drop count c.buffer))
      ∙ sym (append_assoc before (take count c.buffer) (drop count c.buffer)),
  omega (arith, length-drop count c.buffer),
)

pub sized :
    (parse_usize : List ℕ → Option ℕ) (content_length : ℕ) (head buffer : List ℕ)
    → length (take content_length buffer) ≡ content_length
    → ((content_length ≡ 0) ⊎ Announced parse_usize head content_length)
    → (take content_length buffer ≡ [])
      ⊎ Announced parse_usize head (length (take content_length buffer))
sized parse_usize content_length head buffer e (inl empty) = inl (rw empty refl)
sized parse_usize content_length head buffer e (inr announced) =
    inr (subst (λ len. Announced parse_usize head len) (sym e) announced)

-- The text that announces the length stands before the empty line.
pub announced_before :
    (end headers_end : ℕ) (buffer later all : List ℕ)
    → all ≡ buffer ++ later
    → first_index (λ b. b == b'\r') buffer ≡ some end
    → StandsAt crlf_crlf all headers_end
    → (b : List ℕ) × (take headers_end all ≡ take end buffer ++ b)
      × (first_index (λ c. c == b'\r') ((take end buffer ++ b) ++ crlf_crlf)
          ≡ some (length (take end buffer)))
announced_before end headers_end buffer later all e at (line, fits) =
    let in_buffer = first_index-< (λ b. b == b'\r') buffer end at in
    let at_all : first_index (λ b. b == b'\r') all ≡ some end =
      rw e (first_index-front (λ b. b == b'\r') buffer later end at) in
    let le =
      first_index-before b'\r' (b'\n' ∷ b'\r' ∷ b'\n' ∷ []) all end headers_end at_all
        (line, fits) in
    let text_end : take end (take headers_end all) ≡ take end buffer =
      take-take end headers_end all le ∙ rw e (take-front end buffer later (omega arith)) in
    let split : take headers_end all ≡ take end buffer ++ drop end (take headers_end all) =
      sym (take-append-drop end (take headers_end all))
      ∙ ap (λ (xs : List ℕ). xs ++ drop end (take headers_end all)) text_end in
    let with_line : take (headers_end + 4) all
        ≡ (take end buffer ++ drop end (take headers_end all)) ++ crlf_crlf =
      take-plus headers_end 4 all
      ∙ ap (λ (xs : List ℕ). take headers_end all ++ xs) line
      ∙ ap (λ (xs : List ℕ). xs ++ crlf_crlf) split in
    (
      drop end (take headers_end all),
      split,
      subst (λ xs. first_index (λ c. c == b'\r') xs ≡ some end) with_line
            (first_index-take (λ b. b == b'\r') (headers_end + 4) all end at_all (omega arith))
          ∙ ap some (omega (arith, length-take end buffer)),
    )

-- What `slice_to` passes on when it is in range.
pub slice_to-Ended :
    {K A : Type 0} (Q : A → Connection K → Type 0) (end : ℕ)
    (f : List ℕ → M (Connection K) HttpServerError A)
    → (c : Connection K) → end ≤ length c.buffer
    → Ended Q (f (take end c.buffer) c)
    → Ended Q ((slice_to end >>= f) c)
slice_to-Ended Q end f c le then =
    let fits : leb end (length c.buffer) ≡ true = ground arith in rw fits then

module _ (start : List ℕ) where
  -- The empty line ends the headers.
  pub headers_then_line :
      (method : HttpMethod) (headers_end : ℕ) (head before buffer : List ℕ)
      → StandsAt crlf_crlf buffer headers_end
      → before ++ take headers_end buffer ≡ start ++ (method_text method ++ (b' ' ∷ head))
      → before ++ take (headers_end + 4) buffer
        ≡ (start ++ (method_text method ++ (b' ' ∷ head))) ++ crlf_crlf
  headers_then_line method headers_end head before buffer (line, _) begins =
      ap (λ (xs : List ℕ). before ++ xs)
        (take-plus headers_end 4 buffer ∙ ap (λ (xs : List ℕ). take headers_end buffer ++ xs) line)
      ∙ sym (append_assoc before (take headers_end buffer) crlf_crlf)
      ∙ ap (λ (xs : List ℕ). xs ++ crlf_crlf) begins

  pub onto_line :
      (method : HttpMethod) (head more : List ℕ)
      → (start ++ (method_text method ++ (b' ' ∷ head))) ++ more
        ≡ start ++ (method_text method ++ (b' ' ∷ (head ++ more)))
  onto_line method head more =
      append_assoc start (method_text method ++ (b' ' ∷ head)) more
      ∙ ap (λ (xs : List ℕ). start ++ xs) (append_assoc (method_text method) (b' ' ∷ head) more)

  pub headers_then_line-Framed :
      (method : HttpMethod) (read head before after : List ℕ)
      → read ≡ before ++ after
      → before ≡ (start ++ (method_text method ++ (b' ' ∷ head))) ++ crlf_crlf
      → Framed read start method head after
  headers_then_line-Framed method read head before after e begins =
      e
      ∙ ap (λ (xs : List ℕ). xs ++ after) begins
      ∙ append_assoc (start ++ (method_text method ++ (b' ' ∷ head))) crlf_crlf after
      ∙ onto_line method head (crlf_crlf ++ after)
