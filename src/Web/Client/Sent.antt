-- ===== src/Web/Client/Sent.antt =====
-- The bytes that a request of net/http/client.rs puts on its connection.
use sensor_sensei.Common.{
  ℕ, ◌≤◌, ◌<◌, ◌==◌, ◌||◌, List, [], ◌∷◌, ◌++◌, some, length, take, append_assoc, ◌≡◌, ◌≢◌, refl,
  ap, ◌∙◌,
}
use sensor_sensei.Common.Bytes.{codes}
use sensor_sensei.Common.Outcome.{
  Outcome, ok, err, panic, pending, M, ◌>>◌, ◌>>=◌, Ended, bind-Ended, weaken-Ended,
}
use sensor_sensei.Util.Memchr.{first_index}
use sensor_sensei.Web.Http.{HttpMethod, method_text}
use sensor_sensei.Web.Client.{
  HttpClientError, io, connect, dns_error, allocation_failure, Network, HttpClient, on_stack,
  clear_body, write_all, header, first_address, look_up, new_socket, connect_address, connect_to,
  request,
}

-- The peer answers with a line within the first 128 bytes and with less than `bound` bytes.
abbrev pub Answering : ℕ → List ℕ → Type 0
Answering bound bytes =
    ((i : ℕ) × (first_index (λ b. b == b'\r' || b == b'\n') (take 128 bytes) ≡ some i))
    × (length bytes < bound)

-- A connection that is opened to a port: 256 is not a byte.
abbrev pub opened : ℕ → List ℕ
opened port = 256 ∷ port ∷ []

-- What the client relies on: each call returns; `log` is what was done so far, that is each
-- connection that was opened and the bytes written on it, and `arrives` what the peer will have
-- sent, which is its reply to what was done. A look-up that succeeds has an address: an answer
-- without one is a failure of the look-up.
pub record IsNetwork {K C E : Type 0} (network : Network K C E) (log arrives : K → List ℕ)
    (bound : ℕ) : Type 0 where
  pub reply : List ℕ → List ℕ
  pub dns_lem :
      (host : List ℕ) (k : K)
      → Ended (λ addresses k'. (addresses ≢ []) × (log k' ≡ log k)) (network.dns_query host k)
  pub new_lem : (k : K) → Ended (λ _ k'. log k' ≡ log k) (network.new_socket k)
  pub connect_lem :
      (address port : ℕ) (k : K)
      → Ended (λ _ k'. log k' ≡ log k ++ opened port) (network.tcp_connect address port k)
  pub write_lem :
      (bytes : List ℕ) (k : K)
      → Ended (λ _ k'. log k' ≡ log k ++ bytes) (network.socket.write_all bytes k)
  pub flush_lem :
      (k : K)
      → Ended
          (λ _ k'. (log k' ≡ log k) × (arrives k' ≡ reply (log k)) × Answering bound (arrives k'))
          (network.flush k)
  pub read_lem :
      (size : ℕ) (k : K)
      → 0 < size
      → Ended
          (λ bytes k'.
            (log k' ≡ log k)
            × (arrives k ≡ bytes ++ arrives k')
            × (length bytes ≤ size)
            × (bytes ≡ [] → arrives k ≡ []))
          (network.socket.read size k)

-- `HEADER: VALUE`
abbrev pub header_text : List ℕ → List ℕ → List ℕ
header_text name value = name ++ (codes ": " ++ (value ++ codes "\r\n"))

abbrev pub request_line : HttpMethod → List ℕ → List ℕ → List ℕ
request_line method host path =
    method_text method
    ++ (codes " " ++ (path ++ (codes " HTTP/1.0\r\n" ++ header_text (codes "Host") host)))

abbrev pub HasBody : {K : Type 0} → List ℕ → HttpClient K → Type 0
HasBody body c = c.body_buf ≡ body

module _ {K : Type 0} (log : K → List ℕ) where
  -- `bytes` have been written since `c`, and `B` holds of the client.
  abbrev pub Sends : HttpClient K → List ℕ → (HttpClient K → Type 0) → HttpClient K → Type 0
  Sends c bytes B c' = (log c'.stack ≡ log c.stack ++ bytes) × B c'

  pub onto-Sends :
      {X A : Type 0} (c c' : HttpClient K) (first rest : List ℕ) (B : HttpClient K → Type 0)
      (o : Outcome (HttpClient K) X A)
      → log c'.stack ≡ log c.stack ++ first
      → Ended (λ _ c''. Sends c' rest B c'') o
      → Ended (λ _ c''. Sends c (first ++ rest) B c'') o
  onto-Sends c c' first rest B o e sent =
      weaken-Ended (λ _ c''. Sends c' rest B c'') (λ _ c''. Sends c (first ++ rest) B c'') o sent
        (λ _ c'' (e', kept).
          (e' ∙ ap (λ (xs : List ℕ). xs ++ rest) e ∙ append_assoc (log c.stack) first rest, kept))

module _ {K C E : Type 0} (network : Network K C E) (log arrives : K → List ℕ) (bound : ℕ)
    (laws : IsNetwork network log arrives bound) where
  pub on_stack-Ended :
      {F A : Type 0} (from : F → HttpClientError C E) (c : HttpClient K) (Q : A → K → Type 0)
      → (o : Outcome K F A) → Ended Q o
      → Ended (λ a c'. Q a c'.stack × (c'.body_buf ≡ c.body_buf)) (on_stack from c o)
  on_stack-Ended from c Q (ok a k) q = (q, refl)
  on_stack-Ended from c Q (err e k) q = tt
  on_stack-Ended from c Q panic q = q
  on_stack-Ended from c Q pending q = q

  called :
      {F A : Type 0} (from : F → HttpClientError C E) (c : HttpClient K) (Q : A → K → Type 0)
      → (o : Outcome K F A) → Ended Q o
      → Ended (λ a c'. Q a c'.stack) (on_stack from c o)
  called from c Q (ok a k) q = q
  called from c Q (err e k) q = tt
  called from c Q panic q = q
  called from c Q pending q = q

  pub write_all-Sends :
      (bytes body : List ℕ) (c : HttpClient K)
      → c.body_buf ≡ body
      → Ended (λ _ c'. Sends log c bytes (HasBody body) c') (write_all network bytes c)
  unfolding write_all
  write_all-Sends bytes body c e =
      weaken-Ended _ (λ _ c'. Sends log c bytes (HasBody body) c') _
        (on_stack-Ended (λ x. io x) c (λ _ k. log k ≡ log c.stack ++ bytes)
          (network.socket.write_all bytes c.stack) (laws.write_lem bytes c.stack))
        (λ _ c' (written, kept). (written, kept ∙ e))

  -- What is written, and then what the rest sends.
  pub write_then-Sends :
      {A : Type 0} (bytes rest middle : List ℕ) (B : HttpClient K → Type 0)
      → (next : M (HttpClient K) (HttpClientError C E) A)
      → ((c' : HttpClient K)
          → c'.body_buf ≡ middle
          → Ended (λ _ c''. Sends log c' rest B c'') (next c'))
      → (c : HttpClient K) → c.body_buf ≡ middle
      → Ended (λ _ c''. Sends log c (bytes ++ rest) B c'') ((write_all network bytes >> next) c)
  write_then-Sends bytes rest middle B next sends c e =
      bind-Ended (λ _ c'. Sends log c bytes (HasBody middle) c')
        (λ _ c''. Sends log c (bytes ++ rest) B c'') (write_all network bytes c) (λ _. next)
        (write_all-Sends bytes middle c e)
        (λ _ c' (written, kept). onto-Sends log c c' bytes rest B (next c') written (sends c' kept))

  pub header-Sends :
      (name value body : List ℕ) (c : HttpClient K)
      → c.body_buf ≡ body
      → Ended
          (λ _ c'. Sends log c (header_text name value) (HasBody body) c')
          (header network name value c)
  unfolding header
  header-Sends name value body =
      write_then-Sends name (codes ": " ++ (value ++ codes "\r\n")) body (HasBody body)
        (write_all network (codes ": ")
          >> (write_all network value >> write_all network (codes "\r\n")))
        (write_then-Sends (codes ": ") (value ++ codes "\r\n") body (HasBody body)
          (write_all network value >> write_all network (codes "\r\n"))
          (write_then-Sends value (codes "\r\n") body (HasBody body)
            (write_all network (codes "\r\n")) (write_all-Sends (codes "\r\n") body)))

  pub header_then-Sends :
      {A : Type 0} (name value rest body : List ℕ) (B : HttpClient K → Type 0)
      → (next : M (HttpClient K) (HttpClientError C E) A)
      → ((c' : HttpClient K)
          → c'.body_buf ≡ body
          → Ended (λ _ c''. Sends log c' rest B c'') (next c'))
      → (c : HttpClient K) → c.body_buf ≡ body
      → Ended
          (λ _ c''. Sends log c (header_text name value ++ rest) B c'')
          ((header network name value >> next) c)
  header_then-Sends name value rest body B next sends c e =
      bind-Ended (λ _ c'. Sends log c (header_text name value) (HasBody body) c')
        (λ _ c''. Sends log c (header_text name value ++ rest) B c'') (header network name value c)
        (λ _. next) (header-Sends name value body c e)
        (λ _ c' (written, kept).
          onto-Sends log c c' (header_text name value) rest B (next c') written (sends c' kept))

  first_address-Ended :
      (addresses : List ℕ) (c : HttpClient K)
      → addresses ≢ []
      → Ended (λ _ c'. c' ≡ c) (first_address network addresses c)
  first_address-Ended [] c some_address = absurd (some_address refl)
  first_address-Ended (address ∷ addresses) c some_address = refl

  -- One connection more.
  abbrev Opened : ℕ → HttpClient K → Unit {0} → HttpClient K → Type 0
  Opened port c _ c' = log c'.stack ≡ log c.stack ++ opened port

  connect_address-Ended :
      (port address : ℕ) (c c2 : HttpClient K)
      → log c2.stack ≡ log c.stack
      → Ended (Opened port c) ((new_socket network >> connect_address network port address) c2)
  connect_address-Ended port address c c2 same =
      bind-Ended (λ _ c3. log c3.stack ≡ log c2.stack) (Opened port c) (new_socket network c2)
        (λ _. connect_address network port address)
        (called (λ _. allocation_failure) c2 (λ _ k. log k ≡ log c2.stack)
          (network.new_socket c2.stack) (laws.new_lem c2.stack))
        (λ _ c3 kept.
          weaken-Ended (Opened port c3) (Opened port c) _
            (called (λ x. connect x) c3 (λ _ k. log k ≡ log c3.stack ++ opened port)
              (network.tcp_connect address port c3.stack) (laws.connect_lem address port c3.stack))
            (λ _ c4 e. e ∙ ap (λ (xs : List ℕ). xs ++ opened port) (kept ∙ same)))

  connect_to-Ended :
      (host : List ℕ) (port : ℕ) (c : HttpClient K)
      → Ended (Opened port c) (connect_to network host port c)
  unfolding connect_to
  connect_to-Ended host port c =
      bind-Ended (λ addresses c1. (addresses ≢ []) × (log c1.stack ≡ log c.stack)) (Opened port c)
        (look_up network host c) (λ res. first_address network res >>= then_connect)
        (called (λ _. dns_error) c (λ addresses k. (addresses ≢ []) × (log k ≡ log c.stack))
          (network.dns_query host c.stack) (laws.dns_lem host c.stack))
        (λ addresses c1 (found, kept).
          bind-Ended (λ _ c2. c2 ≡ c1) (Opened port c) (first_address network addresses c1)
            then_connect (first_address-Ended addresses c1 found)
            (λ address c2 same.
              connect_address-Ended port address c c2
                (ap (λ (x : HttpClient K). log (x.stack)) same ∙ kept)))
    where
      then_connect : ℕ → M (HttpClient K) (HttpClientError C E) (Unit {0})
      then_connect address = new_socket network >> connect_address network port address

  -- A request opens one connection, on which the request line and the host are the first bytes, and
  -- the body is empty.
  pub request-Sends :
      (method : HttpMethod) (host : List ℕ) (port : ℕ) (path : List ℕ) (c : HttpClient K)
      → Ended
          (λ _ c'. Sends log c (opened port ++ request_line method host path) (HasBody []) c')
          (request network method host port path c)
  unfolding request
  request-Sends method host port path c =
      let host_header = clear_body >> header network (codes "Host") host in
      let version = write_all network (codes " HTTP/1.0\r\n") >> host_header in
      let with_path = write_all network path >> version in
      let spaced = write_all network (codes " ") >> with_path in
      let host_text : List ℕ = header_text (codes "Host") host in
      bind-Ended (Opened port c)
        (λ _ c'. Sends log c (opened port ++ request_line method host path) (HasBody []) c')
        (connect_to network host port c) (λ _. write_all network (method_text method) >> spaced)
        (connect_to-Ended host port c)
        (λ _ c1 fresh.
          onto-Sends log c c1 (opened port) (request_line method host path) (HasBody []) _ fresh (
            write_then-Sends (method_text method)
              (codes " " ++ (path ++ (codes " HTTP/1.0\r\n" ++ host_text))) c1.body_buf (HasBody [])
              spaced
              (write_then-Sends (codes " ") (path ++ (codes " HTTP/1.0\r\n" ++ host_text))
                c1.body_buf (HasBody []) with_path
                (write_then-Sends path (codes " HTTP/1.0\r\n" ++ host_text) c1.body_buf (HasBody [])
                  version
                  (write_then-Sends (codes " HTTP/1.0\r\n") host_text c1.body_buf (HasBody [])
                    host_header
                    (λ c2 _.
                      header-Sends (codes "Host") host [] (record c2 { body_buf = [] }) refl))))
              c1 refl))
