-- ===== src/Board/Reading.antt =====
-- `LinkLayer::read` of both boards: payloads are received one by one and handed out in pieces.
use sensor_sensei.Common.{
  concat, take-front, drop-front, drop-drop, ℕ, zero, suc, ◌+◌, ◌-◌, ◌≤◌, ◌<◌, min, ltb, leb, List,
  [], ◌∷◌, ◌++◌, length, take, drop, All, length-drop, ◌≡◌, ◌⊎◌, refl, sym, ap, subst, ◌∙◌, arith,
  Bool-cases, inl, inr, true, false,
}
use sensor_sensei.Common.Outcome.{M, ok}
use sensor_sensei.Link.Phy.{PhysicalLayer}
use sensor_sensei.Link.Packet.{get_payload}
use sensor_sensei.Board.LinkState.{LinkState, refill, copy_out, read_link}

drop-all : (k : ℕ) (xs : List ℕ) → length xs ≤ k → drop k xs ≡ []
drop-all zero [] h = refl
drop-all (suc k) [] h = refl
drop-all zero (x ∷ xs) h = ground arith
drop-all (suc k) (x ∷ xs) h = drop-all k xs (omega arith)

-- What `read` needs of `read_payload`: `Pending s payloads` are the payloads to come; each call
-- receives the next one, and the position in the payload does not matter to it.
pub record IsReceiver {P B E : Type 0} (phy : PhysicalLayer P E)
    (read_payload : M (LinkState P B) E (Unit {0}))
    (Pending : LinkState P B → List (List ℕ) → Type 0) : Type 0 where
  pub receive_lem :
      (s : LinkState P B) (payload : List ℕ) (later : List (List ℕ))
      → Pending s (payload ∷ later)
      → (s' : LinkState P B) × (read_payload s ≡ ok tt s')
        × Pending s' later
        × (get_payload phy s'.phy ≡ ok payload s'.phy)
  pub cursor_lem :
      (s : LinkState P B) (later : List (List ℕ)) (first last : ℕ)
      → Pending s later
      → Pending (record s { payload_start = first; payload_end = last }) later

module _ {P B E : Type 0} (phy : PhysicalLayer P E) (read_payload : M (LinkState P B) E (Unit {0}))
    (Pending : LinkState P B → List (List ℕ) → Type 0) where
  -- A payload of which a part is left, up to its end.
  abbrev pub Shows : LinkState P B → List ℕ → Type 0
  Shows s payload =
      (get_payload phy s.phy ≡ ok payload s.phy)
      × (s.payload_end ≡ length payload)
      × (s.payload_start < s.payload_end)

  -- The rest of the current payload.
  abbrev pub Rest : LinkState P B → List ℕ → Type 0
  Rest s current =
      ((s.payload_end ≤ s.payload_start) × (current ≡ []))
      ⊎ ((payload : List ℕ) × Shows s payload × (current ≡ drop s.payload_start payload))

  -- What can be read: the rest of the current payload, and the payloads to come, none of them empty.
  abbrev pub Readable : LinkState P B → List ℕ → Type 0
  Readable s bytes =
      (current : List ℕ) × (later : List (List ℕ)) × Rest s current
      × Pending s later
      × All (λ payload. 0 < length payload) later
      × (current ++ concat later ≡ bytes)

module _ {P B E : Type 0} (phy : PhysicalLayer P E) (read_payload : M (LinkState P B) E (Unit {0}))
    (Pending : LinkState P B → List (List ℕ) → Type 0)
    (receiver : IsReceiver phy read_payload Pending) where
  abbrev Reads : LinkState P B → ℕ → List ℕ → Type 0
  Reads s n bytes =
      (k : ℕ) × (s' : LinkState P B) × (read_link phy read_payload n s ≡ ok (take k bytes) s')
      × (0 < k)
      × (k ≤ n)
      × Readable phy read_payload Pending s' (drop k bytes)

  -- The rest after a copy.
  after_copy :
      (s : LinkState P B) (payload : List ℕ) (k : ℕ)
      → Shows phy read_payload Pending s payload
      → Rest phy read_payload Pending
          (record s { payload_start = s.payload_start + k })
          (drop k (drop s.payload_start payload))
  after_copy s payload k (shown, last, some_left) =
      elim (Bool-cases (ltb (s.payload_start + k) s.payload_end)) [
        | inl more ↦
            inr (payload, (shown, last, ground arith), sym (drop-drop s.payload_start k payload))
        | inr over ↦ inl (
          ground arith,
          drop-all k (drop s.payload_start payload)
              (ground (arith, length-drop s.payload_start payload)),
        )
      ]

  copy-Shows :
      (n : ℕ) (s : LinkState P B) (payload : List ℕ) (later : List (List ℕ))
      → 0 < n
      → Shows phy read_payload Pending s payload
      → Pending s later
      → All (λ later_payload. 0 < length later_payload) later
      → (k : ℕ) × (s' : LinkState P B) × (copy_out phy read_payload n payload s
          ≡ ok (take k (drop s.payload_start payload ++ concat later)) s')
        × (0 < k)
        × (k ≤ n)
        × Readable phy read_payload Pending s'
            (drop k (drop s.payload_start payload ++ concat later))
  unfolding copy_out
  copy-Shows n s payload later some_asked (shown, last, some_left) coming full =
      let k : ℕ = min n (s.payload_end - s.payload_start) in
      let rest : List ℕ = drop s.payload_start payload in
      let fits : k ≤ length rest = omega (arith, length-drop s.payload_start payload) in
      let no_panic : ltb (length payload) (s.payload_start + k) ≡ false = ground arith in
      let s' : LinkState P B = record s { payload_start = s.payload_start + k } in
      (
        k,
        s',
        rw no_panic (ap (λ xs. ok xs s') (sym (take-front k rest (concat later) fits))),
        omega arith,
        omega arith,
        (
          drop k rest,
          later,
          after_copy s payload k (shown, last, some_left),
          receiver.cursor_lem s later (s.payload_start + k) s.payload_end coming,
          full,
          sym (drop-front k rest (concat later) fits),
        ),
      )

  fresh-Reads :
      (n : ℕ) (s : LinkState P B) (later : List (List ℕ))
      → 0 < n
      → s.payload_end ≤ s.payload_start
      → Pending s later
      → All (λ payload. 0 < length payload) later
      → 0 < length (concat later)
      → Reads s n (concat later)
  unfolding read_link refill
  fresh-Reads n s [] some_asked used coming full some_bytes = ground arith
  fresh-Reads n s (payload ∷ later) some_asked used coming (some_payload, full) some_bytes =
      let (s1, e1, coming', shown) = receiver.receive_lem s payload later coming in
      let s2 : LinkState P B = record s1 { payload_start = 0; payload_end = length payload } in
      let (k, s', e, progress, few, readable) =
        copy-Shows n s2 payload later some_asked (shown, refl, some_payload)
          (receiver.cursor_lem s1 later 0 (length payload) coming') full in
      let is_used : leb s.payload_end s.payload_start ≡ true = ground arith in
      (k, s', rw (is_used, e1, shown, shown, e) refl, progress, few, readable)

  -- As long as bytes are to come, `read` returns, with one of them at least and at most as many as
  -- asked for, in order; a payload is received only when the one before is used up.
  pub read_link-Readable :
      (n : ℕ) (s : LinkState P B) (bytes : List ℕ)
      → 0 < n
      → 0 < length bytes
      → Readable phy read_payload Pending s bytes
      → (k : ℕ) × (s' : LinkState P B) × (read_link phy read_payload n s ≡ ok (take k bytes) s')
        × (0 < k)
        × (k ≤ n)
        × Readable phy read_payload Pending s' (drop k bytes)
  unfolding read_link refill
  read_link-Readable n s bytes some_asked some_bytes
        (current, later, inl (used, empty), coming, full, e) =
      let whole : concat later ≡ bytes = ap (λ xs. xs ++ concat later) (sym empty) ∙ e in
      subst (λ xs. Reads s n xs) whole
        (fresh-Reads n s later some_asked used coming full
          (omega (arith, ap (λ (xs : List ℕ). length xs) whole)))
  read_link-Readable n s bytes some_asked some_bytes
        (current, later, inr (payload, (shown, last, some_left), rest), coming, full, e) =
      let whole : drop s.payload_start payload ++ concat later ≡ bytes =
        ap (λ xs. xs ++ concat later) (sym rest) ∙ e in
      let (k, s', e', progress, few, readable) =
        copy-Shows n s payload later some_asked (shown, last, some_left) coming full in
      let unused : leb s.payload_end s.payload_start ≡ false = ground arith in
      subst (λ xs. Reads s n xs) whole (k, s', rw (unused, shown, e') refl, progress, few, readable)
