-- ===== src/Board/Handshake.antt =====
-- The link handshake between the boards: `handle_inbound_handshake` of
-- gateway-board/src/comm/link.rs and `connect` of sensor-board/src/comm/link.rs.
use sensor_sensei.Common.{
  ℕ, zero, suc, ◌+◌, ◌%◌, ◌≤◌, ◌<◌, ltb, ◌&&◌, if◌then◌else◌, false, List, [], ◌∷◌, ◌++◌, Option,
  none, some, length, drop, ◌≡◌, refl, arith, Bool-cases, inl, inr,
}
use sensor_sensei.Common.Bits.{bit_and-ones}
use sensor_sensei.Common.Bytes.{same_bytes, same_bytes-≡}
use sensor_sensei.Common.Outcome.{Outcome, ok, err, pure, bind}
use sensor_sensei.Link.Phy.{PhysicalLayer, IsRadio}
use sensor_sensei.Link.Packet.{
  LinkPhase, handshake_phase, data_phase, check, read_within, get_payload, write_packet,
}
use sensor_sensei.Link.Header.{frame}
use sensor_sensei.Link.Delivery.{read_within-some}
use sensor_sensei.Board.LinkState.{LinkState, resume}
use sensor_sensei.Board.GatewayLink.{
  GatewayBoard, secret, rx_capacity, next_id, is_handshake, handle_inbound_handshake,
}
use sensor_sensei.Board.SensorLink.{
  SensorBoardLinkPhase, handshaking, linked, answer, try_connect, connect_loop, linked_or,
}
use sensor_sensei.Board.Flush.{write_packet-frame}

-- Ids follow each other modulo 16.
pub next_id-mod : (id : ℕ) → id < 16 → next_id id ≡ (id + 1) % 16
unfolding next_id
next_id-mod id small = omega (arith, bit_and-ones 4 ((id + 1) % 256))

payload_of :
    {P E : Type 0} (phy : PhysicalLayer P E) (p : P)
    → 5 ≤ length (phy.rx_buffer p)
    → get_payload phy p ≡ ok (drop 5 (phy.rx_buffer p)) p
unfolding get_payload
payload_of phy p long = elim (Bool-cases (ltb (length (phy.rx_buffer p)) 5)) [
  | inl short ↦ ground arith
  | inr enough ↦ rw enough refl
]

module _ (hmac : List ℕ → List ℕ → List ℕ) {P E : Type 0} (phy : PhysicalLayer P E) (capacity : ℕ)
    (View : P → List (List ℕ) → List ℕ → Type 0) (radio : IsRadio phy capacity View) where
  -- The gateway answers a handshake with one frame that echoes the payload and carries the id
  -- behind the last one modulo 16, which becomes the id of the connection. The signature of a
  -- reply covers its payload, as in the code, and not the id, as doc/protocol.md 3.2.1 has it.
  -- After sixteen ids the code starts over, where doc/protocol.md repeats the last one.
  pub handle_inbound_handshake-echo :
      (s : LinkState P GatewayBoard) (sent : List (List ℕ)) (payload : List ℕ)
      → View s.phy sent []
      → 5 ≤ length (phy.rx_buffer s.phy)
      → drop 5 (phy.rx_buffer s.phy) ≡ payload
      → length payload ≤ rx_capacity
      → 5 + length payload ≤ capacity
      → s.board.curr_sensor_id < 16
      → (p : P) × (handle_inbound_handshake hmac phy s
          ≡ ok tt (record s {
            board = record {
              phase = s.board.phase;
              curr_sensor_id = (s.board.curr_sensor_id + 1) % 16;
            };
            phy = p;
          }))
        × View p
            (sent
              ++ (frame hmac secret handshake_phase ((s.board.curr_sensor_id + 1) % 16) payload
                  ∷ []))
            []
  unfolding handle_inbound_handshake
  handle_inbound_handshake-echo s sent payload view long e short fits small =
      let id : ℕ = (s.board.curr_sensor_id + 1) % 16 in
      let (p, e', view', _) =
        write_packet-frame hmac phy capacity View radio s.phy sent handshake_phase id payload secret
          view fits in
      let copied : ltb rx_capacity (length payload) ≡ false = ground arith in
      (
        p,
        rw (payload_of phy s.phy long, e, copied, next_id-mod s.board.curr_sensor_id small, e')
            refl,
        view',
      )

module _ (hmac : List ℕ → List ℕ → List ℕ) (mac : List ℕ) {P E : Type 0}
    (phy : PhysicalLayer P E) where
  -- What the radio shows is a handshake reply with the id `id` that echoes `mac`.
  abbrev pub Accepted : P → ℕ → Type 0
  Accepted p id =
      (check hmac secret (phy.rx_buffer p) ≡ some (handshake_phase, id))
      × (drop 5 (phy.rx_buffer p) ≡ mac)

  got_payload :
      (p p' : P) (payload : List ℕ)
      → get_payload phy p ≡ ok payload p'
      → (p ≡ p') × (drop 5 (phy.rx_buffer p) ≡ payload)
  unfolding get_payload
  got_payload p p' payload e = elim (Bool-cases (ltb (length (phy.rx_buffer p)) 5)) [
    | inl short ↦ cc
    | inr enough ↦ (cc, cc)
  ]

  accepted_reply :
      (phase : LinkPhase) (id id' : ℕ) (payload : List ℕ) (p q : P)
      → pure {S = P} {E = E}
          (if is_handshake phase && same_bytes payload mac then linked id else handshaking)
          p
        ≡ ok (linked id') q
      → (p ≡ q) × (phase ≡ handshake_phase) × (id ≡ id') × (payload ≡ mac)
  accepted_reply data_phase id id' payload p q e = cc
  accepted_reply handshake_phase id id' payload p q e = elim (Bool-cases (same_bytes payload mac)) [
    | inl same ↦ (cc, refl, cc, same_bytes-≡ payload mac same)
    | inr other ↦ cc
  ]

  found_reply :
      (o : Outcome P E (List ℕ)) (p q : P) (phase : LinkPhase) (id id' : ℕ)
      → get_payload phy p ≡ o
      → check hmac secret (phy.rx_buffer p) ≡ some (phase, id)
      → bind o (λ payload.
        pure (if is_handshake phase && same_bytes payload mac then linked id else handshaking))
        ≡ ok (linked id') q
      → Accepted q id'
  found_reply (ok payload p') p q phase id id' got passes e =
      let (kept, shown) = got_payload p p' payload got in
      let (same_state, is_reply, same_id, echo) = accepted_reply phase id id' payload p' q e in
      (cc, cc)
  found_reply (err x p') p q phase id id' got passes e = cc
  found_reply Outcome.panic p q phase id id' got passes e = cc
  found_reply Outcome.pending p q phase id id' got passes e = cc

  answer-Accepted :
      (o : Option (LinkPhase × ℕ)) (p q : P) (id : ℕ)
      → ((found : LinkPhase × ℕ)
          → o ≡ some found
          → check hmac secret (phy.rx_buffer p) ≡ some found)
      → answer hmac mac phy o p ≡ ok (linked id) q
      → Accepted q id
  unfolding answer
  answer-Accepted none p q id passes e = cc
  answer-Accepted (some (phase, res_id)) p q id passes e =
      found_reply _ p q phase res_id id refl (passes (phase, res_id) refl) e

  searched-Accepted :
      (o : Outcome P E (Option (LinkPhase × ℕ))) (budget : ℕ) (p q : P) (id : ℕ)
      → read_within hmac phy secret budget p ≡ o
      → bind o (answer hmac mac phy) ≡ ok (linked id) q
      → Accepted q id
  searched-Accepted (ok found p') budget p q id r e =
      answer-Accepted found p' q id
        (λ packet is_some. read_within-some hmac phy secret budget p p' packet (cc)) e
  searched-Accepted (err x p') budget p q id r e = cc
  searched-Accepted Outcome.panic budget p q id r e = cc
  searched-Accepted Outcome.pending budget p q id r e = cc

  try_connect-Accepted :
      (budget : ℕ) (p q : P) (id : ℕ)
      → try_connect hmac mac phy budget p ≡ ok (linked id) q
      → Accepted q id
  unfolding try_connect
  try_connect-Accepted budget p q id e =
      after_write
        (write_packet hmac phy (record { phase = handshake_phase; id = 0; payload = mac }) secret p)
        e
    where
      after_write :
          (o : Outcome P E (Unit {0}))
          → bind o (λ _ r. bind (read_within hmac phy secret budget r) (answer hmac mac phy))
            ≡ ok (linked id) q
          → Accepted q id
      after_write (ok _ r) e' = searched-Accepted _ budget r q id refl e'
      after_write (err x r) e' = cc
      after_write Outcome.panic e' = cc
      after_write Outcome.pending e' = cc

  connected :
      (o : Outcome P E SensorBoardLinkPhase) (budget attempts : ℕ)
      (s s' : LinkState P SensorBoardLinkPhase) (id : ℕ)
      → try_connect hmac mac phy budget s.phy ≡ o
      → ((t : LinkState P SensorBoardLinkPhase)
          → connect_loop hmac mac phy budget attempts t ≡ ok id s'
          → (s'.board ≡ linked id) × Accepted s'.phy id)
      → bind (resume s o) (λ phase t.
        linked_or hmac mac phy phase
          (connect_loop hmac mac phy budget attempts)
          (record t { board = phase }))
        ≡ ok id s'
      → (s'.board ≡ linked id) × Accepted s'.phy id
  connected (ok (linked id') p) budget attempts s s' id r ih e =
      let accepted = try_connect-Accepted budget s.phy p id' r in (cc, (cc, cc))
  connected (ok handshaking p) budget attempts s s' id r ih e = ih _ e
  connected (err x p) budget attempts s s' id r ih e = cc
  connected Outcome.panic budget attempts s s' id r ih e = cc
  connected Outcome.pending budget attempts s s' id r ih e = cc

  -- However many attempts it takes, connect returns only an id that stood in a handshake reply
  -- whose signature passed the check and whose payload is the MAC address of the board, and the
  -- board is linked under that id. The signature of a reply covers its payload, as in the code,
  -- and not the id, as doc/protocol.md 3.2.1 has it.
  pub connect_loop-Accepted :
      (budget attempts : ℕ) (s s' : LinkState P SensorBoardLinkPhase) (id : ℕ)
      → connect_loop hmac mac phy budget attempts s ≡ ok id s'
      → (s'.board ≡ linked id) × Accepted s'.phy id
  unfolding connect_loop
  connect_loop-Accepted budget zero s s' id e = cc
  connect_loop-Accepted budget (suc attempts) s s' id e =
      connected (try_connect hmac mac phy budget s.phy) budget attempts s s' id refl
        (λ t. connect_loop-Accepted budget attempts t s' id) e
