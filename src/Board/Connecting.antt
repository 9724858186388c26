-- ===== src/Board/Connecting.antt =====
-- `connect` of sensor-board/src/comm/link.rs when a gateway answers.
use sensor_sensei.Common.{
  ℕ, suc, ◌+◌, ◌%◌, ◌^◌, ◌≤◌, ◌<◌, List, [], ◌∷◌, ◌++◌, some, length, All, ◌≡◌, refl, arith,
}
use sensor_sensei.Common.Bytes.{same_bytes_refl}
use sensor_sensei.Common.Outcome.{ok}
use sensor_sensei.Link.Phy.{PhysicalLayer, IsRadio}
use sensor_sensei.Link.Packet.{handshake_phase, sign_payload, get_payload}
use sensor_sensei.Link.Header.{frame}
use sensor_sensei.Link.Delivery.{Receives, Refused, read_within-delivers}
use sensor_sensei.Board.LinkState.{LinkState}
use sensor_sensei.Board.GatewayLink.{secret}
use sensor_sensei.Board.SensorLink.{
  SensorBoardLinkPhase, handshaking, linked, answer, try_connect, connect_loop,
}
use sensor_sensei.Board.Flush.{write_packet-frame}

module _ (hmac : List ℕ → List ℕ → List ℕ) (mac : List ℕ) {P E : Type 0} (phy : PhysicalLayer P E)
    (budget : ℕ) where
  -- Attempts in a row that nobody answers in time.
  pub data Unanswered : P → ℕ → P → Type 0 where
    none_yet : {p : P} → Unanswered p 0 p
    again :
        {p q r : P} {attempts : ℕ}
        → try_connect hmac mac phy budget p ≡ ok handshaking q
        → Unanswered q attempts r
        → Unanswered p (suc attempts) r

  -- What an attempt finds when it has sent its request: frames that the check refuses, then a reply
  -- that echoes the MAC address.
  pub record IsReply (p : P) (id : ℕ) (r : P) : Type 0 where
    pub junk : List (List ℕ)
    pub before : P
    pub skipped : Receives phy p junk before
    pub refused : All (Refused hmac phy secret) junk
    pub in_time : length junk < budget
    pub read : phy.read before ≡ ok tt r
    pub shown : phy.rx_buffer r ≡ frame hmac secret handshake_phase id mac

  answer-linked :
      (id : ℕ) (p : P)
      → get_payload phy p ≡ ok mac p
      → answer hmac mac phy (some (handshake_phase, id)) p ≡ ok (linked id) p
  unfolding answer
  answer-linked id p e = rw (e, same_bytes_refl mac) refl

  module _ (capacity : ℕ) (View : P → List (List ℕ) → List ℕ → Type 0)
      (is_radio : IsRadio phy capacity View) (some_mac : 0 < length mac)
      (short : 5 + length mac ≤ capacity) (signed : sign_payload hmac mac secret < 2 ^ 64) where
    -- A reply within the budget ends the attempt with a connection.
    try_connect-linked :
        (p r : P) (sent : List (List ℕ)) (id : ℕ)
        → View p sent []
        → ((p' : P)
            → View p' (sent ++ (frame hmac secret handshake_phase 0 mac ∷ [])) []
            → IsReply p' id r)
        → try_connect hmac mac phy budget p ≡ ok (linked (id % 16)) r
    unfolding try_connect
    try_connect-linked p r sent id view replies =
        let (p', e, view', _) =
          write_packet-frame hmac phy capacity View is_radio p sent handshake_phase 0 mac secret
            view short in
        let reply = replies p' view' in
        let (found, payload) =
          read_within-delivers hmac phy secret reply.junk handshake_phase id mac budget
            reply.skipped reply.refused reply.read reply.shown signed some_mac reply.in_time in
        rw (e, found) (answer-linked (id % 16) r payload)

    -- Over a radio, after any number of unanswered attempts, the sensor is linked by the first
    -- attempt that is answered: when within the budget of receptions a reply that echoes its MAC
    -- address follows frames that the check refuses. The signature of a reply covers its payload,
    -- as in the code, and not the id, as doc/protocol.md 3.2.1 has it.
    pub connect_loop-linked :
        (attempts more : ℕ) (s : LinkState P SensorBoardLinkPhase) (q r : P) (sent : List (List ℕ))
        (id : ℕ)
        → Unanswered s.phy attempts q
        → View q sent []
        → ((p' : P)
            → View p' (sent ++ (frame hmac secret handshake_phase 0 mac ∷ [])) []
            → IsReply p' id r)
        → connect_loop hmac mac phy budget (attempts + suc more) s
          ≡ ok (id % 16) (record s { board = linked (id % 16); phy = r })
    unfolding connect_loop
    connect_loop-linked attempts more s q r sent id none_yet view replies =
        let split : 0 + suc more ≡ suc more = omega arith in
        rw (split, try_connect-linked s.phy r sent id view replies) refl
    connect_loop-linked _ more s q r sent id (again {q = q'} {attempts = attempts} e later) view
          replies =
        let split : suc attempts + suc more ≡ suc (attempts + suc more) = omega arith in
        rw (split, e)
          (connect_loop-linked attempts more (record s { board = handshaking; phy = q' }) q r sent
            id later view replies)
