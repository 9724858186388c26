-- ===== src/Board/Receiving.antt =====
-- `GatewayLinkLayer::read_payload` and `read` over a run of the radio.
use sensor_sensei.Common.{
  ℕ, suc, ◌%◌, ◌^◌, ◌<◌, List, [], ◌∷◌, ◌++◌, length, All, ==_refl, ◌≡◌, refl, arith,
}
use sensor_sensei.Common.Outcome.{ok}
use sensor_sensei.Link.Phy.{PhysicalLayer}
use sensor_sensei.Link.Packet.{data_phase, sign_payload, get_payload}
use sensor_sensei.Link.Header.{frame}
use sensor_sensei.Link.Delivery.{Receives, Refused, read_packet-delivers}
use sensor_sensei.Board.LinkState.{LinkState}
use sensor_sensei.Board.GatewayLink.{GatewayBoard, secret, read_payload, gateway_link}
use sensor_sensei.Board.Reading.{IsReceiver, Readable, read_link-Readable}
use sensor_sensei.Board.AppLayer.{AppLayer, app_decoder}
use sensor_sensei.Codec.Traits.{usize_mod}
use sensor_sensei.App.Packet.{Packet, decode_packet}
use sensor_sensei.App.Format.{IsValid, packet_bytes}
use sensor_sensei.App.RoundTrip.{decode_packet-Consumes}
use sensor_sensei.Board.Transport.{IsReadable, Available, app_decoder-IsStream}

module _ (hmac : List ℕ → List ℕ → List ℕ) {P E : Type 0} (phy : PhysicalLayer P E) (fuel : ℕ) where
  -- The data packets of the connection `id`, each after frames that fail the check.
  pub data Incoming : P → ℕ → List (List ℕ) → Type 0 where
    none_left : {p : P} {id : ℕ} → Incoming p id []
    packet :
        {p q r : P} {id : ℕ} {payload : List ℕ} {later : List (List ℕ)} (junk : List (List ℕ))
        → Receives phy p junk q
        → All (Refused hmac phy secret) junk
        → phy.read q ≡ ok tt r
        → phy.rx_buffer r ≡ frame hmac secret data_phase id payload
        → sign_payload hmac payload secret < 2 ^ 64
        → 0 < length payload
        → length junk < fuel
        → Incoming r id later
        → Incoming p id (payload ∷ later)

  abbrev pub Expected : LinkState P GatewayBoard → List (List ℕ) → Type 0
  Expected s later = (s.board.curr_sensor_id < 16) × Incoming s.phy s.board.curr_sensor_id later

  -- One call of `read_payload` skips the frames that fail the check and stops at the data packet.
  read_payload-Expected :
      (rounds : ℕ) (s : LinkState P GatewayBoard) (payload : List ℕ) (later : List (List ℕ))
      → s.board.curr_sensor_id < 16
      → Incoming s.phy s.board.curr_sensor_id (payload ∷ later)
      → (p : P) × (read_payload hmac phy fuel (suc rounds) s ≡ ok tt (record s { phy = p }))
        × Incoming p s.board.curr_sensor_id later
        × (get_payload phy p ≡ ok payload p)
  unfolding read_payload
  read_payload-Expected rounds s payload later small
        (packet {p} {q} {r} junk skipped refused e b lt some_payload enough more) =
      let id : ℕ = s.board.curr_sensor_id in
      let (delivered, shown) =
        read_packet-delivers hmac phy secret junk data_phase id payload fuel skipped refused e b lt
          some_payload enough in
      let same : id % 16 ≡ id = omega arith in
      (r, rw (delivered, same, ==_refl id) refl, more, shown)

  pub gateway-IsReceiver :
      (rounds : ℕ) → IsReceiver phy (read_payload hmac phy fuel (suc rounds)) Expected
  gateway-IsReceiver rounds = record {
    receive_lem = λ s payload later (small, incoming).
        let (p, e, more, shown) = read_payload-Expected rounds s payload later small incoming in
        (record s { phy = p }, e, (small, more), shown);
    cursor_lem = λ s later first last expected. expected;
  }

module _ (hmac : List ℕ → List ℕ → List ℕ) {P E : Type 0} (phy : PhysicalLayer P E) (fuel : ℕ) where
  -- What is left of the payload received, and the payloads of the packets to come.
  abbrev pub Stream : LinkState P GatewayBoard → List ℕ → Type 0
  Stream = Readable phy (read_payload hmac phy (suc fuel) (suc fuel)) (Expected hmac phy (suc fuel))

  -- The gateway's link layer hands out the payloads of the data packets of its connection, in order
  -- and in pieces of the size asked for, whatever invalid frames come between them.
  pub gateway_link-IsReadable : IsReadable (gateway_link hmac phy (suc fuel)) Stream
  unfolding gateway_link
  gateway_link-IsReadable = record {
    read_lem = λ l bytes n stream some_asked enough.
        read_link-Readable phy (read_payload hmac phy (suc fuel) (suc fuel))
          (Expected hmac phy (suc fuel)) (gateway-IsReceiver hmac phy (suc fuel) fuel) n l bytes
          some_asked (omega arith) stream;
  }

  -- A valid packet whose bytes are in the payloads that the gateway receives is decoded, wherever
  -- the payloads are cut and whatever invalid frames come between them, and exactly its bytes are
  -- used up.
  pub gateway_packet-Consumes :
      (p : Packet)
      → IsValid p
      → (s : AppLayer (LinkState P GatewayBoard)) (rest : List ℕ)
      → Stream s.link (packet_bytes p ++ rest)
      → s.offset < usize_mod
      → (s' : AppLayer (LinkState P GatewayBoard)) × (decode_packet
            (app_decoder (gateway_link hmac phy (suc fuel)))
            s
          ≡ ok p s')
        × Stream s'.link rest
  gateway_packet-Consumes p valid s rest stream small =
      let link = gateway_link hmac phy (suc fuel) in
      let (s', e, (held, _), _) =
        decode_packet-Consumes (app_decoder link) (Available link Stream gateway_link-IsReadable)
          (app_decoder-IsStream link Stream gateway_link-IsReadable) p valid s rest
          (stream, small) in
      (s', e, held)
