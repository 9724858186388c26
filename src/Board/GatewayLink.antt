-- ===== src/Board/GatewayLink.antt =====
-- gateway-board/src/comm/link.rs: the link layer of the gateway.
use sensor_sensei.Common.{
  ℕ, zero, suc, ◌+◌, ◌%◌, bit_and, ltb, ◌==◌, if◌then◌else◌, not, Bool, true, false, List, [], ◌∷◌,
  length,
}
use sensor_sensei.Common.Outcome.{M, ok, panic, pending, pure, ◌>>=◌, ◌>>◌}
use sensor_sensei.Link.Phy.{PhysicalLayer}
use sensor_sensei.Link.Packet.{
  LinkPhase, handshake_phase, data_phase, write_packet, read_packet, get_payload,
}
use sensor_sensei.Board.LinkState.{LinkLayer, LinkState, on_phy, set_tx, read_link, write_link}

pub record GatewayBoard : Type 0 where
  pub phase : LinkPhase
  pub curr_sensor_id : ℕ

-- The key that both boards use.
abbrev pub secret : List ℕ
secret = b'S' ∷ b'E' ∷ b'C' ∷ b'R' ∷ b'E' ∷ b'T' ∷ []

-- `LORA_RX_BUF_SIZE` of gateway-board/src/lora.rs.
abbrev pub rx_capacity : ℕ
rx_capacity = 128

unfoldable pub new_gateway : {P : Type 0} → P → LinkState P GatewayBoard
new_gateway phy = record {
  board = record { phase = handshake_phase; curr_sensor_id = 15 };
  phy = phy;
  tx_buf = [];
  payload_start = 0;
  payload_end = 0;
}

unfoldable pub reset_gateway : {P : Type 0} → LinkState P GatewayBoard → LinkState P GatewayBoard
reset_gateway s = record s {
  board = record { phase = handshake_phase; curr_sensor_id = 15 };
  payload_start = 0;
  payload_end = 0;
  tx_buf = [];
}

-- `(id.wrapping_add(1)) & 0x0F`
unfoldable pub next_id : ℕ → ℕ
next_id id = bit_and ((id + 1) % 256) 15

abbrev pub is_handshake : LinkPhase → Bool
is_handshake handshake_phase = true
is_handshake data_phase = false

module _ (hmac : List ℕ → List ℕ → List ℕ) {P E : Type 0} (phy : PhysicalLayer P E) where
  abbrev pub State : Type 0
  State = LinkState P GatewayBoard

  -- `Vec::from_slice(…).unwrap()`
  abbrev pub unwrap_copy : List ℕ → M State E (List ℕ)
  unwrap_copy payload s = if ltb rx_capacity (length payload) then panic else ok payload s

  abbrev pub assign_id : M State E ℕ
  assign_id s =
      let id = next_id s.board.curr_sensor_id in
      ok id (record s { board = record { phase = s.board.phase; curr_sensor_id = id } })

  unfoldable pub handle_inbound_handshake : M State E (Unit {0})
  handle_inbound_handshake = do
    received ← on_phy (get_payload phy)
    payload ← unwrap_copy received
    id ← assign_id
    on_phy (
        write_packet hmac phy (record { phase = handshake_phase; id = id; payload = payload })
          secret)

  abbrev pub current_id : M State E ℕ
  current_id s = ok s.board.curr_sensor_id s

  abbrev pub reconnect : M State E (Unit {0})
  reconnect s = ok tt (record s {
    board = record { phase = handshake_phase; curr_sensor_id = s.board.curr_sensor_id };
  })

  -- The loop of `read_payload`; each round reads one valid packet on its own fuel.
  unfoldable pub read_payload : ℕ → ℕ → M State E (Unit {0})
  read_payload fuel zero = λ _. pending
  read_payload fuel (suc rounds) = do
    (res_phase, res_id) ← on_phy (read_packet hmac phy secret fuel)
    id ← current_id
    let more = read_payload fuel rounds
    let answered = handle_inbound_handshake >> more
    let restarted = reconnect >> more
    if is_handshake res_phase
        then answered
        else if not (res_id == id)
        then more
        else if is_handshake res_phase
        then restarted
        else pure tt

  unfoldable pub flush_gateway : M State E (Unit {0})
  flush_gateway s =
      let send = (do
        on_phy (
            write_packet hmac phy
              (record { phase = data_phase; id = s.board.curr_sensor_id; payload = s.tx_buf })
              secret)
        set_tx []
        on_phy phy.flush) in
      send s

  unfoldable pub gateway_link : ℕ → LinkLayer State E
  gateway_link fuel = record {
    read = read_link phy (read_payload fuel fuel);
    write = write_link flush_gateway;
    flush = flush_gateway;
    reset = reset_gateway;
  }
