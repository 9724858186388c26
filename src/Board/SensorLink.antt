-- ===== src/Board/SensorLink.antt =====
-- sensor-board/src/comm/link.rs: the link layer of a sensor board. The MAC address and what happens
-- within the five seconds of a `select` come from outside: `mac` and, as a number of receptions,
-- `budget`.
use sensor_sensei.Common.{
  ℕ, zero, suc, ◌==◌, ◌&&◌, if◌then◌else◌, not, List, [], Option, none, some,
}
use sensor_sensei.Common.Bytes.{same_bytes}
use sensor_sensei.Common.Outcome.{Outcome, M, pending, pure, ◌>>=◌, ◌>>◌}
use sensor_sensei.Link.Phy.{PhysicalLayer}
use sensor_sensei.Link.Packet.{
  LinkPhase, handshake_phase, data_phase, write_packet, read_packet, read_within, get_payload,
}
use sensor_sensei.Board.GatewayLink.{secret, is_handshake}
use sensor_sensei.Board.LinkState.{LinkLayer, LinkState, on_phy, set_tx, read_link, write_link}

pub data SensorBoardLinkPhase : Type 0 where
  handshaking : SensorBoardLinkPhase
  linked : ℕ → SensorBoardLinkPhase

unfoldable pub new_sensor : {P : Type 0} → P → LinkState P SensorBoardLinkPhase
new_sensor phy = record {
  board = handshaking;
  phy = phy;
  tx_buf = [];
  payload_start = 0;
  payload_end = 0;
}

unfoldable pub reset_sensor :
    {P : Type 0} → LinkState P SensorBoardLinkPhase → LinkState P SensorBoardLinkPhase
reset_sensor s = record s { board = handshaking; payload_start = 0; payload_end = 0; tx_buf = [] }

module _ (hmac : List ℕ → List ℕ → List ℕ) (mac : List ℕ) {P E : Type 0}
    (phy : PhysicalLayer P E) where
  abbrev pub State : Type 0
  State = LinkState P SensorBoardLinkPhase

  -- A reply that echoes the MAC address assigns the id that it carries.
  unfoldable pub answer : Option (LinkPhase × ℕ) → M P E SensorBoardLinkPhase
  answer none = pure handshaking
  answer (some (res_phase, res_id)) = do
    payload ← get_payload phy
    pure (if is_handshake res_phase && same_bytes payload mac then linked res_id else handshaking)

  unfoldable pub try_connect : ℕ → M P E SensorBoardLinkPhase
  try_connect budget = do
    write_packet hmac phy (record { phase = handshake_phase; id = 0; payload = mac }) secret
    res ← read_within hmac phy secret budget
    answer res

  abbrev pub set_phase : SensorBoardLinkPhase → M State E (Unit {0})
  set_phase phase s = Outcome.ok tt (record s { board = phase })

  abbrev pub linked_or : SensorBoardLinkPhase → M State E ℕ → M State E ℕ
  linked_or (linked id) retry = pure id
  linked_or handshaking retry = retry

  -- The loop of `connect`, over the attempts made.
  unfoldable pub connect_loop : ℕ → ℕ → M State E ℕ
  connect_loop budget zero = λ _. pending
  connect_loop budget (suc attempts) = do
    phase ← on_phy (try_connect budget)
    set_phase phase
    let retry = connect_loop budget attempts
    linked_or phase retry

  unfoldable pub connect : ℕ → ℕ → M State E ℕ
  connect budget attempts s = linked_or s.board (connect_loop budget attempts) s

  unfoldable pub read_payload_sensor : ℕ → ℕ → ℕ → M State E (Unit {0})
  read_payload_sensor budget fuel zero = λ _. pending
  read_payload_sensor budget fuel (suc rounds) = do
    id ← connect budget fuel
    (res_phase, res_id) ← on_phy (read_packet hmac phy secret fuel)
    let more = read_payload_sensor budget fuel rounds
    let restarted = set_phase handshaking >> more
    if not (res_id == id) then more else if is_handshake res_phase then restarted else pure tt

  abbrev pub buffered : M State E (List ℕ)
  buffered s = Outcome.ok s.tx_buf s

  unfoldable pub flush_sensor : ℕ → ℕ → M State E (Unit {0})
  flush_sensor budget fuel = do
    id ← connect budget fuel
    payload ← buffered
    on_phy
        (write_packet hmac phy (record { phase = data_phase; id = id; payload = payload }) secret)
    set_tx []
    on_phy phy.flush

  unfoldable pub sensor_link : ℕ → ℕ → LinkLayer State E
  sensor_link budget fuel = record {
    read = read_link phy (read_payload_sensor budget fuel fuel);
    write = write_link (flush_sensor budget fuel);
    flush = flush_sensor budget fuel;
    reset = reset_sensor;
  }
