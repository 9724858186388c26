-- ===== src/Examples/Boards.antt =====
-- The application layers of both boards, and the sensor's link handshake, at concrete inputs.
use sensor_sensei.Common.{
  ℕ, ◌+◌, Bool, true, false, List, [], ◌∷◌, ◌++◌, Option, none, some, length, ◌≡◌, ◌≢◌, refl, arith,
}
use sensor_sensei.Common.Bytes.{same_bytes}
use sensor_sensei.Common.Outcome.{M, ok, err, pure}
use sensor_sensei.Link.Packet.{
  handshake_phase, check, read_within, get_payload, sign_payload, from_be_five, to_be_five, header,
  write_packet,
}
use sensor_sensei.Link.Header.{frame}
use sensor_sensei.App.Packet.{
  Packet, handshake_end, sensor_data, SensorValue, temperature, pressure, SensorValuePoint,
}
use sensor_sensei.App.Packet.{encode_packet, encode_body, encode_handshake_start}
use sensor_sensei.Codec.Wire.{encode_u8, encode_u32, emit_slice}
use sensor_sensei.Codec.Leb.{to_uleb128}
use sensor_sensei.Board.AppLayer.{emit_loop, flush_app}
use sensor_sensei.Board.LinkState.{LinkState}
use sensor_sensei.Board.GatewayLink.{secret}
use sensor_sensei.Board.SensorLink.{
  SensorBoardLinkPhase, handshaking, linked, connect_loop, try_connect, answer,
}
use sensor_sensei.Board.Handshake.{Accepted, connect_loop-Accepted}
use sensor_sensei.Board.AppLayer.{AppLayer, AppError, timeout, app_encoder}
use sensor_sensei.Board.Transport.{Available, app_encoder-IsSink, app_decoder-IsStream}
use sensor_sensei.Board.Batch.{batch_bytes, points_at, kept, emit_values-Emits, receive_values-kept}
use sensor_sensei.Board.GatewayApp.{Sender, Gateway, initial, uplink, on_packet, receive_values}
use sensor_sensei.Board.SensorApp
use sensor_sensei.Board.SensorApp.{
  Inputs, Sensor, wrapping_sub_i64, emit_values, on_handshake_reply, run_round,
  app_initiate_handshake,
}
use sensor_sensei.Board.Sessions.{After, on_packet-queue}
use sensor_sensei.Examples.Streams.{pipe, MemoryView, pipe-IsWritable, pipe-IsReadable}
use sensor_sensei.Examples.Radio.{Radio, radio, checksum}

abbrev mac : List ℕ
mac = 10 ∷ 20 ∷ 30 ∷ 40 ∷ 50 ∷ 60 ∷ []

abbrev reply_frame : List ℕ
reply_frame = frame checksum secret handshake_phase 5 mac

abbrev request_frame : List ℕ
request_frame = frame checksum secret handshake_phase 0 mac

abbrev alone : LinkState Radio SensorBoardLinkPhase
alone = record {
  board = handshaking;
  phy = record { air = []; waiting = []; arriving = reply_frame ∷ []; shown = [] };
  tx_buf = [];
  payload_start = 0;
  payload_end = 0;
}

abbrev joined : LinkState Radio SensorBoardLinkPhase
joined = record {
  board = linked 5;
  phy = record { air = request_frame ∷ []; waiting = []; arriving = []; shown = reply_frame };
  tx_buf = [];
  payload_start = 0;
  payload_end = 0;
}

connects : connect_loop checksum mac radio 1 1 alone ≡ ok 5 joined
unfolding connect_loop try_connect write_packet answer read_within check radio get_payload header
    sign_payload from_be_five to_be_five same_bytes
connects = refl

connect_loop-Accepted_example : (joined.board ≡ linked 5) × Accepted checksum mac radio joined.phy 5
connect_loop-Accepted_example = connect_loop-Accepted checksum mac radio 1 1 alone joined 5 connects

abbrev start_app : AppLayer (List ℕ)
start_app = record { link = []; offset = 0 }

abbrev pub readings : List SensorValue
readings = temperature 5 ∷ pressure 6 ∷ []

abbrev points : List SensorValuePoint
points = points_at 12 readings

emit_values-Emits_example :
    (s' : AppLayer (List ℕ)) × (emit_values pipe 12 readings start_app ≡ ok tt s')
    × MemoryView s'.link ([] ++ batch_bytes points)
emit_values-Emits_example =
    emit_values-Emits pipe (λ s out. MemoryView s.link out)
      (app_encoder-IsSink pipe MemoryView pipe-IsWritable) 12 readings
      ((omega arith, omega arith, refl), ((omega arith, omega arith, refl), tt)) start_app [] refl

-- A channel with one slot.
abbrev is_empty : List SensorValuePoint → Bool
is_empty [] = true
is_empty (p ∷ ps) = false

abbrev pub one_slot : Sender (List SensorValuePoint)
one_slot = record { has_room = is_empty; send = λ point q. point ∷ q }

abbrev receiving : Gateway (List ℕ) (List SensorValuePoint)
receiving = record {
  app = record { link = batch_bytes points ++ (7 ∷ []); offset = 0 };
  phase = uplink;
  queue = [];
}

receive_values-kept_example :
    (app : AppLayer (List ℕ)) × (receive_values pipe one_slot (length points) receiving
      ≡ ok tt (record receiving { app = app; queue = kept one_slot points receiving.queue }))
    × Available pipe MemoryView pipe-IsReadable app (7 ∷ [])
receive_values-kept_example =
    receive_values-kept pipe one_slot (Available pipe MemoryView pipe-IsReadable)
      (app_decoder-IsStream pipe MemoryView pipe-IsReadable) points receiving (7 ∷ [])
      ((omega arith, omega arith, refl), ((omega arith, omega arith, refl), tt)) (refl, omega arith)

abbrev greeted : Gateway (List ℕ) (List SensorValuePoint)
greeted = record { app = start_app; phase = initial; queue = [] }

no_uplink : initial ≢ uplink
no_uplink e = cc

on_packet-queue_example :
    After pipe one_slot
      (on_packet pipe one_slot 100 initial (sensor_data (record { count = 2 })) greeted)
      (λ s'. s'.queue ≡ greeted.queue)
on_packet-queue_example =
    on_packet-queue pipe one_slot 100 initial (sensor_data (record { count = 2 })) greeted no_uplink

abbrev pub micros : ℕ → ℕ
micros millis = millis + millis

-- A race that the timer wins.
abbrev too_late :
    M (AppLayer (List ℕ)) (AppError ℕ) Packet → M (AppLayer (List ℕ)) (AppError ℕ) (Option Packet)
too_late reads = pure none

abbrev gateway_reply : Option Packet
gateway_reply = some (handshake_end (record { major = 1; minor = 0; epoch = 7 }))

handshake_done :
    on_handshake_reply pipe micros too_late 100 gateway_reply start_app
    ≡ ok (100, wrapping_sub_i64 100 14) start_app
unfolding on_handshake_reply
handshake_done = refl

abbrev inputs : Inputs
inputs = record { now = 100; values = [] }

abbrev fresh : Sensor (List ℕ)
fresh = record { app = start_app; phase = SensorApp.handshake }

abbrev waited : Sensor (List ℕ)
waited = record {
  app = record { link = 0 ∷ 1 ∷ 0 ∷ 0 ∷ []; offset = 0 };
  phase = SensorApp.handshake;
}

times_out : SensorApp.comm_cycle pipe micros too_late inputs fresh.phase fresh ≡ err timeout waited
unfolding SensorApp.comm_cycle app_initiate_handshake encode_packet encode_u8 app_encoder emit_loop
    pipe encode_body encode_handshake_start encode_u32 to_uleb128 emit_slice flush_app
    on_handshake_reply
times_out = refl
