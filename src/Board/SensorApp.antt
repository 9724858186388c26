-- ===== src/Board/SensorApp.antt =====
-- sensor-board/src/comm/app.rs: one round of the sensor board's application layer. The clock, the
-- conversion of embassy_time and the race between a read and its timer come from outside.
use sensor_sensei.Common.{
  ℕ, ◌+◌, ◌-◌, ◌/◌, ◌%◌, ◌^◌, ltb, ◌==◌, ◌&&◌, if◌then◌else◌, List, [], ◌∷◌, Option, none, some,
  length,
}
use sensor_sensei.Common.Outcome.{Outcome, M, ok, err, panic, pending, pure, ◌>>=◌, ◌>>◌, throw}
use sensor_sensei.App.Packet.{
  Packet, handshake_start, handshake_end, ack, sensor_data, reset_connection, SensorValue,
  encode_packet, decode_packet, encode_point,
}
use sensor_sensei.Board.LinkState.{LinkLayer}
use sensor_sensei.Board.AppLayer.{
  AppLayer, AppError, unexpected_packet, incompatible_protocol, timeout, app_encoder, app_decoder,
  flush_app, reset_app,
}
use sensor_sensei.Board.GatewayApp.{protocol_version_major, protocol_version_minor}

abbrev pub values_queue_size : ℕ
values_queue_size = 4

-- Times are microseconds since boot; `diff` is an i64 as its bit pattern.
pub data AppLayerPhase : Type 0 where
  handshake : AppLayerPhase
  uplink : ℕ → ℕ → AppLayerPhase

-- `(a as i64).wrapping_sub(b as i64)`
unfoldable pub wrapping_sub_i64 : ℕ → ℕ → ℕ
wrapping_sub_i64 a b = (a % 2 ^ 64 + 2 ^ 64 - b % 2 ^ 64) % 2 ^ 64

-- `x / 1_000_000` on an i64, towards zero.
unfoldable pub seconds : ℕ → ℕ
seconds x = if ltb x (2 ^ 63) then x / 1000000 else (2 ^ 64 - (2 ^ 64 - x) / 1000000) % 2 ^ 64

-- What a round is given: the time, the bits of the clock of embassy_time, and the values that
-- `dequeue` yields.
pub record Inputs : Type 0 where
  pub now : ℕ
  pub values : List SensorValue

-- The locals of `run`.
pub record Sensor (L : Type 0) : Type 0 where
  pub app : AppLayer L
  pub phase : AppLayerPhase

module _ {L X : Type 0} (link : LinkLayer L X) where
  unfoldable pub emit_values : ℕ → List SensorValue → M (AppLayer L) (AppError X) (Unit {0})
  emit_values time_offset [] = pure tt
  emit_values time_offset (value ∷ values) = do
    encode_point (app_encoder link) (record { value = value; time_offset = time_offset })
    emit_values time_offset values

  unfoldable pub on_ack : Option Packet → M (AppLayer L) (AppError X) (Unit {0})
  on_ack none = throw timeout
  on_ack (some ack) = pure tt
  on_ack (some (handshake_start pkt)) = throw (unexpected_packet 0)
  on_ack (some (handshake_end pkt)) = throw (unexpected_packet 1)
  on_ack (some (sensor_data pkt)) = throw (unexpected_packet 3)
  on_ack (some reset_connection) = throw (unexpected_packet 4)

module _ {L X : Type 0} (link : LinkLayer L X) (millis_to_micros : ℕ → ℕ)
    (race : M (AppLayer L) (AppError X) Packet → M (AppLayer L) (AppError X) (Option Packet)) where
  -- The reply to `HandshakeStart`: the clocks' difference, if the versions are the same.
  unfoldable pub on_handshake_reply : ℕ → Option Packet → M (AppLayer L) (AppError X) (ℕ × ℕ)
  on_handshake_reply now none = throw timeout
  on_handshake_reply now (some (handshake_end pkt)) =
      if pkt.major == protocol_version_major && pkt.minor == protocol_version_minor
      then pure (now, wrapping_sub_i64 now (millis_to_micros pkt.epoch))
      else throw (incompatible_protocol pkt.major pkt.minor)
  on_handshake_reply now (some (handshake_start pkt)) = throw (unexpected_packet 0)
  on_handshake_reply now (some ack) = throw (unexpected_packet 2)
  on_handshake_reply now (some (sensor_data pkt)) = throw (unexpected_packet 3)
  on_handshake_reply now (some reset_connection) = throw (unexpected_packet 4)

  unfoldable pub app_initiate_handshake : ℕ → M (AppLayer L) (AppError X) (ℕ × ℕ)
  app_initiate_handshake now = do
    encode_packet (app_encoder link) (
        handshake_start (record { major = protocol_version_major; minor = protocol_version_minor }))
    flush_app link
    res ← race (decode_packet (app_decoder link))
    on_handshake_reply now res

  unfoldable pub send_batch : ℕ → List SensorValue → M (AppLayer L) (AppError X) (Unit {0})
  send_batch time_offset values = do
    encode_packet (app_encoder link) (sensor_data (record { count = length values % 256 }))
    emit_values link time_offset values
    flush_app link
    res ← race (decode_packet (app_decoder link))
    on_ack link res

  -- The values of the queue, all in one packet; more of them than the vector holds are a fault.
  unfoldable pub app_send_values : Inputs → ℕ → ℕ → M (AppLayer L) (AppError X) (Unit {0})
  app_send_values inputs sensor_epoch diff =
      let time_offset = seconds (wrapping_sub_i64 (inputs.now - sensor_epoch) diff) in
      let sent = send_batch time_offset inputs.values in
      if ltb values_queue_size (length inputs.values)
      then (λ _. panic)
      else if length inputs.values == 0
      then pure tt
      else sent

  abbrev pub State : Type 0
  State = Sensor L

  abbrev pub linked_up :
      State → Outcome (AppLayer L) (AppError X) (ℕ × ℕ) → Outcome State (AppError X) (Unit {0})
  linked_up s (ok (epoch, diff) app) = ok tt (record { app = app; phase = uplink epoch diff })
  linked_up s (err e app) = err e (record s { app = app })
  linked_up s panic = panic
  linked_up s pending = pending

  abbrev pub sent_in :
      State → Outcome (AppLayer L) (AppError X) (Unit {0}) → Outcome State (AppError X) (Unit {0})
  sent_in s (ok _ app) = ok tt (record s { app = app })
  sent_in s (err e app) = err e (record s { app = app })
  sent_in s panic = panic
  sent_in s pending = pending

  unfoldable pub comm_cycle : Inputs → AppLayerPhase → M State (AppError X) (Unit {0})
  comm_cycle inputs handshake s = linked_up s (app_initiate_handshake inputs.now s.app)
  comm_cycle inputs (uplink epoch diff) s = sent_in s (app_send_values inputs epoch diff s.app)

  -- What `run` does after a round: a timeout resets the application and the link layer.
  abbrev pub after_round : Outcome State (AppError X) (Unit {0}) → Option State
  after_round (ok _ s) = some s
  after_round (err timeout s) = some (record { app = reset_app link s.app; phase = handshake })
  after_round (err _ s) = some s
  after_round panic = none
  after_round pending = none

  unfoldable pub run_round : Inputs → State → Option State
  run_round inputs s = after_round (comm_cycle inputs s.phase s)
