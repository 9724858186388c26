-- ===== src/Board/GatewayApp.antt =====
-- gateway-board/src/comm/app.rs: one round of the gateway's application layer. The channel to the
-- exporter and the clock come from outside: `Sender` and `now`.
use sensor_sensei.Common.{ℕ, zero, suc, ◌==◌, if◌then◌else◌, Bool, true, false}
use sensor_sensei.Common.Outcome.{
  Outcome, M, ok, err, panic, pending, pure, bind, ◌>>=◌, ◌>>◌, throw,
}
use sensor_sensei.App.Packet.{
  Packet, handshake_start, handshake_end, ack, sensor_data, reset_connection, HandshakeStart,
  SensorData, SensorValuePoint, encode_packet, decode_packet, decode_point,
}
use sensor_sensei.Board.LinkState.{LinkLayer}
use sensor_sensei.Board.AppLayer.{
  AppLayer, AppError, unexpected_packet, incompatible_protocol, app_encoder, app_decoder, flush_app,
}

-- `embassy_sync::zerocopy_channel::Sender`: whether a slot is free, and the queue with one more
-- value.
pub record Sender (Q : Type 0) : Type 0 where
  pub has_room : Q → Bool
  pub send : SensorValuePoint → Q → Q

pub data AppLayerPhase : Type 0 where
  initial handshake uplink : AppLayerPhase

abbrev pub protocol_version_major : ℕ
protocol_version_major = 1

abbrev pub protocol_version_minor : ℕ
protocol_version_minor = 0

-- The locals of `run`.
pub record Gateway (L Q : Type 0) : Type 0 where
  pub app : AppLayer L
  pub phase : AppLayerPhase
  pub queue : Q

module _ {L Q X : Type 0} (link : LinkLayer L X) (sender : Sender Q) where
  abbrev pub State : Type 0
  State = Gateway L Q

  abbrev pub resume_app :
      {A : Type 0} → State → Outcome (AppLayer L) (AppError X) A → Outcome State (AppError X) A
  resume_app s (ok a app) = ok a (record s { app = app })
  resume_app s (err e app) = err e (record s { app = app })
  resume_app s panic = panic
  resume_app s pending = pending

  abbrev pub on_app : {A : Type 0} → M (AppLayer L) (AppError X) A → M State (AppError X) A
  on_app m s = resume_app s (m s.app)

  unfoldable pub app_on_handshake_start :
      ℕ → HandshakeStart → M (AppLayer L) (AppError X) (Unit {0})
  app_on_handshake_start now pkt =
      let reply = (do
        encode_packet (app_encoder link) (
            handshake_end (record {
              major = protocol_version_major;
              minor = protocol_version_minor;
              epoch = now;
            }))
        flush_app link) in
      if pkt.major == protocol_version_major
      then reply
      else throw (incompatible_protocol pkt.major pkt.minor)

  -- A value goes into a free slot, and is dropped when there is none.
  abbrev pub keep_value : Bool → SensorValuePoint → M State (AppError X) (Unit {0})
  keep_value true point s = ok tt (record s { queue = sender.send point s.queue })
  keep_value false point s = ok tt s

  abbrev pub try_send : M State (AppError X) Bool
  try_send s = ok (sender.has_room s.queue) s

  unfoldable pub receive_values : ℕ → M State (AppError X) (Unit {0})
  receive_values zero = pure tt
  receive_values (suc count) = do
    room ← try_send
    point ← on_app (decode_point (app_decoder link))
    keep_value room point
    receive_values count

  unfoldable pub app_on_sensor_data : SensorData → M State (AppError X) (Unit {0})
  app_on_sensor_data pkt = do
    receive_values pkt.count
    on_app (encode_packet (app_encoder link) ack)
    on_app (flush_app link)

  -- The phase after the handshake, whether it succeeds or fails.
  abbrev pub settle :
      State → Outcome (AppLayer L) (AppError X) (Unit {0}) → Outcome State (AppError X) (Unit {0})
  settle s (ok _ app) = ok tt (record s { app = app; phase = uplink })
  settle s (err e app) = err e (record s { app = app; phase = handshake })
  settle s panic = panic
  settle s pending = pending

  unfoldable pub on_packet : ℕ → AppLayerPhase → Packet → M State (AppError X) (Unit {0})
  on_packet now phase (handshake_start pkt) s = settle s (app_on_handshake_start now pkt s.app)
  on_packet now uplink (sensor_data pkt) s = app_on_sensor_data pkt s
  on_packet now initial (sensor_data pkt) s = throw (unexpected_packet 3) s
  on_packet now handshake (sensor_data pkt) s = throw (unexpected_packet 3) s
  on_packet now phase (handshake_end pkt) s = throw (unexpected_packet 1) s
  on_packet now phase ack s = throw (unexpected_packet 2) s
  on_packet now phase reset_connection s = throw (unexpected_packet 4) s

  unfoldable pub comm_cycle : ℕ → M State (AppError X) (Unit {0})
  comm_cycle now s =
      bind (on_app (decode_packet (app_decoder link)) s) (λ pkt t. on_packet now t.phase pkt t)
