-- ===== src/Board/Sessions.antt =====
-- The phases of the gateway: `comm_cycle` of gateway-board/src/comm/app.rs; and the time offset of
-- `app_send_values` of sensor-board/src/comm/app.rs.
use sensor_sensei.Common.{ℕ, ◌+◌, ◌-◌, ◌/◌, ◌%◌, ◌^◌, ◌≤◌, ◌<◌, List, ◌++◌, ◌≡◌, ◌≢◌, refl, arith}
use sensor_sensei.Common.Outcome.{Outcome, ok, err, panic, pending}
use sensor_sensei.App.Packet.{
  Packet, handshake_start, handshake_end, ack, sensor_data, reset_connection, HandshakeStart,
  HandshakeEnd,
}
use sensor_sensei.Codec.Stream.{IsSink}
use sensor_sensei.App.Format.{packet_bytes}
use sensor_sensei.App.Emit.{encode_packet-Emits}
use sensor_sensei.Board.LinkState.{LinkLayer}
use sensor_sensei.Board.AppLayer.{AppLayer, AppError, app_encoder, flush_app}
use sensor_sensei.Board.GatewayApp
use sensor_sensei.Board.GatewayApp.{
  Sender, Gateway, app_on_handshake_start, on_packet, initial, handshake, uplink,
}
use sensor_sensei.Board.SensorApp.{seconds, wrapping_sub_i64}

module _ {L Q X : Type 0} (link : LinkLayer L X) (sender : Sender Q) where
  -- The state that an outcome leaves.
  abbrev pub After : Outcome (Gateway L Q) (AppError X) (Unit {0}) → (Gateway L Q → Type 0) → Type 0
  After (ok _ s) P = P s
  After (err _ s) P = P s
  After panic P = Unit
  After pending P = Unit

  settled :
      (s : Gateway L Q) (o : Outcome (AppLayer L) (AppError X) (Unit {0}))
      → After (GatewayApp.settle link sender s o) (λ s'. s'.queue ≡ s.queue)
  settled s (ok _ app) = refl
  settled s (err e app) = refl
  settled s panic = tt
  settled s pending = tt

  -- Outside of the uplink phase no packet changes the queue of the values.
  pub on_packet-queue :
      (now : ℕ) (phase : GatewayApp.AppLayerPhase) (pkt : Packet) (s : Gateway L Q)
      → phase ≢ uplink
      → After (on_packet link sender now phase pkt s) (λ s'. s'.queue ≡ s.queue)
  unfolding on_packet
  on_packet-queue now phase (handshake_start p) s no_uplink =
      settled s (app_on_handshake_start link sender now p s.app)
  on_packet-queue now initial (sensor_data p) s no_uplink = refl
  on_packet-queue now handshake (sensor_data p) s no_uplink = refl
  on_packet-queue now uplink (sensor_data p) s no_uplink = absurd (no_uplink refl)
  on_packet-queue now phase (handshake_end p) s no_uplink = refl
  on_packet-queue now phase ack s no_uplink = refl
  on_packet-queue now phase reset_connection s no_uplink = refl

-- What `flush` does: the bytes emitted before it have left the buffer.
pub record IsFlushing {L X : Type 0} (link : LinkLayer L X)
    (View Flushed : AppLayer L → List ℕ → Type 0) : Type 0 where
  pub flush_lem :
      (s : AppLayer L) (out : List ℕ)
      → View s out
      → (s' : AppLayer L) × (flush_app link s ≡ ok tt s') × View s' out × Flushed s' out

module _ {L Q X : Type 0} (link : LinkLayer L X) (sender : Sender Q)
    (View Flushed : AppLayer L → List ℕ → Type 0) (sink : IsSink (app_encoder link) View)
    (flushing : IsFlushing link View Flushed) where
  -- In every phase, a handshake with the major version of the gateway is answered: the versions
  -- and the time have been emitted and flushed, and the gateway is in the uplink phase.
  pub on_packet-replies :
      (now : ℕ) (phase : GatewayApp.AppLayerPhase) (pkt : HandshakeStart) (s : Gateway L Q)
      (out : List ℕ)
      → View s.app out
      → pkt.major ≡ 1
      → now < 2 ^ 64
      → (app : AppLayer L) × (on_packet link sender now phase (handshake_start pkt) s
          ≡ ok tt (record s { app = app; phase = uplink }))
        × Flushed app
            (out ++ packet_bytes (handshake_end (record { major = 1; minor = 0; epoch = now })))
  unfolding on_packet app_on_handshake_start
  on_packet-replies now phase pkt s out view one lt =
      let reply : HandshakeEnd = record { major = 1; minor = 0; epoch = now } in
      let (app1, e1, view1) =
        encode_packet-Emits (app_encoder link) View sink (handshake_end reply) (refl, lt) s.app out
          view in
      let (app2, e2, _, sent) = flushing.flush_lem app1 _ view1 in
      (app2, rw (one, e1, e2) refl, sent)

elapsed_positive : (t : ℕ) → t < 2 ^ 63 → seconds t ≡ t / 1000000
unfolding seconds
elapsed_positive t small = ground arith

-- The offset of a batch is in whole seconds, rounded down, of the microseconds since the handshake
-- less the difference of the clocks, when that is not negative.
pub seconds-elapsed :
    (elapsed diff : ℕ)
    → diff ≤ elapsed
    → elapsed < 2 ^ 63
    → seconds (wrapping_sub_i64 elapsed diff) ≡ (elapsed - diff) / 1000000
unfolding wrapping_sub_i64
seconds-elapsed elapsed diff le small =
    let value : (elapsed % 2 ^ 64 + 2 ^ 64 - diff % 2 ^ 64) % 2 ^ 64 ≡ elapsed - diff =
      omega arith in
    rw value (elapsed_positive (elapsed - diff) (omega arith))
