-- ===== src/Board/Uplink.antt =====
-- What the sensor sends of its own accord: `app_initiate_handshake` and `app_send_values` of
-- sensor-board/src/comm/app.rs.
use sensor_sensei.Common.{
  ℕ, ◌%◌, List, ◌++◌, Option, none, some, length, All, ◌≡◌, refl, ◌==◌, ◌&&◌, if◌then◌else◌,
  Bool-cases, inl, inr,
}
use sensor_sensei.Common.Outcome.{Outcome, M, ok, err, panic, pending, bind}
use sensor_sensei.Codec.Stream.{IsSink}
use sensor_sensei.App.Packet.{
  Packet, handshake_start, handshake_end, ack, sensor_data, SensorValue, decode_packet,
  HandshakeEnd, packet_id, reset_connection,
}
use sensor_sensei.App.Format.{packet_bytes}
use sensor_sensei.App.Emit.{encode_packet-Emits}
use sensor_sensei.Board.LinkState.{LinkLayer}
use sensor_sensei.Board.AppLayer.{
  AppLayer, AppError, timeout, unexpected_packet, incompatible_protocol, app_encoder, app_decoder,
}
use sensor_sensei.Board.Batch.{batch_bytes, points_at, IsPoint, emit_values-Emits}
use sensor_sensei.Board.Sessions.{IsFlushing}
use sensor_sensei.Board.SensorApp.{
  wrapping_sub_i64, on_handshake_reply, on_ack, app_initiate_handshake, send_batch,
}

-- What the wait for an acknowledgement makes of what came: nothing but an `ack` in time is a success.
abbrev pub acknowledged :
    {L X : Type 0}
    → Outcome (AppLayer L) (AppError X) (Option Packet)
    → Outcome (AppLayer L) (AppError X) (Unit {0})
acknowledged (ok none s) = err timeout s
acknowledged (ok (some pkt) s) =
    if packet_id pkt == 2 then ok tt s else err (unexpected_packet (packet_id pkt)) s
acknowledged (err e s) = err e s
acknowledged panic = panic
acknowledged pending = pending

-- The clocks' difference, when the gateway has the version 1.0.
abbrev pub agreed :
    {L X : Type 0}
    → (ℕ → ℕ)
    → ℕ
    → HandshakeEnd
    → AppLayer L
    → Outcome (AppLayer L) (AppError X) (ℕ × ℕ)
agreed millis_to_micros now pkt s =
    if pkt.major == 1 && pkt.minor == 0
    then ok (now, wrapping_sub_i64 now (millis_to_micros pkt.epoch)) s
    else err (incompatible_protocol pkt.major pkt.minor) s

-- What the wait for the end of a handshake makes of what came.
abbrev pub welcomed :
    {L X : Type 0}
    → (ℕ → ℕ)
    → ℕ
    → Outcome (AppLayer L) (AppError X) (Option Packet)
    → Outcome (AppLayer L) (AppError X) (ℕ × ℕ)
welcomed millis_to_micros now (ok none s) = err timeout s
welcomed millis_to_micros now (ok (some (handshake_end pkt)) s) = agreed millis_to_micros now pkt s
welcomed millis_to_micros now (ok (some pkt) s) = err (unexpected_packet (packet_id pkt)) s
welcomed millis_to_micros now (err e s) = err e s
welcomed millis_to_micros now panic = panic
welcomed millis_to_micros now pending = pending

module _ {L X : Type 0} (link : LinkLayer L X) (View Flushed : AppLayer L → List ℕ → Type 0)
    (sink : IsSink (app_encoder link) View) (flushing : IsFlushing link View Flushed)
    (millis_to_micros : ℕ → ℕ)
    (race : M (AppLayer L) (AppError X) Packet → M (AppLayer L) (AppError X) (Option Packet)) where
  on_ack-acknowledged :
      (o : Outcome (AppLayer L) (AppError X) (Option Packet))
      → bind o (λ res. on_ack link res) ≡ acknowledged o
  unfolding on_ack
  on_ack-acknowledged (ok none s) = refl
  on_ack-acknowledged (ok (some (handshake_start p)) s) = refl
  on_ack-acknowledged (ok (some (handshake_end p)) s) = refl
  on_ack-acknowledged (ok (some ack) s) = refl
  on_ack-acknowledged (ok (some (sensor_data p)) s) = refl
  on_ack-acknowledged (ok (some reset_connection) s) = refl
  on_ack-acknowledged (err e s) = refl
  on_ack-acknowledged panic = refl
  on_ack-acknowledged pending = refl

  agreed_when :
      (now : ℕ) (p : HandshakeEnd) (s : AppLayer L)
      → on_handshake_reply link millis_to_micros race now (some (handshake_end p)) s
        ≡ agreed millis_to_micros now p s
  unfolding on_handshake_reply
  agreed_when now p s = elim (Bool-cases (p.major == 1 && p.minor == 0)) [
    | inl same ↦ rw same refl
    | inr other ↦ rw other refl
  ]

  on_handshake_reply-welcomed :
      (now : ℕ) (o : Outcome (AppLayer L) (AppError X) (Option Packet))
      → bind o (λ res. on_handshake_reply link millis_to_micros race now res)
        ≡ welcomed millis_to_micros now o
  unfolding on_handshake_reply
  on_handshake_reply-welcomed now (ok none s) = refl
  on_handshake_reply-welcomed now (ok (some (handshake_start p)) s) = refl
  on_handshake_reply-welcomed now (ok (some (handshake_end p)) s) = agreed_when now p s
  on_handshake_reply-welcomed now (ok (some ack) s) = refl
  on_handshake_reply-welcomed now (ok (some (sensor_data p)) s) = refl
  on_handshake_reply-welcomed now (ok (some reset_connection) s) = refl
  on_handshake_reply-welcomed now (err e s) = refl
  on_handshake_reply-welcomed now panic = refl
  on_handshake_reply-welcomed now pending = refl

  -- Over a link that takes bytes and flushes them, the sensor has flushed a HandshakeStart of
  -- version 1.0 before it waits; it succeeds when a HandshakeEnd of version 1.0 comes in time,
  -- with its own time and the difference of the clocks, and fails otherwise: with a timeout, with
  -- both version numbers of another version, with the packet that came, or with the error of the
  -- read.
  pub app_initiate_handshake-greets :
      (now : ℕ) (s : AppLayer L) (out : List ℕ)
      → View s out
      → (sent : AppLayer L) × Flushed sent
          (out ++ packet_bytes (handshake_start (record { major = 1; minor = 0 })))
        × (app_initiate_handshake link millis_to_micros race now s
            ≡ welcomed millis_to_micros now (race (decode_packet (app_decoder link)) sent))
  unfolding app_initiate_handshake
  app_initiate_handshake-greets now s out view =
      let (s1, e1, view1) =
        encode_packet-Emits (app_encoder link) View sink
          (handshake_start (record { major = 1; minor = 0 })) tt s out view in
      let (s2, e2, _, sent) = flushing.flush_lem s1 _ view1 in
      (
        s2,
        sent,
        rw (e1, e2) (on_handshake_reply-welcomed now (race (decode_packet (app_decoder link)) s2)),
      )

  -- Over a link that takes bytes and flushes them, and with points that the wire carries, sending
  -- a batch has flushed, before it waits, the packet with the number of the values modulo 256 and
  -- the points of all values, in order and with one time offset; it succeeds when an Ack comes in
  -- time, and fails with a timeout, the packet that came, or the error of the read otherwise. A
  -- pressure is an f32, as in the code, where doc/protocol.md 4.3.6 has a u32.
  pub send_batch-acknowledged :
      (time_offset : ℕ) (values : List SensorValue) (s : AppLayer L) (out : List ℕ)
      → All IsPoint (points_at time_offset values)
      → View s out
      → (sent : AppLayer L) × Flushed sent (
          (out ++ packet_bytes (sensor_data (record { count = length values % 256 })))
          ++ batch_bytes (points_at time_offset values))
        × (send_batch link millis_to_micros race time_offset values s
            ≡ acknowledged (race (decode_packet (app_decoder link)) sent))
  unfolding send_batch
  send_batch-acknowledged time_offset values s out valid view =
      let (s1, e1, view1) =
        encode_packet-Emits (app_encoder link) View sink
          (sensor_data (record { count = length values % 256 })) tt s out view in
      let (s2, e2, view2) = emit_values-Emits link View sink time_offset values valid s1 _ view1 in
      let (s3, e3, _, sent) = flushing.flush_lem s2 _ view2 in
      (s3, sent, rw (e1, e2, e3) (on_ack-acknowledged (race (decode_packet (app_decoder link)) s3)))
