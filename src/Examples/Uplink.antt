-- ===== src/Examples/Uplink.antt =====
-- The sensor's application layer on frames of a radio, with a reply in time and with none.
use sensor_sensei.Common.{ℕ, [], ◌∷◌, ◌++◌, Option, none, some, ◌≡◌, refl, arith}
use sensor_sensei.Common.Outcome.{M, ok}
use sensor_sensei.App.Packet.{Packet, handshake_start, ack, sensor_data, decode_packet}
use sensor_sensei.App.Format.{packet_bytes}
use sensor_sensei.Board.LinkState.{LinkState}
use sensor_sensei.Board.AppLayer.{AppLayer, AppError, app_decoder}
use sensor_sensei.Board.GatewayLink.{GatewayBoard, gateway_link}
use sensor_sensei.Board.SensorApp.{app_initiate_handshake, send_batch}
use sensor_sensei.Board.Batch.{batch_bytes, points_at}
use sensor_sensei.Board.Flush.{OnAir}
use sensor_sensei.Board.Sending.{Taken, gateway_link-IsWritable, gateway_link-IsFlushing}
use sensor_sensei.Board.Transport.{app_encoder-IsSink}
use sensor_sensei.Board.Uplink.{
  acknowledged, welcomed, app_initiate_handshake-greets, send_batch-acknowledged,
}
use sensor_sensei.Examples.Boards.{readings, micros}
use sensor_sensei.Examples.Links.{idle_app, nothing_sent}
use sensor_sensei.Examples.Radio.{Radio, radio, RadioView, radio-IsRadio, checksum}

abbrev App : Type 0
App = AppLayer (LinkState Radio GatewayBoard)

-- An acknowledgement in time, and a timer that runs out.
abbrev in_time : M App (AppError ℕ) Packet → M App (AppError ℕ) (Option Packet)
in_time reads s = ok (some ack) s

abbrev no_reply : M App (AppError ℕ) Packet → M App (AppError ℕ) (Option Packet)
no_reply reads s = ok none s

app_initiate_handshake-greets_example :
    (sent : App) × OnAir checksum radio 128 RadioView radio-IsRadio [] 3 sent.link
      ((9 ∷ []) ++ packet_bytes (handshake_start (record { major = 1; minor = 0 })))
    × (app_initiate_handshake (gateway_link checksum radio 5) micros no_reply 100 idle_app
        ≡ welcomed micros 100
            (no_reply (decode_packet (app_decoder (gateway_link checksum radio 5))) sent))
app_initiate_handshake-greets_example =
    app_initiate_handshake-greets (gateway_link checksum radio 5)
      (λ s out. Taken checksum radio 128 RadioView radio-IsRadio (omega arith) [] 3 s.link out)
      (λ s out. OnAir checksum radio 128 RadioView radio-IsRadio [] 3 s.link out)
      (app_encoder-IsSink (gateway_link checksum radio 5)
        (Taken checksum radio 128 RadioView radio-IsRadio (omega arith) [] 3)
        (gateway_link-IsWritable checksum radio 128 RadioView radio-IsRadio (omega arith) [] 3 5))
      (gateway_link-IsFlushing checksum radio 128 RadioView radio-IsRadio (omega arith) [] 3 5)
      micros no_reply 100 idle_app (9 ∷ []) nothing_sent

send_batch-acknowledged_example :
    (sent : App) × OnAir checksum radio 128 RadioView radio-IsRadio [] 3 sent.link (
      ((9 ∷ []) ++ packet_bytes (sensor_data (record { count = 2 })))
      ++ batch_bytes (points_at 12 readings))
    × (send_batch (gateway_link checksum radio 5) micros in_time 12 readings idle_app
        ≡ acknowledged (in_time (decode_packet (app_decoder (gateway_link checksum radio 5))) sent))
send_batch-acknowledged_example =
    send_batch-acknowledged (gateway_link checksum radio 5)
      (λ s out. Taken checksum radio 128 RadioView radio-IsRadio (omega arith) [] 3 s.link out)
      (λ s out. OnAir checksum radio 128 RadioView radio-IsRadio [] 3 s.link out)
      (app_encoder-IsSink (gateway_link checksum radio 5)
        (Taken checksum radio 128 RadioView radio-IsRadio (omega arith) [] 3)
        (gateway_link-IsWritable checksum radio 128 RadioView radio-IsRadio (omega arith) [] 3 5))
      (gateway_link-IsFlushing checksum radio 128 RadioView radio-IsRadio (omega arith) [] 3 5)
      micros in_time 12 readings idle_app (9 ∷ [])
      ((omega arith, omega arith, refl), ((omega arith, omega arith, refl), tt)) nothing_sent
