-- ===== src/Examples/Replies.antt =====
-- The answer of the gateway to a handshake, on the frames of a radio.
use sensor_sensei.Common.{List, [], ◌∷◌, ◌++◌, ◌≡◌, refl, arith}
use sensor_sensei.Common.Outcome.{ok}
use sensor_sensei.App.Packet.{SensorValuePoint, handshake_start, handshake_end}
use sensor_sensei.App.Format.{packet_bytes}
use sensor_sensei.Board.LinkState.{LinkState}
use sensor_sensei.Board.AppLayer.{AppLayer}
use sensor_sensei.Board.GatewayLink.{GatewayBoard, gateway_link}
use sensor_sensei.Board.GatewayApp.{Gateway, on_packet, initial, uplink}
use sensor_sensei.Board.Flush.{OnAir}
use sensor_sensei.Board.Sending.{Taken, gateway_link-IsWritable, gateway_link-IsFlushing}
use sensor_sensei.Board.Transport.{app_encoder-IsSink}
use sensor_sensei.Board.Sessions.{on_packet-replies}
use sensor_sensei.Examples.Boards.{one_slot}
use sensor_sensei.Examples.Links.{idle_app, nothing_sent}
use sensor_sensei.Examples.Radio.{Radio, radio, RadioView, radio-IsRadio, checksum}

abbrev greeted : Gateway (LinkState Radio GatewayBoard) (List SensorValuePoint)
greeted = record { app = idle_app; phase = initial; queue = [] }

on_packet-replies_example :
    (app : AppLayer (LinkState Radio GatewayBoard)) × (on_packet
        (gateway_link checksum radio 5)
        one_slot
        100
        initial
        (handshake_start (record { major = 1; minor = 7 }))
        greeted
      ≡ ok tt (record greeted { app = app; phase = uplink }))
    × OnAir checksum radio 128 RadioView radio-IsRadio [] 3 app.link
        ((9 ∷ []) ++ packet_bytes (handshake_end (record { major = 1; minor = 0; epoch = 100 })))
on_packet-replies_example =
    on_packet-replies (gateway_link checksum radio 5) one_slot
      (λ s out. Taken checksum radio 128 RadioView radio-IsRadio (omega arith) [] 3 s.link out)
      (λ s out. OnAir checksum radio 128 RadioView radio-IsRadio [] 3 s.link out)
      (app_encoder-IsSink (gateway_link checksum radio 5)
        (Taken checksum radio 128 RadioView radio-IsRadio (omega arith) [] 3)
        (gateway_link-IsWritable checksum radio 128 RadioView radio-IsRadio (omega arith) [] 3 5))
      (gateway_link-IsFlushing checksum radio 128 RadioView radio-IsRadio (omega arith) [] 3 5) 100
      initial (record { major = 1; minor = 7 }) greeted (9 ∷ []) nothing_sent refl (omega arith)
