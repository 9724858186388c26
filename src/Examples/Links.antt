-- ===== src/Examples/Links.antt =====
-- The link packets and the link layer of the gateway at concrete frames.
use sensor_sensei.Common.{
  ℕ, ◌+◌, ◌%◌, ◌^◌, ◌≤◌, ◌<◌, List, [], ◌∷◌, ◌++◌, some, length, drop, take, ◌≡◌, refl, arith, inl,
}
use sensor_sensei.Common.Outcome.{ok, ◌>>◌}
use sensor_sensei.Link.Packet.{
  handshake_phase, data_phase, from_be_five, to_be_five, sign_payload, check, read_packet,
  get_payload,
}
use sensor_sensei.Link.Header.{frame, check-frame}
use sensor_sensei.Link.Delivery.{Receives, done, next, Refused, read_packet-delivers}
use sensor_sensei.App.Packet.{ack, encode_packet, decode_packet}
use sensor_sensei.App.Format.{packet_bytes}
use sensor_sensei.Board.LinkState.{LinkState, read_link, write_link}
use sensor_sensei.Board.GatewayLink.{
  GatewayBoard, secret, read_payload, flush_gateway, gateway_link, handle_inbound_handshake,
}
use sensor_sensei.Board.Chunks.{Written, write_link-Written}
use sensor_sensei.Board.Flush.{OnAir, flush_gateway-IsFlush}
use sensor_sensei.Board.AppLayer.{AppLayer, app_encoder, app_decoder, flush_app}
use sensor_sensei.Board.Sending.{gateway_packet-OnAir, Taken}
use sensor_sensei.Board.Reading.{Readable, read_link-Readable}
use sensor_sensei.Board.Receiving.{
  Incoming, Expected, Stream, packet, none_left, gateway-IsReceiver, gateway_packet-Consumes,
}
use sensor_sensei.Board.Handshake.{handle_inbound_handshake-echo}
use sensor_sensei.Examples.Radio.{Radio, radio, RadioView, radio-IsRadio, checksum}

abbrev payload : List ℕ
payload = 10 ∷ 20 ∷ 30 ∷ []

small_sign : (bytes : List ℕ) → length bytes < 256 → sign_payload checksum bytes secret < 2 ^ 64
unfolding sign_payload from_be_five
small_sign bytes h = omega arith

check-frame_example :
    check checksum secret (frame checksum secret data_phase 19 payload) ≡ some (data_phase, 19 % 16)
check-frame_example =
    check-frame checksum secret data_phase 19 payload (small_sign payload (omega arith))
      (omega arith)

abbrev framed : List ℕ
framed = frame checksum secret data_phase 3 payload

-- Noise that is too short, then the frame.
abbrev noise : List ℕ
noise = 1 ∷ 2 ∷ []

abbrev before : Radio
before = record { air = []; waiting = []; arriving = noise ∷ framed ∷ []; shown = [] }

abbrev between : Radio
between = record { air = []; waiting = []; arriving = framed ∷ []; shown = noise }

abbrev after : Radio
after = record { air = []; waiting = []; arriving = []; shown = framed }

noise_first : Receives radio before (noise ∷ []) between
unfolding radio
noise_first = next refl refl done

Refused-noise : Refused checksum radio secret noise
unfolding check
Refused-noise = refl

shows : radio.rx_buffer after ≡ framed
unfolding radio
shows = refl

receives_frame : radio.read between ≡ ok tt after
unfolding radio
receives_frame = refl

read_packet-delivers_example :
    (read_packet checksum radio secret 2 before ≡ ok (data_phase, 3 % 16) after)
    × (get_payload radio after ≡ ok payload after)
read_packet-delivers_example =
    read_packet-delivers checksum radio secret (noise ∷ []) data_phase 3 payload 2 noise_first
      (Refused-noise, tt) receives_frame shows (small_sign payload (omega arith)) (omega arith)
      (omega arith)

abbrev silent : Radio
silent = record { air = []; waiting = []; arriving = []; shown = [] }

abbrev pub idle : LinkState Radio GatewayBoard
idle = record {
  board = record { phase = data_phase; curr_sensor_id = 3 };
  phy = silent;
  tx_buf = 9 ∷ [];
  payload_start = 0;
  payload_end = 0;
}

pub nothing_sent : Taken checksum radio 128 RadioView radio-IsRadio (omega arith) [] 3 idle (9 ∷ [])
nothing_sent = ([], (refl, ([], (refl, refl), refl)), refl, omega arith)

write_link-Written_example :
    (s' : LinkState Radio GatewayBoard) × (write_link (flush_gateway checksum radio) payload idle
      ≡ ok (length payload) s')
    × Written (OnAir checksum radio 128 RadioView radio-IsRadio [] 3) s' ((9 ∷ []) ++ payload)
write_link-Written_example =
    write_link-Written (flush_gateway checksum radio)
      (OnAir checksum radio 128 RadioView radio-IsRadio [] 3)
      (flush_gateway-IsFlush checksum radio 128 RadioView radio-IsRadio [] 3 (omega arith)) idle
      (9 ∷ []) payload nothing_sent

abbrev pub idle_app : AppLayer (LinkState Radio GatewayBoard)
idle_app = record { link = idle; offset = 0 }

gateway_packet-OnAir_example :
    (s' : AppLayer (LinkState Radio GatewayBoard)) × ((encode_packet
            (app_encoder (gateway_link checksum radio 5))
            ack
          >> flush_app (gateway_link checksum radio 5))
        idle_app
      ≡ ok tt s')
    × OnAir checksum radio 128 RadioView radio-IsRadio [] 3 s'.link ((9 ∷ []) ++ packet_bytes ack)
gateway_packet-OnAir_example =
    gateway_packet-OnAir checksum radio 128 RadioView radio-IsRadio (omega arith) [] 3 5 ack
      idle_app (9 ∷ []) tt nothing_sent

-- The bytes of `ack` and the first byte of another packet, in one payload after some noise.
abbrev ack_payload : List ℕ
ack_payload = 2 ∷ 4 ∷ []

abbrev ack_frame : List ℕ
ack_frame = frame checksum secret data_phase 3 ack_payload

abbrev far : Radio
far = record { air = []; waiting = []; arriving = noise ∷ ack_frame ∷ []; shown = [] }

abbrev nearer : Radio
nearer = record { air = []; waiting = []; arriving = ack_frame ∷ []; shown = noise }

abbrev near : Radio
near = record { air = []; waiting = []; arriving = []; shown = ack_frame }

incoming : Incoming checksum radio 5 far 3 (ack_payload ∷ [])
unfolding radio
incoming =
    packet {q = nearer} {r = near} (noise ∷ []) (next refl refl done) (Refused-noise, tt) refl refl
      (small_sign ack_payload (omega arith)) (omega arith) (omega arith) none_left

abbrev listening : LinkState Radio GatewayBoard
listening = record {
  board = record { phase = data_phase; curr_sensor_id = 3 };
  phy = far;
  tx_buf = [];
  payload_start = 0;
  payload_end = 0;
}

to_come : Stream checksum radio 4 listening ack_payload
to_come = (
  [],
  ack_payload ∷ [],
  inl (omega arith, refl),
  (omega arith, incoming),
  (omega arith, tt),
  refl,
)

read_link-Readable_example :
    (k : ℕ) × (s' : LinkState Radio GatewayBoard) × (read_link radio
        (read_payload checksum radio 5 5)
        1
        listening
      ≡ ok (take k ack_payload) s')
    × (0 < k)
    × (k ≤ 1)
    × Readable radio
        (read_payload checksum radio 5 5)
        (Expected checksum radio 5)
        s'
        (drop k ack_payload)
read_link-Readable_example =
    read_link-Readable radio (read_payload checksum radio 5 5) (Expected checksum radio 5)
      (gateway-IsReceiver checksum radio 5 4) 1 listening ack_payload (omega arith) (omega arith)
      to_come

abbrev listening_app : AppLayer (LinkState Radio GatewayBoard)
listening_app = record { link = listening; offset = 0 }

gateway_packet-Consumes_example :
    (s' : AppLayer (LinkState Radio GatewayBoard)) × (decode_packet
        (app_decoder (gateway_link checksum radio 5))
        listening_app
      ≡ ok ack s')
    × Stream checksum radio 4 s'.link (4 ∷ [])
gateway_packet-Consumes_example =
    gateway_packet-Consumes checksum radio 4 ack tt listening_app (4 ∷ []) to_come (omega arith)

-- A sensor's handshake request, as the radio shows it.
abbrev asked : LinkState Radio GatewayBoard
asked = record {
  board = record { phase = handshake_phase; curr_sensor_id = 15 };
  phy = record {
    air = [];
    waiting = [];
    arriving = [];
    shown = frame checksum secret handshake_phase 0 payload;
  };
  tx_buf = [];
  payload_start = 0;
  payload_end = 0;
}

long_request : 5 ≤ length (radio.rx_buffer asked.phy)
unfolding radio to_be_five
long_request = omega arith

payload_of_request : drop 5 (radio.rx_buffer asked.phy) ≡ payload
unfolding radio to_be_five
payload_of_request = refl

handle_inbound_handshake-echo_example :
    (p : Radio) × (handle_inbound_handshake checksum radio asked
      ≡ ok tt (record asked {
        board = record {
          phase = asked.board.phase;
          curr_sensor_id = (asked.board.curr_sensor_id + 1) % 16;
        };
        phy = p;
      }))
    × RadioView p
        ([]
          ++ (frame checksum secret handshake_phase ((asked.board.curr_sensor_id + 1) % 16) payload
              ∷ []))
        []
handle_inbound_handshake-echo_example =
    handle_inbound_handshake-echo checksum radio 128 RadioView radio-IsRadio asked [] payload
      (refl, refl) long_request payload_of_request (omega arith) (omega arith) (omega arith)
