-- ===== src/Lib.antt =====
-- The protocol of Sensor Sensei: sensor boards measure values and send them over LoRa to a gateway
-- board, which has a dashboard to configure it.
--
-- The parts, from the bytes up, and the files that model them:
--   Codec   protocol/src/codec.rs. AsyncEncoder and AsyncDecoder are the records Encoder and
--           Decoder over the state of the implementor (Codec/Traits); to_leb128 is to_uleb128 and
--           to_sleb128 (Codec/Leb); encode and decode of the numbers are encode_u64, decode_u64 and
--           so on (Codec/Wire). What the codec needs of an implementor is IsStream and IsSink
--           (Codec/Stream).
--   App     protocol/src/app/v1.rs. Packet, SensorValue and the rest (App/Packet); the bytes of each
--           packet by doc/protocol.md, but for a pressure (App/Format).
--   Link    protocol/src/phy.rs and protocol/src/link/v1.rs. PhysicalLayer and the law IsRadio
--           (Link/Phy); LinkPacket::write, read and get_payload are write_packet, read_packet and
--           get_payload (Link/Packet).
--   Board   gateway-board/src/comm and sensor-board/src/comm. The buffers that both link layers
--           share (Board/LinkState), GatewayLinkLayer and SensorBoardLinkLayer (Board/GatewayLink,
--           Board/SensorLink), the two application layers (Board/AppLayer for emit_bytes and
--           read_bytes, Board/GatewayApp, Board/SensorApp). LoraController of both lora.rs is the
--           PhysicalLayer of both (Board/Lora). The application layers use a link layer through
--           the record LinkLayer, whose laws are IsWritable, IsReadable (Board/Transport) and
--           IsFlushing (Board/Sessions); Board/Sending and Board/Receiving are about the gateway's,
--           Board/Uplink about what the sensor sends.
--   Util    util/src/encoding.rs (Util/Url, Util/Form); the crate memchr as the record Memchr with
--           the law IsMemchr (Util/Memchr).
--   Web     gateway-board/src/config.rs (Web/Config; the bytes in the flash in Web/Stored) and
--           gateway-board/src/net/http: the form processing of api.rs (Web/Dashboard), its pages and its dispatch_http_request (Web/Pages,
--           Web/Api), the types and answers (Web/Http), the server's
--           handle_client_request with the functions that it reads with (Web/Server), the server
--           over its two sockets with its loop run (Web/Server/Loop), and the client (Web/Client).
--   Export  gateway-board/src/export.rs: collect_values, the two exporters and export_to_all.
--   Common  lists, bits, tests, and the outcome of a run: a result, an error, a panic, or pending.
--   Examples  concrete streams and radios, and the theorems at concrete inputs.
--
-- Machine integers are natural numbers with the wrap-around written out; an i64 and an f32 are their
-- bit patterns; usize has the 32 bits of the boards. An await that does not return is pending.
--
-- Parameters: HMAC-SHA256, SHA-256, the radio chip (LoRa, with the laws IsTransmitting and
-- IsReceiving), the channel to the exporter, the clock, the race of a read with a timer, memchr, the
-- TCP sockets (TcpSocket, Sockets and Network, with the laws IsTcpSocket, IsSockets and IsNetwork), the
-- UTF-8 test, the flash (FlashStorage, with the law IsStorage), the parsers and the formatting of the
-- standard library (Formatter, with the law IsFormatter). The bytes of padding and of values that are
-- not initialised are arguments; a move of the stored struct is taken to keep them.
--
-- Fuel: an encoded number takes one round for each byte of its buffer; a discard, emit_bytes and
-- read_bytes take one for each byte, since each round moves a byte at least; chunks takes one for
-- each byte; url_decode one for each byte; the reader of form data one for each pair and one more.
-- The readers of link packets wait for the radio: their fuel is a number of receptions, one
-- for each frame that is refused and one more. The loops of the server read once a round, and each
-- read fills the buffer by a byte at least or ends them: one round for each byte of the capacity
-- and one more. The server's run never ends: its rounds are counted. The loops of the client need
-- one for each byte of the line buffer or of the response, and one more.
--
-- Not modelled: the setup of the server and its status for the display, the display, Wi-Fi, DHCP
-- and TCP, the drivers and the entry points, which are glue to hardware and libraries. What a
-- handler of the server writes into the body is forgotten, since the next request clears the buffer.
-- Logging is left out throughout.
pub mod Common
pub mod Codec
pub mod App
pub mod Link
pub mod Util
pub mod Board
pub mod Web
pub mod Export
pub mod Examples
