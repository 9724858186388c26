-- ===== src/Board.antt =====
-- The link and application layers of the two boards: gateway-board/src/comm and
-- sensor-board/src/comm.
pub mod LinkState
pub mod Chunks
pub mod Flush
pub mod GatewayLink
pub mod SensorLink
pub mod AppLayer
pub mod Transport
pub mod GatewayApp
pub mod SensorApp
pub mod Batch
pub mod Handshake
pub mod Connecting
pub mod Sessions
pub mod Uplink
pub mod Sending
pub mod Reading
pub mod Receiving
pub mod Lora
