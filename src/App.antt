-- ===== src/App.antt =====
-- protocol/src/app/v1.rs: the packets of the application layer, their encodings and decodings.
pub mod Packet
pub mod Format
pub mod RoundTrip
pub mod Values
pub mod Emit
