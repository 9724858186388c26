-- ===== src/Link.antt =====
-- protocol/src/phy.rs and protocol/src/link/v1.rs: the physical layer's interface and the packets
-- of the link layer.
pub mod Phy
pub mod Packet
pub mod Header
pub mod Delivery
