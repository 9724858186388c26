-- ===== src/Codec.antt =====
-- protocol/src/codec.rs: the encoder and decoder traits and the encodings of the basic types.
-- A byte slice is a list of numbers, `&mut self` is an explicit state.
pub mod Traits
pub mod Leb
pub mod Wire
pub mod Stream
pub mod RoundTrip
pub mod Signed
pub mod Values
