-- ===== src/Examples.antt =====
-- Concrete streams, radios and settings, and the theorems at concrete inputs.
mod Memchr
mod Http
mod Server
mod Chip
mod Network
mod Streams
mod Radio
mod Codec
mod Links
mod Boards
mod Replies
mod Uplink
mod Web
