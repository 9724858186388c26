-- ===== src/Util.antt =====
-- util/src/encoding.rs: decoding of form data in place.
pub mod Memchr
pub mod Search
pub mod Url
pub mod UrlSpec
pub mod UrlStep
pub mod UrlDecode
pub mod Form
