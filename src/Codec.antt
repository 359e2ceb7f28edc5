-- ===== src/Codec.antt =====
-- lib/searpc-utils.c: the translation of GObjects to JSON and back.
pub mod Cast
pub mod System
pub mod Serialize
pub mod Deserialize
pub mod Fits
pub mod RoundTrip
pub mod Typing
pub mod Bridge
pub mod Cycle
