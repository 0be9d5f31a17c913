-- ===== src/Protocol.antt =====
-- games/dots/protocol: the messages between the game's client and server, and their codec.
pub mod Float32
pub mod Messages
pub mod Bytes
pub mod Validate
pub mod Encode
pub mod Fields
pub mod Decode
pub mod Codec
pub mod Consistent
mod Tests
