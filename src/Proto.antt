-- ===== src/Proto.antt =====
-- native/signal/src/proto.rs: the protobuf wire codec of the two message types.
pub mod Varint
pub mod Fields
pub mod Whisper
pub mod Pkmsg
