-- ===== src/Tests.antt =====
-- The theorems at concrete inputs.
mod Proto
mod Toy
mod Session
mod Ratchet
mod Decrypt
mod X3dh
mod Curve
mod Codec
mod Bindings
mod Conversation
mod Delivery
mod Order
