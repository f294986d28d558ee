-- ===== src/Lib.antt =====
-- The Rust library of oktz-signal (native/signal): the Signal protocol's wire format, session
-- records, X3DH and Double Ratchet, on top of the dalek, hmac, aes, base64 and serde crates.
--
-- Parts, from the bottom:
-- - Base: numbers, lists, integers, the errors of all parts and `Result`; a message of the source
--   is a constructor with the values it prints. Base.Post states what fallible code returns.
-- - BTreeMap: the standard library's map as a list of entries in the order of the keys, with its
--   laws. Keys has the two key types, texts (lists of bytes) and `i64` counters (integers).
-- - Proto (native/signal/src/proto.rs): a cursor is the unread bytes and the position. The two
--   decoders share the loop over fields, Proto.Fields, with the arms of each as an argument.
-- - Session (native/signal/src/session.rs): records field by field. A mutable reference into the
--   record is the key of the entry it points into, and writing through it is an insert.
-- - Crates, Util (native/signal/src/util.rs): the crates as a record of operations. IsEncoding
--   has what base64 and HMAC document, Ratchet.Cbc.Blocks.IsCipher what AES does,
--   Ratchet.Decrypt.Opened.IsVerifying the check of a shortened tag, Session.Text.IsFaithful
--   what serde_json does; Session.Text.IsReadable is that of one text,
--   Conversation.Delivery.IsPrinting that every record prints, Conversation.Sending.IsAes that
--   AES-256 accepts 32 bytes. Tests.Toy and Tests.Codec instantiate all of them.
-- - Curve (native/signal/src/curve.rs), X3dh (native/signal/src/x3dh.rs): the time and the bytes of
--   the random number generator are arguments. Curve.Dalek is the crates below XEdDSA, with
--   Curve.Sign.IsEncoded for the sizes of their encodings; X3dh.Agreement.IsDiffieHellman has what
--   X25519 documents.
-- - Ratchet (native/signal/src/ratchet.rs): Cbc is AES-CBC with PKCS7, Kdf is HKDF, Chains the keys
--   of the chain map, MessageKeys the symmetric ratchet, Plan the Diffie-Hellman step, Encrypt and
--   Decrypt the two entry points, which use all the other parts. A function on a mutable chain or
--   entry returns its outcome with what it leaves, on failure too.
-- - Conversation: the parts together, for x3dh.rs and ratchet.rs. Step is what encrypt and
--   decrypt_entry do to a session entry, and Reach any number of such steps, in any order and with
--   any messages. Sending, Receiving and Delivery follow a message from one text to the other;
--   Handshake, First, Opening, FirstSent and Delivered the first one behind the key agreement, in
--   FirstMessage; Answer and Exchange the answer to it, in Reply.
-- - Conversation also has Calls (what a call that returned has done), Texts (the texts that calls
--   hand on) and Terminates (every call ends).
-- - Bindings (native/signal/src/lib.rs): the exports, which convert and pass calls on. Outcome is
--   napi's Result, whose error has a message of this library or of serde_json.
-- - Tests: the theorems and the code at concrete inputs.
--
-- Loops: read_varint recurs on the unread bytes and write_varint on the accessibility of its
-- value. On fuel, the loop over fields and the one over blocks take the length of the input,
-- since each round takes a byte, and so does the loop of trim_start; the recursion of
-- fill_message_keys takes the distance to the counter, since each level moves the chain by one.
-- Without fuel the loops of fallible functions have the error out_of_fuel, which no source
-- message is; chunk_loop and trim_loop, which cannot fail, stop.
--
-- Numbers: a `u32` or `u64` is a native number, with `% 2 ^ w` where the source truncates. The
-- subtraction of two `i64` counters wraps, as in a release build, in Base.Int.wrap_i64.
--
-- Not modelled: the scrubbing of released memory (Zeroize, Drop), napi's conversion of buffers and
-- containment of panics, and the JavaScript layer in src, which stores and queues sessions.
pub mod Base
pub mod Proto
pub mod BTreeMap
pub mod Session
pub mod Crates
pub mod Util
pub mod Curve
pub mod X3dh
pub mod Ratchet
pub mod Conversation
pub mod Bindings
pub mod Tests
