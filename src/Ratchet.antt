-- ===== src/Ratchet.antt =====
-- messk/src/lib/ratchet.ts: the Double Ratchet session, with `Session` of messk/src/lib/db.ts.
-- The browser's WebCrypto, tweetnacl and tweetnacl-util are the record `Platform`; a fresh key pair
-- and a fresh nonce are arguments of the operations that draw them. Overwriting a buffer with
-- zeros, which no result depends on, is not modelled.
pub mod Platform
pub mod Wire
pub mod Step
pub mod Keys
pub mod Seal
pub mod Send
pub mod Receive
pub mod Open
pub mod Chain
pub mod Skip
pub mod Atomic
pub mod Memory
pub mod Delivery
pub mod Turn
pub mod Padded
pub mod Toy
mod Tests
