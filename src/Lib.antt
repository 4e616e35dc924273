-- ===== src/Lib.antt =====
-- Messk, the TypeScript client (messk/src/lib): the logic that decides what is sent, read and kept.
--
-- Ratchet models messk/src/lib/ratchet.ts. Ratchet.Platform has the types (`Session` of
-- messk/src/lib/db.ts, `RatchetMessage`) and what comes from outside: WebCrypto, tweetnacl and
-- tweetnacl-util are fields of the record `Platform`, where `none` is an exception, and the record
-- `IsPlatform` names the documented behaviour that proofs rely on. Ratchet.Step has the monad of
-- methods that write a session and may return null or throw. Ratchet.Keys models `hkdf`, `kdfRoot`,
-- `kdfChain` and `skipMessageKeys`, Ratchet.Seal `buildAuthenticatedPlaintext` and
-- `decryptWithMessageKey`, Ratchet.Send `ensureSendChain` and `encrypt`, Ratchet.Receive `decrypt`.
-- A fresh key pair and a fresh nonce, which the source draws at random, are arguments. The loop of
-- `skipMessageKeys` is recursion on the rounds that are left. Overwriting buffers with zeros is not
-- modelled, as no result depends on it. Ratchet.Delivery is about two sessions on one chain,
-- Ratchet.Turn about two sessions across a step of the Diffie-Hellman ratchet, with the record
-- `IsKeyExchange` for what X25519 and HKDF are documented to do. Ratchet.Toy is a concrete platform
-- for the tests.
--
-- Json models the values that `JSON.parse` gives and the text that `JSON.stringify` writes, of
-- which the ratchet's envelope is made; Json.Parse is `JSON.parse` itself. Its fuel is one more than
-- the length of the text, and each nested value costs one unit of fuel and at least one character.
--
-- Mesh, Metadata and Contract model messk/src/lib/protocolContract.ts: topics and blind envelopes,
-- padding and batch delays, and the tables of events and transports with `clampHistoryLimit`;
-- Contract also has `shouldHandleServerAck` of messk/src/lib/socketOutbox.ts. The ratchet pads with
-- Metadata's targets.
--
-- Store models messk/src/lib/socketMessageStore.ts with the message and statistics tables of
-- messk/src/lib/db.ts: a table is a list in the order of its primary key, and the preview of a text
-- is an argument. Store.Steps has the operations as steps between databases. Outbox models the queue
-- of direct messages, from messk/src/lib/socketOutbox.ts and messk/src/lib/socket.ts
-- (`flushOutgoingDirectMessages`, `handleServerAck`, `retryDirectMessage`), on top of Store; the
-- record `Channel` has the socket and the clock during one call. Its loops run over the list of rows
-- that the query returns. Outbox.Acknowledge has acknowledgements and retries.
--
-- Handshake models messk/src/lib/crypto.ts, the X3DH handshake and the boxes for one recipient, on
-- the ratchet's `Platform`. Sessions models `encryptInSession` and `decryptInSession` of
-- messk/src/lib/socket.ts, which connect the handshake, the ratchet and the tables of sessions and
-- one-time keys: Sessions.Decrypt has the latter, Sessions.Wire has the text of a message,
-- Sessions.Contact and Sessions.Reply the first message and its answer, Sessions.Unread and
-- Sessions.Lost what happens when something fails.
--
-- Sending models what the client does with its own direct messages, `send` and (Sending.Reset)
-- `handlePeerSessionReset` of messk/src/lib/socket.ts, on top of Sessions, Outbox and Store.
-- Sending.Actions has all these actions in any order, Sending.Waiting those without resets. What a
-- flush keeps is shown step by step in Outbox.Flushing, for any property of the outbox.
--
-- Incoming models what `ws.onmessage` does with envelopes about direct messages: Incoming.Direct,
-- Incoming.Message and Incoming.SelfSync have the handlers, Incoming.Dispatch leads to them,
-- Incoming.Invariant has the record `IsKept` of what a property of the message store needs so that all
-- of them keep it, and Incoming.Arrival joins sender, outbox and receiver. Incoming.History models
-- `syncDirectHistory` and what it applies, a page at a time, at most 5 as in the source. Calls run one
-- after the other: the interleavings at an `await` are not modelled.
--
-- Payloads models the parsers of messk/src/lib/socket.ts for the payloads that travel encrypted;
-- Payloads.Written has the text of a self-sync payload (`sendSelfSyncDirectMessage`), and Json.Plain
-- the texts of values without fractions and lists. Pending models the
-- queues of group events that wait for a sender key (messk/src/lib/socketGroups.ts). Health models
-- what views show of the client's state: messk/src/lib/connectionHealth.ts, deliveryStatus.ts,
-- localKeyStatus.ts, callControls.ts and uiErrorRecovery.ts.
--
-- Security models messk/src/lib/security.ts: the hash of the PIN, and the identity that is remembered
-- under the PIN, over the record `Vault` of WebCrypto and Base64. App models the application's state
-- (messk/src/store/index.ts) with the choice of the database and the vault's key (messk/src/lib/db.ts):
-- one function per action, App.Consistent has all actions in any order, App.Unlock joins it with
-- Security. The settings of appearance are left out.
--
-- Prelude has what they share. Strings are lists of UTF-16 code units (`Text`), objects and maps
-- keyed by strings are association lists in order of insertion (`Dict`), numbers are `Number` where
-- the source tests for integers or finiteness and ℕ where it counts.
--
-- Not modelled: views, browser objects (WebRTC, IndexedDB, notifications), network calls, and the
-- Go and Rust services of the repository.
pub mod App
pub mod Contract
pub mod Handshake
pub mod Health
pub mod Incoming
pub mod Json
pub mod Mesh
pub mod Metadata
pub mod Outbox
pub mod Payloads
pub mod Pending
pub mod Prelude
pub mod Ratchet
pub mod Security
pub mod Sending
pub mod Sessions
pub mod Store
