-- ===== src/Lib.antt =====
-- NebulaDesk carries a remote desktop between an agent and a client. This library models the
-- protocol stack that both ends share, from the bytes of a message to a logical session over two
-- network paths, the engines for files and the clipboard over it, and the brokering of a session:
--
--   Proto      crates/ndp-proto/src: the wire format. A message is a header (header.rs) and a
--              payload on a channel (channel.rs): media (media.rs), transfers (transfer.rs), input
--              events (input.rs), application windows with the registry of surfaces
--              (application.rs), and the capabilities that open a session (caps.rs).
--   Crypto     crates/ndp-crypto/src: records. A sealer numbers and encrypts a message for its
--              channel; an opener expands the 32-bit number, asks the replay window, decrypts, and
--              commits (record.rs, replay.rs).
--   Transport  crates/ndp-transport/src: carrier framing (wire.rs, and read_framed of session.rs),
--              and the logical session over a relay path and a direct path (multipath.rs).
--   Agent      crates/nebula-agent/src: the engine for file transfers (files.rs), used by the agent
--              and by the client. It offers files, sends their chunks within the window that the
--              receiver acknowledges, and publishes what arrives when its hash is right. And one
--              side of the clipboard (clipboard.rs), which offers what was copied and takes what the
--              peer offers.
--   Broker     how a session comes about. The gateway verifies and spends a ticket (Broker.Launch
--              for crates/nebula-common/src, Broker.Tickets, Broker.Tunnels and Broker.Admission
--              for crates/nebula-gateway/src), tells the agent over its tunnel, and mints a pairing
--              token for each side (Broker.Pairing for crates/ndp-signal/src/pairing.rs); the relay
--              verifies the tokens and joins the two connections (Broker.Rendezvous for
--              crates/nebula-relay/src).
--   Prelude    what the parts share: tests on numbers, lists measured by native numbers, bits,
--              integers as bytes in either order, and maps as association lists.
--
-- Each module has the name of its source file or of the type that it models, and its functions
-- have the names of the source's. The modules below a component hold its proofs and are named for
-- what they prove: Proto.Header.Codec, Crypto.Replay.History, Transport.Inbox.Streams. Multipath
-- is in four modules: Transport.Routes (the paths, and how one is selected and fails),
-- Transport.Liveness (acknowledgements, probes, echoes, attach, disconnect, close),
-- Transport.Lossy (the filter for media), Transport.Inbox (what arrives and is handed over).
--
-- Conventions. A buffer is a list of bytes, each a number; a reader returns the value and the rest.
-- A float is its 32 bits (Proto.Float), with the order and the tests that the code uses. A machine
-- integer is a native number, and where the source wraps or saturates the model writes it out; the
-- ids of paths and the epoch of the active path (64 bits, counted up by one) and the signed seconds
-- of tickets are natural numbers without a width. A
-- method that mutates returns the new state; one that also fails returns the state and the result,
-- so that what a refusal leaves behind can be stated. A map is an association list or a function.
-- Times are nanoseconds (in Broker, seconds), and a handler takes the time at which it runs as an
-- argument.
--
-- Bounds. The loop of decode_batch recurses on the length of the buffer, of which each event
-- takes 32 bytes, so it always ends with a result. The walk up the parents of a surface takes 32
-- steps at most, as in the source; the search for a free file name and the attempts to publish one
-- have the bounds of the source. Every other loop is structural.
--
-- Parameters. The AEAD cipher is another package's: Crypto.Aead is its interface, with the laws
-- that it documents (decryption inverts encryption under the same key, nonce and associated data;
-- the tag has 16 bytes). Duration::mul_f64 is an argument of the choice between two paths. Whether
-- a datagram is taken by the network, and whether the application's queue has room, are arguments
-- of the handlers that ask.
--
-- The hash of a file (BLAKE3), the fingerprint of clipboard contents, HMAC-SHA256, base64, the
-- verification of a JWT with one key and the serialized form of a launch are functions that the
-- models take; where a theorem relies on base64 and HMAC, Broker.Pairing.RoundTrip.Codec states
-- how. The results of system calls on files, the answer of the manager with its keys, and whether
-- an agent's queue takes a request are arguments.
-- Ids, and texts that are only compared, are numbers.
--
-- Not modelled: JSON payloads (serde), Noise handshakes and key files, QUIC streams, TLS, tasks and
-- channels, and so the asynchronous reliable_writer and senders of multipath.rs and the workers of
-- files.rs and clipboard.rs; pixel_size of caps.rs; modification times of files; the splicing of
-- streams by the relay; the manager (a database behind HTTP), and the rest of the agent, the client
-- and the desktop application.
pub mod Prelude
pub mod Proto
pub mod Crypto
pub mod Transport
pub mod Agent
pub mod Broker
