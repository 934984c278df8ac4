-- ===== src/Transport.antt =====
-- The transport (crates/ndp-transport/src): the carrier framing of wire.rs, and the logical
-- session over two paths of multipath.rs. Errors of the QUIC library are told apart as far as the
-- code does.
pub mod Wire
pub mod Lossy
pub mod Routes
pub mod Liveness
pub mod Inbox
mod Tests
use nebula_desk.Prelude.{ℕ, String}
use nebula_desk.Proto.{ProtoError}
use nebula_desk.Crypto.Record.{CryptoError}

pub data TransportError : Type 0 where
  application_closed : ℕ → TransportError  -- a connection that the peer closed with a code
  timed_out : TransportError  -- a connection that timed out
  connection : String → TransportError  -- every other connection error
  write : String → TransportError
  read : String → TransportError
  rejected : String → TransportError
  read_to_end : String → TransportError
  datagram : String → TransportError
  truncated : String → ℕ → TransportError  -- carrier, bytes
  record_too_large : ℕ → ℕ → TransportError  -- length, limit
  unknown_channel : ℕ → TransportError
  wrong_carrier : String → String → TransportError
  crypto : CryptoError → TransportError
  proto : ProtoError → TransportError
  config : String → TransportError
  multipath_protocol : String → TransportError
  no_direct_path : TransportError
  io : String → TransportError
  closed : TransportError

pub data Result {ℓ} (A : Type ℓ) : Type ℓ where
  ok : A → Result A
  err : TransportError → Result A

infixl 5 ◌>>=◌
abbrev pub ◌>>=◌ {ℓ κ} : {A : Type ℓ} {B : Type κ} → Result A → (A → Result B) → Result B
err refusal >>= next = err refusal
ok value >>= next = next value
