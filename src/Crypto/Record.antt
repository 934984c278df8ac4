-- ===== src/Crypto/Record.antt =====
-- Sealed records (crates/ndp-crypto/src/record.rs). The atomic counters and the locked states are
-- functions of the channel; a call takes the object and returns the new one with its result.
pub mod Open
pub mod Once
pub mod Seal
pub mod Delivery
use nebula_desk.Prelude.{
  ℕ, ◌+◌, ◌%◌, ◌^◌, List, [], ◌∷◌, ◌++◌, ltb, ◌==◌, if◌then◌else◌, Bool, true, false, not, length,
  String, Option, none, some,
}
use nebula_desk.Prelude.Bytes.{to_le}
use nebula_desk.Proto
use nebula_desk.Proto.{ProtoError}
use nebula_desk.Proto.Channel
use nebula_desk.Proto.Channel.{Channel, control, input}
use nebula_desk.Proto.Header.{MsgHeader, to_bytes, split, header_len}
use nebula_desk.Crypto.Replay
use nebula_desk.Crypto.Replay.{ReplayWindow, would_accept, accept}
use nebula_desk.Crypto.Expander
use nebula_desk.Crypto.Expander.{SeqExpander, expand, commit}
use nebula_desk.Crypto.Aead.{Aead, aead_tag_len}

-- The errors that records raise (crates/ndp-crypto/src/lib.rs); those of the handshake are not
-- raised here.
pub data CryptoError : Type 0 where
  decrypt_failed : String → CryptoError
  replay : String → ℕ → CryptoError
  short_record : ℕ → CryptoError
  proto : ProtoError → CryptoError

pub data Result {ℓ} (A : Type ℓ) : Type ℓ where
  ok : A → Result A
  err : CryptoError → Result A

pub record RecordSealer : Type 0 where
  pub key : List ℕ
  pub counters : Channel → ℕ  -- AtomicU64 of each channel

pub record ChannelState : Type 0 where
  pub expander : SeqExpander
  pub window : ReplayWindow

pub record RecordOpener : Type 0 where
  pub key : List ℕ
  pub channels : Channel → ChannelState

-- A slot of the per-channel arrays is written.
abbrev pub at_channel {ℓ} : {A : Type ℓ} → (Channel → A) → Channel → A → Channel → A
at_channel f c v d = if Channel.id d == Channel.id c then v else f d

unfoldable pub nonce_for : Channel → ℕ → List ℕ
nonce_for channel seq = to_le 4 (Channel.id channel) ++ to_le 8 seq

unfoldable pub new_sealer : List ℕ → RecordSealer
new_sealer key = record { key = key; counters = λ _. 0 }

unfoldable pub next_seq : RecordSealer → Channel → ℕ
next_seq s channel = s.counters channel

-- The window of a channel: strict where one ordered stream carries it.
unfoldable pub window_for : Channel → ReplayWindow
window_for control = Replay.strict
window_for input = Replay.strict
window_for _ = Replay.new

unfoldable pub new_opener : List ℕ → RecordOpener
new_opener key = record {
  key = key;
  channels = λ c. record { expander = Expander.new; window = window_for c };
}

-- `SessionKeys::split`
unfoldable pub split_keys : List ℕ → List ℕ → RecordSealer × RecordOpener
unfolding new_sealer new_opener
split_keys send recv = (new_sealer send, new_opener recv)

-- The header as it is sealed: the low 32 bits of the sequence number.
abbrev pub numbered : MsgHeader → ℕ → MsgHeader
numbered header seq = record header { seq = seq % 2 ^ 32 }

module _ (a : Aead) where
  sealed : Channel → List ℕ → Option (List ℕ) → Result (List ℕ)
  sealed channel aad none = err (decrypt_failed (Channel.name channel))
  sealed channel aad (some ciphertext) = ok (aad ++ ciphertext)

  unfoldable pub seal : RecordSealer → Channel → MsgHeader → List ℕ → RecordSealer × Result (List ℕ)
  unfolding sealed
  seal s channel header payload =
      let seq = s.counters channel in
      let aad = to_bytes (numbered header seq) in
      (
        record s { counters = at_channel s.counters channel ((seq + 1) % 2 ^ 64) },
        sealed channel aad (a.encrypt s.key (nonce_for channel seq) aad payload),
      )

  -- From the decryption on: the plaintext, or nothing where the tag does not verify.
  opened :
      RecordOpener
      → Channel
      → ℕ
      → MsgHeader
      → Option (List ℕ)
      → RecordOpener × Result (MsgHeader × List ℕ)
  opened o channel seq header none = (o, err (decrypt_failed (Channel.name channel)))
  opened o channel seq header (some plaintext) =
      let state = o.channels channel in
      let (window, accepted) = accept state.window seq in
      if not accepted
      then (
        record o { channels = at_channel o.channels channel (record state { window = window }) },
        err (replay (Channel.name channel) seq),
      )
      else (
        record o {
          channels =
              at_channel o.channels channel
                (record { expander = commit state.expander seq; window = window });
        },
        ok (header, plaintext),
      )

  -- From the parsed header on.
  checked :
      RecordOpener
      → Channel
      → Proto.Result (MsgHeader × List ℕ)
      → RecordOpener × Result (MsgHeader × List ℕ)
  unfolding opened
  checked o channel (Proto.err e) = (o, err (proto e))
  checked o channel (Proto.ok (header, ciphertext)) =
      let state = o.channels channel in
      let seq = expand state.expander header.seq in
      if not (would_accept state.window seq)
      then (o, err (replay (Channel.name channel) seq))
      else opened o channel seq header
          (a.decrypt o.key (nonce_for channel seq) (to_bytes header) ciphertext)

  unfoldable pub open_record :
      RecordOpener → Channel → List ℕ → RecordOpener × Result (MsgHeader × List ℕ)
  unfolding checked
  open_record o channel bytes =
      if ltb (length bytes) (header_len + aead_tag_len)
      then (o, err (short_record (length bytes)))
      else checked o channel (split bytes)
