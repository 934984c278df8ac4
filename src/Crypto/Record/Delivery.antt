-- ===== src/Crypto/Record/Delivery.antt =====
-- A sealed record that arrives in time is opened to what was sealed, and only once.
use nebula_desk.Prelude.{
  ℕ, ◌%◌, ◌^◌, ◌≤◌, ◌<◌, List, ◌∷◌, ◌++◌, ◌≡◌, refl, arith, length, length-append, All, ap, ◌∙◌,
  true, false, ltb, Option, none, some, Bool-cases, inl, inr, ◌⊎◌,
}
use nebula_desk.Prelude.Bytes.{IsByte}
use nebula_desk.Proto
use nebula_desk.Proto.Channel
use nebula_desk.Proto.Channel.{Channel}
use nebula_desk.Proto.Header.{MsgHeader, split, decode, to_bytes, protocol_version}
use nebula_desk.Proto.Header.Codec.{IsValid, split-to_bytes, length-to_bytes, decode-eq_ok}
use nebula_desk.Crypto.Replay.{ReplayWindow, would_accept, accept}
use nebula_desk.Proto.Readers.{bind_inv, ok_inv}
use nebula_desk.Crypto.Replay.Window.{contains, admits, Tracks, would_accept-admits}
use nebula_desk.Crypto.Replay.History.{accept-Tracks}
use nebula_desk.Crypto.Expander.{
  SeqExpander, expand, commit, Near, expand-wire, expand_first, expand-commit,
}
use nebula_desk.Crypto.Aead.{Aead, AeadLaws}
use nebula_desk.Crypto.Record.{
  replay, ok, err, RecordSealer, RecordOpener, nonce_for, numbered, sealed, seal, opened, checked,
  open_record,
}
use nebula_desk.Crypto.Record.Open.{accept-would_accept, open_record-Opened}

-- A header that may be sealed; its sequence number is overwritten.
pub record CanSeal (h : MsgHeader) : Type 0 where
  pub version : h.version ≡ protocol_version
  pub flags : h.flags < 2 ^ 16
  pub timestamp_us : h.timestamp_us < 2 ^ 64

-- The receiver's estimate finds the number: it is near the highest one committed, or it is one of
-- the first 2^32 and nothing was committed yet.
abbrev pub InReach : SeqExpander → ℕ → Type 0
InReach e seq = Near e seq ⊎ ((e.started ≡ false) × (seq < 2 ^ 32))

in_reach : (e : SeqExpander) (seq : ℕ) → InReach e seq → expand e (seq % 2 ^ 32) ≡ seq
in_reach e seq (inl n) = expand-wire e seq n
in_reach e seq (inr (idle, small)) = expand_first e (seq % 2 ^ 32) idle ∙ omega arith

-- What the sealer and the opener share when a record is sent on the channel `c`.
pub record InStep (s : RecordSealer) (o : RecordOpener) (c : Channel) : Type 0 where
  pub key : o.key ≡ s.key
  pub reach : InReach (o.channels c).expander (s.counters c)
  pub fresh : would_accept (o.channels c).window (s.counters c) ≡ true

module _ (a : Aead) where
  sealed-ok :
      (c : Channel) (aad : List ℕ) (r : Option (List ℕ)) {bytes : List ℕ}
      → sealed a c aad r ≡ ok bytes
      → (cipher : List ℕ) × (bytes ≡ aad ++ cipher) × (r ≡ some cipher)
  unfolding sealed
  sealed-ok c aad none g = cc
  sealed-ok c aad (some cipher) g = (cipher, cc, refl)

  -- A record whose number the window of the channel has allowed is accepted.
  opened-ok :
      (o : RecordOpener) (c : Channel) (seq : ℕ) (h : MsgHeader) (text : List ℕ)
      → would_accept (o.channels c).window seq ≡ true
      → (opened a o c seq h (some text)).1 ≡ ok (h, text)
  unfolding opened
  opened-ok o c seq h text w = rw (accept-would_accept (o.channels c).window seq w)

  checked-ok :
      (o : RecordOpener) (c : Channel) (header : MsgHeader) (cipher text : List ℕ) (seq : ℕ)
      → expand (o.channels c).expander header.seq ≡ seq
      → would_accept (o.channels c).window seq ≡ true
      → a.decrypt o.key (nonce_for c seq) (to_bytes header) cipher ≡ some text
      → (checked a o c (Proto.ok (header, cipher))).1 ≡ ok (header, text)
  unfolding checked
  checked-ok o c header cipher text seq e w d = rw (e, w, d) (opened-ok o c seq header text w)

  open_record-ok :
      (o : RecordOpener) (c : Channel) (header : MsgHeader) (cipher : List ℕ)
      → IsValid header
      → 16 ≤ length cipher
      → open_record a o c (to_bytes header ++ cipher) ≡ checked a o c (Proto.ok (header, cipher))
  unfolding open_record
  open_record-ok o c header cipher v long =
      let size : ltb (length (to_bytes header ++ cipher)) 32 ≡ false =
        ground (arith, length-append (to_bytes header) cipher, length-to_bytes header) in
      rw size (rw (split-to_bytes header cipher v))

module _ (a : Aead) (laws : AeadLaws a) where
  -- What is sealed on a channel is opened there to its header, with the low 32 bits of its number,
  -- and its payload, if the receiver holds the key, has the number in reach and has not closed
  -- its window to it.
  pub open_record-seal :
      (s : RecordSealer) (o : RecordOpener) (c : Channel) (h : MsgHeader) (payload : List ℕ)
      {bytes : List ℕ}
      → CanSeal h
      → InStep s o c
      → (seal a s c h payload).1 ≡ ok bytes
      → (open_record a o c bytes).1 ≡ ok (numbered h (s.counters c), payload)
  open_record-seal s o c h payload {bytes} can step g =
      let seq = s.counters c in
      let header = numbered h seq in
      let (cipher, whole, hidden) =
        sealed-ok a c (to_bytes header)
          (a.encrypt s.key (nonce_for c seq) (to_bytes header) payload) {bytes = bytes}
          (unfold seal in g) in
      let valid : IsValid header = record {
        version = can.version;
        flags = can.flags;
        seq = omega arith;
        timestamp_us = can.timestamp_us;
      } in
      rw
        (
          whole,
          open_record-ok a o c header cipher valid (omega (arith, laws.tagged _ _ _ _ _ hidden)),
        )
        (checked-ok a o c header cipher payload seq
          (in_reach (o.channels c).expander seq step.reach) step.fresh
          (rw step.key (laws.opens _ _ _ _ _ hidden)))

opened_header :
    (a : Aead) (o : RecordOpener) (c : Channel) (seq : ℕ) (header : MsgHeader)
    (text : Option (List ℕ)) {h : MsgHeader} {t : List ℕ}
    → (opened a o c seq header text).1 ≡ ok (h, t)
    → header ≡ h
unfolding opened
opened_header a o c seq header none g = cc
opened_header a o c seq header (some text) g = ground arith

checked_header :
    (a : Aead) (o : RecordOpener) (c : Channel) (r : Proto.Result (MsgHeader × List ℕ))
    {h : MsgHeader} {t : List ℕ}
    → (checked a o c r).1 ≡ ok (h, t)
    → (cipher : List ℕ) × (r ≡ Proto.ok (h, cipher))
unfolding checked
checked_header a o c (Proto.err x) g = cc
checked_header a o c (Proto.ok (header, cipher)) {h} g =
    elim (Bool-cases
      (would_accept (o.channels c).window (expand (o.channels c).expander header.seq))) [
        | inl w ↦ let same : header ≡ h = opened_header a o c _ header _ (rw w at g) in (cipher, cc)
        | inr w ↦ cc
      ]

open_record_header :
    (a : Aead) (o : RecordOpener) (c : Channel) (bytes : List ℕ) {h : MsgHeader} {t : List ℕ}
    → (open_record a o c bytes).1 ≡ ok (h, t)
    → (ltb (length bytes) 32 ≡ false) × (cipher : List ℕ) × (split bytes ≡ Proto.ok (h, cipher))
unfolding open_record
open_record_header a o c bytes g = elim (Bool-cases (ltb (length bytes) 32)) [
  | inl short ↦ cc
  | inr long ↦
      let (cipher, parsed) = checked_header a o c (split bytes) (rw long at g) in
      (long, cipher, parsed)
]

header_seq :
    (bytes : List ℕ) {h : MsgHeader} {cipher : List ℕ}
    → All IsByte bytes
    → split bytes ≡ Proto.ok (h, cipher)
    → h.seq < 2 ^ 32
unfolding split
header_seq bytes {h} {cipher} b g = bind_inv (decode bytes) _ g λ r e g1.
    ok_inv (λ (q : MsgHeader × List ℕ). q.0.seq < 2 ^ 32) r g1 (decode-eq_ok bytes b e).1.seq

-- After a call of `accept` that let a number through, the window is shut to that number.
shut_after :
    (w : ReplayWindow) (log : List ℕ) (seq : ℕ)
    → Tracks w log
    → (accept w seq).1 ≡ true
    → would_accept (accept w seq).0 seq ≡ false
shut_after w log seq t g =
    let next : Tracks (accept w seq).0 (seq ∷ log) = rw g at (accept-Tracks w log seq t) in
    would_accept-admits (accept w seq).0 (seq ∷ log) seq next
    ∙ unfold admits contains in ground arith

-- Where the window of the channel keeps a log and its highest number has 64 bits: bytes that were
-- accepted are refused as a replay when they come once more on the same channel.
pub open_record_twice :
    (a : Aead) (o : RecordOpener) (c : Channel) (bytes log : List ℕ) {h : MsgHeader} {t : List ℕ}
    → All IsByte bytes
    → Tracks (o.channels c).window log
    → (o.channels c).expander.highest < 2 ^ 64
    → (open_record a o c bytes).1 ≡ ok (h, t)
    → (open_record a (open_record a o c bytes).0 c bytes).1
      ≡ err (replay (Channel.name c) (expand (o.channels c).expander h.seq))
open_record_twice a o c bytes log {h} b tracked small g =
    let seq = expand (o.channels c).expander h.seq in
    let o' = (open_record a o c bytes).0 in
    let s = open_record-Opened a o c bytes g in
    let (long, cipher, parsed) = open_record_header a o c bytes g in
    let state : o'.channels c ≡ record {
      expander = commit (o.channels c).expander seq;
      window = (accept (o.channels c).window seq).0;
    } =
      ap (λ f. f c) s.state ∙ ground arith in
    let again : expand (o'.channels c).expander h.seq ≡ seq =
      ap (λ st. expand st.expander h.seq) state
      ∙ expand-commit (o.channels c).expander h.seq small (header_seq bytes b parsed) in
    let shut : would_accept (o'.channels c).window seq ≡ false =
      ap (λ st. would_accept st.window seq) state
      ∙ shut_after (o.channels c).window log seq tracked
          (accept-would_accept (o.channels c).window seq s.allowed) in
    refused o' seq cipher long parsed again shut
  where
    refused :
        (o' : RecordOpener) (seq : ℕ) (cipher : List ℕ)
        → ltb (length bytes) 32 ≡ false
        → split bytes ≡ Proto.ok (h, cipher)
        → expand (o'.channels c).expander h.seq ≡ seq
        → would_accept (o'.channels c).window seq ≡ false
        → (open_record a o' c bytes).1 ≡ err (replay (Channel.name c) seq)
    refused o' seq cipher long parsed e w = unfold open_record checked in rw (long, parsed, e, w)
