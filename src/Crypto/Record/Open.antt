-- ===== src/Crypto/Record/Open.antt =====
-- What the opener does with any records: errors change nothing, and no sequence number is
-- accepted twice on a channel.
use nebula_desk.Prelude.{
  ℕ, List, ◌≡◌, refl, arith, length, true, ltb, Option, none, some, Bool-cases, inl, inr,
}
use nebula_desk.Proto
use nebula_desk.Proto.Channel.{Channel}
use nebula_desk.Proto.Header.{MsgHeader, split}
use nebula_desk.Crypto.Replay.{ReplayWindow, would_accept, accept}
use nebula_desk.Crypto.Expander.{expand, commit}
use nebula_desk.Crypto.Aead.{Aead}
use nebula_desk.Crypto.Record.{
  CryptoError, ok, err, RecordOpener, at_channel, opened, checked, open_record,
}

-- `accept` lets through what `would_accept` allows.
pub accept-would_accept :
    (w : ReplayWindow) (seq : ℕ) → would_accept w seq ≡ true → (accept w seq).1 ≡ true
unfolding accept
accept-would_accept w seq h = ground arith

module _ (a : Aead) where
  opened_error :
      (o : RecordOpener) (c : Channel) (seq : ℕ) (h : MsgHeader) (text : Option (List ℕ))
      {e : CryptoError}
      → would_accept (o.channels c).window seq ≡ true
      → (opened a o c seq h text).1 ≡ err e
      → (opened a o c seq h text).0 ≡ o
  unfolding opened
  opened_error o c seq h none w g = refl
  opened_error o c seq h (some text) w g =
      ground (arith, accept-would_accept (o.channels c).window seq w)

  checked_error :
      (o : RecordOpener) (c : Channel) (r : Proto.Result (MsgHeader × List ℕ)) {e : CryptoError}
      → (checked a o c r).1 ≡ err e
      → (checked a o c r).0 ≡ o
  unfolding checked
  checked_error o c (Proto.err x) g = refl
  checked_error o c (Proto.ok (h, cipher)) g =
      elim (Bool-cases
        (would_accept (o.channels c).window (expand (o.channels c).expander h.seq))) [
          | inl w ↦ rw w (opened_error o c _ h _ w (rw w at g))
          | inr w ↦ rw w
        ]

  -- A record that is refused, for whatever reason, leaves the opener as it was: what is forged
  -- cannot move a sequence estimate or a window.
  pub open_record_error :
      (o : RecordOpener) (c : Channel) (bytes : List ℕ) {e : CryptoError}
      → (open_record a o c bytes).1 ≡ err e
      → (open_record a o c bytes).0 ≡ o
  unfolding open_record
  open_record_error o c bytes g = elim (Bool-cases (ltb (length bytes) 32)) [
    | inl short ↦ rw short
    | inr long ↦ rw long (checked_error o c (split bytes) (rw long at g))
  ]

-- What a successful call has done, by the header that it returned.
pub record Opened (o : RecordOpener) (c : Channel) (h : MsgHeader) (o' : RecordOpener)
    : Type 0 where
  pub allowed : would_accept (o.channels c).window (expand (o.channels c).expander h.seq) ≡ true
  pub state :
      let seq = expand (o.channels c).expander h.seq in
      o'.channels
      ≡ at_channel o.channels c (record {
        expander = commit (o.channels c).expander seq;
        window = (accept (o.channels c).window seq).0;
      })
  pub key : o'.key ≡ o.key

module _ (a : Aead) where
  opened-Opened :
      (o : RecordOpener) (c : Channel) (header : MsgHeader) (text : Option (List ℕ)) {h : MsgHeader}
      {t : List ℕ}
      → let seq = expand (o.channels c).expander header.seq in
        would_accept (o.channels c).window seq ≡ true
        → (opened a o c seq header text).1 ≡ ok (h, t)
        → Opened o c h (opened a o c seq header text).0
  opened-Opened o c header none w g = unfold opened in cc
  opened-Opened o c header (some text) {h} {t} w g =
      let seq = expand (o.channels c).expander header.seq in
      let open_ : (accept (o.channels c).window seq).1 ≡ true =
        accept-would_accept (o.channels c).window seq w in
      let same : header ≡ h = unfold opened in ground (arith, open_) in
      rw (← same)
        (record { allowed = w; state = unfold opened in rw open_; key = unfold opened in rw open_ })

  checked-Opened :
      (o : RecordOpener) (c : Channel) (r : Proto.Result (MsgHeader × List ℕ)) {h : MsgHeader}
      {t : List ℕ}
      → (checked a o c r).1 ≡ ok (h, t)
      → Opened o c h (checked a o c r).0
  unfolding checked
  checked-Opened o c (Proto.err x) g = cc
  checked-Opened o c (Proto.ok (header, cipher)) g =
      elim (Bool-cases
        (would_accept (o.channels c).window (expand (o.channels c).expander header.seq))) [
          | inl w ↦ rw w (opened-Opened o c header _ w (rw w at g))
          | inr w ↦ cc
        ]

  -- A record that is accepted was allowed by the window of its channel; it commits its number
  -- there, and every other channel stays as it was.
  pub open_record-Opened :
      (o : RecordOpener) (c : Channel) (bytes : List ℕ) {h : MsgHeader} {t : List ℕ}
      → (open_record a o c bytes).1 ≡ ok (h, t)
      → Opened o c h (open_record a o c bytes).0
  unfolding open_record
  open_record-Opened o c bytes g = elim (Bool-cases (ltb (length bytes) 32)) [
    | inl short ↦ cc
    | inr long ↦ rw long (checked-Opened o c (split bytes) (rw long at g))
  ]
