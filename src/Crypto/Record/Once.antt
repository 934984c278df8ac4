-- ===== src/Crypto/Record/Once.antt =====
-- Over a whole run of records on all channels, no sequence number is accepted twice on a channel.
use nebula_desk.Prelude.{
  ℕ, List, [], ◌∷◌, ◌==◌, if◌then◌else◌, ◌≡◌, refl, arith, sym, ◌∙◌, true, false, Bool-cases, inl,
  inr, ◌⊎◌,
}
use nebula_desk.Proto.Channel
use nebula_desk.Proto.Channel.{Channel, control, video, audio, input, clipboard, file}
use nebula_desk.Proto.Header.{MsgHeader}
use nebula_desk.Crypto.Replay
use nebula_desk.Crypto.Replay.{ReplayWindow, would_accept, accept}
use nebula_desk.Crypto.Replay.Window.{contains, Tracks, would_accept-admits, with_width-Tracks}
use nebula_desk.Crypto.Replay.History.{accept-Tracks}
use nebula_desk.Crypto.Replay.Once.{Distinct, admits-fresh}
use nebula_desk.Crypto.Expander.{expand}
use nebula_desk.Crypto.Aead.{Aead}
use nebula_desk.Crypto.Record.{Result, ok, err, RecordOpener, open_record, new_opener, window_for}
use nebula_desk.Crypto.Record.Open.{
  accept-would_accept, open_record_error, Opened, open_record-Opened,
}

-- The number under which a result was accepted on the channel `c`, put before the later ones.
unfoldable pub noted :
    RecordOpener → Channel → Channel → Result (MsgHeader × List ℕ) → List ℕ → List ℕ
noted o c d (err e) later = later
noted o c d (ok (h, text)) later =
    if Channel.id c == Channel.id d then expand (o.channels d).expander h.seq ∷ later else later

-- The sequence numbers accepted on the channel `c` while records arrive on any channels.
unfoldable pub accepted : Aead → RecordOpener → Channel → List (Channel × List ℕ) → List ℕ
accepted a o c [] = []
accepted a o c ((d, bytes) ∷ records) =
    let (o', result) = open_record a o d bytes in noted o c d result (accepted a o' c records)

abbrev TracksAt : RecordOpener → Channel → List ℕ → Type 0
TracksAt o c log = Tracks (o.channels c).window log

-- What one accepted record does to the history of a channel.
step_same :
    (o o' : RecordOpener) (c d : Channel) (h : MsgHeader) (log : List ℕ)
    → Opened o d h o'
    → (Channel.id c == Channel.id d) ≡ true
    → TracksAt o c log
    → let seq = expand (o.channels d).expander h.seq in
      (contains log seq ≡ false) × TracksAt o' c (seq ∷ log)
step_same o o' c d h log s e t =
    let same : c ≡ d = Channel.id-injective c d (ground arith) in
    let seq = expand (o.channels d).expander h.seq in
    let here : Tracks (o.channels d).window log = rw same at t in
    let next : Tracks (accept (o.channels d).window seq).0 (seq ∷ log) =
      rw (accept-would_accept (o.channels d).window seq s.allowed) at
        (accept-Tracks (o.channels d).window log seq here) in
    (
      admits-fresh (o.channels d).window.width log seq
          (sym (would_accept-admits (o.channels d).window log seq here) ∙ s.allowed),
      rw s.state (rw e next),
    )

step_other :
    (o o' : RecordOpener) (c d : Channel) (h : MsgHeader) (log : List ℕ)
    → Opened o d h o'
    → (Channel.id c == Channel.id d) ≡ false
    → TracksAt o c log
    → TracksAt o' c log
step_other o o' c d h log s e t = rw s.state (rw e t)

-- A call either leaves the history of a channel alone, or puts one new number on it.
abbrev StepOf : RecordOpener → RecordOpener → Channel → List ℕ → (List ℕ → List ℕ) → Type 0
StepOf o o' c log note =
    (TracksAt o' c log × ((later : List ℕ) → note later ≡ later))
    ⊎ ((seq : ℕ) × (contains log seq ≡ false)
        × TracksAt o' c (seq ∷ log)
        × ((later : List ℕ) → note later ≡ seq ∷ later))

module _ (a : Aead) where
  step_of :
      (o : RecordOpener) (c d : Channel) (bytes log : List ℕ) (r : Result (MsgHeader × List ℕ))
      → TracksAt o c log
      → (open_record a o d bytes).1 ≡ r
      → StepOf o (open_record a o d bytes).0 c log (noted o c d r)
  step_of o c d bytes log (err e) t g =
      inl (rw (open_record_error a o d bytes g) t, λ later. unfold noted in refl)
  step_of o c d bytes log (ok (h, text)) t g =
      let s = open_record-Opened a o d bytes g in
      let o' = (open_record a o d bytes).0 in
      elim (Bool-cases (Channel.id c == Channel.id d)) [
        | inl e ↦
            let (new_number, next) = step_same o o' c d h log s e t in
            inr (
              expand (o.channels d).expander h.seq,
              new_number,
              next,
              λ later. unfold noted in rw e,
            )
        | inr e ↦ inl (step_other o o' c d h log s e t, λ later. unfold noted in rw e)
      ]

  -- What is in the history of a channel is not accepted there any more.
  accepted_fresh :
      (o : RecordOpener) (c : Channel) (log : List ℕ) (records : List (Channel × List ℕ)) (x : ℕ)
      → TracksAt o c log
      → contains log x ≡ true
      → contains (accepted a o c records) x ≡ false
  unfolding accepted contains
  accepted_fresh o c log [] x t h = refl
  accepted_fresh o c log ((d, bytes) ∷ records) x t h =
      let o' = (open_record a o d bytes).0 in
      elim (step_of o c d bytes log (open_record a o d bytes).1 t refl) [
        | inl (next, same) ↦
            rw (same (accepted a o' c records)) (accepted_fresh o' c log records x next h)
        | inr (seq, new_number, next, more) ↦
            rw (more (accepted a o' c records))
              (ground (arith, accepted_fresh o' c (seq ∷ log) records x next (ground arith)))
      ]

  accepted-Distinct_at :
      (o : RecordOpener) (c : Channel) (log : List ℕ) (records : List (Channel × List ℕ))
      → TracksAt o c log
      → Distinct (accepted a o c records)
  unfolding accepted
  accepted-Distinct_at o c log [] t = tt
  accepted-Distinct_at o c log ((d, bytes) ∷ records) t =
      let o' = (open_record a o d bytes).0 in
      elim (step_of o c d bytes log (open_record a o d bytes).1 t refl) [
        | inl (next, same) ↦
            rw (same (accepted a o' c records)) (accepted-Distinct_at o' c log records next)
        | inr (seq, new_number, next, more) ↦ rw (more (accepted a o' c records)) (
          accepted_fresh o' c (seq ∷ log) records seq next (unfold contains in ground arith),
          accepted-Distinct_at o' c (seq ∷ log) records next,
        )
      ]

new-TracksAt : (key : List ℕ) (c : Channel) → TracksAt (new_opener key) c []
unfolding new_opener window_for Replay.strict Replay.new
new-TracksAt key control = with_width-Tracks 0
new-TracksAt key video = with_width-Tracks 64
new-TracksAt key audio = with_width-Tracks 64
new-TracksAt key input = with_width-Tracks 0
new-TracksAt key clipboard = with_width-Tracks 64
new-TracksAt key file = with_width-Tracks 64

-- Whatever records arrive on whatever channels of a new opener, the sequence numbers that it
-- accepts on one channel are all different.
pub accepted-Distinct :
    (a : Aead) (key : List ℕ) (c : Channel) (records : List (Channel × List ℕ))
    → Distinct (accepted a (new_opener key) c records)
accepted-Distinct a key c records =
    accepted-Distinct_at a (new_opener key) c [] records (new-TracksAt key c)
