-- ===== src/Agent/Files/Send/Acked.antt =====
-- An acknowledgement leaves what was sent as it is.
use nebula_desk.Prelude.{
  ℕ, ◌+◌, ◌-◌, ◌^◌, ◌<◌, ◌≡◌, ◌≢◌, inl, inr, refl, sym, ap, ◌∙◌, subst, min, List, ltb, ◌==◌, ◌&&◌,
  Option, none, some, arith, Bool-cases,
}
use nebula_desk.Prelude.Maps.{
  Map, lookup, insert, erase, Keyed, insert-Keyed, erase-Keyed, lookup-insert_self,
  lookup-insert_ne, lookup-erase_self, lookup-erase_ne,
}
use nebula_desk.Proto.Transfer.{FileAck}
use nebula_desk.Agent.Files.{Sending, FileTransfers, failed_received}
use nebula_desk.Agent.Files.Receive.Run.{Chunk}
use nebula_desk.Agent.Files.Send.{acknowledged, on_ack}
use nebula_desk.Agent.Files.Send.Progress.{Progress, Sent, some-injective, absurd_some, others-Sent}

abbrev raised : Sending → ℕ → ℕ → Sending
raised s allowed now = record s { allowed = allowed; last_progress = now }

-- What an acknowledgement can do to the transfers.
data Acked (id : ℕ) (s : Sending) (now : ℕ) (m : Map Sending) : Map Sending → Type 0 where
  dropped_one : (m' : Map Sending) → m' ≡ erase id m → Acked id s now m m'
  kept_all : (m' : Map Sending) → m' ≡ m → Acked id s now m m'
  raised_one :
      (m' : Map Sending) (allowed : ℕ)
      → s.allowed < allowed
      → m' ≡ insert id (raised s allowed now) m
      → Acked id s now m m'

acknowledged-Acked :
    (e : FileTransfers) (a : FileAck) (s : Sending) (now : ℕ)
    → Acked a.transfer_id s now e.sending (acknowledged e a s now).sending
unfolding acknowledged
acknowledged-Acked e a s now = elim (Bool-cases (a.received == failed_received)) [
  | inl failure ↦ dropped_one _ (rw (failure, acknowledged) refl)
  | inr fine ↦ elim (Bool-cases (ltb s.size a.received)) [
    | inl beyond ↦ kept_all _ (rw (fine, beyond, acknowledged) refl)
    | inr within ↦ elim (Bool-cases (s.finished && a.received == s.size)) [
      | inl over ↦ dropped_one _ (rw (fine, within, over, acknowledged) refl)
      | inr open_still ↦
          elim (Bool-cases (ltb s.allowed (min (a.received + a.window) (2 ^ 64 - 1)))) [
            | inl more ↦
                raised_one _ (min (a.received + a.window) (2 ^ 64 - 1)) (ground arith)
                  (rw (fine, within, open_still, more, acknowledged) refl)
            | inr same ↦ kept_all _ (rw (fine, within, open_still, same, acknowledged) refl)
          ]
    ]
  ]
]

raised-Progress :
    (content : List ℕ) (s : Sending) (sent : List Chunk) (allowed now : ℕ)
    → s.allowed < allowed
    → Progress content s sent
    → Progress content (raised s allowed now) sent
raised-Progress content s sent allowed now more p =
    let sound = p.sound in
    record {
      sound = record {
        size = sound.size;
        within = sound.within;
        pending = sound.pending;
        over = sound.over;
      };
      begun = p.begun;
      covered = p.covered;
      granted = λ x c. let before = p.granted x c in omega arith;
    }

Acked-Keyed :
    (id : ℕ) (s : Sending) (now : ℕ) (m m' : Map Sending) → Keyed m → Acked id s now m m' → Keyed m'
Acked-Keyed id s now m m' keyed (dropped_one _ same) =
    subst Keyed (sym same) (erase-Keyed id m keyed)
Acked-Keyed id s now m m' keyed (kept_all _ same) = subst Keyed (sym same) keyed
Acked-Keyed id s now m m' keyed (raised_one _ allowed more same) =
    subst Keyed (sym same) (insert-Keyed id (raised s allowed now) m keyed)

Acked-other :
    (id j : ℕ) (s : Sending) (now : ℕ) (m m' : Map Sending)
    → j ≢ id
    → Acked j s now m m'
    → lookup id m' ≡ lookup id m
Acked-other id j s now m m' ne (dropped_one _ same) =
    ap (lookup id) same ∙ lookup-erase_ne j id m ne
Acked-other id j s now m m' ne (kept_all _ same) = ap (lookup id) same
Acked-other id j s now m m' ne (raised_one _ allowed more same) =
    ap (lookup id) same ∙ lookup-insert_ne j id (raised s allowed now) m ne

Acked-own :
    (content : List ℕ) (id : ℕ) (s : Sending) (now : ℕ) (m m' : Map Sending) (sent : List Chunk)
    → lookup id m ≡ some s
    → Progress content s sent
    → Acked id s now m m'
    → (t : Sending) → lookup id m' ≡ some t
    → Progress content t sent
Acked-own content id s now m m' sent found p (dropped_one _ same) t h =
    absurd (absurd_some (sym (ap (lookup id) same ∙ lookup-erase_self id m) ∙ h))
Acked-own content id s now m m' sent found p (kept_all _ same) t h =
    subst (λ u. Progress content u sent)
      (some-injective (sym found ∙ (sym (ap (lookup id) same) ∙ h))) p
Acked-own content id s now m m' sent found p (raised_one _ allowed more same) t h =
    let s' = raised s allowed now in
    subst (λ u. Progress content u sent)
      (some-injective (sym (ap (lookup id) same ∙ lookup-insert_self id s' m) ∙ h))
      (raised-Progress content s sent allowed now more p)

acknowledged-Sent :
    (content : List ℕ) (id : ℕ) (e : FileTransfers) (a : FileAck) (s : Sending) (sent : List Chunk)
    (now : ℕ)
    → Sent content id e sent
    → lookup a.transfer_id e.sending ≡ some s
    → Sent content id (acknowledged e a s now) sent
acknowledged-Sent content id e a s sent now known found =
    let j = a.transfer_id in
    let m' = (acknowledged e a s now).sending in
    let acked = acknowledged-Acked e a s now in
    let keyed = Acked-Keyed j s now e.sending m' known.keyed acked in
    elim (Bool-cases (j == id)) [
      | inl same ↦
          let key : j ≡ id = ground arith in
          let found' : lookup id e.sending ≡ some s =
            subst (λ i. lookup i e.sending ≡ some s) key found in
          let own = subst (λ i. Acked i s now e.sending m') key acked in
          record {
            keyed = keyed;
            parts = known.parts;
            progress =
                Acked-own content id s now e.sending m' sent found' (known.progress s found') own;
          }
      | inr other ↦
          let ne : j ≢ id = λ key. ground arith in
          others-Sent content id e (acknowledged e a s now) sent known
            (Acked-other id j s now e.sending m' ne acked) keyed
    ]

pub on_ack-Sent :
    (content : List ℕ) (id : ℕ) (e : FileTransfers) (a : FileAck) (sent : List Chunk) (now : ℕ)
    (found : Option Sending)
    → lookup a.transfer_id e.sending ≡ found
    → Sent content id e sent
    → Sent content id (on_ack e a now) sent
unfolding on_ack
on_ack-Sent content id e a sent now none h known = rw (h, on_ack) known
on_ack-Sent content id e a sent now (some s) h known =
    rw (h, on_ack) (acknowledged-Sent content id e a s sent now known h)
