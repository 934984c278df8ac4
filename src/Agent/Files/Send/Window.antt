-- ===== src/Agent/Files/Send/Window.antt =====
-- What `pump` sends: parts of the file, within the receiver's window.
use nebula_desk.Prelude.{
  ℕ, ◌+◌, ◌-◌, ◌≤◌, ◌<◌, ◌≡◌, ◌≢◌, ◌⊎◌, inl, inr, refl, sym, ap, ◌∙◌, min, List, [], length, take,
  drop, length-take, length-drop, leb, ◌==◌, true, false, Option, some, arith, Bool-cases,
}
use nebula_desk.Prelude.Elements.{get_elem?-take, get_elem?-drop}
use nebula_desk.Prelude.Maps.{insert}
use nebula_desk.Agent.Files.{Action, chunk, Sending, FileTransfers, chunk_size}
use nebula_desk.Agent.Files.Receive.Content.{IsPart}
use nebula_desk.Agent.Files.Send.{wants, sent_chunk, pump_file, pump_one}

-- The next bytes of a file are a part of it.
take_drop-IsPart :
    (content : List ℕ) (offset want : ℕ)
    → offset ≤ length content
    → IsPart content offset (take want (drop offset content))
take_drop-IsPart content offset want h =
    let size = length-take want (drop offset content) in
    let left = length-drop offset content in
    record {
      within = omega arith;
      same = λ i k.
          get_elem?-take want (drop offset content) i (omega arith)
          ∙ get_elem?-drop offset content i;
    }

-- A transfer of `content` that is consistent: what is left is to be sent.
pub record Sound (content : List ℕ) (s : Sending) : Type 0 where
  pub size : s.size ≡ length content
  pub within : s.offset ≤ s.size
  pub pending : s.finished ≡ false → (s.offset < s.size) ⊎ (s.size ≡ 0)
  pub over : s.finished ≡ true → s.offset ≡ s.size

-- The transfer after one chunk of `n` bytes.
abbrev pub advanced : Sending → ℕ → ℕ → Sending
advanced s n now = record s {
  offset = s.offset + n;
  last_progress = now;
  finished = leb s.size (s.offset + n);
}

-- How much `pump` sends of a file that it can read.
abbrev pub amount : Sending → ℕ
amount s = min (min (s.allowed - s.offset) (s.size - s.offset)) chunk_size

-- What one call of `pump` does to a transfer that wants to send.
pub record Pumped (content : List ℕ) (id : ℕ) (s : Sending) (now : ℕ) (e : FileTransfers)
    (r : FileTransfers × Option Action) : Type 0 where
  pub bytes : List ℕ
  pub sending : r.0.sending ≡ insert id (advanced s (length bytes) now) e.sending
  pub sent : r.1 ≡ some (chunk (record { transfer_id = id; offset = s.offset }) bytes)
  pub part : IsPart content s.offset bytes
  pub size : length bytes ≡ amount s

pump_one_empty :
    (e : FileTransfers) (id : ℕ) (s : Sending) (content : List ℕ) (now : ℕ)
    → Sound content s
    → s.size ≡ 0
    → Pumped content id s now e (pump_one e id s (some content) now)
unfolding pump_one sent_chunk
pump_one_empty e id s content now sound none_left =
    let announced = sound.size in
    let within = sound.within in
    let empty : s.size == 0 ≡ true = ground arith in
    let start : s.offset ≡ 0 = omega arith in
    let p : s.offset ≡ s.offset + 0 = omega arith in
    let q : true ≡ leb s.size (s.offset + 0) = ground arith in
    let moved : record s { finished = true; last_progress = now } ≡ advanced s 0 now =
      λ i. record s { offset = p i; last_progress = now; finished = q i } in
    let stored : (pump_one e id s (some content) now).0.sending
        ≡ insert id (record s { finished = true; last_progress = now }) e.sending =
      rw (empty, pump_one) refl in
    let out : (pump_one e id s (some content) now).1
        ≡ some (chunk (record { transfer_id = id; offset = 0 }) []) =
      rw (empty, pump_one) refl in
    record {
      bytes = [];
      sending = stored ∙ ap (λ x. insert id x e.sending) moved;
      sent = out ∙ ap (λ o. some (chunk (record { transfer_id = id; offset = o }) [])) (sym start);
      part = record { within = omega arith; same = λ i k. absurd (omega arith) };
      size = omega arith;
    }

pump_one_full :
    (e : FileTransfers) (id : ℕ) (s : Sending) (content : List ℕ) (now : ℕ)
    → Sound content s
    → wants s ≡ true
    → s.size ≢ 0
    → Pumped content id s now e (pump_one e id s (some content) now)
unfolding pump_one pump_file sent_chunk wants
pump_one_full e id s content now sound w nonempty =
    let announced = sound.size in
    let within = sound.within in
    let full : s.size == 0 ≡ false = ground arith in
    let room : s.offset < s.allowed = ground arith in
    let left : s.offset < s.size = elim (sound.pending (ground arith)) [
      | inl l ↦ l
      | inr z ↦ absurd (nonempty z)
    ] in
    let bytes = take (amount s) (drop s.offset content) in
    let size = length-take (amount s) (drop s.offset content) in
    let rest = length-drop s.offset content in
    let some_left : length bytes == 0 ≡ false = ground arith in
    record {
      bytes = bytes;
      sending = rw (full, some_left, pump_one, pump_file) refl;
      sent = rw (full, some_left, pump_one, pump_file) refl;
      part = take_drop-IsPart content s.offset (amount s) (omega arith);
      size = omega arith;
    }

pub pump_one-Pumped :
    (e : FileTransfers) (id : ℕ) (s : Sending) (content : List ℕ) (now : ℕ)
    → Sound content s
    → wants s ≡ true
    → Pumped content id s now e (pump_one e id s (some content) now)
unfolding pump_one wants
pump_one-Pumped e id s content now sound w =
    let announced = sound.size in
    let within = sound.within in
    let unfinished : s.finished ≡ false = ground arith in
    let room : s.offset < s.allowed = ground arith in
    elim (Bool-cases (s.size == 0)) [
      | inl empty ↦ pump_one_empty e id s content now sound (ground arith)
      | inr full ↦ pump_one_full e id s content now sound w (ground arith)
    ]
