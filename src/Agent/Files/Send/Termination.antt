-- ===== src/Agent/Files/Send/Termination.antt =====
-- The end of a transfer: with its window open, enough calls of `pump` send the whole file, whatever
-- other transfers are under way.
use nebula_desk.Prelude.{
  ℕ, zero, suc, ◌≤◌, ◌<◌, ◌≡◌, inl, inr, sym, ap, ◌∙◌, subst, List, ◌++◌, length, replicate, ◌==◌,
  false, true, Option, some, arith, Bool-cases, Option-cases,
}
use nebula_desk.Prelude.Maps.{lookup, insert, Keyed, lookup-insert_self, insert-Keyed}
use nebula_desk.Agent.Files.{Sending, FileTransfers}
use nebula_desk.Agent.Files.Receive.Run.{Chunk}
use nebula_desk.Agent.Files.Send.{
  wants, first_wanting, pump_one, pump, pump_at, for_id, send_step, send_run,
}
use nebula_desk.Agent.Files.Send.Window.{Sound, advanced, amount, pump_one-Pumped}
use nebula_desk.Agent.Files.Send.Progress.{first_wanting_found, some-injective, pump_one-Others}
use nebula_desk.Agent.Files.Send.Drain.{Whole, chunks_left, all_left, chunks_left_le, pump-all_left}

-- A transfer under way, of which the receiver allows the whole file.
pub record Allowed (content : List ℕ) (id : ℕ) (e : FileTransfers) (s : Sending) : Type 0 where
  pub keyed : Keyed e.sending
  pub found : lookup id e.sending ≡ some s
  pub sound : Sound content s
  pub allowed : s.size ≤ s.allowed
  pub some_window : 0 < s.allowed

-- Its own chunk.
advanced-Allowed :
    (content : List ℕ) (id : ℕ) (e : FileTransfers) (s : Sending) (now : ℕ)
    → Allowed content id e s
    → wants s ≡ true
    → Allowed content id (pump_one e id s (some content) now).0 (advanced s (amount s) now)
unfolding wants
advanced-Allowed content id e s now o w =
    let sound = o.sound in
    let within = sound.within in
    let pumped = pump_one-Pumped e id s content now sound w in
    let s' = advanced s (amount s) now in
    let stored : (pump_one e id s (some content) now).0.sending ≡ insert id s' e.sending =
      pumped.sending ∙ ap (λ n. insert id (advanced s n now) e.sending) pumped.size in
    record {
      keyed = subst Keyed (sym stored) (insert-Keyed id s' e.sending o.keyed);
      found = ap (lookup id) stored ∙ lookup-insert_self id s' e.sending;
      sound = record {
        size = sound.size;
        within = omega arith;
        pending = λ u. inl (ground arith);
        over = λ f. ground arith;
      };
      allowed = o.allowed;
      some_window = o.some_window;
    }

pump_one-Allowed :
    (content : List ℕ) (files : ℕ → Option (List ℕ)) (id j : ℕ) (e : FileTransfers) (s t : Sending)
    (now : ℕ)
    → files id ≡ some content
    → Allowed content id e s
    → lookup j e.sending ≡ some t
    → wants t ≡ true
    → (s' : Sending) × Allowed content id (pump_one e j t (files j) now).0 s'
pump_one-Allowed content files id j e s t now file o found w = elim (Bool-cases (j == id)) [
  | inl same ↦
      let key : j ≡ id = ground arith in
      let own : t ≡ s = some-injective (sym found ∙ ap (λ i. lookup i e.sending) key ∙ o.found) in
      let call : pump_one e j t (files j) now ≡ pump_one e id s (some content) now =
        ap (λ i. pump_one e i t (files i) now) key
        ∙ ap (λ f. pump_one e id t f now) file
        ∙ ap (λ u. pump_one e id u (some content) now) own in
      let moved = advanced-Allowed content id e s now o (subst (λ u. wants u ≡ true) own w) in
      let s' = advanced s (amount s) now in
      (s', subst (λ r. Allowed content id r.0 s') (sym call) moved)
  | inr other ↦
      let left = pump_one-Others e id j t (files j) now (λ key. ground arith) o.keyed in
      (
        s,
        record {
          keyed = left.2;
          found = left.0 ∙ o.found;
          sound = o.sound;
          allowed = o.allowed;
          some_window = o.some_window;
        },
      )
]

pump-Allowed :
    (content : List ℕ) (files : ℕ → Option (List ℕ)) (id : ℕ) (e : FileTransfers) (s : Sending)
    (now : ℕ)
    → files id ≡ some content
    → Allowed content id e s
    → (s' : Sending) × Allowed content id (pump e files now).0 s'
unfolding pump
pump-Allowed content files id e s now file o = elim (Option-cases (first_wanting e.sending)) [
  | inl idle ↦ rw (idle, pump) (s, o)
  | inr ((j, t), ready) ↦
      let (found, w) = first_wanting_found e.sending j t o.keyed ready in
      rw (ready, pump) (pump_one-Allowed content files id j e s t now file o found w)
]

-- With nothing left to send, the transfer has come to its end.
idle-finished :
    (content : List ℕ) (id : ℕ) (e : FileTransfers) (s : Sending)
    → Allowed content id e s
    → all_left e.sending ≤ 0
    → (s.finished ≡ true) × (s.offset ≡ length content)
unfolding chunks_left wants
idle-finished content id e s o none_left =
    let own = chunks_left_le id s e.sending o.found in
    let empty : chunks_left s ≡ 0 = omega arith in
    elim (Bool-cases s.finished) [
      | inl finished ↦ (finished, o.sound.over finished ∙ o.sound.size)
      | inr unfinished ↦ absurd (busy unfinished empty)
    ]
  where
    busy : s.finished ≡ false → chunks_left s ≡ 0 → ⊥
    busy unfinished empty =
        let whole = o.allowed in
        let some_window = o.some_window in
        let room : s.offset < s.allowed = elim (o.sound.pending unfinished) [
          | inl left ↦ omega arith
          | inr none_at_all ↦ let within = o.sound.within in omega arith
        ] in
        let w : wants s ≡ true = ground arith in
        let some_left : 0 < chunks_left s = rw w (omega arith) in omega arith

-- Of a transfer whose file can be read and has the announced size, and whose window is open and allows
-- all of it, as many calls of `pump` as there are chunks left to all transfers under way, each with
-- its own id, send the whole file: the transfer is finished, and
-- its offset is the file's size. The files of the other transfers may be gone, and their windows
-- closed, but none that can be read has become shorter.
pub send_run-finished :
    (content : List ℕ) (id : ℕ) (files : ℕ → Option (List ℕ)) (now n : ℕ) (e : FileTransfers)
    (s : Sending) (sent : List Chunk)
    → files id ≡ some content
    → Allowed content id e s
    → Whole files e.sending
    → all_left e.sending ≤ n
    → (s' : Sending) × (lookup id (send_run files id e (replicate n (pump_at now)) sent).0.sending
        ≡ some s')
      × (s'.finished ≡ true)
      × (s'.offset ≡ length content)
unfolding send_run send_step
send_run-finished content id files now zero e s sent file o whole most =
    let (finished, size) = idle-finished content id e s o most in (s, o.found, finished, size)
send_run-finished content id files now (suc n) e s sent file o whole most =
    let (s', next) = pump-Allowed content files id e s now file o in
    let (still, less) = pump-all_left files e now n o.keyed whole most in
    send_run-finished content id files now n (pump e files now).0 s'
      (for_id id now (pump e files now).1 ++ sent) file next still less
