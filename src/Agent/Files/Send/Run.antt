-- ===== src/Agent/Files/Send/Run.antt =====
-- A file on its way out: in every run, the chunks sent hold the file's bytes up to the offset.
use nebula_desk.Prelude.{
  ℕ, ◌-◌, ◌≡◌, ◌⊎◌, inl, inr, refl, sym, ◌∙◌, subst, List, [], ◌∷◌, ◌++◌, leb, ◌==◌, Option, none,
  some, arith, Bool-cases,
}
use nebula_desk.Prelude.Maps.{Map, lookup, Keyed}
use nebula_desk.Agent.Files.{stall_timeout, Sending, FileTransfers}
use nebula_desk.Agent.Files.Receive.Run.{Chunk}
use nebula_desk.Agent.Files.Send.{
  first_wanting, pump, unexpired, expire_sending, SendOp, pump_at, ack_at, expire_at, for_id,
  send_step, send_run,
}
use nebula_desk.Agent.Files.Send.Progress.{Sent, absurd_some, first_wanting_found, pump_one-Sent}
use nebula_desk.Agent.Files.Send.Acked.{on_ack-Sent}

unexpired-none :
    (now : ℕ) (m : Map Sending) (id : ℕ) → lookup id m ≡ none → lookup id (unexpired now m) ≡ none
unfolding unexpired lookup
unexpired-none now [] id h = refl
unexpired-none now ((j, s) ∷ m) id h =
    let rest = unexpired-none now m id (ground arith) in ground arith

unexpired-lookup :
    (now : ℕ) (m : Map Sending) (id : ℕ)
    → Keyed m
    → (lookup id (unexpired now m) ≡ none) ⊎ (lookup id (unexpired now m) ≡ lookup id m)
unfolding unexpired lookup
unexpired-lookup now [] id keyed = inr refl
unexpired-lookup now ((j, s) ∷ m) id keyed =
    let rest = unexpired-lookup now m id keyed.1 in
    elim (Bool-cases (leb stall_timeout (now - s.last_progress))) [
      | inl expired ↦ elim (Bool-cases (j == id)) [
        | inl own ↦
            let key : j ≡ id = ground arith in
            let gone = subst (λ i. lookup i m ≡ none) key keyed.0 in
            inl (rw (expired, unexpired) (unexpired-none now m id gone))
        | inr other ↦ rw (expired, unexpired, other) rest
      ]
      | inr alive ↦ elim (Bool-cases (j == id)) [
        | inl own ↦ inr (rw (alive, unexpired, own) refl)
        | inr other ↦ rw (alive, unexpired, other) rest
      ]
    ]

unexpired-Keyed : (now : ℕ) (m : Map Sending) → Keyed m → Keyed (unexpired now m)
unfolding unexpired
unexpired-Keyed now [] keyed = tt
unexpired-Keyed now ((j, s) ∷ m) keyed =
    elim (Bool-cases (leb stall_timeout (now - s.last_progress))) [
      | inl expired ↦ rw (expired, unexpired) (unexpired-Keyed now m keyed.1)
      | inr alive ↦
          rw (alive, unexpired) (unexpired-none now m j keyed.0, unexpired-Keyed now m keyed.1)
    ]

expire_sending-Sent :
    (content : List ℕ) (id : ℕ) (e : FileTransfers) (sent : List Chunk) (now : ℕ)
    → Sent content id e sent
    → Sent content id (expire_sending e now) sent
unfolding expire_sending
expire_sending-Sent content id e sent now known = record {
  keyed = unexpired-Keyed now e.sending known.keyed;
  parts = known.parts;
  progress = λ s h. elim (unexpired-lookup now e.sending id known.keyed) [
    | inl gone ↦ absurd (absurd_some (sym gone ∙ h))
    | inr same ↦ known.progress s (sym same ∙ h)
  ];
}

pump-Sent :
    (content : List ℕ) (files : ℕ → Option (List ℕ)) (id : ℕ) (e : FileTransfers)
    (sent : List Chunk) (now : ℕ) (ready : Option (ℕ × Sending))
    → first_wanting e.sending ≡ ready
    → files id ≡ some content
    → Sent content id e sent
    → Sent content id (pump e files now).0 (for_id id now (pump e files now).1 ++ sent)
unfolding pump for_id
pump-Sent content files id e sent now none h file known = rw (h, pump) known
pump-Sent content files id e sent now (some (j, s)) h file known =
    let found = first_wanting_found e.sending j s known.keyed h in
    rw (h, pump) (pump_one-Sent content files id j e s sent now file known found.0 found.1)

send_step-Sent :
    (content : List ℕ) (files : ℕ → Option (List ℕ)) (id : ℕ) (e : FileTransfers) (op : SendOp)
    (sent : List Chunk)
    → files id ≡ some content
    → Sent content id e sent
    → Sent content id (send_step files id e op).0 ((send_step files id e op).1 ++ sent)
unfolding send_step
send_step-Sent content files id e (pump_at now) sent file known =
    pump-Sent content files id e sent now (first_wanting e.sending) refl file known
send_step-Sent content files id e (ack_at a now) sent file known =
    on_ack-Sent content id e a sent now (lookup a.transfer_id e.sending) refl known
send_step-Sent content files id e (expire_at now) sent file known =
    expire_sending-Sent content id e sent now known

pub send_run-Sent :
    (content : List ℕ) (files : ℕ → Option (List ℕ)) (id : ℕ) (e : FileTransfers)
    (ops : List SendOp) (sent : List Chunk)
    → files id ≡ some content
    → Sent content id e sent
    → Sent content id (send_run files id e ops sent).0 (send_run files id e ops sent).1
unfolding send_run
send_run-Sent content files id e [] sent file known = known
send_run-Sent content files id e (op ∷ ops) sent file known =
    let next = send_step files id e op in
    send_run-Sent content files id next.0 ops (next.1 ++ sent) file
      (send_step-Sent content files id e op sent file known)
