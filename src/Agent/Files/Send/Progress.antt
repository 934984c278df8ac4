-- ===== src/Agent/Files/Send/Progress.antt =====
-- One chunk of a file on its way out: the chunks sent hold the file's bytes up to the offset.
use nebula_desk.Prelude.{
  ℕ, ◌<◌, ◌≡◌, ◌≢◌, inl, inr, refl, sym, ap, ◌∙◌, subst, List, [], ◌∷◌, ◌++◌, length, take, drop,
  ltb, ◌==◌, true, false, Option, none, some, arith, Bool-cases, All,
}
use nebula_desk.Prelude.Maps.{
  Map, lookup, Keyed, insert-Keyed, erase-Keyed, lookup-insert_self, lookup-insert_ne,
  lookup-erase_ne,
}
use nebula_desk.Proto.Transfer.{FileChunkHeader}
use nebula_desk.Agent.Files.{Action, Sending, FileTransfers, FileError, io_failed, shrank}
use nebula_desk.Agent.Files.Receive.Content.{IsPart}
use nebula_desk.Agent.Files.Receive.Run.{Chunk, IsChunk, Covered}
use nebula_desk.Agent.Files.Send.{
  wants, first_wanting, given_up, sent_chunk, pump_file, pump_one, for_id,
}
use nebula_desk.Agent.Files.Send.Window.{Sound, Pumped, advanced, amount, pump_one-Pumped}

-- What was sent of a transfer is its file up to the offset, and within the window.
pub record Progress (content : List ℕ) (s : Sending) (sent : List Chunk) : Type 0 where
  pub sound : Sound content s
  pub begun : s.finished ≡ true → 0 < length sent
  pub covered : (x : ℕ) → x < s.offset → Covered x sent
  pub granted : (x : ℕ) → Covered x sent → x < s.allowed

pub record Sent (content : List ℕ) (id : ℕ) (e : FileTransfers) (sent : List Chunk) : Type 0 where
  pub keyed : Keyed e.sending
  pub parts : All (IsChunk content id) sent
  pub progress : (s : Sending) → lookup id e.sending ≡ some s → Progress content s sent

pub some-injective : {s t : Sending} → some s ≡ some t → s ≡ t
some-injective h = cc

pub absurd_some : {s : Sending} → none ≡ some s → ⊥
absurd_some h = cc

pub first_wanting_found :
    (m : Map Sending) (id : ℕ) (s : Sending)
    → Keyed m
    → first_wanting m ≡ some (id, s)
    → (lookup id m ≡ some s) × (wants s ≡ true)
unfolding first_wanting lookup
first_wanting_found [] id s keyed h = cc
first_wanting_found ((j, t) ∷ m) id s keyed h = elim (Bool-cases (wants t)) [
  | inl first ↦
      let found : ◌≡◌ {A = Option (ℕ × Sending)} (some (j, t)) (some (id, s)) =
        sym (rw (first, first_wanting) refl) ∙ h in
      let key : j ≡ id = cc in
      let value : t ≡ s = cc in
      let here : j == id ≡ true = ground arith in
      ((rw (here, lookup) (ap some value)), subst (λ u. wants u ≡ true) value first)
  | inr later ↦
      let found : first_wanting m ≡ some (id, s) = sym (rw (later, first_wanting) refl) ∙ h in
      let rest = first_wanting_found m id s keyed.1 found in
      let apart : j ≢ id =
        λ e. absurd_some (sym (subst (λ i. lookup i m ≡ none) e keyed.0) ∙ rest.0) in
      let other : j == id ≡ false = ground arith in ((rw (other, lookup) rest.0), rest.1)
]

-- Another transfer's chunk leaves the transfer `id` as it is.
abbrev Others : ℕ → ℕ → FileTransfers → FileTransfers × Option Action → Type 0
Others id now e r =
    (lookup id r.0.sending ≡ lookup id e.sending) × (for_id id now r.1 ≡ []) × Keyed r.0.sending

sent_chunk-Others :
    (e : FileTransfers) (id j : ℕ) (s : Sending) (offset : ℕ) (bytes : List ℕ) (now : ℕ)
    → j ≢ id
    → Keyed e.sending
    → Others id now e (sent_chunk e j s (record { transfer_id = j; offset = offset }) bytes)
unfolding sent_chunk for_id
sent_chunk-Others e id j s offset bytes now ne keyed =
    let other : j == id ≡ false = ground arith in
    (lookup-insert_ne j id s e.sending ne, rw other refl, insert-Keyed j s e.sending keyed)

given_up-Others :
    (e : FileTransfers) (id j : ℕ) (s : Sending) (error : FileError) (now : ℕ)
    → j ≢ id
    → Keyed e.sending
    → Others id now e (given_up e j s error, none)
unfolding given_up for_id
given_up-Others e id j s error now ne keyed =
    (lookup-erase_ne j id e.sending ne, refl, erase-Keyed j e.sending keyed)

pump_file-Others :
    (e : FileTransfers) (id j : ℕ) (s : Sending) (file : Option (List ℕ)) (now : ℕ)
    → j ≢ id
    → Keyed e.sending
    → Others id now e (pump_file e j s file now)
unfolding pump_file
pump_file-Others e id j s none now ne keyed = given_up-Others e id j s io_failed now ne keyed
pump_file-Others e id j s (some content) now ne keyed =
    let bytes = take (amount s) (drop s.offset content) in
    elim (Bool-cases (length bytes == 0)) [
      | inl short ↦ rw (short, pump_file) (given_up-Others e id j s shrank now ne keyed)
      | inr some_left ↦
          rw (some_left, pump_file)
            (sent_chunk-Others e id j (advanced s (length bytes) now) s.offset bytes now ne keyed)
    ]

pub pump_one-Others :
    (e : FileTransfers) (id j : ℕ) (s : Sending) (file : Option (List ℕ)) (now : ℕ)
    → j ≢ id
    → Keyed e.sending
    → Others id now e (pump_one e j s file now)
unfolding pump_one
pump_one-Others e id j s file now ne keyed = elim (Bool-cases (s.size == 0)) [
  | inl empty ↦
      rw (empty, pump_one)
        (sent_chunk-Others e id j (record s { finished = true; last_progress = now }) 0 [] now ne
          keyed)
  | inr full ↦ rw (full, pump_one) (pump_file-Others e id j s file now ne keyed)
]

advanced-Progress :
    (content : List ℕ) (s : Sending) (sent : List Chunk) (id : ℕ) (bytes : List ℕ) (now : ℕ)
    → Progress content s sent
    → wants s ≡ true
    → IsPart content s.offset bytes
    → length bytes ≡ amount s
    → Progress content
        (advanced s (length bytes) now)
        ((record { transfer_id = id; offset = s.offset }, bytes, now) ∷ sent)
unfolding wants
advanced-Progress content s sent id bytes now p w part size =
    let sound = p.sound in
    let announced = sound.size in
    let within = sound.within in
    let whole = part.within in
    let room : s.offset < s.allowed = ground arith in
    record {
      sound = record {
        size = sound.size;
        within = omega arith;
        pending = λ unfinished. inl (ground arith);
        over = λ finished. ground arith;
      };
      begun = λ finished. omega arith;
      covered = λ x h. elim (Bool-cases (ltb x s.offset)) [
        | inl before ↦ inr (p.covered x (ground arith))
        | inr from ↦ inl (ground arith, h)
      ];
      granted = λ x c. elim c [
        | inl here ↦ let hi = here.1 in omega arith
        | inr earlier ↦ p.granted x earlier
      ];
    }

own-Sent :
    (content : List ℕ) (id : ℕ) (e : FileTransfers) (s : Sending) (sent : List Chunk) (now : ℕ)
    (r : FileTransfers × Option Action)
    → Sent content id e sent
    → lookup id e.sending ≡ some s
    → wants s ≡ true
    → Pumped content id s now e r
    → Sent content id r.0 (for_id id now r.1 ++ sent)
unfolding for_id
own-Sent content id e s sent now r known found w pumped =
    let header : FileChunkHeader = record { transfer_id = id; offset = s.offset } in
    let s' = advanced s (length pumped.bytes) now in
    let same : id == id ≡ true = ground arith in
    let out : for_id id now r.1 ++ sent ≡ (header, pumped.bytes, now) ∷ sent =
      rw (pumped.sent, same) refl in
    let p =
      advanced-Progress content s sent id pumped.bytes now (known.progress s found) w pumped.part
        pumped.size in
    let stored : lookup id r.0.sending ≡ some s' =
      ap (lookup id) pumped.sending ∙ lookup-insert_self id s' e.sending in
    subst (Sent content id r.0) (sym out) (record {
      keyed = subst Keyed (sym pumped.sending) (insert-Keyed id s' e.sending known.keyed);
      parts = ((refl, pumped.part), known.parts);
      progress = λ t h.
          let same_transfer : s' ≡ t = some-injective (sym stored ∙ h) in
          subst (λ u. Progress content u ((header, pumped.bytes, now) ∷ sent)) same_transfer p;
    })

-- A step that leaves the transfer `id` alone.
pub others-Sent :
    (content : List ℕ) (id : ℕ) (e e' : FileTransfers) (sent : List Chunk)
    → Sent content id e sent
    → lookup id e'.sending ≡ lookup id e.sending
    → Keyed e'.sending
    → Sent content id e' sent
others-Sent content id e e' sent known same keyed = record {
  keyed = keyed;
  parts = known.parts;
  progress = λ s h. known.progress s (sym same ∙ h);
}

pub pump_one-Sent :
    (content : List ℕ) (files : ℕ → Option (List ℕ)) (id j : ℕ) (e : FileTransfers) (s : Sending)
    (sent : List Chunk) (now : ℕ)
    → files id ≡ some content
    → Sent content id e sent
    → lookup j e.sending ≡ some s
    → wants s ≡ true
    → Sent content id
        (pump_one e j s (files j) now).0
        (for_id id now (pump_one e j s (files j) now).1 ++ sent)
pump_one-Sent content files id j e s sent now file known found w = elim (Bool-cases (j == id)) [
  | inl same ↦
      let key : j ≡ id = ground arith in
      let found' : lookup id e.sending ≡ some s =
        subst (λ i. lookup i e.sending ≡ some s) key found in
      let sound = (known.progress s found').sound in
      let own =
        own-Sent content id e s sent now (pump_one e id s (some content) now) known found' w
          (pump_one-Pumped e id s content now sound w) in
      let call : pump_one e j s (files j) now ≡ pump_one e id s (some content) now =
        ap (λ i. pump_one e i s (files i) now) key ∙ ap (λ f. pump_one e id s f now) file in
      subst (λ r. Sent content id r.0 (for_id id now r.1 ++ sent)) (sym call) own
  | inr other ↦
      let o = pump_one-Others e id j s (files j) now (λ key. ground arith) known.keyed in
      subst (λ l. Sent content id (pump_one e j s (files j) now).0 (l ++ sent)) (sym o.1)
        (others-Sent content id e (pump_one e j s (files j) now).0 sent known o.0 o.2)
]
