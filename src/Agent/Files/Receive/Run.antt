-- ===== src/Agent/Files/Receive/Run.antt =====
-- The run of all chunks of a file, from the offer on.
use nebula_desk.Prelude.{
  ℕ, ◌+◌, ◌≤◌, ◌<◌, ◌≡◌, ◌⊎◌, inl, inr, refl, sym, ap, ◌∙◌, subst, List, [], ◌∷◌, length, Bool,
  true, false, Option, none, some, arith, All, Bool-cases, zero, suc,
}
use nebula_desk.Prelude.Maps.{Map, lookup, lookup-insert_self}
use nebula_desk.Proto.Transfer.{FileChunkHeader}
use nebula_desk.Agent.Files.Ranges
use nebula_desk.Agent.Files.Ranges.Merged.{In, complete-In}
use nebula_desk.Agent.Files.{
  Name, Offer, Action, too_many_names, transferring, noted, receiving_update, Receiving,
  FileTransfers, max_file,
}
use nebula_desk.Agent.Files.Disk.{exists, path_available, numbered_name, free_number, free_path}
use nebula_desk.Agent.Files.Send.{Result, ok, err}
use nebula_desk.Agent.Files.Receive.Published.{Ensures}
use nebula_desk.Agent.Files.Receive.{
  Closing, free_name, begun, accept_offer, on_offer, taken, on_chunk, receive_all,
}
use nebula_desk.Agent.Files.Receive.Content.{IsPart, taken-Agrees, In-taken}
use nebula_desk.Agent.Files.Receive.Delivery.{
  Smooth, Awaiting, Delivered, Next, on_chunk_fits, settle-Next,
}

abbrev pub Chunk : Type 0
Chunk = FileChunkHeader × List ℕ × ℕ

-- A chunk of this transfer, with the sender's bytes.
abbrev pub IsChunk : List ℕ → ℕ → Chunk → Type 0
IsChunk content id (header, bytes, now) =
    (header.transfer_id ≡ id) × IsPart content header.offset bytes

-- The byte at `x` is in one of the chunks.
abbrev pub Covered : ℕ → List Chunk → Type 0
Covered x [] = ⊥
Covered x ((header, bytes, now) ∷ chunks) =
    ((header.offset ≤ x) × (x < header.offset + length bytes)) ⊎ Covered x chunks

module _ (hash : List ℕ → List ℕ) (content : List ℕ) (path : Name) (disk : List (Name × List ℕ))
    (id : ℕ) (closing : Closing) (smooth : Smooth closing) (new : exists path disk ≡ false)
    (small : length content ≤ max_file) where
  on_chunk-Next :
      (e : FileTransfers) (r : Receiving) (header : FileChunkHeader) (bytes : List ℕ) (now : ℕ)
      → Awaiting hash content path disk id e r
      → IsChunk content id (header, bytes, now)
      → Next hash content path disk id r header.offset bytes
          (on_chunk hash e header bytes true closing now).0
  unfolding taken
  on_chunk-Next e r header bytes now w chunk =
      let part = chunk.1 in
      let r' : Receiving = taken r header.offset (header.offset + length bytes) bytes now in
      let e' : FileTransfers = noted e (receiving_update r' header.transfer_id transferring none) in
      let within = part.within in
      let announced = w.agrees.size in
      let found : lookup header.transfer_id e.receiving ≡ some r =
        ap (λ i. lookup i e.receiving) chunk.0 ∙ w.found in
      let step =
        on_chunk_fits hash e header bytes closing now r found (omega arith) (omega arith) in
      let next =
        settle-Next hash content path disk header.transfer_id e' r r' header.offset bytes closing
          smooth new w.same_disk (taken-Agrees content r header.offset bytes now w.agrees part)
          w.expected w.final (In-taken content r header.offset bytes now w.agrees) in
      subst
        (λ i.
          Next hash content path disk i r header.offset bytes
            (on_chunk hash e header bytes true closing now).0)
        chunk.0
        (subst (λ s. Next hash content path disk header.transfer_id r header.offset bytes s.0)
          (sym step) next)

  over-Delivered :
      (e : FileTransfers) (chunks : List Chunk)
      → Delivered content path disk id e
      → All (IsChunk content id) chunks
      → Delivered content path disk id (receive_all hash closing e chunks)
  unfolding receive_all on_chunk
  over-Delivered e [] d all = d
  over-Delivered e ((header, bytes, now) ∷ chunks) d all =
      let missing : lookup header.transfer_id e.receiving ≡ none =
        ap (λ i. lookup i e.receiving) all.0.0 ∙ d.over in
      let same : (on_chunk hash e header bytes true closing now).0 ≡ e =
        rw (missing, on_chunk) refl in
      subst (λ f. Delivered content path disk id (receive_all hash closing f chunks)) (sym same)
        (over-Delivered e chunks d all.1)

  -- After one chunk: `rest` handles a transfer that still waits.
  after-Delivered :
      (e : FileTransfers) (r : Receiving) (header : FileChunkHeader) (bytes : List ℕ) (now : ℕ)
      (chunks : List Chunk)
      → Next hash content path disk id r header.offset bytes
          (on_chunk hash e header bytes true closing now).0
      → All (IsChunk content id) chunks
      → ((x : ℕ) → x < length content → In x r.have ⊎ Covered x ((header, bytes, now) ∷ chunks))
      → ((r' : Receiving)
          → Awaiting hash content path disk id (on_chunk hash e header bytes true closing now).0 r'
          → Ranges.complete r'.have r'.size ≡ false
          → ((x : ℕ) → x < length content → In x r'.have ⊎ Covered x chunks)
          → Delivered content path disk id
              (receive_all hash closing (on_chunk hash e header bytes true closing now).0 chunks))
      → Delivered content path disk id
          (receive_all hash closing (on_chunk hash e header bytes true closing now).0 chunks)
  after-Delivered e r header bytes now chunks (inl (r', w, waiting, grown)) all cover rest =
      rest r' w waiting λ x h. elim (cover x h) [
        | inl held ↦ inl (grown x (inl held))
        | inr covered ↦ elim covered [ inl here ↦ inl (grown x (inr here)) | inr later ↦ inr later ]
      ]
  after-Delivered e r header bytes now chunks (inr d) all cover rest =
      over-Delivered (on_chunk hash e header bytes true closing now).0 chunks d all

  waiting-Delivered :
      (e : FileTransfers) (r : Receiving) (chunks : List Chunk)
      → Awaiting hash content path disk id e r
      → Ranges.complete r.have r.size ≡ false
      → All (IsChunk content id) chunks
      → ((x : ℕ) → x < length content → In x r.have ⊎ Covered x chunks)
      → Delivered content path disk id (receive_all hash closing e chunks)
  unfolding receive_all
  waiting-Delivered e r [] w waiting all cover =
      let announced = w.agrees.size in
      let done : Ranges.complete r.have r.size ≡ true =
        (complete-In r.have r.size w.agrees.merged).1
          λ x h. elim (cover x (omega arith)) [ inl held ↦ held | inr gone ↦ absurd gone ] in
      absurd (ground arith)
  waiting-Delivered e r ((header, bytes, now) ∷ chunks) w waiting all cover =
      after-Delivered e r header bytes now chunks (on_chunk-Next e r header bytes now w all.0) all.1
        cover
        (λ r' w' waiting' cover'.
          waiting-Delivered (on_chunk hash e header bytes true closing now).0 r' chunks w' waiting'
            all.1 cover')

  -- When the chunks of a file, in any order and with any repetitions, hold all its bytes, the file is
  -- delivered.
  pub receive_all-Delivered :
      (e : FileTransfers) (r : Receiving) (chunk : Chunk) (chunks : List Chunk)
      → Awaiting hash content path disk id e r
      → All (IsChunk content id) (chunk ∷ chunks)
      → ((x : ℕ) → x < length content → Covered x (chunk ∷ chunks))
      → Delivered content path disk id (receive_all hash closing e (chunk ∷ chunks))
  unfolding receive_all
  receive_all-Delivered e r (header, bytes, now) chunks w all cover =
      after-Delivered e r header bytes now chunks (on_chunk-Next e r header bytes now w all.0) all.1
        (λ x h. inr (cover x h))
        (λ r' w' waiting cover'.
          waiting-Delivered (on_chunk hash e header bytes true closing now).0 r' chunks w' waiting
            all.1 cover')

abbrev pub Fresh : List (Name × List ℕ) → Option Name → Type 0
Fresh disk none = Unit
Fresh disk (some name) = exists name disk ≡ false

available_exists :
    (disk : List (Name × List ℕ)) (receiving : Map Receiving) (name : Name)
    → path_available disk receiving name ≡ true
    → exists name disk ≡ false
unfolding path_available
available_exists disk receiving name h = ground arith

-- `free_path` gives a name that the directory does not have.
free_number-Fresh :
    (rounds : ℕ) (disk : List (Name × List ℕ)) (receiving : Map Receiving) (name : Name) (n : ℕ)
    → Fresh disk (free_number rounds disk receiving name n)
unfolding free_number path_available
free_number-Fresh zero disk receiving name n = tt
free_number-Fresh (suc rounds) disk receiving name n =
    let rest = free_number-Fresh rounds disk receiving name (n + 1) in
    elim (Bool-cases (path_available disk receiving (numbered_name name n))) [
      | inl available ↦
          rw available (available_exists disk receiving (numbered_name name n) available)
      | inr used ↦ rw used rest
    ]

free_path-Fresh :
    (disk : List (Name × List ℕ)) (receiving : Map Receiving) (name : Name)
    → Fresh disk (free_path disk receiving name)
unfolding free_path
free_path-Fresh disk receiving name = elim (Bool-cases (path_available disk receiving name)) [
  | inl available ↦ rw (available, free_path) (available_exists disk receiving name available)
  | inr used ↦ rw (used, free_path) (free_number-Fresh 998 disk receiving name 2)
]

free_name-Fresh :
    (e : FileTransfers) (dir_ok : Bool) (name : Name)
    → Ensures (λ n. exists n e.disk ≡ false) (free_name e dir_ok name)
unfolding free_name
free_name-Fresh e dir_ok name = elim (Bool-cases dir_ok) [
  | inl dir ↦
      rw dir (found (free_path e.disk e.receiving name) (free_path-Fresh e.disk e.receiving name))
  | inr missing ↦ rw missing tt
]
  where
    found :
        (n : Option Name)
        → Fresh e.disk n
        → Ensures
            (λ n. exists n e.disk ≡ false)
            (elim n as (λ _. Result Name) [ none ↦ err too_many_names | some n ↦ ok n ])
    found none h = tt
    found (some n) h = h

-- An offer was accepted: the transfer of the offered file waits under a new name.
abbrev pub Begun :
    (List ℕ → List ℕ) → List ℕ → FileTransfers → Offer → FileTransfers × Option Action → Type 0
Begun hash content e offer after =
    (r : Receiving) × Awaiting hash content r.final_path e.disk offer.transfer_id after.0 r
    × (exists r.final_path e.disk ≡ false)

accept_offer-Begun :
    (hash : List ℕ → List ℕ) (content : List ℕ) (e : FileTransfers) (offer : Offer) (opens : Bool)
    (now : ℕ) (name : Result Name)
    → Ensures (λ n. exists n e.disk ≡ false) name
    → offer.size ≡ length content
    → offer.blake3 ≡ hash content
    → (a : Action) → (accept_offer e offer opens now name).1 ≡ some a
    → Begun hash content e offer (accept_offer e offer opens now name)
unfolding accept_offer
accept_offer-Begun hash content e offer opens now (err error) fresh size hashed a h = cc
accept_offer-Begun hash content e offer false now (ok final_path) fresh size hashed a h = cc
accept_offer-Begun hash content e offer true now (ok final_path) fresh size hashed a h =
    let r = begun offer final_path now in
    (
      r,
      record {
        found = lookup-insert_self offer.transfer_id r e.receiving;
        agrees = record {
          size = size;
          merged = tt;
          within = λ x i. absurd i;
          bytes = λ x i. absurd i;
          fits = omega arith;
        };
        expected = hashed;
        final = refl;
        same_disk = refl;
      },
      fresh,
    )

pub on_offer-Begun :
    (hash : List ℕ → List ℕ) (content : List ℕ) (e : FileTransfers) (offer : Offer)
    (dir_ok opens : Bool) (now : ℕ)
    → offer.size ≡ length content
    → offer.blake3 ≡ hash content
    → (a : Action) → (on_offer e offer dir_ok opens now).1 ≡ some a
    → Begun hash content e offer (on_offer e offer dir_ok opens now)
unfolding on_offer
on_offer-Begun hash content e offer dir_ok opens now size hashed a h =
    let accepted : on_offer e offer dir_ok opens now
        ≡ accept_offer e offer opens now (free_name e dir_ok offer.name) =
      ground arith in
    subst (Begun hash content e offer) (sym accepted) (
      accept_offer-Begun hash content e offer opens now (free_name e dir_ok offer.name)
        (free_name-Fresh e dir_ok offer.name) size hashed a (ap (λ x. x.1) (sym accepted) ∙ h))
