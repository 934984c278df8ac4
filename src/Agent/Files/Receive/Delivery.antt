-- ===== src/Agent/Files/Receive/Delivery.antt =====
-- The delivery of a whole file: chunks in any order, with repetitions, until every byte is there.
use nebula_desk.Prelude.{
  ℕ, ◌+◌, ◌-◌, ◌^◌, ◌≤◌, ◌<◌, ◌≡◌, ◌⊎◌, inl, inr, refl, sym, ap, ◌∙◌, subst, min, List, ◌∷◌, length,
  ltb, Bool, true, false, none, some, arith, Bool-cases, suc, not,
}
use nebula_desk.Prelude.Bytes.{same_bytes, same_bytes_refl}
use nebula_desk.Prelude.Maps.{lookup, insert, erase, lookup-insert_self, lookup-erase_self}
use nebula_desk.Proto.Transfer.{FileChunkHeader}
use nebula_desk.Agent.Files.Ranges
use nebula_desk.Agent.Files.Ranges.Merged.{In}
use nebula_desk.Agent.Files.{
  Name, FileError, io_failed, damaged, transferring, Action, ack, window, noted, receiving_update,
  Receiving, FileTransfers, max_file,
}
use nebula_desk.Agent.Files.Disk.{exists}
use nebula_desk.Agent.Files.Send.{Result, ok, ◌>>◌, refuse}
use nebula_desk.Agent.Files.Receive.{
  Closing, Attempt, free, attempted, publish, verify, concluded, finish, is_due, acked_now, settle,
  taken, on_chunk,
}
use nebula_desk.Agent.Files.Receive.Content.{Agrees, complete-Agrees}
use nebula_desk.Agent.Files.Receive.Published.{replied_state}

-- No system call of the publication fails, and nobody else takes the name.
pub record Smooth (closing : Closing) : Type 0 where
  pub synced : closing.synced ≡ true
  pub readable : closing.readable ≡ true
  pub first : closing.attempt 0 ≡ free

attempted_free :
    {A : Type 0} (attempt : Attempt) (used : Bool) (again : Result A) (published : A)
    → attempt ≡ free
    → used ≡ false
    → attempted attempt used again published ≡ ok published
attempted_free attempt used again published first new = rw (first, new) refl

publish-Smooth :
    (rounds : ℕ) (e : FileTransfers) (r : Receiving) (closing : Closing)
    → closing.attempt 0 ≡ free
    → exists r.final_path e.disk ≡ false
    → publish (suc rounds) e r closing 0 r.final_path
      ≡ ok (r.final_path, (r.final_path, r.file) ∷ e.disk)
unfolding publish
publish-Smooth rounds e r closing first new =
    attempted_free (closing.attempt 0) (exists r.final_path e.disk) _ _ first new

refuse-false :
    {A : Type 0} (b : Bool) (error : FileError) (m : Result A) → b ≡ false → refuse b error >> m ≡ m
refuse-false b error m h = rw h refl

verify-Smooth :
    (hash : List ℕ → List ℕ) (e : FileTransfers) (r : Receiving) (closing : Closing)
    → Smooth closing
    → exists r.final_path e.disk ≡ false
    → hash r.file ≡ r.expected
    → verify hash e r closing ≡ ok (r.final_path, (r.final_path, r.file) ∷ e.disk)
unfolding verify
verify-Smooth hash e r closing smooth new same =
    let equal : same_bytes (hash r.file) r.expected ≡ true =
      ap (λ h. same_bytes h r.expected) same ∙ same_bytes_refl r.expected in
    refuse-false (not closing.synced) io_failed _ (ap not smooth.synced)
    ∙ refuse-false (not closing.readable) io_failed _ (ap not smooth.readable)
    ∙ refuse-false (not (same_bytes (hash r.file) r.expected)) damaged _ (ap not equal)
    ∙ publish-Smooth 999 e r closing smooth.first new

-- A transfer under way, of which all that has arrived is the sender's.
pub record Awaiting (hash : List ℕ → List ℕ) (content : List ℕ) (path : Name)
    (disk : List (Name × List ℕ)) (id : ℕ) (e : FileTransfers) (r : Receiving) : Type 0 where
  pub found : lookup id e.receiving ≡ some r
  pub agrees : Agrees content r
  pub expected : r.expected ≡ hash content
  pub final : r.final_path ≡ path
  pub same_disk : e.disk ≡ disk

-- The file is there under its name, and the transfer is over.
pub record Delivered (content : List ℕ) (path : Name) (disk : List (Name × List ℕ)) (id : ℕ)
    (e : FileTransfers) : Type 0 where
  pub over : lookup id e.receiving ≡ none
  pub published : e.disk ≡ (path, content) ∷ disk

finish-Delivered :
    (hash : List ℕ → List ℕ) (content : List ℕ) (path : Name) (disk : List (Name × List ℕ)) (id : ℕ)
    (e : FileTransfers) (r : Receiving) (closing : Closing)
    → Awaiting hash content path disk id e r
    → Smooth closing
    → exists path disk ≡ false
    → Ranges.complete r.have r.size ≡ true
    → Delivered content path disk id (finish hash e id closing).0
unfolding finish concluded
finish-Delivered hash content path disk id e r closing w smooth new done =
    let e' : FileTransfers = record e { receiving = erase id e.receiving } in
    let whole : r.file ≡ content = complete-Agrees content r w.agrees done in
    let fresh : exists r.final_path e.disk ≡ false =
      subst (λ p. exists p e.disk ≡ false) (sym w.final)
        (subst (λ d. exists path d ≡ false) (sym w.same_disk) new) in
    let hashed : hash r.file ≡ r.expected = ap hash whole ∙ sym w.expected in
    let verified = verify-Smooth hash e' r closing smooth fresh hashed in
    let stored : (finish hash e id closing).0.disk ≡ (r.final_path, r.file) ∷ e.disk =
      rw (w.found, finish, verified) refl in
    let over : (finish hash e id closing).0.receiving ≡ erase id e.receiving =
      rw (w.found, finish, verified) refl in
    record {
      over = rw over (lookup-erase_self id e.receiving);
      published = stored ∙ (rw (w.final, whole, w.same_disk) refl);
    }

acked_now-fields :
    (r : Receiving)
    → ((acked_now r).have ≡ r.have)
      × ((acked_now r).size ≡ r.size)
      × ((acked_now r).file ≡ r.file)
      × ((acked_now r).expected ≡ r.expected)
      × ((acked_now r).final_path ≡ r.final_path)
unfolding acked_now
acked_now-fields r = elim (Bool-cases (is_due r)) [
  | inl due ↦ rw due (refl, refl, refl, refl, refl)
  | inr early ↦ rw early (refl, refl, refl, refl, refl)
]

acked_now-Agrees :
    (content : List ℕ) (r : Receiving) → Agrees content r → Agrees content (acked_now r)
unfolding acked_now
acked_now-Agrees content r a = elim (Bool-cases (is_due r)) [
  | inl due ↦ rw due (record {
    size = a.size;
    merged = a.merged;
    within = a.within;
    bytes = a.bytes;
    fits = a.fits;
  })
  | inr early ↦ rw early a
]

-- A chunk of the sender's that arrives in time leads to the end of `on_chunk`.
pub on_chunk_fits :
    (hash : List ℕ → List ℕ) (e : FileTransfers) (header : FileChunkHeader) (bytes : List ℕ)
    (closing : Closing) (now : ℕ) (r : Receiving)
    → lookup header.transfer_id e.receiving ≡ some r
    → header.offset + length bytes ≤ r.size
    → r.size ≤ max_file
    → on_chunk hash e header bytes true closing now ≡ (
        let r' = taken r header.offset (header.offset + length bytes) bytes now in
        settle hash
          (noted e (receiving_update r' header.transfer_id transferring none))
          header.transfer_id
          r'
          closing)
unfolding on_chunk
on_chunk_fits hash e header bytes closing now r found fits small =
    let end : min (header.offset + length bytes) (2 ^ 64 - 1) ≡ header.offset + length bytes =
      omega arith in
    let within : ltb r.size (header.offset + length bytes) ≡ false = ground arith in
    rw (found, on_chunk) (rw (end, within) refl)

-- What a chunk does: the transfer still waits, with the chunk's bytes and those before, or the file is delivered.
abbrev pub Next :
    (List ℕ → List ℕ)
    → List ℕ
    → Name
    → List (Name × List ℕ)
    → ℕ
    → Receiving
    → ℕ
    → List ℕ
    → FileTransfers
    → Type 0
Next hash content path disk id r offset bytes e =
    ((r' : Receiving) × Awaiting hash content path disk id e r'
      × (Ranges.complete r'.have r'.size ≡ false)
      × ((x : ℕ) → In x r.have ⊎ ((offset ≤ x) × (x < offset + length bytes)) → In x r'.have))
    ⊎ Delivered content path disk id e

pub settle-Next :
    (hash : List ℕ → List ℕ) (content : List ℕ) (path : Name) (disk : List (Name × List ℕ)) (id : ℕ)
    (e : FileTransfers) (r r' : Receiving) (offset : ℕ) (bytes : List ℕ) (closing : Closing)
    → Smooth closing
    → exists path disk ≡ false
    → e.disk ≡ disk
    → Agrees content r'
    → r'.expected ≡ hash content
    → r'.final_path ≡ path
    → ((x : ℕ) → In x r.have ⊎ ((offset ≤ x) × (x < offset + length bytes)) → In x r'.have)
    → Next hash content path disk id r offset bytes (settle hash e id r' closing).0
unfolding settle
settle-Next hash content path disk id e r r' offset bytes closing smooth new kept agrees expected
      final grown =
    let a = acked_now r' in
    let e' : FileTransfers = record e { receiving = insert id a e.receiving } in
    let same = acked_now-fields r' in
    let told : Action =
      ack (record { transfer_id = id; received = Ranges.contiguous r'.have; window = window }) in
    let w : Awaiting hash content path disk id e' a = record {
      found = lookup-insert_self id a e.receiving;
      agrees = acked_now-Agrees content r' agrees;
      expected = same.3 ∙ expected;
      final = same.4 ∙ final;
      same_disk = kept;
    } in
    let as_before : Ranges.complete a.have a.size ≡ Ranges.complete r'.have r'.size =
      rw (same.0, same.1) refl in
    elim (Bool-cases (Ranges.complete r'.have r'.size)) [
      | inl done ↦
          let finished : (settle hash e id r' closing).0 ≡ (finish hash e' id closing).0 =
            rw (done, settle) (replied_state id told (finish hash e' id closing)) in
          inr (
            subst (Delivered content path disk id) (sym finished) (
              finish-Delivered hash content path disk id e' a closing w smooth new
                (as_before ∙ done)))
      | inr waiting ↦
          let left : (settle hash e id r' closing).0 ≡ e' = rw (waiting, settle) refl in
          inl (
            a,
            subst (λ f. Awaiting hash content path disk id f a) (sym left) w,
            as_before ∙ waiting,
            λ x i. subst (In x) (sym same.0) (grown x i),
          )
    ]
