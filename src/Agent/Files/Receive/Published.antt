-- ===== src/Agent/Files/Receive/Published.antt =====
-- What an arriving file may do to the download directory.
use nebula_desk.Prelude.{
  ℕ, zero, suc, ◌+◌, ◌≡◌, ◌⊎◌, inl, inr, refl, sym, subst, List, ◌∷◌, Bool, true, false, not, ◌-◌,
  ◌^◌, min, length, ltb, none, some, arith, Bool-cases,
}
use nebula_desk.Proto.Transfer.{FileChunkHeader}
use nebula_desk.Prelude.Bytes.{same_bytes, same_bytes-≡}
use nebula_desk.Prelude.Maps.{lookup, insert, erase, lookup-insert_self}
use nebula_desk.Agent.Files.Ranges
use nebula_desk.Agent.Files.{
  Name, FileError, io_failed, damaged, overran, transferring, Action, ack, window, noted,
  receiving_update, Receiving, FileTransfers,
}
use nebula_desk.Agent.Files.Disk.{exists}
use nebula_desk.Agent.Files.Send.{Result, ok, err, ◌>>=◌, ◌>>◌, refuse}
use nebula_desk.Agent.Files.Receive.{
  Closing, Attempt, free, raced, broken, free_name, attempted, publish, verify, concluded, finish,
  replied, is_due, acked_now, settle, taken, fail_receive, on_chunk,
}

abbrev pub Ensures {ℓ κ} : {A : Type ℓ} → (A → Type κ) → Result A → Type κ
Ensures P (ok a) = P a
Ensures P (err error) = Unit

pub Ensures-bind {ℓ κ} :
    {A : Type ℓ} {B : Type ℓ} (P : B → Type κ) (m : Result A) (f : A → Result B)
    → ((a : A) → Ensures P (f a))
    → Ensures P (m >>= f)
Ensures-bind P (ok a) f h = h a
Ensures-bind P (err error) f h = tt

pub Ensures-refuse {κ} :
    {B : Type 0} (P : B → Type κ) (b : Bool) (error : FileError) (rest : Result B)
    → (b ≡ false → Ensures P rest)
    → Ensures P (refuse b error >> rest)
Ensures-refuse P true error rest h = tt
Ensures-refuse P false error rest h = h refl

Ensures-map {ℓ κ} :
    {A : Type ℓ} (P Q : A → Type κ) (m : Result A)
    → ((a : A) → P a → Q a)
    → Ensures P m
    → Ensures Q m
Ensures-map P Q (ok a) f h = f a h
Ensures-map P Q (err error) f h = tt

Ensures-attempted {ℓ κ} :
    {A : Type ℓ} (P : A → Type κ) (attempt : Attempt) (taken : Bool) (again : Result A)
    (published : A)
    → Ensures P again
    → (taken ≡ false → P published)
    → Ensures P (attempted attempt taken again published)
Ensures-attempted P broken taken again published h k = tt
Ensures-attempted P raced taken again published h k = h
Ensures-attempted P free true again published h k = h
Ensures-attempted P free false again published h k = k refl

-- What is published is a new name, with the staging file's content.
abbrev pub IsFresh : FileTransfers → Receiving → Name × List (Name × List ℕ) → Type 0
IsFresh e r p = (exists p.0 e.disk ≡ false) × (p.1 ≡ (p.0, r.file) ∷ e.disk)

publish-IsFresh :
    (rounds : ℕ) (e : FileTransfers) (r : Receiving) (closing : Closing) (n : ℕ)
    (destination : Name)
    → Ensures (IsFresh e r) (publish rounds e r closing n destination)
unfolding publish
publish-IsFresh zero e r closing n destination = tt
publish-IsFresh (suc rounds) e r closing n destination =
    let again =
      Ensures-bind (IsFresh e r) (free_name e closing.dir_ok r.final_path)
        (λ next. publish rounds e r closing (n + 1) next)
        (λ next. publish-IsFresh rounds e r closing (n + 1) next) in
    Ensures-attempted (IsFresh e r) (closing.attempt n) (exists destination e.disk) _ _ again
      (λ new. (new, refl))

pub verify-IsFresh :
    (hash : List ℕ → List ℕ) (e : FileTransfers) (r : Receiving) (closing : Closing)
    → Ensures (λ p. (hash r.file ≡ r.expected) × IsFresh e r p) (verify hash e r closing)
unfolding verify
verify-IsFresh hash e r closing =
    let P : Name × List (Name × List ℕ) → Type 0 =
      λ p. (hash r.file ≡ r.expected) × IsFresh e r p in
    Ensures-refuse P (not closing.synced) io_failed _ λ a.
      Ensures-refuse P (not closing.readable) io_failed _ λ b.
        Ensures-refuse P (not (same_bytes (hash r.file) r.expected)) damaged _ λ c.
          Ensures-map (IsFresh e r) P (publish 1000 e r closing 0 r.final_path)
            (λ p fresh. (same_bytes-≡ (hash r.file) r.expected (ground arith), fresh))
            (publish-IsFresh 1000 e r closing 0 r.final_path)

-- The directory is as before, or has one new name, with a file of the announced hash.
abbrev pub Stored :
    (List ℕ → List ℕ) → List ℕ → List (Name × List ℕ) → List (Name × List ℕ) → Type 0
Stored hash expected before after =
    (after ≡ before)
    ⊎ ((name : Name) × (file : List ℕ) × (exists name before ≡ false)
        × (after ≡ (name, file) ∷ before)
        × (hash file ≡ expected))

concluded-Stored :
    (hash : List ℕ → List ℕ) (e : FileTransfers) (id : ℕ) (r : Receiving)
    (v : Result (Name × List (Name × List ℕ)))
    → Ensures (λ p. (hash r.file ≡ r.expected) × IsFresh e r p) v
    → Stored hash r.expected e.disk (concluded e id r v).0.disk
unfolding concluded
concluded-Stored hash e id r (err error) h = inl refl
concluded-Stored hash e id r (ok (name, disk)) h = inr (name, r.file, h.1.0, h.1.1, h.0)

finish-Stored :
    (hash : List ℕ → List ℕ) (e : FileTransfers) (id : ℕ) (closing : Closing) (r : Receiving)
    → lookup id e.receiving ≡ some r
    → Stored hash r.expected e.disk (finish hash e id closing).0.disk
unfolding finish
finish-Stored hash e id closing r found =
    let e' = record e { receiving = erase id e.receiving } in
    rw (found, finish) (concluded-Stored hash e' id r _ (verify-IsFresh hash e' r closing))

pub replied_state :
    (id : ℕ) (told : Action) (r : FileTransfers × Result Name) → (replied id told r).0 ≡ r.0
unfolding replied
replied_state id told (e, ok name) = refl
replied_state id told (e, err error) = refl

fail_receive_disk :
    (e : FileTransfers) (id : ℕ) (error : FileError) → (fail_receive e id error).disk ≡ e.disk
unfolding fail_receive
fail_receive_disk e id error = ground arith

acked_now_expected : (r : Receiving) → (acked_now r).expected ≡ r.expected
unfolding acked_now
acked_now_expected r = elim (Bool-cases (is_due r)) [
  | inl due ↦ rw due refl
  | inr early ↦ rw early refl
]

settle-Stored :
    (hash : List ℕ → List ℕ) (e : FileTransfers) (id : ℕ) (r : Receiving) (closing : Closing)
    → Stored hash r.expected e.disk (settle hash e id r closing).0.disk
unfolding settle
settle-Stored hash e id r closing =
    let e' = record e { receiving = insert id (acked_now r) e.receiving } in
    let told : Action =
      ack (record { transfer_id = id; received = Ranges.contiguous r.have; window = window }) in
    elim (Bool-cases (Ranges.complete r.have r.size)) [
      | inl done ↦
          let same : (settle hash e id r closing).0 ≡ (finish hash e' id closing).0 =
            rw (done, settle) (replied_state id told (finish hash e' id closing)) in
          let stored =
            finish-Stored hash e' id closing (acked_now r)
              (lookup-insert_self id (acked_now r) e.receiving) in
          subst (λ f. Stored hash r.expected e.disk f.disk) (sym same)
            (subst (λ x. Stored hash x e.disk (finish hash e' id closing).0.disk)
              (acked_now_expected r) stored)
      | inr waiting ↦ inl (rw (waiting, settle) refl)
    ]

-- Whatever a peer sends, a chunk leaves the download directory as it is, or adds a name that was free
-- to it, with a file that has the announced hash: nothing there is replaced.
pub on_chunk-Stored :
    (hash : List ℕ → List ℕ) (e : FileTransfers) (header : FileChunkHeader) (bytes : List ℕ)
    (wrote : Bool) (closing : Closing) (now : ℕ) (r : Receiving)
    → lookup header.transfer_id e.receiving ≡ some r
    → Stored hash r.expected e.disk (on_chunk hash e header bytes wrote closing now).0.disk
unfolding on_chunk taken
on_chunk-Stored hash e header bytes wrote closing now r found =
    let id = header.transfer_id in
    let end = min (header.offset + length bytes) (2 ^ 64 - 1) in
    let r' = taken r header.offset end bytes now in
    rw (found, on_chunk)
      (elim (Bool-cases (ltb r.size end)) [
        | inl over ↦ rw over (inl (fail_receive_disk e id overran))
        | inr fits ↦ elim (Bool-cases wrote) [
          | inl done ↦
              rw (fits, done)
                (settle-Stored hash (noted e (receiving_update r' id transferring none)) id r'
                  closing)
          | inr failure ↦ rw (fits, failure) (inl (fail_receive_disk e id io_failed))
        ]
      ])
