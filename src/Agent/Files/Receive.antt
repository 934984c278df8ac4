-- ===== src/Agent/Files/Receive.antt =====
-- The receiving half of crates/nebula-agent/src/files.rs. `hash` stands for BLAKE3 in hexadecimal.
-- The modification time that a published file is given is not modelled.
pub mod Content
pub mod Published
pub mod Delivery
pub mod Run
use nebula_desk.Prelude.{
  ℕ, zero, suc, ◌+◌, ◌-◌, ◌^◌, min, List, [], ◌∷◌, ◌++◌, length, ltb, leb, ◌==◌, if◌then◌else◌,
  Bool, true, false, not, ◌&&◌, ◌||◌, Option, none, some,
}
use nebula_desk.Prelude.Bytes.{same_bytes}
use nebula_desk.Prelude.Maps.{Map, lookup, insert, erase, has}
use nebula_desk.Proto.Transfer.{FileAck, FileChunkHeader, has_safe_name}
use nebula_desk.Agent.Files.Ranges
use nebula_desk.Agent.Files.{
  Name, State, offered, transferring, complete, failed, FileError, not_permitted, too_many,
  too_large, unsafe_name, io_failed, overran, stalled, damaged, no_such_transfer, too_many_names,
  collisions, Update, Offer, Action, ack, Receiving, FileTransfers, noted, receiving_update,
  record_update, max_active, max_file, window, ack_every, stall_timeout, failure_ack, receive,
}
use nebula_desk.Agent.Files.Disk.{write_at, exists, free_path}
use nebula_desk.Agent.Files.Send.{Result, ok, err, ◌>>=◌, ◌>>◌, refuse, expire_sending}

unfoldable pub free_name : FileTransfers → Bool → Name → Result Name
unfolding free_path
free_name e dir_ok name =
    if not dir_ok
    then err io_failed
    else elim (free_path e.disk e.receiving name) [ none ↦ err too_many_names | some n ↦ ok n ]

unfoldable pub reject_offer : FileTransfers → Offer → FileError → FileTransfers
unfolding lookup record_update
reject_offer e offer error =
    if has offer.transfer_id e.receiving
    then e
    else noted e (record {
      id = offer.transfer_id;
      name = offer.name;
      direction = receive;
      transferred = 0;
      total = offer.size;
      state = failed;
      error = some error;
    })

abbrev pub begun : Offer → Name → ℕ → Receiving
begun offer final_path now = record {
  name = offer.name;
  file = [];
  final_path = final_path;
  have = [];
  acked = 0;
  size = offer.size;
  expected = offer.blake3;
  modified_secs = offer.modified_secs;
  last_progress = now;
}

-- The end of `on_offer`, with the name that was found; `opens`: the staging file was created.
unfoldable pub accept_offer :
    FileTransfers → Offer → Bool → ℕ → Result Name → FileTransfers × Option Action
unfolding reject_offer insert record_update receiving_update
accept_offer e offer opens now (err error) = (reject_offer e offer error, none)
accept_offer e offer opens now (ok final_path) =
    let id = offer.transfer_id in
    let r = begun offer final_path now in
    if not opens then (reject_offer e offer io_failed, none) else (
      noted (record e { receiving = insert id r e.receiving }) (receiving_update r id offered none),
      some (ack (record { transfer_id = id; received = 0; window = window })),
    )

-- `dir_ok`: the download directory can be made and read.
unfoldable pub on_offer : FileTransfers → Offer → Bool → Bool → ℕ → FileTransfers × Option Action
unfolding has_safe_name lookup
on_offer e offer dir_ok opens now =
    let id = offer.transfer_id in
    if not e.enabled
    then (reject_offer e offer not_permitted, none)
    else if not (has_safe_name offer.name)
    then (reject_offer e offer unsafe_name, none)
    else if ltb max_file offer.size
    then (reject_offer e offer too_large, none)
    else if leb max_active (length e.receiving) || has id e.receiving
    then (reject_offer e offer too_many, none)
    else accept_offer e offer opens now (free_name e dir_ok offer.name)

unfoldable pub fail_receive : FileTransfers → ℕ → FileError → FileTransfers
unfolding lookup erase record_update receiving_update
fail_receive e id error = elim (lookup id e.receiving) [
  | none ↦ e
  | some r ↦ record (noted e (receiving_update r id failed (some error))) {
    receiving = erase id e.receiving;
  }
]

-- What one attempt to publish without replacement meets, if the name was free before.
pub data Attempt : Type 0 where
  free raced broken : Attempt

-- The results of the system calls of `finish`.
pub record Closing : Type 0 where
  pub synced : Bool
  pub readable : Bool
  pub dir_ok : Bool
  pub attempt : ℕ → Attempt

-- One attempt on a name: `taken` tells whether the directory has it.
abbrev pub attempted {ℓ} : {A : Type ℓ} → Attempt → Bool → Result A → A → Result A
attempted broken taken again published = err io_failed
attempted raced taken again published = again
attempted free true again published = again
attempted free false again published = ok published

-- The loop over the destinations, `rounds` of them; what is published is added to the directory.
unfoldable pub publish :
    ℕ → FileTransfers → Receiving → Closing → ℕ → Name → Result (Name × List (Name × List ℕ))
unfolding exists free_path
publish zero e r closing n destination = err collisions
publish (suc rounds) e r closing n destination =
    let again =
      free_name e closing.dir_ok r.final_path >>= λ next. publish rounds e r closing (n + 1) next in
    attempted (closing.attempt n) (exists destination e.disk) again
      (destination, (destination, r.file) ∷ e.disk)

unfoldable pub verify :
    (List ℕ → List ℕ) → FileTransfers → Receiving → Closing → Result (Name × List (Name × List ℕ))
unfolding publish
verify hash e r closing = do
  refuse (not closing.synced) io_failed
  refuse (not closing.readable) io_failed
  refuse (not (same_bytes (hash r.file) r.expected)) damaged
  publish 1000 e r closing 0 r.final_path

-- The end of `finish`: the update tells what came of it.
unfoldable pub concluded :
    FileTransfers
    → ℕ
    → Receiving
    → Result (Name × List (Name × List ℕ))
    → FileTransfers × Result Name
unfolding receiving_update record_update
concluded e id r (err error) = (noted e (receiving_update r id failed (some error)), err error)
concluded e id r (ok (name, disk)) =
    (noted (record e { disk = disk }) (receiving_update r id complete none), ok name)

unfoldable pub finish :
    (List ℕ → List ℕ) → FileTransfers → ℕ → Closing → FileTransfers × Result Name
unfolding lookup erase verify concluded
finish hash e id closing = elim (lookup id e.receiving) [
  | none ↦ (e, err no_such_transfer)
  | some r ↦
      let e' = record e { receiving = erase id e.receiving } in
      concluded e' id r (verify hash e' r closing)
]

-- The transfer with a chunk taken in, before the acknowledgement.
unfoldable pub taken : Receiving → ℕ → ℕ → List ℕ → ℕ → Receiving
unfolding write_at Ranges.add
taken r offset end bytes now = record r {
  file = write_at offset bytes r.file;
  have = Ranges.add r.have offset end;
  last_progress = now;
}

unfoldable pub is_due : Receiving → Bool
unfolding Ranges.complete Ranges.contiguous
is_due r = Ranges.complete r.have r.size || leb ack_every (Ranges.contiguous r.have - r.acked)

unfoldable pub acked_now : Receiving → Receiving
unfolding is_due Ranges.contiguous
acked_now r = if is_due r then record r { acked = Ranges.contiguous r.have } else r

unfoldable pub replied : ℕ → Action → FileTransfers × Result Name → FileTransfers × Option Action
unfolding failure_ack
replied id told (e, ok name) = (e, some told)
replied id told (e, err error) = (e, some (failure_ack id))

-- The end of `on_chunk`: a complete file is finished, and an acknowledgement is sent if one is due.
unfoldable pub settle :
    (List ℕ → List ℕ) → FileTransfers → ℕ → Receiving → Closing → FileTransfers × Option Action
unfolding Ranges.contiguous
settle hash e id r closing =
    let received = Ranges.contiguous r.have in
    let told = ack (record { transfer_id = id; received = received; window = window }) in
    let e' = record e { receiving = insert id (acked_now r) e.receiving } in
    if Ranges.complete r.have r.size
    then replied id told (finish hash e' id closing)
    else (e', if is_due r then some told else none)

-- `wrote`: the seek and the write succeeded.
unfoldable pub on_chunk :
    (List ℕ → List ℕ)
    → FileTransfers
    → FileChunkHeader
    → List ℕ
    → Bool
    → Closing
    → ℕ
    → FileTransfers × Option Action
unfolding lookup fail_receive failure_ack taken settle receiving_update record_update
on_chunk hash e header bytes wrote closing now =
    let id = header.transfer_id in
    let end = min (header.offset + length bytes) (2 ^ 64 - 1) in
    elim (lookup id e.receiving) [
      | none ↦ (e, none)
      | some r ↦
          let r' = taken r header.offset end bytes now in
          if ltb r.size end
          then (fail_receive e id overran, some (failure_ack id))
          else if not wrote
          then (fail_receive e id io_failed, some (failure_ack id))
          else settle hash (noted e (receiving_update r' id transferring none)) id r' closing
    ]

abbrev pub stalled_ids : ℕ → Map Receiving → List ℕ
stalled_ids now [] = []
stalled_ids now ((id, r) ∷ receiving) =
    let rest = stalled_ids now receiving in
    if leb stall_timeout (now - r.last_progress) then id ∷ rest else rest

unfoldable pub expire_receiving : FileTransfers → List ℕ → FileTransfers
unfolding fail_receive
expire_receiving e [] = e
expire_receiving e (id ∷ ids) = expire_receiving (fail_receive e id stalled) ids

unfoldable pub expire_stalled : FileTransfers → ℕ → FileTransfers
unfolding expire_sending expire_receiving
expire_stalled e now =
    let e' = expire_sending e now in expire_receiving e' (stalled_ids now e'.receiving)

-- A run of chunks that are all written; each with the time at which it comes.
unfoldable pub receive_all :
    (List ℕ → List ℕ)
    → Closing
    → FileTransfers
    → List (FileChunkHeader × List ℕ × ℕ)
    → FileTransfers
receive_all hash closing e [] = e
receive_all hash closing e ((header, bytes, now) ∷ chunks) =
    receive_all hash closing (on_chunk hash e header bytes true closing now).0 chunks
