-- ===== src/Agent/Files/Send.antt =====
-- The sending half of crates/nebula-agent/src/files.rs. `hash` stands for BLAKE3 in hexadecimal. The
-- order of the association list stands for that of the hash map.
pub mod Window
pub mod Progress
pub mod Acked
pub mod Run
pub mod Drain
pub mod Termination
use nebula_desk.Prelude.{
  ℕ, ◌+◌, ◌-◌, ◌^◌, min, List, [], ◌∷◌, ◌++◌, length, take, drop, ltb, leb, ◌==◌, if◌then◌else◌,
  Bool, true, false, not, ◌&&◌, Option, none, some,
}
use nebula_desk.Prelude.Maps.{Map, lookup, insert, erase}
use nebula_desk.Proto.Transfer.{FileAck, FileChunkHeader, has_safe_name}
use nebula_desk.Agent.Files.{
  Name, State, offered, transferring, complete, failed, FileError, not_permitted, too_many, no_name,
  not_regular, too_large, unsafe_name, io_failed, stalled, rejected_by_peer, shrank, Update, Offer,
  Action, announce, chunk, Sending, FileTransfers, noted, sending_update, record_update, max_active,
  max_file, chunk_size, stall_timeout, failed_received, send,
}

pub data Result {ℓ} (A : Type ℓ) : Type ℓ where
  ok : A → Result A
  err : FileError → Result A

infixl 5 ◌>>=◌ ◌>>◌
abbrev pub ◌>>=◌ {ℓ κ} : {A : Type ℓ} {B : Type κ} → Result A → (A → Result B) → Result B
err failure >>= next = err failure
ok found >>= next = next found

abbrev pub ◌>>◌ {ℓ κ} : {A : Type ℓ} {B : Type κ} → Result A → Result B → Result B
done >> next = done >>= λ _. next

abbrev pub refuse : Bool → FileError → Result (Unit {0})
refuse false failure = ok tt
refuse true failure = err failure

-- What the file system tells of the file to send.
pub record Source : Type 0 where
  pub name : Option Name  -- its last component, if that is text
  pub stated : Bool  -- its metadata can be read
  pub is_file : Bool  -- it is a regular file, and not a link to one
  pub opens : Bool
  pub still_file : Bool  -- what was opened is a regular file
  pub reads : Bool
  pub content : List ℕ
  pub modified_secs : Option ℕ

abbrev pub name_of : Option Name → Result Name
name_of none = err no_name
name_of (some name) = ok name

module _ (hash : List ℕ → List ℕ) where
  unfoldable pub make_offer : FileTransfers → ℕ → Source → Result Offer
  unfolding has_safe_name
  make_offer e id source = do
    refuse (not e.enabled) not_permitted
    refuse (leb max_active (length e.sending)) too_many
    name ← name_of source.name
    refuse (not source.stated) io_failed
    refuse (not source.is_file) not_regular
    refuse (not source.opens) io_failed
    refuse (not source.still_file) not_regular
    refuse (ltb max_file (length source.content)) too_large
    refuse (not source.reads) io_failed
    refuse (not (has_safe_name name)) unsafe_name
    ok (record {
      transfer_id = id;
      name = name;
      size = length source.content;
      blake3 = hash source.content;
      modified_secs = source.modified_secs;
    })

abbrev pub started : Offer → ℕ → Sending
started offer now = record {
  offset = 0;
  size = offer.size;
  allowed = 0;
  finished = false;
  last_progress = now;
  name = offer.name;
}

unfoldable pub local_failure : FileTransfers → ℕ → Name → ℕ → FileError → FileTransfers
local_failure e id name size error = noted e (record {
  id = id;
  name = name;
  direction = send;
  transferred = 0;
  total = size;
  state = failed;
  error = some error;
})

-- The end of `send_file`, with the offer or the error; `shown` and `size` are what a failure reports.
unfoldable pub begin_send :
    FileTransfers → ℕ → Name → ℕ → ℕ → Result Offer → FileTransfers × Result Action
unfolding local_failure sending_update record_update insert
begin_send e id shown size now (err error) = (local_failure e id shown size error, err error)
begin_send e id shown size now (ok offer) =
    let s = started offer now in
    (
      noted (record e { sending = insert id s e.sending }) (sending_update s id offered none),
      ok (announce offer),
    )

-- `send_file` with `prepare_send`.
unfoldable pub send_file :
    (List ℕ → List ℕ) → FileTransfers → Source → Name → ℕ → ℕ → FileTransfers × Result Action
unfolding make_offer begin_send
send_file hash e source shown size now =
    let id = e.next_id in
    let e' = record e { next_id = id + 1 } in
    begin_send e' id shown size now (make_offer hash e' id source)

unfoldable pub reject_local : FileTransfers → Name → ℕ → FileError → FileTransfers
unfolding local_failure
reject_local e shown size error =
    local_failure (record e { next_id = e.next_id + 1 }) e.next_id shown size error

-- An acknowledgement for a transfer that is known.
unfoldable pub acknowledged : FileTransfers → FileAck → Sending → ℕ → FileTransfers
unfolding sending_update record_update insert erase
acknowledged e a s now =
    let id = a.transfer_id in
    let allowed = min (a.received + a.window) (2 ^ 64 - 1) in
    if a.received == failed_received
    then noted (record e { sending = erase id e.sending })
        (sending_update s id failed (some rejected_by_peer))
    else if ltb s.size a.received
    then e
    else if s.finished && a.received == s.size
    then record (noted e (sending_update s id complete none)) { sending = erase id e.sending }
    else if ltb s.allowed allowed
    then record e {
      sending = insert id (record s { allowed = allowed; last_progress = now }) e.sending;
    }
    else e

unfoldable pub on_ack : FileTransfers → FileAck → ℕ → FileTransfers
unfolding acknowledged lookup
on_ack e a now = elim (lookup a.transfer_id e.sending) [
  | none ↦ e
  | some s ↦ acknowledged e a s now
]

unfoldable pub wants : Sending → Bool
wants s = not s.finished && ltb s.offset s.allowed

unfoldable pub first_wanting : Map Sending → Option (ℕ × Sending)
unfolding wants
first_wanting [] = none
first_wanting ((id, s) ∷ sending) = if wants s then some (id, s) else first_wanting sending

-- A transfer that is given up.
unfoldable pub given_up : FileTransfers → ℕ → Sending → FileError → FileTransfers
unfolding sending_update record_update erase
given_up e id s error = record (noted e (sending_update s id failed (some error))) {
  sending = erase id e.sending;
}

-- A transfer of which `header` and `bytes` are sent; `s` is what it becomes.
unfoldable pub sent_chunk :
    FileTransfers → ℕ → Sending → FileChunkHeader → List ℕ → FileTransfers × Option Action
unfolding sending_update record_update insert
sent_chunk e id s header bytes = (
  noted (record e { sending = insert id s e.sending }) (sending_update s id transferring none),
  some (chunk header bytes),
)

-- `file` is what the file of the transfer holds now, `none` where it cannot be read.
unfoldable pub pump_file :
    FileTransfers → ℕ → Sending → Option (List ℕ) → ℕ → FileTransfers × Option Action
unfolding given_up sent_chunk
pump_file e id s none now = (given_up e id s io_failed, none)
pump_file e id s (some content) now =
    let room = min (s.allowed - s.offset) (s.size - s.offset) in
    let want = min room chunk_size in
    let buffer = take want (drop s.offset content) in
    let offset = s.offset + length buffer in
    let s' = record s { offset = offset; last_progress = now; finished = leb s.size offset } in
    if length buffer == 0
    then (given_up e id s shrank, none)
    else sent_chunk e id s' (record { transfer_id = id; offset = s.offset }) buffer

-- The chunk of one transfer.
unfoldable pub pump_one :
    FileTransfers → ℕ → Sending → Option (List ℕ) → ℕ → FileTransfers × Option Action
unfolding sent_chunk pump_file
pump_one e id s file now =
    if s.size == 0
    then sent_chunk e id (record s { finished = true; last_progress = now })
        (record { transfer_id = id; offset = 0 }) []
    else pump_file e id s file now

unfoldable pub pump : FileTransfers → (ℕ → Option (List ℕ)) → ℕ → FileTransfers × Option Action
unfolding pump_one
pump e files now = elim (first_wanting e.sending) [
  | none ↦ (e, none)
  | some ready ↦ pump_one e ready.0 ready.1 (files ready.0) now
]

unfoldable pub wants_to_send : FileTransfers → Bool
wants_to_send e = elim (first_wanting e.sending) [ none ↦ false | some ready ↦ true ]

-- `sending.retain` of `expire_stalled`: the transfers that are left.
unfoldable pub unexpired : ℕ → Map Sending → Map Sending
unexpired now [] = []
unexpired now ((id, s) ∷ sending) =
    let left = unexpired now sending in
    if leb stall_timeout (now - s.last_progress) then left else (id, s) ∷ left

-- The updates that tell of the others.
unfoldable pub expired_updates : ℕ → Map Sending → List Update → List Update
unfolding sending_update record_update
expired_updates now [] updates = updates
expired_updates now ((id, s) ∷ sending) updates = expired_updates now sending (
    if leb stall_timeout (now - s.last_progress)
    then record_update updates (sending_update s id failed (some stalled))
    else updates)

unfoldable pub expire_sending : FileTransfers → ℕ → FileTransfers
unfolding unexpired expired_updates
expire_sending e now = record e {
  sending = unexpired now e.sending;
  updates = expired_updates now e.sending e.updates;
}

-- What the loop of the session does with the transfers that are under way.
pub data SendOp : Type 0 where
  pump_at : ℕ → SendOp
  ack_at : FileAck → ℕ → SendOp
  expire_at : ℕ → SendOp

-- The chunks of one transfer among the actions.
unfoldable pub for_id : ℕ → ℕ → Option Action → List (FileChunkHeader × List ℕ × ℕ)
for_id id now (some (chunk header bytes)) =
    if header.transfer_id == id then (header, bytes, now) ∷ [] else []
for_id id now _ = []

unfoldable pub send_step :
    (ℕ → Option (List ℕ))
    → ℕ
    → FileTransfers
    → SendOp
    → FileTransfers × List (FileChunkHeader × List ℕ × ℕ)
unfolding expire_sending
send_step files id e (pump_at now) =
    let (e', action) = pump e files now in (e', for_id id now action)
send_step files id e (ack_at a now) = (on_ack e a now, [])
send_step files id e (expire_at now) = (expire_sending e now, [])

-- A run: the state, and the chunks of the transfer `id`, the last one first.
unfoldable pub send_run :
    (ℕ → Option (List ℕ))
    → ℕ
    → FileTransfers
    → List SendOp
    → List (FileChunkHeader × List ℕ × ℕ)
    → FileTransfers × List (FileChunkHeader × List ℕ × ℕ)
unfolding send_step
send_run files id e [] sent = (e, sent)
send_run files id e (op ∷ ops) sent =
    let (e', chunks) = send_step files id e op in send_run files id e' ops (chunks ++ sent)
