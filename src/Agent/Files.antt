-- ===== src/Agent/Files.antt =====
-- File transfers (crates/nebula-agent/src/files.rs): the state of the engine, and in children what
-- it sends and receives. A name is the bytes of a file name. The results of system calls are
-- arguments of the operations that make them.
pub mod Ranges
pub mod Disk
pub mod Send
pub mod Receive
pub mod EndToEnd
use nebula_desk.Prelude.{
  ℕ, ◌+◌, ◌*◌, ◌-◌, ◌^◌, List, [], ◌∷◌, ◌++◌, length, drop, leb, ◌==◌, if◌then◌else◌, Bool, true,
  false, not, ◌&&◌, ◌||◌, Option, none, some,
}
use nebula_desk.Prelude.Maps.{Map}
use nebula_desk.Proto.Transfer.{FileAck, FileChunkHeader}
use nebula_desk.Agent.Files.Ranges.{total}

abbrev pub max_file : ℕ
max_file = 8 * 2 ^ 30

abbrev pub chunk_size : ℕ
chunk_size = 64 * 1024

abbrev pub window : ℕ
window = 4 * 1024 * 1024

abbrev pub ack_every : ℕ
ack_every = 2 * 1024 * 1024

abbrev pub max_active : ℕ
max_active = 4

abbrev pub stall_timeout : ℕ
stall_timeout = 120 * 10 ^ 9

abbrev pub failed_received : ℕ
failed_received = 2 ^ 64 - 1

abbrev pub max_updates : ℕ
max_updates = 256

abbrev pub telemetry_interval : ℕ
telemetry_interval = 100 * 10 ^ 6

abbrev pub Name : Type 0
Name = List ℕ

pub data Direction : Type 0 where
  send receive : Direction

pub data State : Type 0 where
  offered transferring complete failed : State

-- The texts of the errors.
pub data FileError : Type 0 where
  not_permitted too_many no_name not_regular too_large unsafe_name io_failed : FileError
  overran stalled rejected_by_peer shrank damaged no_such_transfer too_many_names collisions :
      FileError

pub record Update : Type 0 where
  pub id : ℕ
  pub name : Name
  pub direction : Direction
  pub transferred : ℕ
  pub total : ℕ
  pub state : State
  pub error : Option FileError

pub record Offer : Type 0 where
  pub transfer_id : ℕ
  pub name : Name
  pub size : ℕ
  pub blake3 : List ℕ
  pub modified_secs : Option ℕ

pub data Action : Type 0 where
  announce : Offer → Action  -- `Action::Offer`
  chunk : FileChunkHeader → List ℕ → Action
  ack : FileAck → Action

-- The content of the open file is an argument of the operation that reads it.
pub record Sending : Type 0 where
  pub offset : ℕ
  pub size : ℕ
  pub allowed : ℕ
  pub finished : Bool
  pub last_progress : ℕ
  pub name : Name

-- `file` is what the staging file holds; its path is not kept.
pub record Receiving : Type 0 where
  pub name : Name
  pub file : List ℕ
  pub final_path : Name
  pub have : Ranges.Ranges
  pub acked : ℕ
  pub size : ℕ
  pub expected : List ℕ
  pub modified_secs : Option ℕ
  pub last_progress : ℕ

-- `disk` is the download directory: the names there, with what the files hold.
pub record FileTransfers : Type 0 where
  pub enabled : Bool
  pub next_id : ℕ
  pub sending : Map Sending
  pub receiving : Map Receiving
  pub updates : List Update
  pub last_telemetry : ℕ
  pub disk : List (Name × List ℕ)

unfoldable pub new : Bool → List (Name × List ℕ) → ℕ → FileTransfers
new enabled disk now = record {
  enabled = enabled;
  next_id = 1;
  sending = [];
  receiving = [];
  updates = [];
  last_telemetry = now;
  disk = disk;
}

abbrev pub same_direction : Direction → Direction → Bool
same_direction send send = true
same_direction receive receive = true
same_direction _ _ = false

unfoldable pub retain_other : ℕ → Direction → List Update → List Update
retain_other id direction [] = []
retain_other id direction (old ∷ updates) =
    let rest = retain_other id direction updates in
    if not (old.id == id) || not (same_direction old.direction direction) then old ∷ rest else rest

unfoldable pub record_update : List Update → Update → List Update
unfolding retain_other
record_update updates update =
    let others = retain_other update.id update.direction updates in
    let bounded = if length others == max_updates then drop 1 others else others in
    bounded ++ update ∷ []

unfoldable pub sending_update : Sending → ℕ → State → Option FileError → Update
sending_update s id state error = record {
  id = id;
  name = s.name;
  direction = send;
  transferred = s.offset;
  total = s.size;
  state = state;
  error = error;
}

unfoldable pub receiving_update : Receiving → ℕ → State → Option FileError → Update
receiving_update r id state error = record {
  id = id;
  name = r.name;
  direction = receive;
  transferred = total r.have;
  total = r.size;
  state = state;
  error = error;
}

unfoldable pub failure_ack : ℕ → Action
failure_ack transfer_id =
    ack (record { transfer_id = transfer_id; received = failed_received; window = window })

abbrev pub noted : FileTransfers → Update → FileTransfers
noted e update = record e { updates = record_update e.updates update }

unfoldable pub is_transferring : State → Bool
is_transferring transferring = true
is_transferring _ = false

-- The updates that are sent, and those that are kept for later.
unfoldable pub split_updates : Bool → List Update → List Update × List Update
unfolding is_transferring
split_updates progress_due [] = ([], [])
split_updates progress_due (update ∷ updates) =
    let (told, deferred) = split_updates progress_due updates in
    if is_transferring update.state && not progress_due
    then (told, update ∷ deferred)
    else (update ∷ told, deferred)

-- `flush_updates_at`: the state, and the updates sent.
unfoldable pub flush_updates_at : FileTransfers → Bool → ℕ → FileTransfers × List Update
unfolding split_updates
flush_updates_at e is_closed now =
    let progress_due = leb telemetry_interval (now - e.last_telemetry) in
    let (told, deferred) = split_updates progress_due e.updates in
    if is_closed then (record e { updates = [] }, []) else (
      record e {
        updates = deferred;
        last_telemetry = if progress_due then now else e.last_telemetry;
      },
      told,
    )
