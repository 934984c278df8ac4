-- ===== src/Transport/Routes.antt =====
-- `Shared` of crates/ndp-transport/src/multipath.rs: the two paths of a logical session, which one
-- new messages take, and the reliable channels' counters. A native session is known by the id of
-- its path; a datagram handed to it is recorded, or fails as the argument `link` says. Times are
-- nanoseconds; the clock is read once for a handler, the argument `now`.
pub mod Coherent
use Prim.Native.String
use Prim.Native.Nat.{Ordering}
use nebula_desk.Prelude.{
  ℕ, suc, ◌+◌, ◌-◌, ◌*◌, ◌/◌, ◌%◌, ◌^◌, min, max, List, [], ◌∷◌, ◌++◌, length, drop, map, ltb, leb,
  ◌==◌, if◌then◌else◌, Bool, true, false, not, ◌||◌, ◌&&◌, Option, none, some, String,
}
use nebula_desk.Prelude.Bytes.{to_le, from_le}
use nebula_desk.Proto.Channel
use nebula_desk.Proto.Channel.{Channel}
use nebula_desk.Crypto.Record.{replay}
use nebula_desk.Transport.{
  TransportError, Result, ok, err, application_closed, timed_out, crypto, proto, wrong_carrier,
  unknown_channel, multipath_protocol, record_too_large, closed, no_direct_path, rejected,
}

abbrev pub magic : List ℕ
magic = 0x4e ∷ 0x4d ∷ 0x50 ∷ 0x31 ∷ []

abbrev pub data_kind : ℕ
data_kind = 0

abbrev pub probe_kind : ℕ
probe_kind = 1

abbrev pub echo_kind : ℕ
echo_kind = 2

abbrev pub ack_kind : ℕ
ack_kind = 3

abbrev pub envelope_len : ℕ
envelope_len = 21

abbrev pub reliable : List Channel
reliable = Channel.control ∷ Channel.input ∷ Channel.clipboard ∷ Channel.file ∷ []

abbrev pub window : ℕ
window = 32

abbrev pub byte_window : ℕ
byte_window = 32 * 1024 * 1024

abbrev pub millis : ℕ → ℕ
millis n = n * 10 ^ 6

abbrev pub probe_interval : ℕ
probe_interval = millis 500

abbrev pub path_timeout : ℕ
path_timeout = millis 2500

abbrev pub relay_startup_timeout : ℕ
relay_startup_timeout = millis 15000

abbrev pub max_relay_timeout : ℕ
max_relay_timeout = millis 15000

abbrev pub cooldown : ℕ
cooldown = millis 5000

abbrev pub code_path_failed : ℕ
code_path_failed = 0x4d5001

abbrev pub code_logical_close : ℕ
code_logical_close = 0x4d5000000000

-- The longest `Duration`.
abbrev pub duration_max : ℕ
duration_max = 2 ^ 64 * 10 ^ 9 - 1

pub data PathKind : Type 0 where
  relay direct : PathKind

abbrev pub same_kind : PathKind → PathKind → Bool
same_kind relay relay = true
same_kind direct direct = true
same_kind _ _ = false

pub record PathState : Type 0 where
  pub kind : PathKind
  pub epoch : ℕ  -- u64

pub record NativePath : Type 0 where
  pub id : ℕ
  pub kind : PathKind
  pub peer_ready : Bool
  pub last_echo : ℕ
  pub last_probe : Option ℕ
  pub probes : List (ℕ × ℕ)
  pub rtt : Option ℕ
  pub samples : ℕ  -- u32

unfoldable pub new_path : ℕ → PathKind → ℕ → NativePath
new_path id kind now = record {
  id = id;
  kind = kind;
  peer_ready = false;
  last_echo = now;
  last_probe = none;
  probes = [];
  rtt = none;
  samples = 0;
}

-- The array of two paths is a field for each index.
pub record Routes : Type 0 where
  pub relay_path : Option NativePath
  pub direct_path : Option NativePath
  pub active : PathKind
  pub tx_epoch : ℕ
  pub changed_at : ℕ
  pub next_id : ℕ
  pub next_probe : ℕ
  pub direct_after : ℕ

abbrev pub path_at : Routes → PathKind → Option NativePath
path_at r relay = r.relay_path
path_at r direct = r.direct_path

abbrev pub with_path : Routes → PathKind → Option NativePath → Routes
with_path r relay p = record r { relay_path = p }
with_path r direct p = record r { direct_path = p }

-- The counters are functions of the channel's id; `sent` and `shut` record what the native
-- sessions were asked: the datagrams by path, and the closed paths with their codes.
pub record Shared : Type 0 where
  pub routes : Routes
  pub changes : PathState
  pub shutdown : Bool
  pub terminal : Option TransportError
  pub acknowledged : ℕ → ℕ
  pub allocated : ℕ → ℕ
  pub received : ℕ → ℕ
  pub sent : List (ℕ × List ℕ)
  pub shut : List (ℕ × ℕ)

abbrev pub write : (ℕ → ℕ) → ℕ → ℕ → ℕ → ℕ
write f i v j = if j == i then v else f j

-- The path with this id, and where it is.
abbrev pub has_id : ℕ → Option NativePath → Bool
has_id id none = false
has_id id (some p) = p.id == id

unfoldable pub position : ℕ → Routes → Option PathKind
position id r =
    if has_id id r.relay_path
    then some relay
    else if has_id id r.direct_path
    then some direct
    else none

pub record Selected : Type 0 where
  pub id : ℕ
  pub kind : PathKind
  pub epoch : ℕ

unfoldable pub selected : Shared → Option Selected
selected s = elim (path_at s.routes s.routes.active) [
  | none ↦ none
  | some p ↦ some (record { id = p.id; kind = p.kind; epoch = s.routes.tx_epoch })
]

unfoldable pub publish : Shared → PathKind → Shared
publish s kind = record s {
  changes = record { kind = kind; epoch = min (suc s.changes.epoch) (2 ^ 64 - 1) };
}

unfoldable pub switch : Shared → PathKind → ℕ → Shared
unfolding publish
switch s kind now =
    if same_kind s.routes.active kind
    then s
    else publish
        (record s {
          routes = record (s.routes) {
            active = kind;
            tx_epoch = suc s.routes.tx_epoch;
            changed_at = now;
          };
        })
        kind

abbrev pub close_path : Option NativePath → ℕ → List (ℕ × ℕ)
close_path none code = []
close_path (some p) code = (p.id, code) ∷ []

-- The `|` of the code word with a u32 is a sum, since the word's low 32 bits are clear.
unfoldable pub stop_with_code : Shared → TransportError → ℕ → Shared
stop_with_code s error code =
    if s.shutdown
    then s
    else (let r = s.routes in
        let word = code_logical_close + code in
        record s {
          terminal = some error;
          shut = s.shut ++ (close_path r.relay_path word ++ close_path r.direct_path word);
          routes = record r { relay_path = none; direct_path = none };
          shutdown = true;
        })

unfoldable pub stop : Shared → TransportError → Shared
unfolding stop_with_code
stop s error = stop_with_code s error 0

abbrev pub same_text : String → String → Bool
same_text a b = elim (String.compare a b) [ Ordering.eq ↦ true | _ ↦ false ]

-- What `fail_path` does with an error, by its first three tests.
pub data Failure : Type 0 where
  logical_close late_attempt protocol_failure path_failure : Failure

unfoldable pub failure : TransportError → Failure
failure (application_closed code) =
    if code / 2 ^ 32 * 2 ^ 32 == code_logical_close then logical_close else path_failure
failure (crypto (replay channel seq)) =
    if same_text channel "clipboard" || same_text channel "file"
    then late_attempt
    else protocol_failure
failure (crypto _) = protocol_failure
failure (proto _) = protocol_failure
failure (wrong_carrier _ _) = protocol_failure
failure (unknown_channel _) = protocol_failure
failure (multipath_protocol _) = protocol_failure
failure (record_too_large _ _) = protocol_failure
failure _ = path_failure

abbrev pub other : PathKind → PathKind
other direct = relay
other relay = direct

-- The path at index `at`, of kind `kind`, is taken out and closed; the other kind takes over if
-- this one was active.
unfoldable pub retire : Shared → PathKind → PathKind → TransportError → ℕ → Shared
unfolding stop switch
retire s at kind error now =
    let r = s.routes in
    let shut = s.shut ++ close_path (path_at r at) code_path_failed in
    let left = with_path r at none in
    let cooled : Routes = elim kind [
      | direct ↦ record left { direct_after = now + cooldown }
      | relay ↦ left
    ] in
    let s' = record s { routes = cooled; shut = shut } in
    if not (same_kind r.active kind) then s' else elim (path_at cooled (other kind)) [
      | some p ↦ switch s' (other kind) now
      | none ↦ stop s' error
    ]

unfoldable pub fail_at : Shared → Option PathKind → TransportError → ℕ → Shared
unfolding retire
fail_at s none error now = s
fail_at s (some at) error now = elim (path_at s.routes at) [
  | none ↦ s
  | some p ↦ retire s at p.kind error now
]

unfoldable pub fail_as : Failure → Shared → ℕ → TransportError → ℕ → Shared
unfolding stop fail_at
fail_as logical_close s id error now = stop s error
fail_as late_attempt s id error now = s
fail_as protocol_failure s id error now = stop s error
fail_as path_failure s id error now = fail_at s (position id s.routes) error now

unfoldable pub fail_path : Shared → ℕ → TransportError → ℕ → Shared
unfolding fail_as
fail_path s id error now = fail_as (failure error) s id error now
