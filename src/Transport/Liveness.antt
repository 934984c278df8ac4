-- ===== src/Transport/Liveness.antt =====
-- The rest of `Shared` and the synchronous operations of `Multipath` in
-- crates/ndp-transport/src/multipath.rs: acknowledgements, probes and echoes, attaching and
-- dropping the direct path. `scaled` stands for `Duration::mul_f64(1.2)`.
pub mod Paths
pub mod Preserves
pub mod Reach
pub mod Acks
pub mod Received
use nebula_desk.Prelude.{
  ℕ, suc, ◌+◌, ◌-◌, ◌*◌, ◌/◌, ◌%◌, ◌^◌, min, max, List, [], ◌∷◌, ◌++◌, length, take, drop, map, ltb,
  leb, ◌==◌, if◌then◌else◌, Bool, true, false, not, ◌||◌, ◌&&◌, Option, none, some, String,
}
use nebula_desk.Prelude.Bytes.{to_le, from_le}
use nebula_desk.Proto.Channel
use nebula_desk.Proto.Channel.{Channel}
use nebula_desk.Transport.{
  TransportError, Result, ok, err, ◌>>=◌, timed_out, multipath_protocol, closed, no_direct_path,
  rejected,
}
use nebula_desk.Transport.Routes.{
  magic, probe_kind, reliable, probe_interval, path_timeout, relay_startup_timeout,
  max_relay_timeout, cooldown, duration_max, millis, PathKind, relay, direct, same_kind, NativePath,
  new_path, Routes, path_at, with_path, Shared, write, position, switch, fail_path, stop_with_code,
  code_path_failed, PathState,
}

unfoldable pub acks_of : List Channel → (ℕ → ℕ) → List ℕ
acks_of [] received = []
acks_of (c ∷ cs) received = to_le 8 (received (Channel.id c)) ++ acks_of cs received

unfoldable pub acks : Shared → List ℕ
unfolding acks_of
acks s = acks_of reliable s.received

-- The loop over the channels; the counters that were raised stay raised on a refusal.
unfoldable pub read_each : Shared → List Channel → List ℕ → Shared × Result (Unit {0})
read_each s [] bytes = (s, ok tt)
read_each s (c ∷ cs) bytes =
    let next = from_le (take 8 bytes) in
    let index = Channel.id c in
    let raised = record s {
      acknowledged = write s.acknowledged index (max (s.acknowledged index) next);
    } in
    let rest = read_each raised cs (drop 8 bytes) in
    if ltb (s.allocated index) next
    then (s, err (multipath_protocol "acknowledgment beyond allocated sequence"))
    else rest

unfoldable pub read_acks : Shared → List ℕ → Shared × Result (Unit {0})
unfolding read_each
read_acks s bytes =
    if not (length bytes == length reliable * 8)
    then (s, err (multipath_protocol "invalid acknowledgment length"))
    else read_each s reliable bytes

abbrev pub nonce_bytes : Option ℕ → List ℕ
nonce_bytes none = []
nonce_bytes (some nonce) = to_le 8 nonce

abbrev pub Link : Type 0
Link = ℕ → List ℕ → Option TransportError

unfoldable pub internal : Link → Shared → ℕ → ℕ → Option ℕ → ℕ → Shared
unfolding acks position
internal link s id kind nonce now = elim (position id s.routes) [
  | none ↦ s
  | some at ↦
      let payload = magic ++ kind ∷ (nonce_bytes nonce ++ acks s) in
      elim (link id payload) [
        | none ↦ record s { sent = s.sent ++ (id, payload) ∷ [] }
        | some error ↦ fail_path s id error now
      ]
]

-- An update of the path with an id; nothing where there is none.
abbrev pub update : (NativePath → NativePath) → Option NativePath → Option NativePath
update f none = none
update f (some p) = some (f p)

abbrev pub update_path : Shared → PathKind → (NativePath → NativePath) → Shared
update_path s kind f = record s {
  routes = with_path s.routes kind (update f (path_at s.routes kind));
}

abbrev pub made_ready : ℕ → NativePath → NativePath
made_ready now p =
    if p.peer_ready
    then p
    else record p { peer_ready = true; last_echo = now; probes = []; last_probe = none }

unfoldable pub peer_ready : Shared → ℕ → ℕ → Shared
unfolding position
peer_ready s id now = elim (position id s.routes) [
  | none ↦ s
  | some kind ↦ update_path s kind (made_ready now)
]

unfoldable pub probe_timeout : PathKind → Bool → Option ℕ → ℕ
probe_timeout relay false rtt = relay_startup_timeout
probe_timeout relay true none = path_timeout
probe_timeout relay true (some rtt) =
    min (max (min (rtt * 4) duration_max + probe_interval) path_timeout) max_relay_timeout
probe_timeout direct ready rtt = path_timeout

-- What one round of the heartbeat's loop finds: an expired path, a path to probe, or neither.
pub data Beat : Type 0 where
  idle : Beat
  expired : ℕ → Beat
  probe : ℕ → ℕ → Beat

abbrev pub probe_due : Option ℕ → ℕ → Bool
probe_due none now = true
probe_due (some last) now = leb probe_interval (now - last)

unfoldable pub beat : ℕ → ℕ → Option NativePath → Option NativePath × Beat
unfolding probe_timeout
beat now nonce none = (none, idle)
beat now nonce (some p) =
    if leb (probe_timeout p.kind p.peer_ready p.rtt) (now - p.last_echo)
    then (some p, expired p.id)
    else if probe_due p.last_probe now
    then (let queued = p.probes ++ (nonce, now) ∷ [] in
        (
          some (record p { last_probe = some now; probes = drop (length queued - 8) queued }),
          probe p.id nonce,
        ))
    else (some p, idle)

abbrev pub fail_expired : Beat → Shared → ℕ → Shared
fail_expired (expired id) s now = fail_path s id timed_out now
fail_expired _ s now = s

abbrev pub send_probe : Link → Beat → Shared → ℕ → Shared
send_probe link (probe id nonce) s now = internal link s id probe_kind (some nonce) now
send_probe link _ s now = s

unfoldable pub heartbeat : Link → Shared → ℕ → Shared
unfolding beat
heartbeat link s now =
    let r = s.routes in
    let n = r.next_probe in
    let n' = suc n % 2 ^ 64 in
    let (p0, b0) = beat now n r.relay_path in
    let (p1, b1) = beat now n' r.direct_path in
    let s1 = record s {
      routes = record r { relay_path = p0; direct_path = p1; next_probe = suc n' % 2 ^ 64 };
    } in
    let s2 = fail_expired b1 (fail_expired b0 s1 now) now in
    send_probe link b1 (send_probe link b0 s2 now) now

abbrev pub find_probe : ℕ → List (ℕ × ℕ) → Option ℕ
find_probe nonce [] = none
find_probe nonce ((sent, at) ∷ probes) = if sent == nonce then some at else find_probe nonce probes

-- `remove(position(..))`: the first probe with the nonce goes.
abbrev pub drop_probe : ℕ → List (ℕ × ℕ) → List (ℕ × ℕ)
drop_probe nonce [] = []
drop_probe nonce ((sent, at) ∷ probes) =
    if sent == nonce then probes else (sent, at) ∷ drop_probe nonce probes

abbrev pub smoothed : Option ℕ → ℕ → ℕ
smoothed none sample = sample
smoothed (some old) sample = (old * 3 + sample) / 4

abbrev pub measured : ℕ → ℕ → ℕ → NativePath → NativePath
measured nonce at now p = record p {
  probes = drop_probe nonce p.probes;
  last_echo = now;
  rtt = some (smoothed p.rtt (now - at));
  samples = min (suc p.samples) (2 ^ 32 - 1);
}

module _ (scaled : ℕ → ℕ) where
  unfoldable pub faster : ℕ → ℕ → Bool
  faster candidate current = ltb (scaled candidate + millis 2) current

  -- The round trips of two paths with three samples each choose a path, or neither. A path with a
  -- sample has a round trip time, so that no `unwrap` fails.
  unfoldable pub target : NativePath → NativePath → Option PathKind
  unfolding faster
  target r d =
      if leb 3 r.samples && leb 3 d.samples
      then elim r.rtt [
        | none ↦ none
        | some relay_rtt ↦ elim d.rtt [
          | none ↦ none
          | some direct_rtt ↦
              if faster direct_rtt relay_rtt
              then some direct
              else if faster relay_rtt direct_rtt
              then some relay
              else none
        ]
      ]
      else none

  unfoldable pub reconsider : Shared → ℕ → Shared
  unfolding target
  reconsider s now = elim s.routes.relay_path [
    | none ↦ s
    | some r ↦ elim s.routes.direct_path [
      | none ↦ s
      | some d ↦ elim (target r d) [
        | none ↦ s
        | some kind ↦
            if s.routes.tx_epoch == 0 || leb cooldown (now - s.routes.changed_at)
            then switch s kind now
            else s
      ]
    ]
  ]

  abbrev pub probes_of : Option NativePath → List (ℕ × ℕ)
  probes_of none = []
  probes_of (some p) = p.probes

  unfoldable pub echo : Shared → ℕ → ℕ → ℕ → Shared
  unfolding position reconsider
  echo s id nonce now = elim (position id s.routes) [
    | none ↦ s
    | some kind ↦ elim (find_probe nonce (probes_of (path_at s.routes kind))) [
      | none ↦ s
      | some at ↦ reconsider (update_path s kind (measured nonce at now)) now
    ]
  ]

-- `Multipath::start`, the shared state.
unfoldable pub start : ℕ → Shared
start now = record {
  routes = record {
    relay_path = some (new_path 0 relay now);
    direct_path = none;
    active = relay;
    tx_epoch = 0;
    changed_at = now;
    next_id = 1;
    next_probe = 0;
    direct_after = now;
  };
  changes = record { kind = relay; epoch = 0 };
  shutdown = false;
  terminal = none;
  acknowledged = λ _. 0;
  allocated = λ _. 0;
  received = λ _. 0;
  sent = [];
  shut = [];
}

-- What `attach` asks of the native session that it is given.
pub record Candidate : Type 0 where
  pub reuses : Bool  -- its connection is that of an attached path
  pub multipath : Bool
  pub supports_probes : Bool
  pub is_closed : Bool
  pub same_peer : Bool  -- a first path has a peer identity, and it is this session's
  pub limit : ℕ

abbrev pub is_some : Option NativePath → Bool
is_some none = false
is_some (some p) = true

-- Whether the candidate is closed, and the result.
unfoldable pub attach : ℕ → Shared → Candidate → ℕ → Shared × (Bool × Result (Unit {0}))
attach max_record s c now =
    let r = s.routes in
    if c.reuses
    then (s, (false, err (rejected "direct path reuses an existing connection")))
    else if c.multipath || not c.supports_probes
    then (s, (true, err (rejected "direct path must be native and support datagrams")))
    else if c.is_closed
    then (s, (true, err (rejected "direct path is already closed")))
    else if not c.same_peer
    then (s, (true, err (rejected "direct path peer identity does not match logical session")))
    else if s.shutdown
    then (s, (true, err (rejected "logical session closed")))
    else if is_some r.direct_path || ltb now r.direct_after
    then (s, (true, err (rejected "direct path already attached or cooling down")))
    else if ltb c.limit max_record
    then (s, (true, err (rejected "direct path record limit is smaller than relay")))
    else (
      record s {
        routes = record r {
          next_id = suc r.next_id;
          direct_path = some (new_path r.next_id direct now);
        };
      },
      (false, ok tt),
    )

unfoldable pub disconnect_direct : Shared → ℕ → Shared × Result (Unit {0})
disconnect_direct s now = elim s.routes.direct_path [
  | none ↦ (s, err no_direct_path)
  | some p ↦ (fail_path s p.id closed now, ok tt)
]

unfoldable pub close : Shared → ℕ → Shared
close s code = stop_with_code s closed code

unfoldable pub envelope : ℕ → ℕ → List ℕ → List ℕ
envelope sequence epoch payload = magic ++ 0 ∷ (to_le 8 sequence ++ (to_le 8 epoch ++ payload))
