-- ===== src/Transport/Inbox.antt =====
-- The receiving side of a logical session, `Inbox` of crates/ndp-transport/src/multipath.rs. The
-- arguments `link` and `now` are those of the shared state, `has_room` tells whether the
-- application's queue takes a media message, and `scaled` is as for the probes.
pub mod Order
pub mod Receive
pub mod Streams
use nebula_desk.Prelude.{
  ℕ, suc, ◌+◌, ◌-◌, ◌*◌, ◌%◌, ◌^◌, List, [], ◌∷◌, ◌++◌, length, take, drop, get_or, ltb, leb, ◌==◌,
  if◌then◌else◌, Bool, true, false, not, ◌||◌, ◌&&◌, Option, none, some,
}
use nebula_desk.Prelude.Bytes.{from_le}
use nebula_desk.Proto.Header
use nebula_desk.Proto.Header.{MsgHeader, MsgKind, to_u8}
use nebula_desk.Proto.Channel
use nebula_desk.Proto.Channel.{Channel, control, video, audio, input, clipboard, file}
use nebula_desk.Transport.{TransportError, Result, ok, err, ◌>>=◌, multipath_protocol}
use nebula_desk.Transport.Routes.{
  Shared, NativePath, write, magic, data_kind, probe_kind, echo_kind, ack_kind, envelope_len,
  reliable, window, byte_window, publish,
}
use nebula_desk.Transport.Liveness.{Link, internal, peer_ready, read_acks, echo}
use nebula_desk.Transport.Lossy
use nebula_desk.Transport.Lossy.{LossyWindow}

pub record Incoming : Type 0 where
  pub channel : Channel
  pub header : MsgHeader
  pub payload : List ℕ

-- The six maps by the channel's id, each an association list.
pub record Inbox : Type 0 where
  pub pending : ℕ → List (ℕ × Incoming)
  pub bytes : ℕ
  pub lossy : ℕ → LossyWindow
  pub media_epoch : ℕ
  pub cursor : ℕ

unfoldable pub new : Inbox
new = record {
  pending = λ _. [];
  bytes = 0;
  lossy = λ _. Lossy.default;
  media_epoch = 0;
  cursor = 0;
}

-- The inbox, the shared state, and the messages that the application has been given.
pub record World : Type 0 where
  pub inbox : Inbox
  pub shared : Shared
  pub output : List Incoming

unfoldable pub find : ℕ → List (ℕ × Incoming) → Option Incoming
find seq [] = none
find seq ((k, m) ∷ rest) = if k == seq then some m else find seq rest

unfoldable pub discard : ℕ → List (ℕ × Incoming) → List (ℕ × Incoming)
discard seq [] = []
discard seq ((k, m) ∷ rest) = if k == seq then discard seq rest else (k, m) ∷ discard seq rest

abbrev pub present : Option Incoming → Bool
present none = false
present (some m) = true

abbrev pub first_ready : (ℕ → Bool) → List ℕ → Option ℕ
first_ready test [] = none
first_ready test (i ∷ is) = if test i then some i else first_ready test is

unfoldable pub ready : Inbox → Shared → Option ℕ
unfolding find
ready inbox shared =
    let c = inbox.cursor in
    first_ready (λ i. present (find (shared.received i) (inbox.pending i)))
      (c % 6 ∷ (c + 1) % 6 ∷ (c + 2) % 6 ∷ (c + 3) % 6 ∷ (c + 4) % 6 ∷ (c + 5) % 6 ∷ [])

abbrev pub put {ℓ} : {A : Type ℓ} → (ℕ → A) → ℕ → A → ℕ → A
put f i v j = if j == i then v else f j

abbrev pub ids_of : Option NativePath → List ℕ
ids_of none = []
ids_of (some p) = p.id ∷ []

unfoldable pub ack_all : Link → Shared → List ℕ → ℕ → Shared
unfolding internal
ack_all link s [] now = s
ack_all link s (id ∷ ids) now = ack_all link (internal link s id ack_kind none now) ids now

unfoldable pub hand_over : Link → World → ℕ → Incoming → ℕ → World
unfolding discard ack_all
hand_over link w index message now =
    let inbox = w.inbox in
    let shared = w.shared in
    let next = shared.received index in
    let taken = record shared { received = write shared.received index (next + 1) } in
    record {
      inbox = record inbox {
        pending = put inbox.pending index (discard next (inbox.pending index));
        bytes = inbox.bytes - length message.payload;
        cursor = (index + 1) % 6;
      };
      shared =
          ack_all link taken (ids_of taken.routes.relay_path ++ ids_of taken.routes.direct_path)
            now;
      output = w.output ++ message ∷ [];
    }

-- The source takes the message with `unwrap`: `deliver` is called for a ready index only.
unfoldable pub deliver : Link → World → ℕ → ℕ → World
unfolding find hand_over
deliver link w index now = elim (find (w.shared.received index) (w.inbox.pending index)) [
  | none ↦ w
  | some message ↦ hand_over link w index message now
]

abbrev pub same_bytes : List ℕ → List ℕ → Bool
same_bytes [] [] = true
same_bytes (a ∷ rest) (b ∷ rest') = a == b && same_bytes rest rest'
same_bytes _ _ = false

abbrev pub same_header : MsgHeader → MsgHeader → Bool
same_header a b =
    a.version == b.version
    && to_u8 a.kind == to_u8 b.kind
    && a.flags == b.flags
    && a.seq == b.seq
    && a.timestamp_us == b.timestamp_us

abbrev pub is_reliable : Channel → Bool
is_reliable video = false
is_reliable audio = false
is_reliable _ = true

abbrev pub store : World → ℕ → ℕ → Incoming → World
store w index sequence message = record w {
  inbox = record (w.inbox) {
    bytes = w.inbox.bytes + length message.payload;
    pending = put w.inbox.pending index ((sequence, message) ∷ w.inbox.pending index);
  };
}

-- A reliable message with its sequence number, after the envelope was taken off.
unfoldable pub receive_reliable : Link → World → ℕ → ℕ → Incoming → ℕ → World × Result (Unit {0})
unfolding find internal
receive_reliable link w id sequence message now =
    let inbox = w.inbox in
    let shared = w.shared in
    let index = Channel.id message.channel in
    let next = shared.received index in
    if ltb sequence next
    then (record w { shared = internal link shared id ack_kind none now }, ok tt)
    else if sequence == 2 ^ 64 - 1 || leb window (sequence - next)
    then (w, err (multipath_protocol "logical receive window exceeded"))
    else elim (find sequence (inbox.pending index)) [
      | some previous ↦
          if not (same_header previous.header message.header)
            || not (same_bytes previous.payload message.payload)
          then (w, err (multipath_protocol "conflicting logical retransmission"))
          else (w, ok tt)
      | none ↦
          if leb (inbox.bytes + length message.payload) (byte_window * length reliable)
          then (store w index sequence message, ok tt)
          else (w, ok tt)
    ]

abbrev pub lossy_index : Channel → ℕ
lossy_index audio = 1
lossy_index _ = 0

-- A media message: stale epochs are dropped, a new epoch is published, duplicates are dropped.
unfoldable pub receive_lossy : World → ℕ → ℕ → Incoming → Bool → World
unfolding publish Lossy.accept
receive_lossy w sequence epoch message has_room =
    let inbox = w.inbox in
    if ltb epoch inbox.media_epoch
    then w
    else (let newer = ltb inbox.media_epoch epoch in
        let shared = if newer then publish w.shared w.shared.routes.active else w.shared in
        let index = lossy_index message.channel in
        let (filter, fresh) = Lossy.accept (inbox.lossy index) sequence in
        record {
          inbox = record inbox { media_epoch = epoch; lossy = put inbox.lossy index filter };
          shared = shared;
          output = if fresh && has_room then w.output ++ message ∷ [] else w.output;
        })

-- The fields of a data envelope, and the message without it.
abbrev pub sequence_of : Incoming → ℕ
sequence_of message = from_le (take 8 (drop 5 message.payload))

abbrev pub epoch_of : Incoming → ℕ
epoch_of message = from_le (take 8 (drop 13 message.payload))

abbrev pub bare : Incoming → Incoming
bare message = record message {
  header = record (message.header) { seq = sequence_of message % 2 ^ 32 };
  payload = drop envelope_len message.payload;
}

module _ (scaled : ℕ → ℕ) where
  unfoldable pub receive_data : Link → World → ℕ → Incoming → Bool → ℕ → World × Result (Unit {0})
  unfolding receive_reliable receive_lossy peer_ready
  receive_data link w id message has_room now =
      if ltb (length message.payload) envelope_len
      then (w, err (multipath_protocol "truncated data envelope"))
      else (let w' = record w { shared = peer_ready w.shared id now } in
          if is_reliable message.channel
          then receive_reliable link w' id (sequence_of message) (bare message) now
          else (
            receive_lossy w' (sequence_of message) (epoch_of message) (bare message) has_room,
            ok tt,
          ))

  -- What follows accepted acknowledgements of an internal message.
  unfoldable pub answer : Link → Shared → ℕ → ℕ → List ℕ → ℕ → Shared
  unfolding internal echo peer_ready
  answer link shared id kind payload now =
      let nonce = from_le (take 8 (drop 5 payload)) in
      let ready = peer_ready shared id now in
      if kind == ack_kind
      then ready
      else if kind == probe_kind
      then internal link ready id echo_kind (some nonce) now
      else echo scaled ready id nonce now

  -- The handler from the result of `read_acks` on.
  unfoldable pub accept_acks :
      Link → World → ℕ → ℕ → List ℕ → Shared × Result (Unit {0}) → ℕ → World × Result (Unit {0})
  unfolding answer
  accept_acks link w id kind payload (shared, err e) now = (record w { shared = shared }, err e)
  accept_acks link w id kind payload (shared, ok u) now =
      (record w { shared = answer link shared id kind payload now }, ok tt)

  abbrev pub is_audio : Channel → Bool
  is_audio audio = true
  is_audio _ = false

  unfoldable pub receive_internal : Link → World → ℕ → ℕ → Incoming → ℕ → World × Result (Unit {0})
  unfolding read_acks accept_acks
  receive_internal link w id kind message now =
      let payload = message.payload in
      let offset = if kind == ack_kind then 5 else 13 in
      if not (is_audio message.channel) || not (to_u8 message.header.kind == to_u8 Header.ping)
      then (w, err (multipath_protocol "wrong internal-message carrier"))
      else if not (length payload == offset + length reliable * 8)
      then (w, err (multipath_protocol "invalid internal-message length"))
      else accept_acks link w id kind payload (read_acks w.shared (drop offset payload)) now

  unfoldable pub receive : Link → World → ℕ → Incoming → Bool → ℕ → World × Result (Unit {0})
  unfolding receive_data receive_internal
  receive link w id message has_room now =
      let kind = get_or message.payload 4 0 in
      if ltb (length message.payload) 5 || not (same_bytes (take 4 message.payload) magic)
      then (w, err (multipath_protocol "missing multipath/1 envelope"))
      else if kind == data_kind
      then receive_data link w id message has_room now
      else if kind == probe_kind || kind == echo_kind || kind == ack_kind
      then receive_internal link w id kind message now
      else (w, err (multipath_protocol "unknown envelope type"))
