-- ===== src/Transport/Tests.antt =====
-- Runs of the transport at concrete inputs.
use nebula_desk.Prelude.{
  ℕ, ◌+◌, ◌≤◌, ◌≢◌, List, [], ◌∷◌, ◌++◌, length, true, false, none, some, ◌≡◌, refl, arith,
}
use nebula_desk.Prelude.Bytes.{to_le, from_le}
use nebula_desk.Proto.Channel
use nebula_desk.Proto.Channel.{Channel}
use nebula_desk.Proto.Header
use nebula_desk.Crypto.Replay
use nebula_desk.Transport.{ok, timed_out}
use nebula_desk.Transport.Wire.{
  frame, read_framed, read_framed-frame, length-read_framed, check_len,
}
use nebula_desk.Transport.Lossy
use nebula_desk.Transport.Lossy.{accept_all, as_replay, accept_all-as_replay, lossy-Distinct}
use nebula_desk.Transport.Routes.{Shared, fail_path, failure, position, new_path, selected, magic}
use nebula_desk.Transport.Routes.Coherent.{Coherent}
use nebula_desk.Transport.Liveness.{start, attach, Candidate, read_acks, Link}
use nebula_desk.Transport.Liveness.Reach.{
  Reached, started, joined, failed, Reached-Coherent, Reached-selected,
}
use nebula_desk.Transport.Liveness.Acks.{Bounded, Advances, read_acks-Advances}
use nebula_desk.Transport.Inbox
use nebula_desk.Transport.Inbox.{Incoming, World, receive, deliver, bare, sequence_of}
use nebula_desk.Transport.Inbox.Order.{on_channel, prefix}
use nebula_desk.Transport.Inbox.Streams.{Run, opened, arrived, handed, Run-delivered}

framed : frame (7 ∷ 8 ∷ []) 64 ≡ ok (2 ∷ 0 ∷ 0 ∷ 0 ∷ 7 ∷ 8 ∷ [])
unfolding frame check_len to_le
framed = refl

read_framed-frame_example :
    read_framed ((2 ∷ 0 ∷ 0 ∷ 0 ∷ 7 ∷ 8 ∷ []) ++ (9 ∷ [])) 64 ≡ ok (some (7 ∷ 8 ∷ [], 9 ∷ []))
read_framed-frame_example = read_framed-frame (7 ∷ 8 ∷ []) (9 ∷ []) 64 (omega arith) framed

abbrev record_bytes : List ℕ
record_bytes = 7 ∷ 8 ∷ []

length-read_framed_example : length record_bytes ≤ 64
length-read_framed_example =
    length-read_framed ((2 ∷ 0 ∷ 0 ∷ 0 ∷ 7 ∷ 8 ∷ []) ++ (9 ∷ [])) 64 read_framed-frame_example

abbrev arrivals : List ℕ
arrivals = 5 ∷ 3 ∷ 5 ∷ 70 ∷ 4 ∷ 68 ∷ []

accept_all-as_replay_example :
    (accept_all Lossy.default arrivals).1 ≡ (Replay.accept_all (as_replay Lossy.default) arrivals).1
accept_all-as_replay_example = accept_all-as_replay Lossy.default arrivals

abbrev candidate : Candidate
candidate = record {
  reuses = false;
  multipath = false;
  supports_probes = true;
  is_closed = false;
  same_peer = true;
  limit = 65536;
}

abbrev scaled : ℕ → ℕ
scaled d = d + 1

abbrev after_failure : Shared
after_failure = fail_path (attach 1024 (start 0) candidate 10).0 0 timed_out 20

lived : Reached scaled 1024 after_failure
lived = failed 0 timed_out 20 (joined candidate 10 (started 0))

Reached-Coherent_example : Coherent after_failure
Reached-Coherent_example = Reached-Coherent scaled 1024 lived

still_up : after_failure.shutdown ≡ false
unfolding fail_path attach start failure position new_path
still_up = refl

Reached-selected_example : selected after_failure ≢ none
Reached-selected_example = Reached-selected scaled 1024 lived still_up

start-Bounded : Bounded (start 0)
unfolding start
start-Bounded i = omega arith

read_acks-Advances_example : Advances (start 0) (read_acks (start 0) (1 ∷ 2 ∷ [])).0
read_acks-Advances_example = read_acks-Advances (start 0) (1 ∷ 2 ∷ []) start-Bounded

-- Two control messages, the second one first, then both handed over.
abbrev message : ℕ → Incoming
message n = record {
  channel = Channel.control;
  header = record { version = 3; kind = Header.ping; flags = 0; seq = 0; timestamp_us = 0 };
  payload = magic ++ 0 ∷ n ∷ 0 ∷ 0 ∷ 0 ∷ 0 ∷ 0 ∷ 0 ∷ 0 ∷ 0 ∷ 0 ∷ 0 ∷ 0 ∷ 0 ∷ 0 ∷ 0 ∷ 0 ∷ n ∷ [];
}

abbrev stream : ℕ → Incoming
stream n = bare (message n)

abbrev link : Link
link id payload = none

abbrev late : World
late =
    (receive scaled link (record { inbox = Inbox.new; shared = start 0; output = [] }) 0 (message 1)
      true 5).0

abbrev both : World
both = (receive scaled link late 0 (message 0) true 6).0

abbrev all_handed : World
all_handed = deliver link (deliver link both 0 7) 0 8

run : Run Channel.control stream scaled all_handed
unfolding from_le
run = handed link 0 8 (
    handed link 0 7 (
      arrived link 0 (message 0) true 6 (λ e. refl)
        (arrived link 0 (message 1) true 5 (λ e. refl) (opened 0))))

Run-delivered_example :
    on_channel Channel.control all_handed.output
    ≡ prefix stream (all_handed.shared.received (Channel.id Channel.control))
Run-delivered_example = Run-delivered Channel.control stream scaled refl run

two_delivered : all_handed.shared.received 0 ≡ 2
unfolding deliver receive start Inbox.new from_le new_path Channel.id
two_delivered = refl
