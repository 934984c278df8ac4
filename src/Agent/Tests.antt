-- ===== src/Agent/Tests.antt =====
-- The engine for file transfers and the clipboard on concrete contents.
use mathlib.Core.List.{Memᴰ}
use nebula_desk.Prelude.{
  ℕ, ◌≤◌, ◌<◌, ◌≡◌, ◌⊎◌, ◌↔◌, inl, inr, refl, List, [], ◌∷◌, length, replicate, true, false, Option,
  none, some, arith, if◌then◌else◌, ◌==◌, Bool-cases, sym, ap, ◌∙◌,
}
use nebula_desk.Prelude.Maps.{lookup}
use nebula_desk.Agent.Files.{Name, Offer, ack, Sending, Receiving, FileTransfers, new, window}
use nebula_desk.Agent.Files.Ranges
use nebula_desk.Agent.Files.Ranges.{add, complete}
use nebula_desk.Agent.Files.Ranges.Merged.{In, In-add, complete-In}
use nebula_desk.Agent.Files.Disk.{exists}
use nebula_desk.Agent.Files.Send.{
  Source, send_file, SendOp, pump_at, ack_at, send_run, pump, first_wanting, on_ack, for_id, wants,
}
use nebula_desk.Agent.Files.Send.Drain.{Whole, chunks_left, all_left}
use nebula_desk.Agent.Files.Send.Termination.{Allowed, send_run-finished}
use nebula_desk.Agent.Files.Receive.{
  free, Closing, on_offer, accept_offer, free_name, on_chunk, receive_all,
}
use nebula_desk.Agent.Files.Receive.Published.{Stored, on_chunk-Stored}
use nebula_desk.Agent.Files.Receive.Delivery.{Delivered}
use nebula_desk.Agent.Files.Receive.Run.{Chunk}
use nebula_desk.Agent.Files.EndToEnd.{transfer-Delivered}
use nebula_desk.Proto.Transfer.{plain_text}
use nebula_desk.Agent.Clipboard.{
  Contents, absent, present, Reading, with_file_transfer, digest, store, on_data, ClipOp, polls,
  is_asked, is_sent, switches, clip_run,
}
use nebula_desk.Agent.Clipboard.Quiet.{Shows}
use nebula_desk.Agent.Clipboard.Echo.{OnlyAsks, on_data-silent}
use nebula_desk.Agent.Clipboard.Offered.{LogOffered, clip_run-LogOffered}

abbrev two_ranges : Ranges.Ranges
two_ranges = (0, 4) ∷ (8, 10) ∷ []

In-add_example : In 5 (add two_ranges 3 8) ↔ (In 5 two_ranges ⊎ ((3 ≤ 5) × (5 < 8)))
In-add_example = In-add 5 two_ranges 3 8 (omega arith)

complete-In_example : (complete two_ranges 4 ≡ true) ↔ ((x : ℕ) → x < 4 → In x two_ranges)
complete-In_example = complete-In two_ranges 4 (omega arith)

abbrev content : List ℕ
content = 7 ∷ 9 ∷ []

abbrev files : ℕ → Option (List ℕ)
files id = some content

abbrev on_its_way : Sending
on_its_way = record {
  offset = 0;
  size = 2;
  allowed = window;
  finished = false;
  last_progress = 0;
  name = b'a' ∷ [];
}

abbrev sending_one : FileTransfers
sending_one = record {
  enabled = true;
  next_id = 2;
  sending = (1, on_its_way) ∷ [];
  receiving = [];
  updates = [];
  last_telemetry = 0;
  disk = [];
}

-- Before it in the map stands a transfer whose file cannot be read any more.
abbrev sending_two : FileTransfers
sending_two = record sending_one { sending = (2, on_its_way) ∷ (1, on_its_way) ∷ [] }

abbrev first_file : ℕ → Option (List ℕ)
first_file id = if id == 1 then some content else none

sending_two-Allowed : Allowed content 1 sending_two on_its_way
unfolding lookup
sending_two-Allowed = record {
  keyed = (refl, (refl, tt));
  found = refl;
  sound = record {
    size = refl;
    within = omega arith;
    pending = λ u. inl (omega arith);
    over = λ f. cc;
  };
  allowed = omega arith;
  some_window = omega arith;
}

sending_two-Whole : Whole first_file sending_two.sending
unfolding lookup
sending_two-Whole j s bytes h f = elim (Bool-cases (j == 1)) [
  | inl one ↦
      let key : 1 ≡ j = ground arith in
      let held : content ≡ bytes = some_bytes (ap first_file key ∙ f) in
      let found : on_its_way ≡ s = some_sending (ap (λ i. lookup i sending_two.sending) key ∙ h) in
      let size : 2 ≡ s.size = ap (λ t. t.size) found in
      let long : 2 ≡ length bytes = ap length held in omega arith
  | inr other ↦ absurd (none_some (sym (rw other refl) ∙ f))
]
  where
    some_bytes : {x y : List ℕ} → some x ≡ some y → x ≡ y
    some_bytes h = cc

    some_sending : {x y : Sending} → some x ≡ some y → x ≡ y
    some_sending h = cc

    none_some : {x : List ℕ} → none ≡ some x → ⊥
    none_some h = cc

two_left : all_left sending_two.sending ≡ 2
unfolding all_left chunks_left wants
two_left = refl

send_run-finished_example :
    (s' : Sending) × (lookup 1
        (send_run first_file 1 sending_two (replicate 2 (pump_at 5)) []).0.sending
      ≡ some s')
    × (s'.finished ≡ true)
    × (s'.offset ≡ length content)
send_run-finished_example =
    send_run-finished content 1 first_file 5 2 sending_two on_its_way [] refl sending_two-Allowed
      sending_two-Whole (omega (arith, two_left))

abbrev same_hash : List ℕ → List ℕ
same_hash bytes = bytes

abbrev source : Source
source = record {
  name = some (b'a' ∷ []);
  stated = true;
  is_file = true;
  opens = true;
  still_file = true;
  reads = true;
  content = content;
  modified_secs = none;
}

abbrev sender : FileTransfers
unfolding new
sender = new true [] 0

abbrev receiver : FileTransfers
unfolding new
receiver = new true ((b'a' ∷ [], 1 ∷ []) ∷ []) 0

abbrev offer : Offer
offer = record {
  transfer_id = 1;
  name = b'a' ∷ [];
  size = 2;
  blake3 = content;
  modified_secs = none;
}

abbrev ops : List SendOp
ops = ack_at (record { transfer_id = 1; received = 0; window = window }) 3 ∷ pump_at 5 ∷ []

abbrev sent_away : Sending
sent_away = record {
  offset = 2;
  size = 2;
  allowed = window;
  finished = true;
  last_progress = 5;
  name = b'a' ∷ [];
}

abbrev part : Chunk
part = (record { transfer_id = 1; offset = 0 }, content, 5)

abbrev closing : Closing
closing = record { synced = true; readable = true; dir_ok = true; attempt = λ n. free }

transfer-Delivered_example :
    (path : Name) × (exists path receiver.disk ≡ false)
    × Delivered content path receiver.disk 1
        (receive_all same_hash closing (on_offer receiver offer true true 4).0 (part ∷ part ∷ []))
unfolding new send_file lookup send_run pump first_wanting on_ack on_offer accept_offer free_name
    for_id
transfer-Delivered_example =
    transfer-Delivered same_hash sender source (b'a' ∷ []) 2 0 offer files ops sent_away
      (part ∷ part ∷ []) receiver true true 4
      (ack (record { transfer_id = 1; received = 0; window = window })) closing tt refl refl refl
      refl refl (Memᴰ.head refl, (Memᴰ.head refl, tt)) (Memᴰ.head refl, tt)
      (record { synced = refl; readable = refl; first = refl })

abbrev arriving : Receiving
arriving = record {
  name = b'a' ∷ [];
  file = [];
  final_path = b'a' ∷ [];
  have = [];
  acked = 0;
  size = 2;
  expected = content;
  modified_secs = none;
  last_progress = 0;
}

abbrev receiving_one : FileTransfers
receiving_one = record sending_one { receiving = (1, arriving) ∷ [] }

on_chunk-Stored_example :
    Stored same_hash content []
      (on_chunk same_hash receiving_one
        (record { transfer_id = 1; offset = 0 })
        content
        true
        closing
        5).0.disk
unfolding lookup
on_chunk-Stored_example =
    on_chunk-Stored same_hash receiving_one (record { transfer_id = 1; offset = 0 }) content true
      closing 5 arriving refl

abbrev plain_print : Contents → Option (List ℕ)
plain_print x = some x.bytes

abbrev shown : Reading
shown = record {
  generation = none;
  files = absent;
  contents = present (record { format = plain_text; bytes = b'h' ∷ b'i' ∷ [] });
  later = none;
}

shown-Shows : Shows plain_print (b'h' ∷ b'i' ∷ []) shown
unfolding digest
shown-Shows = (refl, (record { format = plain_text; bytes = b'h' ∷ b'i' ∷ [] }, refl, refl))

abbrev after_data : List ClipOp
after_data =
    polls shown
    ∷ is_asked (record { offer_id = 1; format = plain_text })
    ∷ is_sent (record { offer_id = 9; format = plain_text }) (b'h' ∷ []) false
    ∷ switches false shown
    ∷ switches true shown
    ∷ polls shown
    ∷ []

on_data-silent_example : OnlyAsks (
    clip_run plain_print
      (on_data plain_print
        (with_file_transfer true false)
        (record { offer_id = 4; format = plain_text })
        (b'h' ∷ b'i' ∷ [])
        true).0
      after_data
      [])
unfolding with_file_transfer digest on_data store
on_data-silent_example =
    on_data-silent plain_print (with_file_transfer true false)
      (record { offer_id = 4; format = plain_text }) (b'h' ∷ b'i' ∷ []) (b'h' ∷ b'i' ∷ [])
      after_data refl refl
      (
        shown-Shows,
        (tt, (inl refl, ((shown-Shows, refl), ((shown-Shows, refl), (shown-Shows, tt))))),
      )

abbrev clip_ops : List ClipOp
clip_ops =
    polls shown
    ∷ is_asked (record { offer_id = 1; format = plain_text })
    ∷ is_sent (record { offer_id = 9; format = plain_text }) (b'h' ∷ []) true
    ∷ switches false shown
    ∷ []

clip_run-LogOffered_example :
    LogOffered (clip_run plain_print (with_file_transfer true false) clip_ops [])
clip_run-LogOffered_example = clip_run-LogOffered plain_print true false clip_ops
