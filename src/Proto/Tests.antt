-- ===== src/Proto/Tests.antt =====
-- Runs of the wire format, the negotiation and the surface registry at concrete inputs.
use nebula_desk.Prelude.{
  ℕ, ◌^◌, ◌≢◌, [], ◌∷◌, ◌++◌, true, false, Option, none, some, ◌≡◌, refl, ◌↔◌, arith,
}
use mathlib.Core.List.{List}
use nebula_desk.Proto.{ok}
use nebula_desk.Proto.Float.{is_finite, float_lt, float_le, one_f32}
use nebula_desk.Proto.Header
use nebula_desk.Proto.Header.{MsgHeader, split, decode, ping}
use nebula_desk.Proto.Header.Codec
use nebula_desk.Proto.Header.Codec.{split-to_bytes, decode-eq_ok}
use nebula_desk.Proto.Caps
use nebula_desk.Proto.Caps.{Caps, negotiate, hevc, h264, opus}
use nebula_desk.Proto.Caps.Negotiate.{negotiate-is_valid}
use nebula_desk.Proto.Input
use nebula_desk.Proto.Input.{InputEvent, InputKind, to_bytes}
use nebula_desk.Proto.Input.RoundTrip.{IsEvent, InWords, decode-to_bytes}
use nebula_desk.Proto.Input.Batch.{decode_batch-encode_batch}
use nebula_desk.Proto.Input.Coalesce.{
  coalesce, coalesce_loop, add_event, supersedes, Kept, Settled, coalesce-Kept,
}
use nebula_desk.Proto.Media.{VideoFrameInfo, video_split, video_payload}
use nebula_desk.Proto.Media
use nebula_desk.Proto.Media.RoundTrip.{IsVideo}
use nebula_desk.Proto.Transfer.{FileChunkHeader, has_safe_name}
use nebula_desk.Proto.Transfer.SafeName.{IsSafe, has_safe_name-IsSafe}
use nebula_desk.Proto.Application
use nebula_desk.Proto.Application.{SurfaceInfo, SurfaceFrameInfo, Message, focus}
use nebula_desk.Proto.Application.Registry
use nebula_desk.Proto.Application.Registry.{
  Registry, get, new, upsert, remove, validate_command, validate_frame,
}
use nebula_desk.Proto.Application.Registry.Forest.{IsForest, upsert-IsForest, remove-IsForest}
use nebula_desk.Proto.Application.Registry.Ids.{
  here, upserted, AllFiled, upsert-AllFiled, NotBefore, Reaches-NotBefore,
}
use nebula_desk.Proto.Application.Registry.Retired.{removed_not_reused}

abbrev header : MsgHeader
header = record { version = 3; kind = ping; flags = 1; seq = 7; timestamp_us = 99 }

header-IsValid : Codec.IsValid header
header-IsValid = record {
  version = refl;
  flags = omega arith;
  seq = omega arith;
  timestamp_us = omega arith;
}

split-to_bytes_example : split (Header.to_bytes header ++ 4 ∷ 5 ∷ []) ≡ ok (header, 4 ∷ 5 ∷ [])
split-to_bytes_example = split-to_bytes header (4 ∷ 5 ∷ []) header-IsValid

abbrev caps_client : Caps
caps_client = record {
  video_codecs = hevc ∷ h264 ∷ [];
  audio_codecs = opus ∷ [];
  displays = record { width = 1920; height = 1080; scale = 0x4000_0000; refresh_hz = 60 } ∷ [];
  audio = record { sample_rate = 48000; channels = 2; frame_ms = 20 };
  color = record { bit_depth = 8; full_range = false; hdr = false };
  max_bitrate_bps = 40000000;
  features = 5;
}

abbrev caps_agent : Caps
caps_agent = record caps_client {
  video_codecs = h264 ∷ [];
  max_bitrate_bps = 20000000;
  features = 6;
}

abbrev caps_both : Caps
caps_both = record caps_client {
  video_codecs = h264 ∷ [];
  max_bitrate_bps = 20000000;
  features = 4;
}

agreed : negotiate caps_client caps_agent ≡ some caps_both
unfolding negotiate Caps.settled Caps.intersect
agreed = refl

client_valid : Caps.is_valid caps_client ≡ true
unfolding Caps.is_valid Caps.geometry_is_valid float_le
client_valid = refl

agent_valid : Caps.is_valid caps_agent ≡ true
unfolding Caps.is_valid Caps.geometry_is_valid float_le
agent_valid = refl

negotiate-is_valid_example : Caps.is_valid caps_both ≡ true
negotiate-is_valid_example =
    negotiate-is_valid caps_client caps_agent client_valid agent_valid agreed

abbrev window : ℕ → ℕ → Option ℕ → SurfaceInfo
window id generation parent = record {
  surface_id = id;
  geometry_generation = generation;
  title = 65 ∷ [];
  width = 800;
  height = 600;
  scale = one_f32;
  parent_surface_id = parent;
  modal = false;
  minimized = false;
}

abbrev empty : Registry
empty = record { max_surfaces = 4; used = λ _. false; live = [] }

abbrev one_window : Registry
one_window = record {
  max_surfaces = 4;
  used = Registry.mark empty.used 0;
  live = (0, window 0 1 none) ∷ [];
}

abbrev dialog : Registry
dialog = record {
  max_surfaces = 4;
  used = Registry.mark one_window.used 1;
  live = (0, window 0 1 none) ∷ (1, window 1 3 (some 0)) ∷ [];
}

shown_window : upsert empty (window 0 1 none) ≡ ok one_window
unfolding upsert Application.validate_surface Application.utf8_len Application.has_control
    Application.valid_size is_finite float_le Application.bad_parent get Registry.walk
    Registry.insert
shown_window = refl

shown_dialog : upsert one_window (window 1 3 (some 0)) ≡ ok dialog
unfolding upsert Application.validate_surface Application.utf8_len Application.has_control
    Application.valid_size is_finite float_le Application.bad_parent get Registry.walk
    Registry.insert
shown_dialog = refl

abbrev closed_dialog : Registry
closed_dialog = record dialog { live = (0, window 0 1 none) ∷ [] }

removed_dialog : remove dialog 1 ≡ ok closed_dialog
unfolding remove get Registry.any_child Registry.erase
removed_dialog = refl

empty-IsForest : IsForest []
unfolding get
empty-IsForest k s e = cc

one-IsForest : IsForest one_window.live
one-IsForest = upsert-IsForest empty (window 0 1 none) empty-IsForest shown_window

upsert-IsForest_example : IsForest dialog.live
upsert-IsForest_example = upsert-IsForest one_window (window 1 3 (some 0)) one-IsForest shown_dialog

remove-IsForest_example : IsForest closed_dialog.live
remove-IsForest_example = remove-IsForest dialog 1 upsert-IsForest_example removed_dialog

empty_filed : AllFiled empty
unfolding get
empty_filed k s e = cc

dialog_filed : AllFiled dialog
dialog_filed =
    upsert-AllFiled one_window (window 1 3 (some 0)) dialog
      (upsert-AllFiled empty (window 0 1 none) one_window empty_filed shown_window) shown_dialog

one_filed : AllFiled one_window
one_filed = upsert-AllFiled empty (window 0 1 none) one_window empty_filed shown_window

Reaches-NotBefore_example : NotBefore (window 0 1 none) (window 0 1 none)
unfolding get
Reaches-NotBefore_example =
    Reaches-NotBefore one_window 0 (window 0 1 none) (window 0 1 none) one_filed
      (upserted (window 1 3 (some 0)) here shown_dialog) refl refl

removed_not_reused_example :
    (get 1 closed_dialog.live ≡ none)
    × ((s : SurfaceInfo) (r : Registry) → s.surface_id ≡ 1 → upsert closed_dialog s ≢ ok r)
removed_not_reused_example = removed_not_reused dialog 1 dialog_filed removed_dialog here

focused : validate_command dialog (focus 1 3) ≡ ok (window 1 3 (some 0))
unfolding validate_command Application.validate Application.validate_target Registry.target_of
    Application.command_target Registry.live_surface get
focused = refl

abbrev frame_info : SurfaceFrameInfo
frame_info = record { geometry_generation = 3; surface_sequence = 12 }

frame_taken : validate_frame dialog 1 frame_info ≡ ok (window 1 3 (some 0))
unfolding validate_frame Registry.live_surface get
frame_taken = refl

abbrev move : InputEvent
move = Input.at_pointer 0 one_f32 5

move-IsEvent : IsEvent move
unfolding Input.at_pointer is_finite float_lt
move-IsEvent = record {
  modifiers = omega arith;
  display = omega arith;
  pointer_id = omega arith;
  x = record { finite = refl; low = refl; high = refl };
  y = record { finite = refl; low = refl; high = refl };
  scroll_x = refl;
  scroll_y = refl;
  key = omega arith;
}

move_words : InWords move
unfolding Input.at_pointer
move_words = record {
  x = omega arith;
  y = omega arith;
  scroll_x = omega arith;
  scroll_y = omega arith;
  unicode = omega arith;
}

decode-to_bytes_example : Input.decode (to_bytes move ++ 1 ∷ []) ≡ ok (move, 1 ∷ [])
decode-to_bytes_example = decode-to_bytes move (1 ∷ []) move-IsEvent move_words

decode_batch-encode_batch_example :
    Input.decode_batch (Input.encode_batch (move ∷ [])) ≡ some (ok (move ∷ []))
decode_batch-encode_batch_example =
    decode_batch-encode_batch (move ∷ []) ((move-IsEvent, move_words), tt)

abbrev moves : List InputEvent
moves = move ∷ move ∷ record move { display = 1 } ∷ []

coalesced : coalesce moves ≡ move ∷ record move { display = 1 } ∷ []
unfolding Input.at_pointer coalesce coalesce_loop add_event supersedes Input.kind_to_u8
    Input.is_coalescible Input.button_to_u8
coalesced = refl

coalesce-Kept_example : Kept moves (coalesce moves) × Settled (coalesce moves)
coalesce-Kept_example = coalesce-Kept moves

abbrev video_info : VideoFrameInfo
video_info = record {
  display = 1;
  codec = Media.hevc;
  width = 640;
  height = 480;
  duration_us = 16666;
}

video_info-IsVideo : IsVideo video_info
video_info-IsVideo = record {
  display = omega arith;
  width = omega arith;
  height = omega arith;
  duration_us = omega arith;
  wide = omega arith;
  high = omega arith;
}

abbrev chunk : FileChunkHeader
chunk = record { transfer_id = 6; offset = 2 ^ 40 }

has_safe_name-IsSafe_example :
    (has_safe_name (65 ∷ 46 ∷ 66 ∷ []) ≡ true) ↔ IsSafe (65 ∷ 46 ∷ 66 ∷ [])
has_safe_name-IsSafe_example = has_safe_name-IsSafe (65 ∷ 46 ∷ 66 ∷ [])
