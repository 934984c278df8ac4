-- ===== src/Proto/Header.antt =====
-- The 16-byte cleartext record header (crates/ndp-proto/src/header.rs).
pub mod Codec
pub mod Flags
use nebula_desk.Prelude.{ℕ, List, ◌++◌, ltb, ◌==◌, if◌then◌else◌, Bool, not}
use nebula_desk.Prelude.Bytes.{to_le}
use nebula_desk.Proto.{
  Result, ok, err, ◌>>=◌, ◌>>◌, refuse, unsupported_version, unknown_kind, read_u8, read_u16,
  read_u32, read_u64,
}

abbrev pub protocol_version : ℕ
protocol_version = 3

abbrev pub header_len : ℕ
header_len = 16

pub data MsgKind : Type 0 where
  hello hello_ack bye ping pong caps_update display_layout cursor_shape : MsgKind
  cursor_pos qos_report path_candidates application : MsgKind
  video_frame audio_frame input_event input_batch : MsgKind
  clipboard_offer clipboard_data clipboard_request : MsgKind
  file_offer file_chunk file_ack : MsgKind

-- The discriminants of the `repr(u8)` enum, `self as u8`.
unfoldable pub to_u8 : MsgKind → ℕ
to_u8 hello = 0x01
to_u8 hello_ack = 0x02
to_u8 bye = 0x03
to_u8 ping = 0x04
to_u8 pong = 0x05
to_u8 caps_update = 0x06
to_u8 display_layout = 0x07
to_u8 cursor_shape = 0x08
to_u8 cursor_pos = 0x09
to_u8 qos_report = 0x0a
to_u8 path_candidates = 0x0b
to_u8 application = 0x0c
to_u8 video_frame = 0x20
to_u8 audio_frame = 0x21
to_u8 input_event = 0x40
to_u8 input_batch = 0x41
to_u8 clipboard_offer = 0x60
to_u8 clipboard_data = 0x61
to_u8 clipboard_request = 0x62
to_u8 file_offer = 0x70
to_u8 file_chunk = 0x71
to_u8 file_ack = 0x72

unfoldable pub from_u8 : ℕ → Result MsgKind
from_u8 v =
    if v == 0x01
    then ok hello
    else if v == 0x02
    then ok hello_ack
    else if v == 0x03
    then ok bye
    else if v == 0x04
    then ok ping
    else if v == 0x05
    then ok pong
    else if v == 0x06
    then ok caps_update
    else if v == 0x07
    then ok display_layout
    else if v == 0x08
    then ok cursor_shape
    else if v == 0x09
    then ok cursor_pos
    else if v == 0x0a
    then ok qos_report
    else if v == 0x0b
    then ok path_candidates
    else if v == 0x0c
    then ok application
    else if v == 0x20
    then ok video_frame
    else if v == 0x21
    then ok audio_frame
    else if v == 0x40
    then ok input_event
    else if v == 0x41
    then ok input_batch
    else if v == 0x60
    then ok clipboard_offer
    else if v == 0x61
    then ok clipboard_data
    else if v == 0x62
    then ok clipboard_request
    else if v == 0x70
    then ok file_offer
    else if v == 0x71
    then ok file_chunk
    else if v == 0x72
    then ok file_ack
    else err (unknown_kind v)

unfoldable pub is_control : MsgKind → Bool
is_control kind = ltb (to_u8 kind) 0x20

pub record MsgHeader : Type 0 where
  pub version : ℕ  -- u8
  pub kind : MsgKind
  pub flags : ℕ  -- u16
  pub seq : ℕ  -- u32
  pub timestamp_us : ℕ  -- u64

unfoldable pub new : MsgKind → ℕ → ℕ → MsgHeader
new kind seq timestamp_us = record {
  version = protocol_version;
  kind = kind;
  flags = Flags.none;
  seq = seq;
  timestamp_us = timestamp_us;
}

unfoldable pub with_flags : MsgHeader → ℕ → MsgHeader
with_flags h flags = record h { flags = flags }

unfoldable pub to_bytes : MsgHeader → List ℕ
to_bytes h =
    to_le 1 h.version
    ++ (to_le 1 (to_u8 h.kind) ++ (to_le 2 h.flags ++ (to_le 4 h.seq ++ to_le 8 h.timestamp_us)))

unfoldable pub decode : List ℕ → Result (MsgHeader × List ℕ)
decode buf = do
  (version, buf1) ← read_u8 buf
  refuse (not (version == protocol_version)) (unsupported_version version)
  (code, buf2) ← read_u8 buf1
  kind ← from_u8 code
  (flags, buf3) ← read_u16 buf2
  (seq, buf4) ← read_u32 buf3
  (timestamp_us, buf5) ← read_u64 buf4
  ok (
    record {
      version = version;
      kind = kind;
      flags = flags;
      seq = seq;
      timestamp_us = timestamp_us;
    },
    buf5,
  )

-- `split` decodes from a cursor over the record, and returns what the cursor has left.
unfoldable pub split : List ℕ → Result (MsgHeader × List ℕ)
unfolding decode
split buf = do (header, cursor) ← decode buf; ok (header, cursor)
