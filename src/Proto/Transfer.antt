-- ===== src/Proto/Transfer.antt =====
-- Clipboard and file-transfer messages (crates/ndp-proto/src/transfer.rs).
pub mod RoundTrip
pub mod SafeName
use nebula_desk.Prelude.{
  ℕ, List, [], ◌∷◌, ◌++◌, leb, ◌==◌, if◌then◌else◌, Bool, true, false, not, ◌&&◌, ◌||◌, length,
}
use nebula_desk.Prelude.Bytes.{to_le}
use nebula_desk.Proto.{
  Result, ok, err, ◌>>=◌, ◌>>◌, refuse, invalid_value, number, text, read_u8, read_u32, read_u64,
}

pub data ClipboardFormat : Type 0 where
  plain_text html png file_list : ClipboardFormat

unfoldable pub to_u8 : ClipboardFormat → ℕ
to_u8 plain_text = 1
to_u8 html = 2
to_u8 png = 3
to_u8 file_list = 4

unfoldable pub from_u8 : ℕ → Result ClipboardFormat
from_u8 v =
    if v == 1
    then ok plain_text
    else if v == 2
    then ok html
    else if v == 3
    then ok png
    else if v == 4
    then ok file_list
    else err (invalid_value "clipboard format" (number v))

pub record ClipboardDataHeader : Type 0 where
  pub offer_id : ℕ  -- u64
  pub format : ClipboardFormat

unfoldable pub clipboard_to_bytes : ClipboardDataHeader → List ℕ
clipboard_to_bytes h = to_le 8 h.offer_id ++ (to_le 1 (to_u8 h.format) ++ to_le 3 0)

unfoldable pub clipboard_split : List ℕ → Result (ClipboardDataHeader × List ℕ)
clipboard_split payload = do
  (offer_id, c1) ← read_u64 payload
  (code, c2) ← read_u8 c1
  format ← from_u8 code
  (pad1, c3) ← read_u8 c2
  (pad2, c4) ← read_u8 c3
  (pad3, c5) ← read_u8 c4
  ok (record { offer_id = offer_id; format = format }, c5)

unfoldable pub clipboard_payload : ClipboardDataHeader → List ℕ → List ℕ
unfolding clipboard_to_bytes
clipboard_payload h contents = clipboard_to_bytes h ++ contents

-- A file name is its UTF-8 bytes; the characters that are looked for are ASCII.
unfoldable pub has_byte : ℕ → List ℕ → Bool
has_byte b [] = false
has_byte b (c ∷ name) = c == b || has_byte b name

-- `n == "."` and `n == ".."`
unfoldable pub is_dots : List ℕ → Bool
is_dots (a ∷ []) = a == b'.'
is_dots (a ∷ b ∷ []) = a == b'.' && b == b'.'
is_dots _ = false

unfoldable pub starts_with_dot : List ℕ → Bool
starts_with_dot (a ∷ name) = a == b'.'
starts_with_dot [] = false

-- `n.len() >= 2 && n.as_bytes()[1] == b':'`
unfoldable pub has_drive : List ℕ → Bool
has_drive (a ∷ b ∷ name) = b == b':'
has_drive _ = false

unfoldable pub has_safe_name : List ℕ → Bool
unfolding has_byte is_dots starts_with_dot has_drive
has_safe_name name =
    not (length name == 0)
    && leb (length name) 255
    && not (is_dots name)
    && not (has_byte b'/' name)
    && not (has_byte 0x5c name)
    && not (has_byte 0 name)
    && not (starts_with_dot name)
    && not (has_drive name)

pub record FileChunkHeader : Type 0 where
  pub transfer_id : ℕ  -- u64
  pub offset : ℕ  -- u64

unfoldable pub chunk_to_bytes : FileChunkHeader → List ℕ
chunk_to_bytes h = to_le 8 h.transfer_id ++ to_le 8 h.offset

unfoldable pub chunk_split : List ℕ → Result (FileChunkHeader × List ℕ)
chunk_split payload = do
  (transfer_id, c1) ← read_u64 payload
  (offset, c2) ← read_u64 c1
  ok (record { transfer_id = transfer_id; offset = offset }, c2)

pub record FileAck : Type 0 where
  pub transfer_id : ℕ  -- u64
  pub received : ℕ  -- u64
  pub window : ℕ  -- u32

unfoldable pub ack_to_bytes : FileAck → List ℕ
ack_to_bytes a = to_le 8 a.transfer_id ++ (to_le 8 a.received ++ to_le 4 a.window)

unfoldable pub ack_decode : List ℕ → Result FileAck
ack_decode payload = do
  (transfer_id, c1) ← read_u64 payload
  (received, c2) ← read_u64 c1
  (window, c3) ← read_u32 c2
  refuse (window == 0) (invalid_value "window" (text "0"))
  ok (record { transfer_id = transfer_id; received = received; window = window })
