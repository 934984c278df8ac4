-- ===== src/Proto/Transfer/RoundTrip.antt =====
-- The transfer headers and their parsers agree.
use nebula_desk.Prelude.{
  ℕ, ◌^◌, ◌<◌, List, [], ◌∷◌, ◌++◌, ◌==◌, false, ◌≡◌, refl, arith, append_assoc,
}
use nebula_desk.Prelude.Bytes.{to_le}
use nebula_desk.Proto.{ok}
use nebula_desk.Proto.Readers.{read_int-to_le, read_u8-cons}
use nebula_desk.Proto.Transfer.{
  ClipboardFormat, plain_text, to_u8, from_u8, ClipboardDataHeader, clipboard_split,
  clipboard_payload, FileChunkHeader, chunk_to_bytes, chunk_split, FileAck, ack_to_bytes,
  ack_decode,
}

format_known : (f : ClipboardFormat) → (from_u8 (to_u8 f) ≡ ok f) × (to_u8 f < 256)
unfolding from_u8 to_u8
format_known plain_text = (refl, omega arith)
format_known _ = (refl, omega arith)

padding : to_le 3 0 ≡ 0 ∷ 0 ∷ 0 ∷ []
unfolding to_le
padding = refl

-- A clipboard payload splits into the header and the contents that it was built from.
pub clipboard_split-payload :
    (h : ClipboardDataHeader) (contents : List ℕ)
    → h.offer_id < 2 ^ 64
    → clipboard_split (clipboard_payload h contents) ≡ ok (h, contents)
unfolding clipboard_split clipboard_payload
clipboard_split-payload h contents l =
    let (known, small) = format_known h.format in
    simp (append_assoc, padding)
      (rw (
        read_int-to_le 8 h.offer_id _ l,
        read_int-to_le 1 (to_u8 h.format) _ small,
        known,
        read_u8-cons 0 (0 ∷ 0 ∷ contents) (omega arith),
        read_u8-cons 0 (0 ∷ contents) (omega arith),
        read_u8-cons 0 contents (omega arith),
      ))

-- A file chunk splits into the header, if its fields have 64 bits, and the bytes that follow it.
pub chunk_split-bytes :
    (h : FileChunkHeader) (bytes : List ℕ)
    → h.transfer_id < 2 ^ 64
    → h.offset < 2 ^ 64
    → chunk_split (chunk_to_bytes h ++ bytes) ≡ ok (h, bytes)
unfolding chunk_split chunk_to_bytes
chunk_split-bytes h bytes l m =
    simp append_assoc (rw (read_int-to_le 8 h.transfer_id _ l, read_int-to_le 8 h.offset _ m))

pub record IsAck (a : FileAck) : Type 0 where
  pub transfer_id : a.transfer_id < 2 ^ 64
  pub received : a.received < 2 ^ 64
  pub window : a.window < 2 ^ 32
  pub open_window : 0 < a.window

-- An acknowledgement decodes to itself, and whatever is accepted offers a window.
pub ack_decode-to_bytes :
    (a : FileAck) (more : List ℕ) → IsAck a → ack_decode (ack_to_bytes a ++ more) ≡ ok a
unfolding ack_decode ack_to_bytes
ack_decode-to_bytes a more v =
    let opened : (a.window == 0) ≡ false = ground arith in
    simp append_assoc (
      rw (
        read_int-to_le 8 a.transfer_id _ v.transfer_id,
        read_int-to_le 8 a.received _ v.received,
        read_int-to_le 4 a.window more v.window,
        opened,
      ))
