-- ===== src/Proto/Input.antt =====
-- Input events, a packed 32-byte layout (crates/ndp-proto/src/input.rs). An f32 is its 32 bits.
pub mod RoundTrip
pub mod Batch
pub mod Coalesce
use nebula_desk.Prelude.{
  ℕ, zero, suc, ◌+◌, ◌*◌, ◌/◌, ◌%◌, ◌^◌, List, [], ◌∷◌, ◌++◌, leb, ltb, ◌==◌, ◌-◌, if◌then◌else◌,
  Bool, true, false, not, length, String, Option, none, some, drop,
}
use nebula_desk.Prelude.{take as first}
use nebula_desk.Prelude.Bytes.{to_le}
use nebula_desk.Proto.{
  Result, ok, err, ◌>>=◌, ◌>>◌, refuse, truncated, invalid_value, number, float, take, read_u8,
  read_u16, read_u32, read_f32,
}
use nebula_desk.Proto.Float.{is_finite, clamp, zero_f32, one_f32}

abbrev pub input_event_len : ℕ
input_event_len = 32

pub data InputKind : Type 0 where
  mouse_move mouse_down mouse_up mouse_drag wheel key_down key_up pointer_leave : InputKind

unfoldable pub kind_to_u8 : InputKind → ℕ
kind_to_u8 mouse_move = 1
kind_to_u8 mouse_down = 2
kind_to_u8 mouse_up = 3
kind_to_u8 mouse_drag = 4
kind_to_u8 wheel = 5
kind_to_u8 key_down = 6
kind_to_u8 key_up = 7
kind_to_u8 pointer_leave = 8

unfoldable pub kind_from_u8 : ℕ → Result InputKind
kind_from_u8 v =
    if v == 1
    then ok mouse_move
    else if v == 2
    then ok mouse_down
    else if v == 3
    then ok mouse_up
    else if v == 4
    then ok mouse_drag
    else if v == 5
    then ok wheel
    else if v == 6
    then ok key_down
    else if v == 7
    then ok key_up
    else if v == 8
    then ok pointer_leave
    else err (invalid_value "input kind" (number v))

unfoldable pub is_pointer : InputKind → Bool
is_pointer mouse_move = true
is_pointer mouse_down = true
is_pointer mouse_up = true
is_pointer mouse_drag = true
is_pointer wheel = true
is_pointer _ = false

unfoldable pub is_coalescible : InputKind → Bool
is_coalescible mouse_move = true
is_coalescible mouse_drag = true
is_coalescible _ = false

pub data MouseButton : Type 0 where
  no_button left right middle back forward : MouseButton

unfoldable pub button_to_u8 : MouseButton → ℕ
button_to_u8 no_button = 0
button_to_u8 left = 1
button_to_u8 right = 2
button_to_u8 middle = 3
button_to_u8 back = 4
button_to_u8 forward = 5

unfoldable pub button_from_u8 : ℕ → Result MouseButton
button_from_u8 v =
    if v == 0
    then ok no_button
    else if v == 1
    then ok left
    else if v == 2
    then ok right
    else if v == 3
    then ok middle
    else if v == 4
    then ok back
    else if v == 5
    then ok forward
    else err (invalid_value "mouse button" (number v))

-- `KeyCode::is_valid`: inside the keyboard page of the HID usages.
unfoldable pub is_valid_key : ℕ → Bool
is_valid_key key = leb key 0xe7

pub record InputEvent : Type 0 where
  pub kind : InputKind
  pub button : MouseButton
  pub modifiers : ℕ  -- u16
  pub display : ℕ  -- u8
  pub pointer_id : ℕ  -- u16
  pub x : ℕ  -- f32
  pub y : ℕ  -- f32
  pub scroll_x : ℕ  -- f32
  pub scroll_y : ℕ  -- f32
  pub key : ℕ  -- u32
  pub unicode : ℕ  -- u32

unfoldable pub at_pointer : ℕ → ℕ → ℕ → InputEvent
at_pointer x y modifiers = record {
  kind = mouse_move;
  button = no_button;
  modifiers = modifiers;
  display = 0;
  pointer_id = 0;
  x = x;
  y = y;
  scroll_x = zero_f32;
  scroll_y = zero_f32;
  key = 0;
  unicode = 0;
}

unfoldable pub at_key : InputKind → ℕ → ℕ → InputEvent
at_key kind key modifiers = record {
  kind = kind;
  button = no_button;
  modifiers = modifiers;
  display = 0;
  pointer_id = 0;
  x = zero_f32;
  y = zero_f32;
  scroll_x = zero_f32;
  scroll_y = zero_f32;
  key = key;
  unicode = 0;
}

unfoldable pub to_bytes : InputEvent → List ℕ
to_bytes e =
    to_le 1 (kind_to_u8 e.kind)
    ++ (to_le 1 (button_to_u8 e.button)
        ++ (to_le 2 e.modifiers
            ++ (to_le 1 e.display
                ++ (to_le 1 0
                    ++ (to_le 2 e.pointer_id
                        ++ (to_le 4 e.x
                            ++ (to_le 4 e.y
                                ++ (to_le 4 e.scroll_x
                                    ++ (to_le 4 e.scroll_y
                                        ++ (to_le 4 e.key ++ to_le 4 e.unicode))))))))))

unfoldable pub read_finite : List ℕ → String → Result (ℕ × List ℕ)
read_finite buf field = do
  (v, rest) ← read_f32 buf
  refuse (not (is_finite v)) (invalid_value field (float v))
  ok (v, rest)

unfoldable pub read_coord : List ℕ → String → Result (ℕ × List ℕ)
read_coord buf field = do (v, rest) ← read_finite buf field; ok (clamp zero_f32 one_f32 v, rest)

unfoldable pub decode : List ℕ → Result (InputEvent × List ℕ)
decode buf = do
  (kind_code, b1) ← read_u8 buf
  kind ← kind_from_u8 kind_code
  (button_code, b2) ← read_u8 b1
  button ← button_from_u8 button_code
  (modifiers, b3) ← read_u16 b2
  (display, b4) ← read_u8 b3
  (reserved, b5) ← read_u8 b4
  (pointer_id, b6) ← read_u16 b5
  (x, b7) ← read_coord b6 "x"
  (y, b8) ← read_coord b7 "y"
  (scroll_x, b9) ← read_finite b8 "scroll_x"
  (scroll_y, b10) ← read_finite b9 "scroll_y"
  (key, b11) ← read_u32 b10
  (unicode, b12) ← read_u32 b11
  refuse (not (is_valid_key key)) (invalid_value "key" (number key))
  ok (
    record {
      kind = kind;
      button = button;
      modifiers = modifiers;
      display = display;
      pointer_id = pointer_id;
      x = x;
      y = y;
      scroll_x = scroll_x;
      scroll_y = scroll_y;
      key = key;
      unicode = unicode;
    },
    b12,
  )

-- The loop of `decode_batch` with fuel; `none` means that the fuel ran out.
unfoldable pub decode_loop : ℕ → List ℕ → List InputEvent → Option (Result (List InputEvent))
decode_loop fuel [] out = some (ok out)
decode_loop zero (b ∷ buf) out = none
decode_loop (suc fuel) (b ∷ buf) out = elim (decode (b ∷ buf)) [
  | ok (e, rest) ↦ decode_loop fuel rest (out ++ (e ∷ []))
  | err x ↦ some (err x)
]

-- `next_multiple_of` of the standard library, at a multiple that is not 0.
abbrev pub next_multiple_of : ℕ → ℕ → ℕ
next_multiple_of n k = (n + (k - 1)) / k * k

-- Each round takes bytes off the buffer, so `length buf` rounds are enough.
unfoldable pub decode_batch : List ℕ → Option (Result (List InputEvent))
decode_batch buf =
    if not (length buf % input_event_len == 0)
    then some (err (truncated (next_multiple_of (length buf) input_event_len) (length buf)))
    else decode_loop (length buf) buf []

unfoldable pub encode_batch : List InputEvent → List ℕ
encode_batch [] = []
encode_batch (e ∷ events) = to_bytes e ++ encode_batch events

-- The items that the iterator of `iter_batch` yields, with fuel for the calls of `next`.
unfoldable pub iter_batch_loop : ℕ → List ℕ → List (Result InputEvent)
iter_batch_loop zero rest = []
iter_batch_loop (suc fuel) [] = []
iter_batch_loop (suc fuel) (b ∷ rest) =
    let more = iter_batch_loop fuel (drop input_event_len (b ∷ rest)) in
    if ltb (length (b ∷ rest)) input_event_len
    then err (truncated input_event_len (length (b ∷ rest))) ∷ []
    else (do (e, left_over) ← decode (first input_event_len (b ∷ rest)); ok e) ∷ more

unfoldable pub iter_batch : List ℕ → List (Result InputEvent)
unfolding iter_batch_loop
iter_batch buf = iter_batch_loop (length buf) buf
