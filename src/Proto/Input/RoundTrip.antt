-- ===== src/Proto/Input/RoundTrip.antt =====
-- One input event: encoding, decoding, and what the decoder guarantees of any bytes.
use nebula_desk.Prelude.{
  ℕ, ◌+◌, ◌^◌, ◌≤◌, ◌<◌, List, ◌++◌, leb, true, false, not, ◌≡◌, refl, arith, All, append_assoc,
  length, String, length-append,
}
use nebula_desk.Prelude.Bytes.{IsByte, to_le, length-to_le}
use nebula_desk.Proto.{Result, ok, ◌>>=◌, invalid_value, float, number}
use nebula_desk.Proto.Readers.{read_int-to_le, read_inv, refuse_inv, bind_inv, ok_inv}
use nebula_desk.Proto.Float.{is_finite, clamp, zero_f32, one_f32, InUnit, clamp-InUnit, clamp_unit}
use nebula_desk.Proto.Input.{
  InputKind, mouse_move, kind_to_u8, kind_from_u8, MouseButton, no_button, button_to_u8,
  button_from_u8, is_valid_key, InputEvent, to_bytes, read_finite, read_coord, decode,
  input_event_len,
}

-- An event that stands on the wire as it is: every field in its width, the position within the
-- unit square, finite scrolling and a key of the keyboard page.
pub record IsEvent (e : InputEvent) : Type 0 where
  pub modifiers : e.modifiers < 2 ^ 16
  pub display : e.display < 2 ^ 8
  pub pointer_id : e.pointer_id < 2 ^ 16
  pub x : InUnit e.x
  pub y : InUnit e.y
  pub scroll_x : is_finite e.scroll_x ≡ true
  pub scroll_y : is_finite e.scroll_y ≡ true
  pub key : e.key ≤ 0xe7

-- The floats are words of 32 bits.
pub record InWords (e : InputEvent) : Type 0 where
  pub x : e.x < 2 ^ 32
  pub y : e.y < 2 ^ 32
  pub scroll_x : e.scroll_x < 2 ^ 32
  pub scroll_y : e.scroll_y < 2 ^ 32
  pub unicode : e.unicode < 2 ^ 32

kind_known : (k : InputKind) → (kind_from_u8 (kind_to_u8 k) ≡ ok k) × (kind_to_u8 k < 256)
unfolding kind_from_u8 kind_to_u8
kind_known mouse_move = (refl, omega arith)
kind_known _ = (refl, omega arith)

button_known : (b : MouseButton) → (button_from_u8 (button_to_u8 b) ≡ ok b) × (button_to_u8 b < 256)
unfolding button_from_u8 button_to_u8
button_known no_button = (refl, omega arith)
button_known _ = (refl, omega arith)

read_finite-to_le :
    (v : ℕ) (rest : List ℕ) (field : String)
    → v < 2 ^ 32
    → is_finite v ≡ true
    → read_finite (to_le 4 v ++ rest) field ≡ ok (v, rest)
unfolding read_finite
read_finite-to_le v rest field h f = rw (read_int-to_le 4 v rest h, f)

read_coord-to_le :
    (v : ℕ) (rest : List ℕ) (field : String)
    → v < 2 ^ 32
    → InUnit v
    → read_coord (to_le 4 v ++ rest) field ≡ ok (v, rest)
unfolding read_coord
read_coord-to_le v rest field h u = rw (read_finite-to_le v rest field h u.finite, clamp_unit v u)

-- Decoding gives back an event that was encoded, if its fields are in range (the coordinates in
-- [0, 1], the scroll finite, a known key), and leaves what follows it.
pub decode-to_bytes :
    (e : InputEvent) (rest : List ℕ)
    → IsEvent e
    → InWords e
    → decode (to_bytes e ++ rest) ≡ ok (e, rest)
unfolding decode to_bytes is_valid_key
decode-to_bytes e rest v w =
    let (kind, kind_small) = kind_known e.kind in
    let (button, button_small) = button_known e.button in
    let key_ok : leb e.key 0xe7 ≡ true = ground arith in
    simp append_assoc (
      rw (
        read_int-to_le 1 (kind_to_u8 e.kind) _ kind_small,
        kind,
        read_int-to_le 1 (button_to_u8 e.button) _ button_small,
        button,
        read_int-to_le 2 e.modifiers _ v.modifiers,
        read_int-to_le 1 e.display _ v.display,
        read_int-to_le 1 0 _ (omega arith),
        read_int-to_le 2 e.pointer_id _ v.pointer_id,
        read_coord-to_le e.x _ "x" w.x v.x,
        read_coord-to_le e.y _ "y" w.y v.y,
        read_finite-to_le e.scroll_x _ "scroll_x" w.scroll_x v.scroll_x,
        read_finite-to_le e.scroll_y _ "scroll_y" w.scroll_y v.scroll_y,
        read_int-to_le 4 e.key _ (omega arith),
        read_int-to_le 4 e.unicode rest w.unicode,
        key_ok,
      ))

pub length-to_bytes : (e : InputEvent) → length (to_bytes e) ≡ input_event_len
unfolding to_bytes
length-to_bytes e = simp (length-append, length-to_le)

module _ {ℓ κ} {B : Type ℓ} {P : Type κ} {b : B} where
  finite_inv :
      (buf : List ℕ) (field : String) (f : ℕ × List ℕ → Result B)
      → All IsByte buf
      → (read_finite buf field >>= f) ≡ ok b
      → ((v : ℕ) (rest : List ℕ)
          → buf ≡ to_le 4 v ++ rest
          → is_finite v ≡ true
          → All IsByte rest
          → f (v, rest) ≡ ok b
          → P)
      → P
  unfolding read_finite
  finite_inv buf field f b0 h k = bind_inv (read_finite buf field) f h λ r g0 h'.
      read_inv 4 buf _ b0 g0 λ v rest e l b1 g1.
        refuse_inv (not (is_finite v)) (invalid_value field (float v)) _ g1 λ finite g2.
          ok_inv (λ (q : ℕ × List ℕ). f q ≡ ok b → P) (v, rest) g2 (k v rest e (ground arith) b1) h'

module _ {ℓ κ} {B : Type ℓ} {P : Type κ} {b : B} where
  coord_inv :
      (buf : List ℕ) (field : String) (f : ℕ × List ℕ → Result B)
      → All IsByte buf
      → (read_coord buf field >>= f) ≡ ok b
      → ((v w : ℕ) (rest : List ℕ)
          → buf ≡ to_le 4 w ++ rest
          → InUnit v
          → All IsByte rest
          → f (v, rest) ≡ ok b
          → P)
      → P
  unfolding read_coord
  coord_inv buf field f b0 h k = bind_inv (read_coord buf field) f h λ r g0 h'.
      finite_inv buf field _ b0 g0 λ w rest e finite b1 g1.
        ok_inv (λ (q : ℕ × List ℕ). f q ≡ ok b → P) (clamp zero_f32 one_f32 w, rest) g1
          (k (clamp zero_f32 one_f32 w) w rest e (clamp-InUnit w finite) b1) h'

read_size : (n v : ℕ) (buf rest : List ℕ) → buf ≡ to_le n v ++ rest → length buf ≡ n + length rest
read_size n v buf rest e = rw (e, length-append (to_le n v) rest, length-to_le n v)

-- What decoding one event from a buffer yields: a checked event, and the buffer less 32 bytes.
pub record Decoded (buf : List ℕ) (e : InputEvent) (rest : List ℕ) : Type 0 where
  pub event : IsEvent e
  pub taken : length buf ≡ input_event_len + length rest
  pub bytes : All IsByte rest

-- Whatever bytes arrive, an event that is decoded has its position in the unit square, finite
-- scrolling and a key of the keyboard page, and has taken exactly 32 bytes.
pub decode-Decoded :
    (buf : List ℕ) {e : InputEvent} {rest : List ℕ}
    → All IsByte buf
    → decode buf ≡ ok (e, rest)
    → Decoded buf e rest
unfolding decode
decode-Decoded buf b0 g0 = read_inv 1 buf _ b0 g0 λ kind_code r1 e1 l1 b1 g1.
    bind_inv (kind_from_u8 kind_code) _ g1 λ kind _ g2.
      read_inv 1 r1 _ b1 g2 λ button_code r2 e2 l2 b2 g3.
        bind_inv (button_from_u8 button_code) _ g3 λ button _ g4.
          read_inv 2 r2 _ b2 g4 λ modifiers r3 e3 l3 b3 g5.
            read_inv 1 r3 _ b3 g5 λ display r4 e4 l4 b4 g6.
              read_inv 1 r4 _ b4 g6 λ reserved r5 e5 l5 b5 g7.
                read_inv 2 r5 _ b5 g7 λ pointer_id r6 e6 l6 b6 g8.
                  coord_inv r6 "x" _ b6 g8 λ x wx r7 e7 ux b7 g9.
                    coord_inv r7 "y" _ b7 g9 λ y wy r8 e8 uy b8 g10.
                      finite_inv r8 "scroll_x" _ b8 g10 λ scroll_x r9 e9 fx b9 g11.
                        finite_inv r9 "scroll_y" _ b9 g11 λ scroll_y r10 e10 fy b10 g12.
                          read_inv 4 r10 _ b10 g12 λ key r11 e11 l11 b11 g13.
                            read_inv 4 r11 _ b11 g13 λ unicode r12 e12 l12 b12 g14.
                              refuse_inv (not (is_valid_key key)) (invalid_value "key" (number key))
                                _ g14
                                λ in_page g15.
                                  ok_inv (λ (q : InputEvent × List ℕ). Decoded buf q.0 q.1)
                                    (
                                      record {
                                        kind = kind;
                                        button = button;
                                        modifiers = modifiers;
                                        display = display;
                                        pointer_id = pointer_id;
                                        x = x;
                                        y = y;
                                        scroll_x = scroll_x;
                                        scroll_y = scroll_y;
                                        key = key;
                                        unicode = unicode;
                                      },
                                      r12,
                                    )
                                    g15
                                    (record {
                                      event = record {
                                        modifiers = l3;
                                        display = l4;
                                        pointer_id = l6;
                                        x = ux;
                                        y = uy;
                                        scroll_x = fx;
                                        scroll_y = fy;
                                        key = valid_key key in_page;
                                      };
                                      taken = omega (
                                        arith,
                                        read_size 1 kind_code buf r1 e1,
                                        read_size 1 button_code r1 r2 e2,
                                        read_size 2 modifiers r2 r3 e3,
                                        read_size 1 display r3 r4 e4,
                                        read_size 1 reserved r4 r5 e5,
                                        read_size 2 pointer_id r5 r6 e6,
                                        read_size 4 wx r6 r7 e7,
                                        read_size 4 wy r7 r8 e8,
                                        read_size 4 scroll_x r8 r9 e9,
                                        read_size 4 scroll_y r9 r10 e10,
                                        read_size 4 key r10 r11 e11,
                                        read_size 4 unicode r11 r12 e12,
                                      );
                                      bytes = b12;
                                    })
  where
    valid_key : (key : ℕ) → not (is_valid_key key) ≡ false → key ≤ 0xe7
    valid_key key h = unfold is_valid_key in ground arith
