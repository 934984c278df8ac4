-- ===== src/Proto.antt =====
-- crates/ndp-proto: the wire format. This file has the errors and the integer readers of
-- crates/ndp-proto/src/lib.rs; the children have the headers and payloads.
-- A reader takes `buf: &mut &[u8]` as a list of bytes and returns the value with what is left.
pub mod Readers
pub mod Header
pub mod Caps
pub mod Channel
pub mod Float
pub mod Media
pub mod Transfer
pub mod Input
pub mod Application
mod Tests
use nebula_desk.Prelude.{ℕ, String, List, length, drop, ltb, if◌then◌else◌, Bool, true, false}
use nebula_desk.Prelude.{take as first}
use nebula_desk.Prelude.Bytes.{from_le}

-- The value that an `InvalidValue` error prints, before it is put into text.
pub data Shown : Type 0 where
  number : ℕ → Shown  -- `to_string()`
  pixels : ℕ → ℕ → Shown  -- `{width}x{height}`
  float : ℕ → Shown  -- an f32, by its bits
  text : String → Shown

pub data ProtoError : Type 0 where
  truncated : ℕ → ℕ → ProtoError  -- need, have
  unsupported_version : ℕ → ProtoError
  unknown_kind : ℕ → ProtoError
  invalid_value : String → Shown → ProtoError  -- field, value
  json : String → ProtoError

pub data Result {ℓ} (A : Type ℓ) : Type ℓ where
  ok : A → Result A
  err : ProtoError → Result A

infixl 5 ◌>>=◌ ◌>>◌
abbrev pub ◌>>=◌ {ℓ κ} : {A : Type ℓ} {B : Type κ} → Result A → (A → Result B) → Result B
err refusal >>= next = err refusal
ok value >>= next = next value

abbrev pub ◌>>◌ {ℓ} : {B : Type ℓ} → Result (Unit {0}) → Result B → Result B
first >> second = first >>= λ done. second

-- `if test { return Err(e) }`
abbrev pub refuse : Bool → ProtoError → Result (Unit {0})
refuse true e = err e
refuse false e = ok tt

unfoldable pub take : ℕ → List ℕ → Result (List ℕ × List ℕ)
take n buf =
    if ltb (length buf) n then err (truncated n (length buf)) else ok (first n buf, drop n buf)

-- The body of the macro `read_int!` at a width of `n` bytes.
unfoldable pub read_int : ℕ → List ℕ → Result (ℕ × List ℕ)
read_int n buf = do (bytes, rest) ← take n buf; ok (from_le bytes, rest)

abbrev pub read_u8 : List ℕ → Result (ℕ × List ℕ)
read_u8 = read_int 1

abbrev pub read_u16 : List ℕ → Result (ℕ × List ℕ)
read_u16 = read_int 2

abbrev pub read_u32 : List ℕ → Result (ℕ × List ℕ)
read_u32 = read_int 4

abbrev pub read_u64 : List ℕ → Result (ℕ × List ℕ)
read_u64 = read_int 8

-- An f32 is kept as its 32 bits.
abbrev pub read_f32 : List ℕ → Result (ℕ × List ℕ)
read_f32 = read_int 4
