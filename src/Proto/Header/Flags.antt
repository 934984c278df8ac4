-- ===== src/Proto/Header/Flags.antt =====
-- `MsgFlags` of crates/ndp-proto/src/header.rs: a u16 whose named bits are the constants here.
use nebula_desk.Prelude.{ℕ, ◌==◌, Bool, bit_and, bit_or, ◌≡◌, ◌≤◌, true, arith, max, min}
use nebula_desk.Prelude.Bits.{bit, bit-bit_or, bit-bit_and}

abbrev pub none : ℕ
none = 0

abbrev pub keyframe : ℕ
keyframe = 1

abbrev pub codec_config : ℕ
codec_config = 2

abbrev pub discardable : ℕ
discardable = 4

abbrev pub end_of_unit : ℕ
end_of_unit = 8

unfoldable pub contains : ℕ → ℕ → Bool
contains self other = bit_and self other == other

unfoldable pub union : ℕ → ℕ → ℕ
union self other = bit_or self other

-- A set that contains another has each of its bits.
pub contains-bit : (self other k : ℕ) → contains self other ≡ true → bit k other ≤ bit k self
unfolding contains
contains-bit self other k h =
    let same : bit_and self other ≡ other = ground arith in
    let cut : bit k other ≡ min (bit k self) (bit k other) =
      rw same at (bit-bit_and k self other) in
    omega arith

-- A union has a bit exactly when one of the two sets has it.
pub bit-union : (self other k : ℕ) → bit k (union self other) ≡ max (bit k self) (bit k other)
unfolding union
bit-union self other k = bit-bit_or k self other
