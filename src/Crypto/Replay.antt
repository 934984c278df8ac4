-- ===== src/Crypto/Replay.antt =====
-- The sliding replay window of crates/ndp-crypto/src/replay.rs. A `u64` is a number; the shifts
-- of the source keep their widths.
pub mod Window
pub mod History
pub mod Once
use nebula_desk.Prelude.{
  ℕ, ◌+◌, ◌-◌, ◌*◌, ◌%◌, ◌^◌, min, max, bit_and, bit_or, Bool, true, false, not, ltb, leb, ◌==◌,
  if◌then◌else◌, List, [], ◌∷◌,
}

pub record ReplayWindow : Type 0 where
  pub highest : ℕ  -- u64
  pub bitmap : ℕ  -- u64; bit n is set when `highest - n` has been accepted
  pub started : Bool
  pub width : ℕ  -- u32

unfoldable pub with_width : ℕ → ReplayWindow
with_width width = record { highest = 0; bitmap = 0; started = false; width = min width 64 }

-- `ReplayWindow::DEFAULT_WIDTH`
abbrev pub default_width : ℕ
default_width = 64

unfoldable pub new : ReplayWindow
unfolding with_width
new = with_width default_width

unfoldable pub strict : ReplayWindow
unfolding with_width
strict = with_width 0

-- `1u64 << age` loses no bit, since `age` is below 64 where it is computed.
unfoldable pub would_accept : ReplayWindow → ℕ → Bool
would_accept w seq =
    let age = w.highest - seq in
    if not w.started
    then true
    else if ltb w.highest seq
    then true
    else if leb (max w.width 1) age
    then false
    else bit_and w.bitmap (2 ^ age) == 0

-- `bitmap << shift` on a u64, and 0 where the shift would reach the width of the word.
unfoldable pub shifted : ℕ → ℕ → ℕ
shifted bitmap shift = if leb 64 shift then 0 else bitmap * 2 ^ shift % 2 ^ 64

unfoldable pub accept : ReplayWindow → ℕ → ReplayWindow × Bool
accept w seq =
    if not w.started
    then (record w { started = true; highest = seq; bitmap = 1 }, true)
    else if ltb w.highest seq
    then (record w { bitmap = bit_or (shifted w.bitmap (seq - w.highest)) 1; highest = seq }, true)
    else if not (would_accept w seq)
    then (w, false)
    else (record w { bitmap = bit_or w.bitmap (2 ^ (w.highest - seq)) }, true)

-- The window offered a list of sequence numbers, one after the other, with its answers.
unfoldable pub accept_all : ReplayWindow → List ℕ → ReplayWindow × List Bool
accept_all w [] = (w, [])
accept_all w (seq ∷ rest) =
    let (w', verdict) = accept w seq in
    let (w'', verdicts) = accept_all w' rest in (w'', verdict ∷ verdicts)
