-- ===== src/Crypto/Replay/Window.antt =====
-- The bitmap of the window against the list of all sequence numbers that were ever accepted.
use nebula_desk.Prelude.{
  ℕ, ◌+◌, ◌-◌, ◌≤◌, ◌<◌, max, Bool, true, false, not, ltb, ◌==◌, ◌&&◌, ◌||◌, if◌then◌else◌, List,
  [], ◌∷◌, ◌≡◌, refl, arith,
}
use nebula_desk.Prelude.Bits.{bit, mask_test}
use nebula_desk.Crypto.Replay.{ReplayWindow, with_width, would_accept}

unfoldable pub contains : List ℕ → ℕ → Bool
contains [] seq = false
contains (x ∷ log) seq = seq == x || contains log seq

unfoldable pub newest : List ℕ → ℕ
newest [] = 0
newest (x ∷ log) = max x (newest log)

pub contains-le_newest : (log : List ℕ) (seq : ℕ) → contains log seq ≡ true → seq ≤ newest log
unfolding contains newest
contains-le_newest [] seq h = cc
contains-le_newest (x ∷ log) seq h = ground (arith, contains-le_newest log seq)

-- The specification: what was accepted is refused, and so is what lies `max width 1` or more
-- behind the newest number accepted.
unfoldable pub admits : ℕ → List ℕ → ℕ → Bool
admits width [] seq = true
admits width (x ∷ log) seq =
    not (contains (x ∷ log) seq) && ltb (newest (x ∷ log)) (seq + max width 1)

-- `log` is the list of all the numbers accepted so far, the last one first.
pub record Tracks (w : ReplayWindow) (log : List ℕ) : Type 0 where
  pub narrow : w.width ≤ 64
  pub idle : w.started ≡ false → log ≡ []
  pub busy : w.started ≡ true → contains log w.highest ≡ true
  pub top : w.started ≡ true → w.highest ≡ newest log
  pub exact :
      w.started ≡ true
      → (age : ℕ) → age < 64
      → age ≤ w.highest
      → bit age w.bitmap ≡ (if contains log (w.highest - age) then 1 else 0)

pub with_width-Tracks : (width : ℕ) → Tracks (with_width width) []
unfolding with_width
with_width-Tracks width = record {
  narrow = omega arith;
  idle = λ _. refl;
  busy = λ h. cc;
  top = λ h. cc;
  exact = λ h. cc;
}

-- An empty history is one of a window that has not started, and the other way round.
pub not_started : (w : ReplayWindow) → Tracks w [] → w.started ≡ false
unfolding contains
not_started w t = ground (arith, t.busy)

pub has_started : (w : ReplayWindow) (x : ℕ) (log : List ℕ) → Tracks w (x ∷ log) → w.started ≡ true
has_started w x log t = ground (arith, t.idle)

-- The test that the window makes is the specification's.
pub would_accept-admits :
    (w : ReplayWindow) (log : List ℕ) (seq : ℕ)
    → Tracks w log
    → would_accept w seq ≡ admits w.width log seq
unfolding would_accept admits
would_accept-admits w [] seq t = ground (arith, not_started w t)
would_accept-admits w (x ∷ log) seq t =
    let on : w.started ≡ true = has_started w x log t in
    ground (
      arith,
      on,
      t.top on,
      mask_test w.bitmap (w.highest - seq),
      t.exact on (w.highest - seq),
      contains-le_newest (x ∷ log) seq,
    )
