-- ===== src/Transport/Lossy.antt =====
-- `LossyWindow` of crates/ndp-transport/src/multipath.rs, the duplicate filter for media, and
-- how it relates to the replay window of the records below it.
use nebula_desk.Prelude.{
  ℕ, ◌-◌, ◌*◌, ◌%◌, ◌^◌, bit_and, bit_or, Bool, true, false, not, ◌||◌, ltb, leb, ◌==◌,
  if◌then◌else◌, List, [], ◌∷◌, Option, none, some, ◌≡◌, refl, ap, arith,
}
use nebula_desk.Crypto.Replay
use nebula_desk.Crypto.Replay.Once.{Distinct, kept, accept_all-Distinct}
use nebula_desk.Crypto.Replay.{ReplayWindow, would_accept, shifted, default_width}

pub record LossyWindow : Type 0 where
  pub highest : Option ℕ  -- u64
  pub bits : ℕ  -- u64

abbrev pub default : LossyWindow
default = record { highest = none; bits = 0 }

unfoldable pub accept : LossyWindow → ℕ → LossyWindow × Bool
accept w sequence = elim w.highest [
  | none ↦ (record { highest = some sequence; bits = 1 }, true)
  | some highest ↦
      if ltb highest sequence
      then (let advance = sequence - highest in
          let bits = if leb 64 advance then 1 else bit_or (w.bits * 2 ^ advance % 2 ^ 64) 1 in
          (record { highest = some sequence; bits = bits }, true))
      else (let behind = highest - sequence in
          if leb 64 behind || not (bit_and w.bits (2 ^ behind) == 0)
          then (w, false)
          else (record { highest = some highest; bits = bit_or w.bits (2 ^ behind) }, true))
]

-- The window offered a list of sequence numbers, with its answers.
unfoldable pub accept_all : LossyWindow → List ℕ → LossyWindow × List Bool
accept_all w [] = (w, [])
accept_all w (seq ∷ rest) =
    let (w', verdict) = accept w seq in
    let (w'', verdicts) = accept_all w' rest in (w'', verdict ∷ verdicts)

-- The replay window of default width with the same state.
abbrev pub as_replay : LossyWindow → ReplayWindow
as_replay w = elim w.highest [
  | none ↦ record { highest = 0; bitmap = w.bits; started = false; width = default_width }
  | some h ↦ record { highest = h; bitmap = w.bits; started = true; width = default_width }
]

accept-as_replay_at :
    (highest : Option ℕ) (bits seq : ℕ)
    → let w : LossyWindow = record { highest = highest; bits = bits } in
      Replay.accept (as_replay w) seq ≡ (as_replay (accept w seq).0, (accept w seq).1)
unfolding accept Replay.accept would_accept shifted
accept-as_replay_at none bits seq = refl
accept-as_replay_at (some h) bits seq = ground arith

-- A lossy window answers and moves as the replay window of default width does.
pub accept-as_replay :
    (w : LossyWindow) (seq : ℕ)
    → Replay.accept (as_replay w) seq ≡ (as_replay (accept w seq).0, (accept w seq).1)
accept-as_replay w seq = accept-as_replay_at w.highest w.bits seq

-- Over any list of sequence numbers a lossy window and the replay window of default width with the
-- same state give the same answers.
pub accept_all-as_replay :
    (w : LossyWindow) (seqs : List ℕ)
    → (accept_all w seqs).1 ≡ (Replay.accept_all (as_replay w) seqs).1
unfolding accept_all Replay.accept_all
accept_all-as_replay w [] = refl
accept_all-as_replay w (seq ∷ rest) =
    rw (accept-as_replay w seq)
      (ap (λ vs. (accept w seq).1 ∷ vs) (accept_all-as_replay (accept w seq).0 rest))

-- No sequence number of media passes the filter twice.
pub lossy-Distinct : (seqs : List ℕ) → Distinct (kept seqs (accept_all default seqs).1)
unfolding Replay.with_width
lossy-Distinct seqs =
    rw (accept_all-as_replay default seqs) (accept_all-Distinct default_width seqs)
