-- ===== src/Crypto/Replay/History.antt =====
-- What the replay window does over a whole run of sequence numbers.
use nebula_desk.Prelude.{
  ℕ, ◌-◌, ◌*◌, ◌^◌, ◌≤◌, ◌<◌, min, bit_or, Bool, true, false, not, ltb, ◌==◌, if◌then◌else◌, List,
  [], ◌∷◌, ◌≡◌, refl, arith, Bool-cases, inl, inr, ◌∙◌, ap,
}
use nebula_desk.Prelude.Bits.{bit, bit-le_one, bit-bit_or, bit-pow, bit-shift, bit-mod, bit-zero}
use nebula_desk.Crypto.Replay.{ReplayWindow, with_width, would_accept, shifted, accept, accept_all}
use nebula_desk.Crypto.Replay.Window.{
  contains, newest, contains-le_newest, admits, Tracks, with_width-Tracks, not_started, has_started,
  would_accept-admits,
}

bit-shifted :
    (age bitmap shift : ℕ)
    → age < 64
    → bit age (shifted bitmap shift) ≡ (if ltb age shift then 0 else bit (age - shift) bitmap)
unfolding shifted
bit-shifted age bitmap shift h =
    ground (arith, bit-zero age, bit-mod age 64 (bitmap * 2 ^ shift), bit-shift age shift bitmap)

bit-one : (age : ℕ) → bit age 1 ≡ (if age == 0 then 1 else 0)
bit-one age = bit-pow age 0

-- The bitmap after a first number, after a newer one, and after an older one.
module _ (w : ReplayWindow) (x : ℕ) (log : List ℕ) (t : Tracks w (x ∷ log)) (seq age : ℕ) where
  exact_ahead :
      w.highest < seq
      → age < 64
      → age ≤ seq
      → bit age (bit_or (shifted w.bitmap (seq - w.highest)) 1)
        ≡ (if contains (seq ∷ x ∷ log) (seq - age) then 1 else 0)
  unfolding contains
  exact_ahead h a b =
      let on : w.started ≡ true = has_started w x log t in
      ground (
        arith,
        t.top on,
        bit-bit_or age (shifted w.bitmap (seq - w.highest)) 1,
        bit-one age,
        bit-shifted age w.bitmap (seq - w.highest),
        bit-le_one (age - (seq - w.highest)) w.bitmap,
        t.exact on (age - (seq - w.highest)),
        contains-le_newest (x ∷ log) (seq - age),
      )

  exact_behind :
      seq ≤ w.highest
      → age < 64
      → age ≤ w.highest
      → bit age (bit_or w.bitmap (2 ^ (w.highest - seq)))
        ≡ (if contains (seq ∷ x ∷ log) (w.highest - age) then 1 else 0)
  unfolding contains
  exact_behind h a b =
      let on : w.started ≡ true = has_started w x log t in
      ground (
        arith,
        bit-bit_or age w.bitmap (2 ^ (w.highest - seq)),
        bit-pow age (w.highest - seq),
        t.exact on age,
      )

-- One call of `accept` answers as the specification does.
pub accept-admits :
    (w : ReplayWindow) (log : List ℕ) (seq : ℕ)
    → Tracks w log
    → (accept w seq).1 ≡ admits w.width log seq
unfolding accept would_accept
accept-admits w log seq t = ground (arith, would_accept-admits w log seq t)

-- The history after a call.
abbrev pub logged : Bool → ℕ → List ℕ → List ℕ
logged verdict seq log = if verdict then seq ∷ log else log

accept-Tracks_first :
    (w : ReplayWindow) (seq : ℕ)
    → Tracks w []
    → Tracks (accept w seq).0 (logged (accept w seq).1 seq [])
unfolding accept contains newest
accept-Tracks_first w seq t =
    let off : w.started ≡ false = not_started w t in
    rw off (record {
      narrow = t.narrow;
      idle = λ h. cc;
      busy = λ h. ground arith;
      top = λ h. omega arith;
      exact = λ h age a b. ground (arith, bit-one age);
    })

accept-Tracks_behind :
    (w : ReplayWindow) (x : ℕ) (log : List ℕ) (seq : ℕ) (verdict : Bool)
    → Tracks w (x ∷ log)
    → seq ≤ w.highest
    → Tracks
        (if not verdict then w else record w { bitmap = bit_or w.bitmap (2 ^ (w.highest - seq)) })
        (logged verdict seq (x ∷ log))
accept-Tracks_behind w x log seq false t h = t
accept-Tracks_behind w x log seq true t h =
    let on : w.started ≡ true = has_started w x log t in
    record {
      narrow = t.narrow;
      idle = λ g. cc;
      busy = λ g. unfold contains in ground (arith, t.busy on);
      top = λ g. unfold newest in ground (arith, t.top on);
      exact = λ g age a b. exact_behind w x log t seq age h a b;
    }

-- The branches of `accept` on a window that has started.
accept_newer :
    (w : ReplayWindow) (seq : ℕ)
    → w.started ≡ true
    → w.highest < seq
    → accept w seq
      ≡ (record w { bitmap = bit_or (shifted w.bitmap (seq - w.highest)) 1; highest = seq }, true)
unfolding accept
accept_newer w seq on h = ground arith

accept_older :
    (w : ReplayWindow) (seq : ℕ)
    → w.started ≡ true
    → seq ≤ w.highest
    → let ok = would_accept w seq in
      accept w seq
      ≡ (if not ok then w else record w { bitmap = bit_or w.bitmap (2 ^ (w.highest - seq)) }, ok)
unfolding accept
accept_older w seq on h = ground arith

accept-Tracks_next :
    (w : ReplayWindow) (x : ℕ) (log : List ℕ) (seq : ℕ)
    → Tracks w (x ∷ log)
    → Tracks (accept w seq).0 (logged (accept w seq).1 seq (x ∷ log))
accept-Tracks_next w x log seq t =
    let on : w.started ≡ true = has_started w x log t in
    elim (Bool-cases (ltb w.highest seq)) [
      | inl ahead ↦ rw (accept_newer w seq on (ground arith)) (record {
        narrow = t.narrow;
        idle = λ h. cc;
        busy = λ h. unfold contains in ground arith;
        top = λ h. unfold newest in ground (arith, t.top on);
        exact = λ h age a b. exact_ahead w x log t seq age (ground arith) a b;
      })
      | inr behind ↦
          rw (accept_older w seq on (ground arith))
            (accept-Tracks_behind w x log seq (would_accept w seq) t (ground arith))
    ]

-- One call of `accept` keeps the bitmap and the history together.
pub accept-Tracks :
    (w : ReplayWindow) (log : List ℕ) (seq : ℕ)
    → Tracks w log
    → Tracks (accept w seq).0 (logged (accept w seq).1 seq log)
accept-Tracks w [] seq t = accept-Tracks_first w seq t
accept-Tracks w (x ∷ log) seq t = accept-Tracks_next w x log seq t

-- The specification over a run of arrivals, with the history it leaves.
unfoldable pub admit_all : ℕ → List ℕ → List ℕ → List ℕ × List Bool
admit_all width log [] = (log, [])
admit_all width log (seq ∷ rest) =
    let verdict = admits width log seq in
    let (log', verdicts) = admit_all width (logged verdict seq log) rest in
    (log', verdict ∷ verdicts)

accept-width : (w : ReplayWindow) (seq : ℕ) → (accept w seq).0.width ≡ w.width
unfolding accept
accept-width w seq = ground arith

accept_all-admit_all_from :
    (width : ℕ) (w : ReplayWindow) (log : List ℕ) (seqs : List ℕ)
    → w.width ≡ width
    → Tracks w log
    → (accept_all w seqs).1 ≡ (admit_all width log seqs).1
unfolding accept_all admit_all
accept_all-admit_all_from width w log [] e t = refl
accept_all-admit_all_from width w log (seq ∷ rest) e t =
    let verdict : (accept w seq).1 ≡ admits width log seq =
      accept-admits w log seq t ∙ ap (λ (k : ℕ). admits k log seq) e in
    let later : (accept_all (accept w seq).0 rest).1
        ≡ (admit_all width (logged (accept w seq).1 seq log) rest).1 =
      accept_all-admit_all_from width (accept w seq).0 (logged (accept w seq).1 seq log) rest
        (accept-width w seq ∙ e) (accept-Tracks w log seq t) in
    rw (← verdict) (ap (λ vs. (accept w seq).1 ∷ vs) later)

-- A new window of any width answers every run of arrivals exactly as the specification, in which
-- a number is admitted when it was not admitted before and lies less than the width (at most 64,
-- at least 1) behind the newest number admitted.
pub accept_all-admit_all :
    (width : ℕ) (seqs : List ℕ)
    → (accept_all (with_width width) seqs).1 ≡ (admit_all (min width 64) [] seqs).1
unfolding with_width
accept_all-admit_all width seqs =
    accept_all-admit_all_from (min width 64) (with_width width) [] seqs refl
      (with_width-Tracks width)
