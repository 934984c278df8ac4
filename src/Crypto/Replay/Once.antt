-- ===== src/Crypto/Replay/Once.antt =====
-- What a replay window lets through: no number twice, and on a strict window only rising numbers.
use nebula_desk.Prelude.{
  ℕ, ◌<◌, min, Bool, true, false, ltb, List, [], ◌∷◌, ◌≡◌, refl, arith, Bool-cases, inl, inr,
}
use nebula_desk.Crypto.Replay.{with_width, strict, accept_all}
use nebula_desk.Crypto.Replay.Window.{contains, newest, contains-le_newest, admits}
use nebula_desk.Crypto.Replay.History.{admit_all, accept_all-admit_all}

-- The arrivals that were answered with `true`, in their order.
unfoldable pub kept : List ℕ → List Bool → List ℕ
kept (seq ∷ seqs) (true ∷ verdicts) = seq ∷ kept seqs verdicts
kept (seq ∷ seqs) (false ∷ verdicts) = kept seqs verdicts
kept seqs verdicts = []

abbrev pub Distinct : List ℕ → Type 0
Distinct [] = Unit
Distinct (x ∷ xs) = (contains xs x ≡ false) × Distinct xs

-- Each number is larger than the one before it; the first is larger than `low`.
abbrev pub RisesFrom : ℕ → List ℕ → Type 0
RisesFrom low [] = Unit
RisesFrom low (x ∷ xs) = (low < x) × RisesFrom x xs

abbrev pub Rises : List ℕ → Type 0
Rises [] = Unit
Rises (x ∷ xs) = RisesFrom x xs

pub admits-fresh :
    (width : ℕ) (log : List ℕ) (seq : ℕ) → admits width log seq ≡ true → contains log seq ≡ false
unfolding admits contains
admits-fresh width [] seq h = refl
admits-fresh width (x ∷ log) seq h = ground arith

kept_not_logged :
    (width : ℕ) (log seqs : List ℕ) (seq : ℕ)
    → contains log seq ≡ true
    → contains (kept seqs (admit_all width log seqs).1) seq ≡ false
unfolding admit_all kept contains
kept_not_logged width log [] seq h = refl
kept_not_logged width log (y ∷ seqs) seq h = elim (Bool-cases (admits width log y)) [
  | inl e ↦
      rw e (ground (arith, admits-fresh width log y e, kept_not_logged width (y ∷ log) seqs seq))
  | inr e ↦ rw e (kept_not_logged width log seqs seq h)
]

kept-Distinct : (width : ℕ) (log seqs : List ℕ) → Distinct (kept seqs (admit_all width log seqs).1)
unfolding admit_all kept
kept-Distinct width log [] = tt
kept-Distinct width log (y ∷ seqs) = elim (Bool-cases (admits width log y)) [
  | inl e ↦ rw e (
    kept_not_logged width (y ∷ log) seqs y (unfold contains in ground arith),
    kept-Distinct width (y ∷ log) seqs,
  )
  | inr e ↦ rw e (kept-Distinct width log seqs)
]

-- No sequence number passes a window of any width twice, whatever arrives in whatever order.
pub accept_all-Distinct :
    (width : ℕ) (seqs : List ℕ) → Distinct (kept seqs (accept_all (with_width width) seqs).1)
accept_all-Distinct width seqs =
    rw (accept_all-admit_all width seqs) (kept-Distinct (min width 64) [] seqs)

newest_logged : (x : ℕ) (log : List ℕ) → contains (x ∷ log) (newest (x ∷ log)) ≡ true
unfolding contains newest
newest_logged x [] = ground arith
newest_logged x (y ∷ log) = ground (arith, newest_logged y log)

newest_above : (y x : ℕ) (log : List ℕ) → newest (x ∷ log) < y → newest (y ∷ x ∷ log) ≡ y
unfolding newest
newest_above y x log h = omega arith

admits_strict :
    (x : ℕ) (log : List ℕ) (seq : ℕ) → admits 0 (x ∷ log) seq ≡ ltb (newest (x ∷ log)) seq
unfolding admits
admits_strict x log seq = ground (arith, newest_logged x log, contains-le_newest (x ∷ log) seq)

kept_rises :
    (x : ℕ) (log seqs : List ℕ)
    → RisesFrom (newest (x ∷ log)) (kept seqs (admit_all 0 (x ∷ log) seqs).1)
unfolding admit_all kept
kept_rises x log [] = tt
kept_rises x log (y ∷ seqs) = elim (Bool-cases (ltb (newest (x ∷ log)) y)) [
  | inl e ↦
      rw (admits_strict x log y, e)
        (ground arith, rw (newest_above y x log (ground arith)) at (kept_rises y (x ∷ log) seqs))
  | inr e ↦ rw (admits_strict x log y, e) (kept_rises x log seqs)
]

kept-Rises_first : (seqs : List ℕ) → Rises (kept seqs (admit_all 0 [] seqs).1)
unfolding admit_all kept admits
kept-Rises_first [] = tt
kept-Rises_first (y ∷ seqs) =
    let alone : newest (y ∷ []) ≡ y = unfold newest in omega arith in
    rw alone at (kept_rises y [] seqs)

-- A strict window, as the ordered channels use it, lets only rising sequence numbers through.
pub accept_all-Rises : (seqs : List ℕ) → Rises (kept seqs (accept_all strict seqs).1)
unfolding strict
accept_all-Rises seqs = rw (accept_all-admit_all 0 seqs) (kept-Rises_first seqs)
