-- ===== src/Agent/Files/Ranges/Absorb.antt =====
-- The loop of `add` over the old ranges: what it leaves is in order, apart from the new range, and
-- holds the same bytes with it.
use nebula_desk.Prelude.{
  ℕ, ◌+◌, ◌≤◌, ◌<◌, ◌≡◌, ◌⊎◌, ◌↔◌, subst, inl, inr, refl, sym, min, max, [], ◌∷◌, ltb, leb, true,
  ◌||◌, arith, Bool-cases,
}
use nebula_desk.Agent.Files.Ranges.{Ranges, absorb}

-- A byte lies in one of the ranges.
abbrev pub In : ℕ → Ranges → Type 0
In x [] = ⊥
In x ((s, e) ∷ ranges) = ((s ≤ x) × (x < e)) ⊎ In x ranges

-- From `low` on, in order: no range is empty, and a gap stands before the next one.
abbrev pub From : ℕ → Ranges → Type 0
From low [] = Unit
From low ((s, e) ∷ ranges) = (low ≤ s) × (s < e) × From (e + 1) ranges

abbrev pub Merged : Ranges → Type 0
Merged ranges = From 0 ranges

-- No range touches the one from `start` to `end`.
abbrev pub Clear : ℕ → ℕ → Ranges → Type 0
Clear start end [] = Unit
Clear start end ((s, e) ∷ ranges) = ((e < start) ⊎ (end < s)) × Clear start end ranges

pub From-le : (a b : ℕ) (ranges : Ranges) → a ≤ b → From b ranges → From a ranges
From-le a b [] h m = tt
From-le a b ((s, e) ∷ ranges) h m = (let low = m.0 in omega arith, m.1, m.2)

absorb_beyond :
    (low : ℕ) (ranges : Ranges) (start end : ℕ)
    → From low ranges
    → end < low
    → absorb ranges start end ≡ (ranges, (start, end))
unfolding absorb
absorb_beyond low [] start end m h = refl
absorb_beyond low ((s, e) ∷ ranges) start end m h =
    let first = m.0 in
    let proper = m.1 in
    let rest = absorb_beyond (e + 1) ranges start end m.2 (omega arith) in
    let apart : ltb e start || ltb end s ≡ true = ground arith in rw (apart, rest) refl

Clear-beyond :
    (low : ℕ) (ranges : Ranges) (start end : ℕ)
    → From low ranges
    → end < low
    → Clear start end ranges
Clear-beyond low [] start end m h = tt
Clear-beyond low ((s, e) ∷ ranges) start end m h =
    let first = m.0 in
    let proper = m.1 in (inr (omega arith), Clear-beyond (e + 1) ranges start end m.2 (omega arith))

-- What the loop over the old ranges leaves.
pub record Absorbed (low : ℕ) (ranges : Ranges) (start end : ℕ) (r : Ranges × (ℕ × ℕ))
    : Type 0 where
  pub kept : From low r.0
  pub clear : Clear r.1.0 r.1.1 r.0
  pub starts : r.1.0 ≤ start
  pub above : low ≤ start → low ≤ r.1.0
  pub ends : end ≤ r.1.1
  pub held :
      (x : ℕ) → (In x r.0 ⊎ ((r.1.0 ≤ x) × (x < r.1.1))) ↔ (In x ranges ⊎ ((start ≤ x) × (x < end)))

held_cons {ℓ} : {A B C B' C' : Type ℓ} → ((B ⊎ C) ↔ (B' ⊎ C')) → ((A ⊎ B) ⊎ C) ↔ ((A ⊎ B') ⊎ C')
held_cons {A} {B} {C} {B'} {C'} h = (
  (λ i. elim i [
    | inl ab ↦ elim ab [ inl a ↦ inl (inl a) | inr b ↦ back (h.0 (inl b)) ]
    | inr c ↦ back (h.0 (inr c))
  ]),
  (λ i. elim i [
    | inl ab ↦ elim ab [ inl a ↦ inl (inl a) | inr b ↦ forth (h.1 (inl b)) ]
    | inr c ↦ forth (h.1 (inr c))
  ]),
)
  where
    back : B' ⊎ C' → (A ⊎ B') ⊎ C'
    back (inl b) = inl (inr b)
    back (inr c) = inr c

    forth : B ⊎ C → (A ⊎ B) ⊎ C
    forth (inl b) = inl (inr b)
    forth (inr c) = inr c

-- Two ranges that touch are one.
held_join :
    (x s e start end : ℕ) (ranges : Ranges)
    → start ≤ e
    → s ≤ end
    → s < e
    → start < end
    → (In x ranges ⊎ ((min start s ≤ x) × (x < max end e)))
      ↔ (In x ((s, e) ∷ ranges) ⊎ ((start ≤ x) × (x < end)))
held_join x s e start end ranges a b c d = (
  (λ i. elim i [
    | inl r ↦ inl (inr r)
    | inr p ↦ elim (point p.0 p.1) [ inl old ↦ inl (inl old) | inr new ↦ inr new ]
  ]),
  (λ i. elim i [
    | inl j ↦ elim j [
      | inl old ↦ let lo = old.0 in let hi = old.1 in inr (omega arith, omega arith)
      | inr r ↦ inl r
    ]
    | inr new ↦ let lo = new.0 in let hi = new.1 in inr (omega arith, omega arith)
  ]),
)
  where
    point : min start s ≤ x → x < max end e → ((s ≤ x) × (x < e)) ⊎ ((start ≤ x) × (x < end))
    point lo hi = elim (Bool-cases (leb s x)) [
      | inl from ↦ elim (Bool-cases (ltb x e)) [
        | inl within ↦ inl (ground arith, ground arith)
        | inr beyond ↦ inr (ground arith, ground arith)
      ]
      | inr below ↦ inr (ground arith, ground arith)
    ]

pub absorb-Absorbed :
    (low : ℕ) (ranges : Ranges) (start end : ℕ)
    → From low ranges
    → start < end
    → Absorbed low ranges start end (absorb ranges start end)
unfolding absorb
absorb-Absorbed low [] start end m h = record {
  kept = tt;
  clear = tt;
  starts = omega arith;
  above = λ l. l;
  ends = omega arith;
  held = λ x. ((λ i. i), (λ i. i));
}
absorb-Absorbed low ((s, e) ∷ ranges) start end m h =
    let first = m.0 in
    let proper = m.1 in
    elim (Bool-cases (ltb e start)) [
      | inl before ↦
          let rest = absorb-Absorbed (e + 1) ranges start end m.2 h in
          let same : absorb ((s, e) ∷ ranges) start end
              ≡ ((s, e) ∷ (absorb ranges start end).0, (absorb ranges start end).1) =
            rw before refl in
          subst (Absorbed low ((s, e) ∷ ranges) start end) (sym same) (record {
            kept = (first, proper, rest.kept);
            clear = (let up = rest.above (ground arith) in inl (omega arith), rest.clear);
            starts = rest.starts;
            above = λ l. let up = rest.above (ground arith) in omega arith;
            ends = rest.ends;
            held = λ x. held_cons (rest.held x);
          })
      | inr not_before ↦ elim (Bool-cases (ltb end s)) [
        | inl after ↦
            let rest = absorb_beyond (e + 1) ranges start end m.2 (ground arith) in
            let same : absorb ((s, e) ∷ ranges) start end ≡ ((s, e) ∷ ranges, (start, end)) =
              rw (not_before, after, rest) refl in
            subst (Absorbed low ((s, e) ∷ ranges) start end) (sym same) (record {
              kept = m;
              clear =
                  (inr (ground arith), Clear-beyond (e + 1) ranges start end m.2 (ground arith));
              starts = omega arith;
              above = λ l. l;
              ends = omega arith;
              held = λ x. ((λ i. i), (λ i. i));
            })
        | inr touching ↦
            let rest =
              absorb-Absorbed low ranges (min start s) (max end e)
                (From-le low (e + 1) ranges (omega arith) m.2) (omega arith) in
            let same : absorb ((s, e) ∷ ranges) start end
                ≡ absorb ranges (min start s) (max end e) =
              rw (not_before, touching) refl in
            let lower = rest.starts in
            let upper = rest.ends in
            subst (Absorbed low ((s, e) ∷ ranges) start end) (sym same) (record {
              kept = rest.kept;
              clear = rest.clear;
              starts = omega arith;
              above = λ l. rest.above (omega arith);
              ends = omega arith;
              held = λ x.
                  let join =
                    held_join x s e start end ranges (ground arith) (ground arith) proper h in
                  let all = rest.held x in ((λ i. join.0 (all.0 i)), (λ i. all.1 (join.1 i)));
            })
      ]
    ]
