-- ===== src/Agent/Files/Ranges/Merged.antt =====
-- The ranges stay merged and in order, and hold exactly the bytes that were added.
use nebula_desk.Prelude.{
  ℕ, ◌+◌, ◌≤◌, ◌<◌, ◌≡◌, ◌⊎◌, ◌↔◌, subst, inl, inr, refl, [], ◌∷◌, ltb, leb, ◌==◌, true, arith,
  Bool-cases,
}
use nebula_desk.Agent.Files.Ranges.{Ranges, absorb, insert_at, add, contiguous, complete}
pub use nebula_desk.Agent.Files.Ranges.Absorb.{In, From, Merged}
use nebula_desk.Agent.Files.Ranges.Absorb.{Clear, absorb-Absorbed}

-- The place of the new range: after the ranges that start below it.
insert_at-From :
    (low : ℕ) (ranges : Ranges) (start end : ℕ)
    → From low ranges
    → Clear start end ranges
    → low ≤ start
    → start < end
    → From low (insert_at ranges start end)
unfolding insert_at
insert_at-From low [] start end m clear l h = (l, h, tt)
insert_at-From low ((s, e) ∷ ranges) start end m clear l h =
    let proper = m.1 in
    let apart = clear.0 in
    elim (Bool-cases (ltb s start)) [
      | inl below ↦
          let same : insert_at ((s, e) ∷ ranges) start end ≡ (s, e) ∷ insert_at ranges start end =
            rw below refl in
          rw same (m.0, m.1, insert_at-From (e + 1) ranges start end m.2 clear.1 (ground arith) h)
      | inr above ↦
          let same : insert_at ((s, e) ∷ ranges) start end ≡ (start, end) ∷ (s, e) ∷ ranges =
            rw above refl in
          rw same (l, h, (ground arith, m.1, m.2))
    ]

In-insert_at :
    (x : ℕ) (ranges : Ranges) (start end : ℕ)
    → In x (insert_at ranges start end) ↔ (In x ranges ⊎ ((start ≤ x) × (x < end)))
unfolding insert_at
In-insert_at x [] start end = (
  (λ i. elim i [ inl new ↦ inr new | inr none_left ↦ absurd none_left ]),
  (λ i. elim i [ inl none_left ↦ absurd none_left | inr new ↦ inl new ]),
)
In-insert_at x ((s, e) ∷ ranges) start end = elim (Bool-cases (ltb s start)) [
  | inl below ↦
      let same : insert_at ((s, e) ∷ ranges) start end ≡ (s, e) ∷ insert_at ranges start end =
        rw below refl in
      let rest = In-insert_at x ranges start end in
      rw same (
        (λ i. elim i [
          | inl first ↦ inl (inl first)
          | inr later ↦ elim (rest.0 later) [ inl r ↦ inl (inr r) | inr new ↦ inr new ]
        ]),
        (λ i. elim i [
          | inl old ↦ elim old [ inl first ↦ inl first | inr r ↦ inr (rest.1 (inl r)) ]
          | inr new ↦ inr (rest.1 (inr new))
        ]),
      )
  | inr above ↦
      let same : insert_at ((s, e) ∷ ranges) start end ≡ (start, end) ∷ (s, e) ∷ ranges =
        rw above refl in
      rw same (
        (λ i. elim i [ inl new ↦ inr new | inr old ↦ inl old ]),
        (λ i. elim i [ inl old ↦ inr old | inr new ↦ inl new ]),
      )
]

-- Adding a range keeps the ranges merged and in order.
pub add-Merged : (ranges : Ranges) (start end : ℕ) → Merged ranges → Merged (add ranges start end)
unfolding add
add-Merged ranges start end m = elim (Bool-cases (leb end start)) [
  | inl nothing ↦ let same : add ranges start end ≡ ranges = rw nothing refl in rw same m
  | inr proper ↦
      let a = absorb-Absorbed 0 ranges start end m (ground arith) in
      let lower = a.starts in
      let upper = a.ends in
      let same : add ranges start end
          ≡ insert_at (absorb ranges start end).0 (absorb ranges start end).1.0
              (absorb ranges start end).1.1 =
        rw proper refl in
      rw same (insert_at-From 0 _ _ _ a.kept a.clear (omega arith) (ground arith))
]

-- After an addition exactly the bytes that were there before and those of the new range are there.
pub In-add :
    (x : ℕ) (ranges : Ranges) (start end : ℕ)
    → Merged ranges
    → In x (add ranges start end) ↔ (In x ranges ⊎ ((start ≤ x) × (x < end)))
unfolding add
In-add x ranges start end m = elim (Bool-cases (leb end start)) [
  | inl nothing ↦
      let same : add ranges start end ≡ ranges = rw nothing refl in
      rw same (
        (λ i. inl i),
        (λ i. elim i [
          | inl old ↦ old
          | inr new ↦ let lo = new.0 in let hi = new.1 in ground arith
        ]),
      )
  | inr proper ↦
      let a = absorb-Absorbed 0 ranges start end m (ground arith) in
      let all = a.held x in
      let put =
        In-insert_at x (absorb ranges start end).0 (absorb ranges start end).1.0
          (absorb ranges start end).1.1 in
      let same : add ranges start end
          ≡ insert_at (absorb ranges start end).0 (absorb ranges start end).1.0
              (absorb ranges start end).1.1 =
        rw proper refl in
      rw same ((λ i. all.0 (put.0 i)), (λ i. put.1 (all.1 i)))
]

-- All bytes below the contiguous count are there.
pub contiguous-In : (ranges : Ranges) (x : ℕ) → x < contiguous ranges → In x ranges
unfolding contiguous
contiguous-In [] x h = absurd (omega arith)
contiguous-In ((s, e) ∷ ranges) x h = elim (Bool-cases (s == 0)) [
  | inl zero_start ↦ inl (ground arith, ground arith)
  | inr later ↦ ground arith
]

In-le : (low x : ℕ) (ranges : Ranges) → From low ranges → In x ranges → low ≤ x
In-le low x [] m i = absurd i
In-le low x ((s, e) ∷ ranges) m (inl here) = let a = m.0 in let b = here.0 in omega arith
In-le low x ((s, e) ∷ ranges) m (inr there) =
    let a = m.0 in let b = m.1 in omega (arith, In-le (e + 1) x ranges m.2 there)

-- The byte at the contiguous count is missing.
pub contiguous-not_In : (ranges : Ranges) → Merged ranges → ¬ In (contiguous ranges) ranges
unfolding contiguous
contiguous-not_In [] m i = i
contiguous-not_In ((s, e) ∷ ranges) m i = elim (Bool-cases (s == 0)) [
  | inl zero_start ↦
      let count : contiguous ((s, e) ∷ ranges) ≡ e = rw zero_start refl in
      let at_end : In e ((s, e) ∷ ranges) = subst (λ x. In x ((s, e) ∷ ranges)) count i in
      elim at_end [
        | inl here ↦ let b = here.1 in omega arith
        | inr there ↦ omega (arith, In-le (e + 1) e ranges m.2 there)
      ]
  | inr later ↦
      let count : contiguous ((s, e) ∷ ranges) ≡ 0 = rw later refl in
      let at_zero : In 0 ((s, e) ∷ ranges) = subst (λ x. In x ((s, e) ∷ ranges)) count i in
      elim at_zero [
        | inl here ↦ let a = here.0 in ground arith
        | inr there ↦ omega (arith, In-le (e + 1) 0 ranges m.2 there)
      ]
]

-- For merged ranges, a file is complete exactly when each of its bytes is in one of them.
pub complete-In :
    (ranges : Ranges) (size : ℕ)
    → Merged ranges
    → (complete ranges size ≡ true) ↔ ((x : ℕ) → x < size → In x ranges)
unfolding complete
complete-In ranges size m = (
  (λ h x below. contiguous-In ranges x (ground arith)),
  (λ all. elim (Bool-cases (leb size (contiguous ranges))) [
    | inl enough ↦ enough
    | inr short ↦ absurd (contiguous-not_In ranges m (all (contiguous ranges) (ground arith)))
  ]),
)
