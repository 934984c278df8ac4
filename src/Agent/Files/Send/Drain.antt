-- ===== src/Agent/Files/Send/Drain.antt =====
-- How many chunks all transfers under way may still send, and that each call of `pump` lowers it.
use nebula_desk.Prelude.{
  ℕ, suc, ◌+◌, ◌-◌, ◌/◌, ◌≤◌, ◌<◌, ◌≡◌, ◌≢◌, ◌⊎◌, inl, inr, refl, sym, ap, ◌∙◌, subst, min, [], ◌∷◌,
  List, length, take, drop, length-take, length-drop, ◌==◌, if◌then◌else◌, true, Option, none, some,
  arith, Bool-cases, Option-cases,
}
use nebula_desk.Prelude.Maps.{
  Map, lookup, insert, erase, Keyed, lookup-insert_self, lookup-insert_ne, lookup-erase_self,
  lookup-erase_ne,
}
use nebula_desk.Agent.Files.{Sending, FileTransfers, chunk_size}
use nebula_desk.Agent.Files.Send.{
  wants, first_wanting, given_up, sent_chunk, pump_file, pump_one, pump,
}
use nebula_desk.Agent.Files.Send.Window.{advanced, amount}
use nebula_desk.Agent.Files.Send.Progress.{first_wanting_found, some-injective, absurd_some}

-- The chunks that a transfer can still send in its window; an empty file takes one.
unfoldable pub chunks_left : Sending → ℕ
unfolding wants
chunks_left s = if wants s then (min s.size s.allowed - s.offset - 1) / chunk_size + 1 else 0

unfoldable pub all_left : Map Sending → ℕ
unfolding chunks_left
all_left [] = 0
all_left ((id, s) ∷ sending) = chunks_left s + all_left sending

-- The files that can be read are not shorter than when they were announced.
abbrev pub Whole : (ℕ → Option (List ℕ)) → Map Sending → Type 0
Whole files sending =
    (j : ℕ) (s : Sending) (content : List ℕ)
    → lookup j sending ≡ some s
    → files j ≡ some content
    → s.size ≤ length content

all_left-insert :
    (j : ℕ) (s t : Sending) (m : Map Sending)
    → lookup j m ≡ some s
    → all_left (insert j t m) + chunks_left s ≡ all_left m + chunks_left t
unfolding all_left insert lookup
all_left-insert j s t [] h = absurd (absurd_some h)
all_left-insert j s t ((i, u) ∷ m) h = elim (Bool-cases (i == j)) [
  | inl here ↦
      let same : u ≡ s = some-injective (sym (rw (here, lookup) refl) ∙ h) in
      let counts : chunks_left u ≡ chunks_left s = ap chunks_left same in
      rw (here, insert) (omega arith)
  | inr later ↦
      let rest = all_left-insert j s t m (sym (rw (later, lookup) refl) ∙ h) in
      rw (later, insert) (omega arith)
]

all_left-erase : (j : ℕ) (m : Map Sending) → all_left (erase j m) ≤ all_left m
unfolding all_left erase
all_left-erase j [] = omega arith
all_left-erase j ((i, u) ∷ m) =
    let rest = all_left-erase j m in
    elim (Bool-cases (i == j)) [
      | inl here ↦ rw (here, erase) (omega arith)
      | inr later ↦ rw (later, erase) (omega arith)
    ]

all_left-erase_held :
    (j : ℕ) (s : Sending) (m : Map Sending)
    → lookup j m ≡ some s
    → all_left (erase j m) + chunks_left s ≤ all_left m
unfolding all_left erase lookup
all_left-erase_held j s [] h = absurd (absurd_some h)
all_left-erase_held j s ((i, u) ∷ m) h = elim (Bool-cases (i == j)) [
  | inl here ↦
      let same : u ≡ s = some-injective (sym (rw (here, lookup) refl) ∙ h) in
      let counts : chunks_left u ≡ chunks_left s = ap chunks_left same in
      let rest = all_left-erase j m in rw (here, erase) (omega arith)
  | inr later ↦
      let rest = all_left-erase_held j s m (sym (rw (later, lookup) refl) ∙ h) in
      rw (later, erase) (omega arith)
]

pub chunks_left_le :
    (j : ℕ) (s : Sending) (m : Map Sending) → lookup j m ≡ some s → chunks_left s ≤ all_left m
chunks_left_le j s m h = let all = all_left-erase_held j s m h in omega arith

all_left_idle : (m : Map Sending) → first_wanting m ≡ none → all_left m ≡ 0
unfolding all_left chunks_left first_wanting
all_left_idle [] h = refl
all_left_idle ((i, u) ∷ m) h = elim (Bool-cases (wants u)) [
  | inl first ↦ absurd (some_none {p = (i, u)} (sym (rw (first, first_wanting) refl) ∙ h))
  | inr later ↦
      let rest = all_left_idle m (sym (rw (later, first_wanting) refl) ∙ h) in
      rw (later, chunks_left) (omega arith)
]
  where
    some_none : {p : ℕ × Sending} → some p ≡ none → ⊥
    some_none h = cc

-- A chunk that is sent lowers the number, also where it fills the window.
advanced-chunks_left :
    (s : Sending) (now : ℕ)
    → wants s ≡ true
    → s.offset < s.size
    → chunks_left (advanced s (amount s) now) < chunks_left s
unfolding chunks_left wants
advanced-chunks_left s now w left = elim (Bool-cases (wants (advanced s (amount s) now))) [
  | inl more ↦
      let within : s.offset + amount s < s.size = ground arith in
      let allowed : s.offset + amount s < s.allowed = ground arith in
      let full : amount s ≡ chunk_size = omega arith in
      let shorter : min s.size s.allowed - (s.offset + amount s) - 1 + chunk_size
          ≡ min s.size s.allowed - s.offset - 1 =
        omega arith in
      rw (more, w) (omega arith)
  | inr done ↦ rw (done, w) (omega arith)
]

-- What `pump_one` makes of the transfers: the one it is about is given up, or has less to send.
abbrev Lowered : FileTransfers → ℕ → Sending → FileTransfers → Type 0
Lowered e j s e' =
    (e'.sending ≡ erase j e.sending)
    ⊎ ((t : Sending) × (e'.sending ≡ insert j t e.sending)
        × (t.size ≡ s.size)
        × (chunks_left t < chunks_left s))

pump_one-Lowered :
    (e : FileTransfers) (j : ℕ) (s : Sending) (file : Option (List ℕ)) (now : ℕ)
    → wants s ≡ true
    → ((content : List ℕ) → file ≡ some content → s.size ≤ length content)
    → Lowered e j s (pump_one e j s file now).0
unfolding pump_one pump_file given_up sent_chunk
pump_one-Lowered e j s file now w whole = elim (Bool-cases (s.size == 0)) [
  | inl empty ↦
      let busy : 0 < chunks_left s = unfold chunks_left in rw w (omega arith) in
      rw (empty, pump_one)
        (inr (
          record s { finished = true; last_progress = now },
          refl,
          refl,
          unfold chunks_left wants in busy,
        ))
  | inr full ↦ rw (full, pump_one) (of_file file whole)
]
  where
    of_file :
        (f : Option (List ℕ))
        → ((content : List ℕ) → f ≡ some content → s.size ≤ length content)
        → Lowered e j s (pump_file e j s f now).0
    of_file none whole = inl refl
    of_file (some content) whole =
        let bytes = take (amount s) (drop s.offset content) in
        let size = length-take (amount s) (drop s.offset content) in
        let rest = length-drop s.offset content in
        let long = whole content refl in
        elim (Bool-cases (length bytes == 0)) [
          | inl short ↦ rw (short, pump_file) (inl refl)
          | inr some_left ↦
              let nonempty : length bytes ≢ 0 = λ h. ground arith in
              let exact : length bytes ≡ amount s = omega arith in
              rw (some_left, pump_file)
                (inr (
                  advanced s (length bytes) now,
                  refl,
                  refl,
                  subst (λ n. chunks_left (advanced s n now) < chunks_left s) (sym exact)
                      (advanced-chunks_left s now w (omega arith)),
                ))
        ]

Whole-Lowered :
    (files : ℕ → Option (List ℕ)) (e e' : FileTransfers) (j : ℕ) (s : Sending)
    → lookup j e.sending ≡ some s
    → Whole files e.sending
    → Lowered e j s e'
    → Whole files e'.sending
Whole-Lowered files e e' j s found whole (inl gone) i u content h f = elim (Bool-cases (j == i)) [
  | inl same ↦
      let key : j ≡ i = ground arith in
      absurd (
        absurd_some (
          sym (lookup-erase_self i e.sending)
          ∙ sym (ap (λ k. lookup i (erase k e.sending)) key)
          ∙ sym (ap (lookup i) gone)
          ∙ h))
  | inr other ↦
      whole i u content
        (sym (lookup-erase_ne j i e.sending (λ key. ground arith)) ∙ sym (ap (lookup i) gone) ∙ h) f
]
Whole-Lowered files e e' j s found whole (inr (t, put, size, less)) i u content h f =
    elim (Bool-cases (j == i)) [
      | inl same ↦
          let key : j ≡ i = ground arith in
          let new : t ≡ u = some-injective (
            sym (lookup-insert_self i t e.sending)
            ∙ sym (ap (λ k. lookup i (insert k t e.sending)) key)
            ∙ sym (ap (lookup i) put)
            ∙ h) in
          let sizes : t.size ≡ u.size = ap (λ x. x.size) new in
          let old = whole i s content (subst (λ k. lookup k e.sending ≡ some s) key found) f in
          omega arith
      | inr other ↦
          whole i u content
            (sym (lookup-insert_ne j i t e.sending (λ key. ground arith))
              ∙ sym (ap (lookup i) put)
              ∙ h)
            f
    ]

all_left-Lowered :
    (e e' : FileTransfers) (j : ℕ) (s : Sending)
    → lookup j e.sending ≡ some s
    → 0 < chunks_left s
    → Lowered e j s e'
    → all_left e'.sending < all_left e.sending
all_left-Lowered e e' j s found busy (inl gone) =
    let less = all_left-erase_held j s e.sending found in let same = ap all_left gone in omega arith
all_left-Lowered e e' j s found busy (inr (t, put, size, less)) =
    let moved = all_left-insert j s t e.sending found in let same = ap all_left put in omega arith

-- One call of `pump`: a chunk less is left, unless none is.
pub pump-all_left :
    (files : ℕ → Option (List ℕ)) (e : FileTransfers) (now n : ℕ)
    → Keyed e.sending
    → Whole files e.sending
    → all_left e.sending ≤ suc n
    → Whole files (pump e files now).0.sending × (all_left (pump e files now).0.sending ≤ n)
unfolding pump
pump-all_left files e now n keyed whole most = elim (Option-cases (first_wanting e.sending)) [
  | inl idle ↦ let empty = all_left_idle e.sending idle in rw (idle, pump) (whole, omega arith)
  | inr ((j, s), ready) ↦
      let (found, w) = first_wanting_found e.sending j s keyed ready in
      let lower = pump_one-Lowered e j s (files j) now w (λ content f. whole j s content found f) in
      let busy : 0 < chunks_left s = unfold chunks_left in rw w (omega arith) in
      let less = all_left-Lowered e (pump_one e j s (files j) now).0 j s found busy lower in
      rw (ready, pump)
        (Whole-Lowered files e (pump_one e j s (files j) now).0 j s found whole lower, omega arith)
]
