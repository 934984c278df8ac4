-- ===== src/Crypto/Expander.antt =====
-- `SeqExpander` of crates/ndp-crypto/src/replay.rs: the 64-bit sequence number behind the 32 bits
-- of the wire.
use nebula_desk.Prelude.{
  ℕ, ◌+◌, ◌-◌, ◌*◌, ◌/◌, ◌%◌, ◌^◌, ◌≤◌, ◌<◌, Bool, true, false, not, ltb, leb, ◌==◌, ◌&&◌, ◌||◌,
  if◌then◌else◌, ◌≡◌, refl, arith, bit_or, Bool-cases, inl, inr,
}
use nebula_desk.Prelude.Bits.{bit_or-add}

pub record SeqExpander : Type 0 where
  pub highest : ℕ  -- u64
  pub started : Bool

unfoldable pub new : SeqExpander
new = record { highest = 0; started = false }

-- `(roc << 32) | wire64` on a u64.
unfoldable pub candidate : ℕ → ℕ → ℕ
candidate roc wire = bit_or (roc * 2 ^ 32 % 2 ^ 64) wire

-- The wire number fills the bits that the shift has cleared.
candidate-add : (roc wire : ℕ) → wire < 2 ^ 32 → candidate roc wire ≡ roc * 2 ^ 32 % 2 ^ 64 + wire
unfolding candidate
candidate-add roc wire h =
    let cut : roc * 2 ^ 32 % 2 ^ 64 ≡ roc % 2 ^ 32 * 2 ^ 32 = omega arith in
    rw cut (bit_or-add 32 (roc % 2 ^ 32) wire h)

-- `u64::abs_diff`
unfoldable pub abs_diff : ℕ → ℕ → ℕ
abs_diff a b = if ltb a b then b - a else a - b

unfoldable pub expand : SeqExpander → ℕ → ℕ
unfolding abs_diff
expand e wire =
    let roc = e.highest / 2 ^ 32 in
    let low = e.highest % 2 ^ 32 in
    let same = candidate roc wire in
    let next = candidate ((roc + 1) % 2 ^ 64) wire in
    let prev = if roc == 0 then same else candidate (roc - 1) wire in
    if not e.started
    then wire
    else if leb 0x8000_0000 low
        && ltb wire 0x8000_0000
        && ltb (abs_diff next e.highest) (abs_diff same e.highest)
    then next
    else if ltb low 0x8000_0000
        && leb 0x8000_0000 wire
        && ltb (abs_diff prev e.highest) (abs_diff same e.highest)
    then prev
    else same

unfoldable pub commit : SeqExpander → ℕ → SeqExpander
commit e full =
    if not e.started || ltb e.highest full then record { highest = full; started = true } else e

-- `full` lies within 2^31 of the highest number committed.
pub record Near (e : SeqExpander) (full : ℕ) : Type 0 where
  pub started : e.started ≡ true
  pub highest_u64 : e.highest < 2 ^ 64
  pub full_u64 : full < 2 ^ 64
  pub above : full < e.highest + 2 ^ 31
  pub below : e.highest < full + 2 ^ 31

candidates :
    (highest wire : ℕ)
    → wire < 2 ^ 32
    → let roc = highest / 2 ^ 32 in
      (candidate roc wire ≡ roc * 2 ^ 32 % 2 ^ 64 + wire)
      × (candidate ((roc + 1) % 2 ^ 64) wire ≡ (roc + 1) % 2 ^ 64 * 2 ^ 32 % 2 ^ 64 + wire)
      × (candidate (roc - 1) wire ≡ (roc - 1) * 2 ^ 32 % 2 ^ 64 + wire)
candidates highest wire h = (candidate-add _ wire h, candidate-add _ wire h, candidate-add _ wire h)

-- The low 32 bits of a number less than 2^31 away from the highest one expand to that number,
-- across any number of rollovers and in both directions.
pub expand-wire : (e : SeqExpander) (full : ℕ) → Near e full → expand e (full % 2 ^ 32) ≡ full
unfolding expand
expand-wire e full n = ground (arith, candidates e.highest (full % 2 ^ 32) (omega arith))

-- Before the first commit the wire number is taken as it stands.
pub expand_first : (e : SeqExpander) (wire : ℕ) → e.started ≡ false → expand e wire ≡ wire
unfolding expand
expand_first e wire h = ground arith

-- The expanded number keeps the 32 bits of the wire.
pub expand_low :
    (e : SeqExpander) (wire : ℕ)
    → e.highest < 2 ^ 64
    → wire < 2 ^ 32
    → (expand e wire % 2 ^ 32 ≡ wire) × (expand e wire < 2 ^ 64)
unfolding expand
expand_low e wire he hw = ground (arith, candidates e.highest wire hw)

expand_own :
    (full wire : ℕ)
    → full < 2 ^ 64
    → full % 2 ^ 32 ≡ wire
    → expand (record { highest = full; started = true }) wire ≡ full
expand_own full wire h e = rw (← e) (
    expand-wire (record { highest = full; started = true }) full
      (record {
        started = refl;
        highest_u64 = h;
        full_u64 = h;
        above = omega arith;
        below = omega arith;
      }))

-- Where the highest number has 64 bits, the number that 32 bits expand to is theirs again after it
-- was committed.
pub expand-commit :
    (e : SeqExpander) (wire : ℕ)
    → e.highest < 2 ^ 64
    → wire < 2 ^ 32
    → expand (commit e (expand e wire)) wire ≡ expand e wire
unfolding commit
expand-commit e wire he hw =
    let (low, small) = expand_low e wire he hw in
    elim (Bool-cases (not e.started || ltb e.highest (expand e wire))) [
      | inl moved ↦ simp moved (expand_own (expand e wire) wire small low)
      | inr kept ↦ simp kept
    ]

-- Committing never moves the highest number down.
pub commit-highest :
    (e : SeqExpander) (full : ℕ)
    → e.started ≡ true
    → (e.highest ≤ (commit e full).highest) × (full ≤ (commit e full).highest)
unfolding commit
commit-highest e full h = ground arith
