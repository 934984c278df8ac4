-- ===== src/Agent/Files/Ranges.antt =====
-- `Ranges` of crates/nebula-agent/src/files.rs: the byte ranges of a file that have arrived, as
-- pairs of a start and an end.
pub mod Absorb
pub mod Merged
use nebula_desk.Prelude.{
  ℕ, ◌+◌, ◌-◌, min, max, List, [], ◌∷◌, ltb, leb, ◌==◌, if◌then◌else◌, Bool, ◌||◌,
}

abbrev pub Ranges : Type 0
Ranges = List (ℕ × ℕ)

-- The loop over the old ranges: those that do not touch the new one, and the new one, grown by
-- those that do.
unfoldable pub absorb : Ranges → ℕ → ℕ → Ranges × (ℕ × ℕ)
absorb [] start end = ([], (start, end))
absorb ((s, e) ∷ ranges) start end =
    if ltb e start || ltb end s
    then (let (merged, grown) = absorb ranges start end in ((s, e) ∷ merged, grown))
    else absorb ranges (min start s) (max end e)

-- `insert(partition_point(|(s, _)| s < start), ..)`
unfoldable pub insert_at : Ranges → ℕ → ℕ → Ranges
insert_at [] start end = (start, end) ∷ []
insert_at ((s, e) ∷ ranges) start end =
    if ltb s start then (s, e) ∷ insert_at ranges start end else (start, end) ∷ (s, e) ∷ ranges

unfoldable pub add : Ranges → ℕ → ℕ → Ranges
unfolding absorb insert_at
add ranges start end =
    if leb end start
    then ranges
    else (let (merged, (from, to)) = absorb ranges start end in insert_at merged from to)

unfoldable pub contiguous : Ranges → ℕ
contiguous [] = 0
contiguous ((s, e) ∷ ranges) = if s == 0 then e else 0

unfoldable pub complete : Ranges → ℕ → Bool
unfolding contiguous
complete ranges size = leb size (contiguous ranges)

-- The bytes in all ranges together.
unfoldable pub total : Ranges → ℕ
total [] = 0
total ((s, e) ∷ ranges) = (e - s) + total ranges
