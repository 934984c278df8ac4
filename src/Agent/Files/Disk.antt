-- ===== src/Agent/Files/Disk.antt =====
-- The file system under the transfers of crates/nebula-agent/src/files.rs: writes at an offset, and
-- a free name in the download directory.
use nebula_desk.Prelude.{
  ℕ, zero, suc, ◌+◌, ◌-◌, ◌/◌, ◌%◌, List, [], ◌∷◌, ◌++◌, length, take, drop, replicate, ltb, ◌==◌,
  if◌then◌else◌, Bool, false, not, ◌&&◌, ◌||◌, Option, none, some,
}
use nebula_desk.Prelude.Bytes.{same_bytes}
use nebula_desk.Prelude.Maps.{Map}
use nebula_desk.Agent.Files.{Name, Receiving}

-- A write at an offset; a gap before it is filled with zeros.
unfoldable pub write_at : ℕ → List ℕ → List ℕ → List ℕ
write_at offset bytes file =
    let front = take offset file in
    front ++ (replicate (offset - length file) 0 ++ (bytes ++ drop (offset + length bytes) file))

unfoldable pub exists : Name → List (Name × List ℕ) → Bool
exists name [] = false
exists name ((other, content) ∷ disk) = same_bytes other name || exists name disk

unfoldable pub claimed : Name → Map Receiving → Bool
claimed name [] = false
claimed name ((id, r) ∷ receiving) = same_bytes r.final_path name || claimed name receiving

unfoldable pub path_available : List (Name × List ℕ) → Map Receiving → Name → Bool
unfolding exists claimed
path_available disk receiving name = not (claimed name receiving) && not (exists name disk)

-- `rsplit_once('.')`
unfoldable pub rsplit_dot : Name → Option (Name × Name)
rsplit_dot [] = none
rsplit_dot (b ∷ name) = elim (rsplit_dot name) [
  | some parts ↦ some (b ∷ parts.0, parts.1)
  | none ↦ if b == b'.' then some ([], name) else none
]

abbrev pub stem_of : Name → Name × Name
stem_of name = elim (rsplit_dot name) [
  | none ↦ (name, [])
  | some parts ↦ if length parts.0 == 0 then (name, []) else (parts.0, b'.' ∷ parts.1)
]

-- A number below 1000 in decimal.
unfoldable pub decimal : ℕ → List ℕ
decimal n =
    if ltb n 10
    then (48 + n) ∷ []
    else if ltb n 100
    then (48 + n / 10) ∷ (48 + n % 10) ∷ []
    else (48 + n / 100) ∷ (48 + n / 10 % 10) ∷ (48 + n % 10) ∷ []

unfoldable pub numbered_name : Name → ℕ → Name
unfolding rsplit_dot decimal
numbered_name name n =
    let (stem, extension) = stem_of name in
    stem ++ (b' ' ∷ b'(' ∷ (decimal n ++ (b')' ∷ extension)))

-- The first free name from number `n` on, `rounds` of them.
unfoldable pub free_number : ℕ → List (Name × List ℕ) → Map Receiving → Name → ℕ → Option Name
unfolding path_available numbered_name
free_number zero disk receiving name n = none
free_number (suc rounds) disk receiving name n =
    let rest = free_number rounds disk receiving name (n + 1) in
    if path_available disk receiving (numbered_name name n)
    then some (numbered_name name n)
    else rest

unfoldable pub free_path : List (Name × List ℕ) → Map Receiving → Name → Option Name
unfolding path_available free_number
free_path disk receiving name =
    if path_available disk receiving name then some name else free_number 998 disk receiving name 2
