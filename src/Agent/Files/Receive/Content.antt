-- ===== src/Agent/Files/Receive/Content.antt =====
-- A file that is received from an honest sender holds the sender's bytes, in whatever order its
-- chunks arrive.
use nebula_desk.Prelude.{
  ℕ, ◌+◌, ◌-◌, ◌≤◌, ◌<◌, ◌≡◌, ◌⊎◌, inl, inr, sym, ap, ◌∙◌, max, List, ◌++◌, length, get_elem?, take,
  drop, replicate, length-append, length-take, length-drop, length-replicate, ltb, true, arith,
  Bool-cases, append_assoc,
}
use nebula_desk.Prelude.Elements.{
  get_elem?-append_left, get_elem?-append_right, get_elem?-take, get_elem?-drop, get_elem?_out,
  get_elem?-ext,
}
use nebula_desk.Agent.Files.{Receiving}
use nebula_desk.Agent.Files.Ranges.{complete}
use nebula_desk.Agent.Files.Ranges.Merged.{In, Merged, add-Merged, In-add, complete-In}
use nebula_desk.Agent.Files.Disk.{write_at}
use nebula_desk.Agent.Files.Receive.{taken}

length-write_at :
    (offset : ℕ) (bytes file : List ℕ)
    → length (write_at offset bytes file) ≡ max (length file) (offset + length bytes)
unfolding write_at
length-write_at offset bytes file =
    let front = take offset file in
    let gap : List ℕ = replicate (offset - length file) 0 in
    let tail = drop (offset + length bytes) file in
    omega (
      arith,
      length-append front (gap ++ (bytes ++ tail)),
      length-append gap (bytes ++ tail),
      length-append bytes tail,
      length-take offset file,
      length-replicate {A = ℕ} (offset - length file) 0,
      length-drop (offset + length bytes) file,
    )

-- The head of what is written: the file before the offset, with the gap.
length-head :
    (offset : ℕ) (file : List ℕ)
    → length (take offset file ++ replicate (offset - length file) 0) ≡ offset
length-head offset file =
    let gap : List ℕ = replicate (offset - length file) 0 in
    omega (
      arith,
      length-append (take offset file) gap,
      length-take offset file,
      length-replicate {A = ℕ} (offset - length file) 0,
    )

write_at_head :
    (offset : ℕ) (bytes file : List ℕ)
    → write_at offset bytes file
      ≡ (take offset file ++ replicate (offset - length file) 0)
        ++ (bytes ++ drop (offset + length bytes) file)
unfolding write_at
write_at_head offset bytes file = sym (
    append_assoc (take offset file) (replicate (offset - length file) 0)
      (bytes ++ drop (offset + length bytes) file))

-- A byte before the offset that the file has stays.
get_elem?-write_at_before :
    (offset : ℕ) (bytes file : List ℕ) (x : ℕ)
    → x < offset
    → x < length file
    → get_elem? (write_at offset bytes file) x ≡ get_elem? file x
unfolding write_at
get_elem?-write_at_before offset bytes file x h k =
    get_elem?-append_left (take offset file) _ x (omega (arith, length-take offset file))
    ∙ get_elem?-take offset file x h

get_elem?-write_at_new :
    (offset : ℕ) (bytes file : List ℕ) (x : ℕ)
    → offset ≤ x
    → x < offset + length bytes
    → get_elem? (write_at offset bytes file) x ≡ get_elem? bytes (x - offset)
get_elem?-write_at_new offset bytes file x h k =
    let size = length-head offset file in
    let at_head : get_elem? (write_at offset bytes file) x
        ≡ get_elem? (bytes ++ drop (offset + length bytes) file) (x - offset) =
      ap (λ l. get_elem? l x) (write_at_head offset bytes file)
      ∙ get_elem?-append_right (take offset file ++ replicate (offset - length file) 0) _ x
          (omega arith)
      ∙ ap (λ n. get_elem? (bytes ++ drop (offset + length bytes) file) (x - n)) size in
    at_head
    ∙ get_elem?-append_left bytes (drop (offset + length bytes) file) (x - offset) (omega arith)

get_elem?-write_at_after :
    (offset : ℕ) (bytes file : List ℕ) (x : ℕ)
    → offset + length bytes ≤ x
    → get_elem? (write_at offset bytes file) x ≡ get_elem? file x
get_elem?-write_at_after offset bytes file x h =
    let size = length-head offset file in
    ap (λ l. get_elem? l x) (write_at_head offset bytes file)
    ∙ get_elem?-append_right (take offset file ++ replicate (offset - length file) 0) _ x
        (omega arith)
    ∙ ap (λ n. get_elem? (bytes ++ drop (offset + length bytes) file) (x - n)) size
    ∙ get_elem?-append_right bytes (drop (offset + length bytes) file) (x - offset) (omega arith)
    ∙ get_elem?-drop (offset + length bytes) file (x - offset - length bytes)
    ∙ ap (get_elem? file) (omega arith)

-- What has arrived of a file is the sender's.
pub record Agrees (content : List ℕ) (r : Receiving) : Type 0 where
  pub size : r.size ≡ length content
  pub merged : Merged r.have
  pub within : (x : ℕ) → In x r.have → x < length r.file
  pub bytes : (x : ℕ) → In x r.have → get_elem? r.file x ≡ get_elem? content x
  pub fits : length r.file ≤ r.size

-- A chunk is a part of the sender's file.
pub record IsPart (content : List ℕ) (offset : ℕ) (bytes : List ℕ) : Type 0 where
  pub within : offset + length bytes ≤ length content
  pub same : (i : ℕ) → i < length bytes → get_elem? bytes i ≡ get_elem? content (offset + i)

pub taken-Agrees :
    (content : List ℕ) (r : Receiving) (offset : ℕ) (bytes : List ℕ) (now : ℕ)
    → Agrees content r
    → IsPart content offset bytes
    → Agrees content (taken r offset (offset + length bytes) bytes now)
unfolding taken
taken-Agrees content r offset bytes now a part =
    let end = offset + length bytes in
    let size = length-write_at offset bytes r.file in
    let fits = a.fits in
    let announced = a.size in
    let whole = part.within in
    record {
      size = a.size;
      merged = add-Merged r.have offset end a.merged;
      within = λ x i. elim ((In-add x r.have offset end a.merged).0 i) [
        | inl old ↦ let before = a.within x old in omega arith
        | inr new ↦ let hi = new.1 in omega arith
      ];
      bytes = λ x i. elim ((In-add x r.have offset end a.merged).0 i) [
        | inl old ↦ elim (Bool-cases (ltb x offset)) [
          | inl before ↦
              get_elem?-write_at_before offset bytes r.file x (ground arith) (a.within x old)
              ∙ a.bytes x old
          | inr from ↦ elim (Bool-cases (ltb x end)) [
            | inl here ↦
                get_elem?-write_at_new offset bytes r.file x (ground arith) (ground arith)
                ∙ part.same (x - offset) (ground arith)
                ∙ ap (get_elem? content) (ground arith)
            | inr after ↦
                get_elem?-write_at_after offset bytes r.file x (ground arith) ∙ a.bytes x old
          ]
        ]
        | inr new ↦
            let lo = new.0 in
            let hi = new.1 in
            get_elem?-write_at_new offset bytes r.file x lo hi
            ∙ part.same (x - offset) (omega arith)
            ∙ ap (get_elem? content) (omega arith)
      ];
      fits = omega arith;
    }

-- When every byte has arrived, the file is the sender's.
pub complete-Agrees :
    (content : List ℕ) (r : Receiving)
    → Agrees content r
    → complete r.have r.size ≡ true
    → r.file ≡ content
complete-Agrees content r a done =
    let all = (complete-In r.have r.size a.merged).0 done in
    let announced = a.size in
    let fits = a.fits in
    get_elem?-ext r.file content λ x. elim (Bool-cases (ltb x r.size)) [
      | inl below ↦ a.bytes x (all x (ground arith))
      | inr beyond ↦
          get_elem?_out r.file x (ground arith) ∙ sym (get_elem?_out content x (ground arith))
    ]

-- What a chunk adds is there, and what was there stays.
pub In-taken :
    (content : List ℕ) (r : Receiving) (offset : ℕ) (bytes : List ℕ) (now : ℕ)
    → Agrees content r
    → (x : ℕ) → In x r.have ⊎ ((offset ≤ x) × (x < offset + length bytes))
    → In x (taken r offset (offset + length bytes) bytes now).have
unfolding taken
In-taken content r offset bytes now a x i =
    (In-add x r.have offset (offset + length bytes) a.merged).1 i
