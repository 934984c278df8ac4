-- ===== src/Agent/Clipboard.antt =====
-- One side of the clipboard (`ClipboardSync` of crates/nebula-agent/src/clipboard.rs). What the
-- system's clipboard tells is an argument of the operations that ask it. `fingerprint` stands for the
-- hash of contents, `none` for an image that cannot be decoded. A path is its bytes.
pub mod Quiet
pub mod Echo
pub mod Offered
use nebula_desk.Prelude.{
  ℕ, ◌+◌, ◌*◌, List, [], ◌∷◌, ◌++◌, length, ltb, ◌==◌, if◌then◌else◌, Bool, true, false, not, ◌&&◌,
  ◌||◌, Option, none, some,
}
use nebula_desk.Prelude.Bytes.{same_bytes}
use nebula_desk.Proto.Transfer.{
  ClipboardFormat, plain_text, html, png, file_list, to_u8, ClipboardDataHeader,
}

abbrev pub max_contents : ℕ
max_contents = 64 * 1024 * 1024

pub record Contents : Type 0 where
  pub format : ClipboardFormat
  pub bytes : List ℕ

pub record ClipboardOffer : Type 0 where
  pub offer_id : ℕ
  pub formats : List ClipboardFormat
  pub size_hint : ℕ

pub record ClipboardRequest : Type 0 where
  pub offer_id : ℕ
  pub format : ClipboardFormat

pub data Action : Type 0 where
  announces : ClipboardOffer → Action  -- `Action::Offer`
  asks : ClipboardRequest → Action
  sends : ClipboardDataHeader → List ℕ → Action
  copies : List (List ℕ) → Action  -- `Action::Files`

pub record ClipboardSync : Type 0 where
  pub known : Option (List ℕ)
  pub generation : Option ℕ
  pub outgoing : Option (ℕ × Contents)
  pub next_offer : ℕ
  pub enabled : Bool
  pub files_enabled : Bool
  pub known_files : Option (List (List ℕ))

unfoldable pub with_file_transfer : Bool → Bool → ClipboardSync
with_file_transfer enabled files_enabled = record {
  known = none;
  generation = none;
  outgoing = none;
  next_offer = 1;
  enabled = enabled;
  files_enabled = files_enabled;
  known_files = none;
}

-- `Ok(None)`, `Ok(Some(..))` and `Err(..)`
pub data Read {ℓ} (A : Type ℓ) : Type ℓ where
  absent : Read A
  present : A → Read A
  broken : Read A

-- What the clipboard answers in one poll; `later` is the generation after the contents were read.
pub record Reading : Type 0 where
  pub generation : Option ℕ
  pub files : Read (List (List ℕ))
  pub contents : Read Contents
  pub later : Option ℕ

abbrev pub is_some {ℓ} : {A : Type ℓ} → Option A → Bool
is_some none = false
is_some (some a) = true

abbrev pub same_generation : Option ℕ → Option ℕ → Bool
same_generation none none = true
same_generation (some a) (some b) = a == b
same_generation _ _ = false

abbrev pub same_digest : Option (List ℕ) → List ℕ → Bool
same_digest none d = false
same_digest (some e) d = same_bytes e d

abbrev pub same_paths : List (List ℕ) → List (List ℕ) → Bool
same_paths [] [] = true
same_paths (a ∷ x) (b ∷ y) = same_bytes a b && same_paths x y
same_paths _ _ = false

abbrev pub same_files : Option (List (List ℕ)) → List (List ℕ) → Bool
same_files none files = false
same_files (some known) files = same_paths known files

abbrev pub is_member : List ℕ → List (List ℕ) → Bool
is_member path [] = false
is_member path (other ∷ paths) = same_bytes other path || is_member path paths

-- `files.retain(|path| seen.insert(path.clone()))`
unfoldable pub distinct_paths : List (List ℕ) → List (List ℕ) → List (List ℕ)
distinct_paths seen [] = []
distinct_paths seen (path ∷ paths) =
    let again = distinct_paths seen paths in
    let first = distinct_paths (path ∷ seen) paths in
    if is_member path seen then again else path ∷ first

abbrev pub is_supported : ClipboardFormat → Bool
is_supported plain_text = true
is_supported png = true
is_supported html = false
is_supported file_list = false

-- The generation changed while the contents were read.
abbrev pub moved_on : Reading → Bool
moved_on r = is_some r.generation && not (same_generation r.later r.generation)

-- The end of `on_data`, with the digest of the contents. `wrote`: the system's clipboard took them.
-- The second part tells whether the call succeeds.
unfoldable pub store : ClipboardSync → Option (List ℕ) → Bool → ClipboardSync × Bool
store c none wrote = (c, false)
store c (some d) false = (record c { generation = none }, false)
store c (some d) true =
    (record c { generation = none; known = some d; known_files = none; outgoing = none }, true)

module _ (fingerprint : Contents → Option (List ℕ)) where
  unfoldable pub digest : Contents → Option (List ℕ)
  digest x = if ltb max_contents (length x.bytes) then none else fingerprint x

  unfoldable pub prime_contents : ClipboardSync → Read Contents → ClipboardSync
  prime_contents c (present x) = elim (digest x) [ none ↦ c | some d ↦ record c { known = some d } ]
  prime_contents c _ = c

  unfoldable pub prime_files : ClipboardSync → Reading → Read (List (List ℕ)) → ClipboardSync
  prime_files c r (present files) = record c { known_files = some files }
  prime_files c r broken = c
  prime_files c r absent = if c.enabled then prime_contents c r.contents else c

  unfoldable pub prime : ClipboardSync → Reading → ClipboardSync
  prime c r =
      let c' = record c { generation = r.generation } in
      if not c.enabled && not c.files_enabled
      then c
      else if is_some r.generation
      then c'
      else prime_files c' r r.files

  unfoldable pub set_enabled : ClipboardSync → Bool → Reading → ClipboardSync
  set_enabled c true r =
      if c.enabled then c else prime (record c { enabled = true; outgoing = none; known = none }) r
  set_enabled c false r =
      if c.enabled then record c { enabled = false; outgoing = none; known = none } else c

  -- The end of `poll`, with the digest of the contents.
  unfoldable pub announce :
      ClipboardSync → Contents → Option (List ℕ) → ClipboardSync × Option Action
  announce c x none = (record c { outgoing = none }, none)
  announce c x (some d) =
      let c' = record c {
        known = some d;
        next_offer = c.next_offer + 1;
        outgoing = some (c.next_offer, x);
      } in
      if same_digest c.known d then (c, none) else (
        c',
        some (
            announces (record {
              offer_id = c.next_offer;
              formats = x.format ∷ [];
              size_hint = length x.bytes;
            })),
      )

  unfoldable pub poll_contents :
      ClipboardSync → Reading → Read Contents → ClipboardSync × Option Action
  poll_contents c r absent = (record c { outgoing = none; known = none }, none)
  poll_contents c r broken = (record c { outgoing = none }, none)
  poll_contents c r (present x) =
      if moved_on r
      then (c, none)
      else if ltb max_contents (length x.bytes)
      then (record c { outgoing = none }, none)
      else announce c x (digest x)

  unfoldable pub poll_files :
      ClipboardSync → Reading → Read (List (List ℕ)) → ClipboardSync × Option Action
  unfolding distinct_paths
  poll_files c r (present paths) =
      let files = distinct_paths [] paths in
      let changed = is_some r.generation || not (same_files c.known_files files) in
      if moved_on r then (c, none) else (
        record c { outgoing = none; known = none; known_files = some files },
        (if c.files_enabled && (changed && not (length files == 0))
            then some (copies files)
            else none),
      )
  poll_files c r broken = (record c { outgoing = none }, none)
  poll_files c r absent =
      let c' = record c { known_files = none } in
      if c.enabled then poll_contents c' r r.contents else (c', none)

  unfoldable pub poll : ClipboardSync → Reading → ClipboardSync × Option Action
  poll c r =
      let c' = if is_some r.generation then record c { generation = r.generation } else c in
      if not c.enabled && not c.files_enabled
      then (c, none)
      else if is_some r.generation && same_generation c.generation r.generation
      then (c, none)
      else poll_files c' r r.files

  unfoldable pub on_data :
      ClipboardSync → ClipboardDataHeader → List ℕ → Bool → ClipboardSync × Bool
  on_data c header bytes wrote =
      if not c.enabled
      then (c, false)
      else if ltb max_contents (length bytes)
      then (c, false)
      else if not (is_supported header.format)
      then (c, false)
      else store c (digest (record { format = header.format; bytes = bytes })) wrote

abbrev pub first_supported : List ClipboardFormat → Option ClipboardFormat
first_supported [] = none
first_supported (format ∷ formats) =
    if is_supported format then some format else first_supported formats

unfoldable pub on_offer : ClipboardSync → ClipboardOffer → Option Action
on_offer c offer =
    if not c.enabled
    then none
    else if ltb max_contents offer.size_hint
    then none
    else elim (first_supported offer.formats) [
      | none ↦ none
      | some format ↦ some (asks (record { offer_id = offer.offer_id; format = format }))
    ]

-- The answer to a request, with what is on offer.
unfoldable pub answer : Option (ℕ × Contents) → ClipboardRequest → Option Action
unfolding to_u8
answer none request = none
answer (some (offer_id, x)) request =
    if not (offer_id == request.offer_id) || not (to_u8 x.format == to_u8 request.format)
    then none
    else some (sends (record { offer_id = offer_id; format = x.format }) x.bytes)

unfoldable pub on_request : ClipboardSync → ClipboardRequest → Option Action
on_request c request = if not c.enabled then none else answer c.outgoing request

-- What happens to one side, and the actions that it takes, the last one first.
pub data ClipOp : Type 0 where
  polls : Reading → ClipOp
  is_offered : ClipboardOffer → ClipOp
  is_asked : ClipboardRequest → ClipOp
  is_sent : ClipboardDataHeader → List ℕ → Bool → ClipOp
  switches : Bool → Reading → ClipOp

abbrev pub pushed : Option Action → List Action → List Action
pushed none log = log
pushed (some action) log = action ∷ log

module _ (fingerprint : Contents → Option (List ℕ)) where
  unfoldable pub clip_step : ClipboardSync → ClipOp → ClipboardSync × Option Action
  clip_step c (polls r) = poll fingerprint c r
  clip_step c (is_offered offer) = (c, on_offer c offer)
  clip_step c (is_asked request) = (c, on_request c request)
  clip_step c (is_sent header bytes wrote) = ((on_data fingerprint c header bytes wrote).0, none)
  clip_step c (switches enabled r) = (set_enabled fingerprint c enabled r, none)

  unfoldable pub clip_run : ClipboardSync → List ClipOp → List Action → List Action
  clip_run c [] log = log
  clip_run c (op ∷ ops) log = clip_run (clip_step c op).0 ops (pushed (clip_step c op).1 log)
