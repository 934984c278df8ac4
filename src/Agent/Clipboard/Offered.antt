-- ===== src/Agent/Clipboard/Offered.antt =====
-- Contents leave this side only after they were offered.
use mathlib.Core.List.{Memᴰ}
use nebula_desk.Prelude.{
  ℕ, ◌≡◌, ◌⊎◌, inl, inr, refl, sym, subst, List, [], ◌∷◌, length, ltb, ◌==◌, if◌then◌else◌, Bool,
  true, false, not, ◌&&◌, ◌||◌, Option, none, some, Bool-cases, Option-cases,
}
use nebula_desk.Proto.Transfer.{ClipboardFormat, ClipboardDataHeader, to_u8}
use nebula_desk.Agent.Clipboard.{
  Contents, ClipboardOffer, ClipboardRequest, Action, announces, asks, sends, copies, ClipboardSync,
  Read, absent, present, broken, Reading, moved_on, is_some, same_generation, same_digest,
  same_files, max_contents, with_file_transfer, distinct_paths, is_supported, digest,
  prime_contents, prime_files, prime, set_enabled, announce, poll_contents, poll_files, poll, store,
  on_data, first_supported, on_offer, answer, on_request, ClipOp, polls, is_offered, is_asked,
  is_sent, switches, pushed, clip_step, clip_run,
}

abbrev pub offer_of : ℕ → ClipboardFormat → List ℕ → Action
offer_of id format bytes =
    announces (record { offer_id = id; formats = format ∷ []; size_hint = length bytes })

-- Each sending of contents follows an offer with its number, of its format and size.
abbrev pub LogOffered : List Action → Type 0
LogOffered [] = Unit
LogOffered (sends header bytes ∷ log) =
    Memᴰ (offer_of header.offer_id header.format bytes) log × LogOffered log
LogOffered (announces offer ∷ log) = LogOffered log
LogOffered (asks request ∷ log) = LogOffered log
LogOffered (copies files ∷ log) = LogOffered log

-- What is on offer was announced.
abbrev Backed : Option (ℕ × Contents) → List Action → Type 0
Backed none log = Unit
Backed (some (id, x)) log = Memᴰ (offer_of id x.format x.bytes) log

abbrev Kept : List Action → ClipboardSync × Option Action → Type 0
Kept log p = Backed p.0.outgoing (pushed p.1 log) × LogOffered (pushed p.1 log)

Backed-cons :
    (o : Option (ℕ × Contents)) (action : Action) (log : List Action)
    → Backed o log
    → Backed o (action ∷ log)
Backed-cons none action log backed = tt
Backed-cons (some (id, x)) action log backed = Memᴰ.tail backed

Backed-none : (o : Option (ℕ × Contents)) (log : List Action) → o ≡ none → Backed o log
Backed-none o log h = subst (λ p. Backed p log) (sym h) tt

module _ (fingerprint : Contents → Option (List ℕ)) (log : List Action)
    (fine : LogOffered log) where
  announce-Kept :
      (c : ClipboardSync) (x : Contents) (d : Option (List ℕ))
      → Backed c.outgoing log
      → Kept log (announce fingerprint c x d)
  unfolding announce
  announce-Kept c x none backed = (tt, fine)
  announce-Kept c x (some d) backed = elim (Bool-cases (same_digest c.known d)) [
    | inl same ↦ rw (same, announce) (backed, fine)
    | inr new ↦ rw (new, announce) (Memᴰ.head refl, fine)
  ]

  poll_contents-Kept :
      (c : ClipboardSync) (r : Reading) (contents : Read Contents)
      → Backed c.outgoing log
      → Kept log (poll_contents fingerprint c r contents)
  unfolding poll_contents
  poll_contents-Kept c r absent backed = (tt, fine)
  poll_contents-Kept c r broken backed = (tt, fine)
  poll_contents-Kept c r (present x) backed = elim (Bool-cases (moved_on r)) [
    | inl moved ↦ rw (moved, poll_contents) (backed, fine)
    | inr still ↦ elim (Bool-cases (ltb max_contents (length x.bytes))) [
      | inl large ↦ rw (still, large, poll_contents) (tt, fine)
      | inr fits ↦ rw (still, fits, poll_contents) (announce-Kept c x (digest fingerprint x) backed)
    ]
  ]

  copied-Kept :
      (c : ClipboardSync) (b : Bool) (files : List (List ℕ))
      → c.outgoing ≡ none
      → Kept log (c, (if b then some (copies files) else none))
  copied-Kept c true files h = (subst (λ o. Backed o (copies files ∷ log)) (sym h) tt, fine)
  copied-Kept c false files h = (subst (λ o. Backed o log) (sym h) tt, fine)

  poll_files-Kept :
      (c : ClipboardSync) (r : Reading) (files : Read (List (List ℕ)))
      → Backed c.outgoing log
      → Kept log (poll_files fingerprint c r files)
  unfolding poll_files
  poll_files-Kept c r broken backed = (tt, fine)
  poll_files-Kept c r absent backed =
      let c' : ClipboardSync = record c { known_files = none } in
      let choose : Bool → ClipboardSync × Option Action =
        λ b. if b then poll_contents fingerprint c' r r.contents else (c', none) in
      elim (Bool-cases c.enabled) [
        | inl enabled ↦
            subst (λ b. Kept log (choose b)) (sym enabled)
              (poll_contents-Kept c' r r.contents backed)
        | inr off ↦ subst (λ b. Kept log (choose b)) (sym off) (backed, fine)
      ]
  poll_files-Kept c r (present paths) backed =
      let files = distinct_paths [] paths in
      let changed = is_some r.generation || not (same_files c.known_files files) in
      let c' : ClipboardSync = record c {
        outgoing = none;
        known = none;
        known_files = some files;
      } in
      elim (Bool-cases (moved_on r)) [
        | inl moved ↦ rw (moved, poll_files) (backed, fine)
        | inr still ↦
            rw (still, poll_files)
              (copied-Kept c' (c.files_enabled && (changed && not (length files == 0))) files refl)
      ]

  poll-Kept :
      (c : ClipboardSync) (r : Reading) → Backed c.outgoing log → Kept log (poll fingerprint c r)
  unfolding poll
  poll-Kept c r backed = elim (Bool-cases (not c.enabled && not c.files_enabled)) [
    | inl off ↦ rw (off, poll) (backed, fine)
    | inr on ↦
        elim (Bool-cases (is_some r.generation && same_generation c.generation r.generation)) [
          | inl seen ↦ rw (on, seen, poll) (backed, fine)
          | inr new ↦ rw (on, new, poll) (noted (is_some r.generation))
        ]
  ]
    where
      noted :
          (b : Bool)
          → Kept log (
              poll_files fingerprint
                (if b then record c { generation = r.generation } else c)
                r
                r.files)
      noted true = poll_files-Kept (record c { generation = r.generation }) r r.files backed
      noted false = poll_files-Kept c r r.files backed

  answer-Kept :
      (c : ClipboardSync) (request : ClipboardRequest) (outgoing : Option (ℕ × Contents))
      → Backed c.outgoing log
      → Backed outgoing log
      → Kept log (c, answer outgoing request)
  unfolding answer
  answer-Kept c request none backed held = (backed, fine)
  answer-Kept c request (some (id, x)) backed held =
      elim (Bool-cases
        (not (id == request.offer_id) || not (to_u8 x.format == to_u8 request.format))) [
          | inl other ↦ rw (other, answer) (backed, fine)
          | inr same ↦ rw (same, answer) (Backed-cons c.outgoing _ log backed, (held, fine))
        ]

  on_request-Kept :
      (c : ClipboardSync) (request : ClipboardRequest)
      → Backed c.outgoing log
      → Kept log (c, on_request c request)
  unfolding on_request
  on_request-Kept c request backed =
      let choose : Bool → ClipboardSync × Option Action =
        λ b. (c, (if not b then none else answer c.outgoing request)) in
      elim (Bool-cases c.enabled) [
        | inl enabled ↦
            subst (λ b. Kept log (choose b)) (sym enabled)
              (answer-Kept c request c.outgoing backed backed)
        | inr off ↦ subst (λ b. Kept log (choose b)) (sym off) (backed, fine)
      ]

  asked-Kept :
      (c : ClipboardSync) (action : Option Action)
      → Backed c.outgoing log
      → ((action ≡ none) ⊎ ((request : ClipboardRequest) × (action ≡ some (asks request))))
      → Kept log (c, action)
  asked-Kept c action backed (inl nothing) =
      subst (λ a. Kept log (c, a)) (sym nothing) (backed, fine)
  asked-Kept c action backed (inr question) =
      subst (λ a. Kept log (c, a)) (sym question.1)
        (Backed-cons c.outgoing (asks question.0) log backed, fine)

  pub on_offer_asks :
      (c : ClipboardSync) (offer : ClipboardOffer)
      → (on_offer c offer ≡ none)
        ⊎ ((request : ClipboardRequest) × (on_offer c offer ≡ some (asks request)))
  unfolding on_offer
  on_offer_asks c offer = elim (Bool-cases (not c.enabled)) [
    | inl off ↦ inl (rw (off, on_offer) refl)
    | inr on ↦ elim (Bool-cases (ltb max_contents offer.size_hint)) [
      | inl large ↦ inl (rw (on, large, on_offer) refl)
      | inr fits ↦ elim (Option-cases (first_supported offer.formats)) [
        | inl nothing ↦ inl (rw (on, fits, nothing, on_offer) refl)
        | inr found ↦ inr (
          record { offer_id = offer.offer_id; format = found.0 },
          rw (on, fits, found.1, on_offer) refl,
        )
      ]
    ]
  ]

  store_outgoing :
      (c : ClipboardSync) (d : Option (List ℕ)) (wrote : Bool)
      → Backed c.outgoing log
      → Backed (store c d wrote).0.outgoing log
  unfolding store
  store_outgoing c none wrote backed = backed
  store_outgoing c (some d) true backed = tt
  store_outgoing c (some d) false backed = backed

  on_data_outgoing :
      (c : ClipboardSync) (header : ClipboardDataHeader) (bytes : List ℕ) (wrote : Bool)
      → Backed c.outgoing log
      → Backed (on_data fingerprint c header bytes wrote).0.outgoing log
  unfolding on_data
  on_data_outgoing c header bytes wrote backed = elim (Bool-cases (not c.enabled)) [
    | inl off ↦ rw (off, on_data) backed
    | inr on ↦ elim (Bool-cases (ltb max_contents (length bytes))) [
      | inl large ↦ rw (on, large, on_data) backed
      | inr fits ↦ elim (Bool-cases (not (is_supported header.format))) [
        | inl strange ↦ rw (on, fits, strange, on_data) backed
        | inr supported ↦
            rw (on, fits, supported, on_data)
              (store_outgoing c
                (digest fingerprint (record { format = header.format; bytes = bytes })) wrote
                backed)
      ]
    ]
  ]

  prime_contents_outgoing :
      (c : ClipboardSync) (contents : Read Contents)
      → (prime_contents fingerprint c contents).outgoing ≡ c.outgoing
  unfolding prime_contents
  prime_contents_outgoing c (present x) = elim (Option-cases (digest fingerprint x)) [
    | inl unknown ↦ rw (unknown, prime_contents) refl
    | inr found ↦ rw (found.1, prime_contents) refl
  ]
  prime_contents_outgoing c absent = refl
  prime_contents_outgoing c broken = refl

  prime_files_outgoing :
      (c : ClipboardSync) (r : Reading) (files : Read (List (List ℕ)))
      → (prime_files fingerprint c r files).outgoing ≡ c.outgoing
  unfolding prime_files
  prime_files_outgoing c r (present files) = refl
  prime_files_outgoing c r broken = refl
  prime_files_outgoing c r absent = chosen c.enabled
    where
      chosen :
          (b : Bool)
          → (if b then prime_contents fingerprint c r.contents else c).outgoing ≡ c.outgoing
      chosen true = prime_contents_outgoing c r.contents
      chosen false = refl

  prime_outgoing : (c : ClipboardSync) (r : Reading) → (prime fingerprint c r).outgoing ≡ c.outgoing
  unfolding prime
  prime_outgoing c r = elim (Bool-cases (not c.enabled && not c.files_enabled)) [
    | inl off ↦ rw (off, prime) refl
    | inr on ↦ elim (Bool-cases (is_some r.generation)) [
      | inl has_one ↦ rw (on, has_one, prime) refl
      | inr has_none ↦
          rw (on, has_none, prime)
            (prime_files_outgoing (record c { generation = r.generation }) r r.files)
    ]
  ]

  set_enabled_outgoing :
      (c : ClipboardSync) (enabled : Bool) (r : Reading)
      → Backed c.outgoing log
      → Backed (set_enabled fingerprint c enabled r).outgoing log
  unfolding set_enabled
  set_enabled_outgoing c true r backed = chosen c.enabled
    where
      next : ClipboardSync
      next = record c { enabled = true; outgoing = none; known = none }

      chosen : (b : Bool) → Backed (if b then c else prime fingerprint next r).outgoing log
      chosen true = backed
      chosen false = Backed-none (prime fingerprint next r).outgoing log (prime_outgoing next r)
  set_enabled_outgoing c false r backed = chosen c.enabled
    where
      next : ClipboardSync
      next = record c { enabled = false; outgoing = none; known = none }

      chosen : (b : Bool) → Backed (if b then next else c).outgoing log
      chosen true = tt
      chosen false = backed

  clip_step-Kept :
      (c : ClipboardSync) (op : ClipOp)
      → Backed c.outgoing log
      → Kept log (clip_step fingerprint c op)
  unfolding clip_step
  clip_step-Kept c (polls r) backed = poll-Kept c r backed
  clip_step-Kept c (is_offered offer) backed =
      asked-Kept c (on_offer c offer) backed (on_offer_asks c offer)
  clip_step-Kept c (is_asked request) backed = on_request-Kept c request backed
  clip_step-Kept c (is_sent header bytes wrote) backed =
      (on_data_outgoing c header bytes wrote backed, fine)
  clip_step-Kept c (switches enabled r) backed = (set_enabled_outgoing c enabled r backed, fine)

clip_run-Offered_from :
    (fingerprint : Contents → Option (List ℕ)) (c : ClipboardSync) (ops : List ClipOp)
    (log : List Action)
    → LogOffered log
    → Backed c.outgoing log
    → LogOffered (clip_run fingerprint c ops log)
unfolding clip_run
clip_run-Offered_from fingerprint c [] log fine backed = fine
clip_run-Offered_from fingerprint c (op ∷ ops) log fine backed =
    let k = clip_step-Kept fingerprint log fine c op backed in
    clip_run-Offered_from fingerprint (clip_step fingerprint c op).0 ops
      (pushed (clip_step fingerprint c op).1 log) k.1 k.0

-- Whatever the peer asks for and sends, whatever is copied, and however the permission is switched,
-- a new side sends contents only after it offered them: an offer with the same number, of their
-- format and their size, stands before each sending.
pub clip_run-LogOffered :
    (fingerprint : Contents → Option (List ℕ)) (enabled files_enabled : Bool) (ops : List ClipOp)
    → LogOffered (clip_run fingerprint (with_file_transfer enabled files_enabled) ops [])
unfolding with_file_transfer
clip_run-LogOffered fingerprint enabled files_enabled ops =
    clip_run-Offered_from fingerprint (with_file_transfer enabled files_enabled) ops [] tt tt
