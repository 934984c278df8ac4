-- ===== src/Agent/Clipboard/Echo.antt =====
-- What the peer sent is not announced back to it.
use nebula_desk.Prelude.{
  ℕ, ◌≡◌, ◌⊎◌, inl, inr, refl, sym, ap, ◌∙◌, subst, List, [], ◌∷◌, length, ltb, if◌then◌else◌, Bool,
  true, false, not, Option, none, some, Bool-cases, All,
}
use nebula_desk.Proto.Transfer.{ClipboardDataHeader}
use nebula_desk.Agent.Clipboard.{
  Contents, ClipboardRequest, Action, announces, asks, sends, copies, ClipboardSync, Reading,
  max_contents, digest, prime_contents, prime_files, prime, set_enabled, poll, store, on_data,
  is_supported, on_offer, answer, on_request, ClipOp, polls, is_offered, is_asked, is_sent,
  switches, pushed, clip_step, clip_run,
}
use nebula_desk.Agent.Clipboard.Quiet.{Shows, Ready, poll-Quiet}
use nebula_desk.Agent.Clipboard.Offered.{on_offer_asks}

refuted : true ≡ false → ⊥
refuted e = cc

-- No action but a question for contents that the peer offers.
abbrev pub OnlyAsks : List Action → Type 0
OnlyAsks [] = Unit
OnlyAsks (asks request ∷ log) = OnlyAsks log
OnlyAsks (announces offer ∷ log) = ⊥
OnlyAsks (sends header bytes ∷ log) = ⊥
OnlyAsks (copies files ∷ log) = ⊥

asked-OnlyAsks :
    (action : Option Action) (log : List Action)
    → ((action ≡ none) ⊎ ((request : ClipboardRequest) × (action ≡ some (asks request))))
    → OnlyAsks log
    → OnlyAsks (pushed action log)
asked-OnlyAsks action log (inl nothing) fine =
    subst (λ a. OnlyAsks (pushed a log)) (sym nothing) fine
asked-OnlyAsks action log (inr question) fine =
    subst (λ a. OnlyAsks (pushed a log)) (sym question.1) fine

module _ (fingerprint : Contents → Option (List ℕ)) (d : List ℕ) where
  store-Ready :
      (c : ClipboardSync) (e : Option (List ℕ)) (wrote : Bool)
      → Ready fingerprint d c
      → ((wrote ≡ false) ⊎ (e ≡ some d))
      → Ready fingerprint d (store c e wrote).0
  unfolding store
  store-Ready c none wrote ready why = ready
  store-Ready c (some e) false ready why = ready
  store-Ready c (some e) true ready (inl failed) = absurd (refuted failed)
  store-Ready c (some e) true ready (inr same) = (refl, λ enabled. same)

  on_data-Ready :
      (c : ClipboardSync) (header : ClipboardDataHeader) (bytes : List ℕ) (wrote : Bool)
      → Ready fingerprint d c
      → ((wrote ≡ false)
          ⊎ (digest fingerprint (record { format = header.format; bytes = bytes }) ≡ some d))
      → Ready fingerprint d (on_data fingerprint c header bytes wrote).0
  unfolding on_data
  on_data-Ready c header bytes wrote ready why = elim (Bool-cases (not c.enabled)) [
    | inl off ↦ rw (off, on_data) ready
    | inr on ↦ elim (Bool-cases (ltb max_contents (length bytes))) [
      | inl large ↦ rw (on, large, on_data) ready
      | inr fits ↦ elim (Bool-cases (not (is_supported header.format))) [
        | inl strange ↦ rw (on, fits, strange, on_data) ready
        | inr supported ↦
            rw (on, fits, supported, on_data)
              (store-Ready c (digest fingerprint (record { format = header.format; bytes = bytes }))
                wrote ready why)
      ]
    ]
  ]

  -- Where the platform has no generation, the contents are adopted.
  prime-Ready :
      (c : ClipboardSync) (r : Reading)
      → c.outgoing ≡ none
      → c.enabled ≡ true
      → Shows fingerprint d r
      → r.generation ≡ none
      → Ready fingerprint d (prime fingerprint c r)
  unfolding prime prime_files prime_contents
  prime-Ready c r none_out enabled shows no_generation =
      rw (enabled, no_generation, shows.0, prime, prime_files)
        (rw (enabled, shows.1.1, shows.1.2, prime_contents) (none_out, λ e. refl))

  set_enabled-Ready :
      (c : ClipboardSync) (enabled : Bool) (r : Reading)
      → Ready fingerprint d c
      → Shows fingerprint d r
      → r.generation ≡ none
      → Ready fingerprint d (set_enabled fingerprint c enabled r)
  unfolding set_enabled
  set_enabled-Ready c true r ready shows no_generation = chosen c.enabled
    where
      next : ClipboardSync
      next = record c { enabled = true; outgoing = none; known = none }

      chosen : (b : Bool) → Ready fingerprint d (if b then c else prime fingerprint next r)
      chosen true = ready
      chosen false = prime-Ready next r refl refl shows no_generation
  set_enabled-Ready c false r ready shows no_generation = chosen c.enabled
    where
      next : ClipboardSync
      next = record c { enabled = false; outgoing = none; known = none }

      chosen : (b : Bool) → Ready fingerprint d (if b then next else c)
      chosen true = (refl, λ enabled. absurd (refuted (sym enabled)))
      chosen false = ready

  on_request-none :
      (c : ClipboardSync) (request : ClipboardRequest)
      → c.outgoing ≡ none
      → on_request c request ≡ none
  unfolding on_request answer
  on_request-none c request none_out = chosen c.enabled
    where
      chosen : (b : Bool) → (if not b then none else answer c.outgoing request) ≡ none
      chosen true = ap (λ o. answer o request) none_out
      chosen false = refl

  -- What leaves the clipboard with contents of digest `d`: polls that read them, anything that the
  -- peer offers or asks for, contents that are refused or have the same digest, and, on a platform
  -- without a generation, switches of the permission.
  abbrev pub Continues : ClipOp → Type 0
  Continues (polls r) = Shows fingerprint d r
  Continues (is_offered offer) = Unit
  Continues (is_asked request) = Unit
  Continues (is_sent header bytes wrote) =
      (wrote ≡ false)
      ⊎ (digest fingerprint (record { format = header.format; bytes = bytes }) ≡ some d)
  Continues (switches enabled r) = Shows fingerprint d r × (r.generation ≡ none)

  clip_step-Ready :
      (c : ClipboardSync) (op : ClipOp) (log : List Action)
      → Ready fingerprint d c
      → Continues op
      → OnlyAsks log
      → Ready fingerprint d (clip_step fingerprint c op).0
        × OnlyAsks (pushed (clip_step fingerprint c op).1 log)
  unfolding clip_step
  clip_step-Ready c (polls r) log ready shows fine =
      let q = poll-Quiet fingerprint d c r ready shows in
      (q.0, asked-OnlyAsks (poll fingerprint c r).1 log (inl q.1) fine)
  clip_step-Ready c (is_offered offer) log ready goes_on fine =
      (ready, asked-OnlyAsks (on_offer c offer) log (on_offer_asks fingerprint [] tt c offer) fine)
  clip_step-Ready c (is_asked request) log ready goes_on fine = (
    ready,
    asked-OnlyAsks (on_request c request) log (inl (on_request-none c request ready.0)) fine,
  )
  clip_step-Ready c (is_sent header bytes wrote) log ready why fine =
      (on_data-Ready c header bytes wrote ready why, fine)
  clip_step-Ready c (switches enabled r) log ready why fine =
      (set_enabled-Ready c enabled r ready why.0 why.1, fine)

  clip_run-OnlyAsks :
      (c : ClipboardSync) (ops : List ClipOp) (log : List Action)
      → Ready fingerprint d c
      → All Continues ops
      → OnlyAsks log
      → OnlyAsks (clip_run fingerprint c ops log)
  unfolding clip_run
  clip_run-OnlyAsks c [] log ready goes_on fine = fine
  clip_run-OnlyAsks c (op ∷ ops) log ready goes_on fine =
      let step = clip_step-Ready c op log ready goes_on.0 fine in
      clip_run-OnlyAsks (clip_step fingerprint c op).0 ops
        (pushed (clip_step fingerprint c op).1 log) step.0 goes_on.1 step.1

accepted-Ready :
    (fingerprint : Contents → Option (List ℕ)) (c : ClipboardSync) (header : ClipboardDataHeader)
    (bytes d : List ℕ)
    → (on_data fingerprint c header bytes true).1 ≡ true
    → digest fingerprint (record { format = header.format; bytes = bytes }) ≡ some d
    → Ready fingerprint d (on_data fingerprint c header bytes true).0
unfolding on_data store
accepted-Ready fingerprint c header bytes d fine same = elim (Bool-cases (not c.enabled)) [
  | inl off ↦ absurd (refuted (sym fine ∙ (rw (off, on_data) refl)))
  | inr on ↦ elim (Bool-cases (ltb max_contents (length bytes))) [
    | inl large ↦ absurd (refuted (sym fine ∙ (rw (on, large, on_data) refl)))
    | inr fits ↦ elim (Bool-cases (not (is_supported header.format))) [
      | inl strange ↦ absurd (refuted (sym fine ∙ (rw (on, fits, strange, on_data) refl)))
      | inr supported ↦ rw (on, fits, supported, same, on_data) (refl, λ enabled. refl)
    ]
  ]
]

-- Contents that the peer sent, and that were written to the clipboard, are not announced back to it:
-- as long as what follows are polls that find contents of the same digest (an image that the system
-- encoded anew has it) and no copied files, offers and requests of the peer, contents that cannot be
-- written or have that digest too, and switches of the permission, only on a platform whose clipboard
-- has no generation and while it shows such contents, this side announces, sends and copies nothing;
-- it only asks for what is offered.
pub on_data-silent :
    (fingerprint : Contents → Option (List ℕ)) (c : ClipboardSync) (header : ClipboardDataHeader)
    (bytes d : List ℕ) (ops : List ClipOp)
    → (on_data fingerprint c header bytes true).1 ≡ true
    → digest fingerprint (record { format = header.format; bytes = bytes }) ≡ some d
    → All (Continues fingerprint d) ops
    → OnlyAsks (clip_run fingerprint (on_data fingerprint c header bytes true).0 ops [])
on_data-silent fingerprint c header bytes d ops fine same goes_on =
    clip_run-OnlyAsks fingerprint d (on_data fingerprint c header bytes true).0 ops []
      (accepted-Ready fingerprint c header bytes d fine same) goes_on tt
