-- ===== src/Agent/Clipboard/Quiet.antt =====
-- What a poll does while the clipboard shows contents whose digest is known.
use nebula_desk.Prelude.{
  ℕ, ◌≡◌, inl, inr, refl, sym, ap, ◌∙◌, subst, List, length, ltb, if◌then◌else◌, Bool, true, false,
  not, ◌&&◌, Option, none, some, Bool-cases,
}
use nebula_desk.Prelude.Bytes.{same_bytes_refl}
use nebula_desk.Agent.Clipboard.{
  Contents, Action, ClipboardSync, absent, present, Reading, moved_on, is_some, same_generation,
  max_contents, digest, announce, poll_contents, poll_files, poll, same_digest,
}

module _ (fingerprint : Contents → Option (List ℕ)) (d : List ℕ) where
  -- The clipboard shows no copied files, and contents of digest `d`.
  abbrev pub Shows : Reading → Type 0
  Shows r =
      (r.files ≡ absent)
      × ((x : Contents) × (r.contents ≡ present x) × (digest fingerprint x ≡ some d))

  -- Nothing is on offer, and a side that shares its clipboard knows the digest.
  abbrev pub Ready : ClipboardSync → Type 0
  Ready c = (c.outgoing ≡ none) × (c.enabled ≡ true → c.known ≡ some d)

  -- What a poll leaves: nothing is to be done.
  abbrev pub Quiet : ClipboardSync × Option Action → Type 0
  Quiet p = Ready p.0 × (p.1 ≡ none)

  announce-Quiet :
      (c : ClipboardSync) (x : Contents)
      → Ready c
      → c.known ≡ some d
      → Quiet (announce fingerprint c x (some d))
  unfolding announce
  announce-Quiet c x ready known =
      let same : same_digest c.known d ≡ true =
        ap (λ k. same_digest k d) known ∙ same_bytes_refl d in
      rw (same, announce) (ready, refl)

  poll_contents-Quiet :
      (c : ClipboardSync) (r : Reading) (x : Contents)
      → Ready c
      → c.known ≡ some d
      → digest fingerprint x ≡ some d
      → Quiet (poll_contents fingerprint c r (present x))
  unfolding poll_contents
  poll_contents-Quiet c r x ready known same = elim (Bool-cases (moved_on r)) [
    | inl moved ↦ rw (moved, poll_contents) (ready, refl)
    | inr still ↦ elim (Bool-cases (ltb max_contents (length x.bytes))) [
      | inl large ↦ rw (still, large, poll_contents) ((refl, ready.1), refl)
      | inr fits ↦
          rw (still, fits, poll_contents)
            (subst (λ o. Quiet (announce fingerprint c x o)) (sym same)
              (announce-Quiet c x ready known))
    ]
  ]

  poll_files-Quiet :
      (c : ClipboardSync) (r : Reading)
      → Ready c
      → Shows r
      → Quiet (poll_files fingerprint c r r.files)
  unfolding poll_files
  poll_files-Quiet c r ready shows =
      let c' : ClipboardSync = record c { known_files = none } in
      let x = shows.1.0 in
      let choose : Bool → ClipboardSync × Option Action =
        λ b. if b then poll_contents fingerprint c' r r.contents else (c', none) in
      subst (λ f. Quiet (poll_files fingerprint c r f)) (sym shows.0)
        (elim (Bool-cases c.enabled) [
          | inl enabled ↦
              subst (λ b. Quiet (choose b)) (sym enabled)
                (subst (λ k. Quiet (poll_contents fingerprint c' r k)) (sym shows.1.1)
                  (poll_contents-Quiet c' r x ready (ready.1 enabled) shows.1.2))
          | inr off ↦ subst (λ b. Quiet (choose b)) (sym off) (ready, refl)
        ])

  pub poll-Quiet :
      (c : ClipboardSync) (r : Reading) → Ready c → Shows r → Quiet (poll fingerprint c r)
  unfolding poll
  poll-Quiet c r ready shows =
      let moved : ClipboardSync = record c { generation = r.generation } in
      elim (Bool-cases (not c.enabled && not c.files_enabled)) [
        | inl off ↦ rw (off, poll) (ready, refl)
        | inr on ↦
            elim (Bool-cases (is_some r.generation && same_generation c.generation r.generation)) [
              | inl seen ↦ rw (on, seen, poll) (ready, refl)
              | inr new ↦ elim (Bool-cases (is_some r.generation)) [
                | inl has_one ↦
                    let to : poll fingerprint c r ≡ poll_files fingerprint moved r r.files =
                      polled moved on new (rw has_one refl) in
                    subst Quiet (sym to) (poll_files-Quiet moved r ready shows)
                | inr has_none ↦
                    let to : poll fingerprint c r ≡ poll_files fingerprint c r r.files =
                      polled c on new (rw has_none refl) in
                    subst Quiet (sym to) (poll_files-Quiet c r ready shows)
              ]
            ]
      ]
    where
      polled :
          (c' : ClipboardSync)
          → (not c.enabled && not c.files_enabled) ≡ false
          → (is_some r.generation && same_generation c.generation r.generation) ≡ false
          → (if is_some r.generation then record c { generation = r.generation } else c) ≡ c'
          → poll fingerprint c r ≡ poll_files fingerprint c' r r.files
      polled c' on new same = rw (on, new, poll) (ap (λ s. poll_files fingerprint s r r.files) same)
