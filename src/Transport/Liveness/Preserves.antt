-- ===== src/Transport/Liveness/Preserves.antt =====
-- Every operation on the shared state of a logical session keeps it coherent.
use nebula_desk.Prelude.{
  ℕ, suc, ◌-◌, ◌%◌, ◌^◌, ◌≡◌, inl, inr, refl, sym, subst, [], ◌∷◌, ◌++◌, leb, ◌==◌, ◌||◌, Option,
  some, arith, Bool-cases, Option-cases,
}
use nebula_desk.Transport.{timed_out}
use nebula_desk.Transport.Routes.{
  NativePath, path_at, Shared, position, switch, fail_path, magic, cooldown,
}
use nebula_desk.Transport.Routes.Coherent.{Coherent, fail_path-Coherent}
use nebula_desk.Transport.Liveness.{
  Link, internal, nonce_bytes, acks, update_path, made_ready, peer_ready, Beat, idle, expired,
  probe, beat, fail_expired, send_probe, heartbeat, measured, echo, reconsider, target, find_probe,
  probes_of,
}
use nebula_desk.Transport.Liveness.Paths.{
  SamePath-beat, Parts-SamePath, update_path-Coherent, switch-Coherent, both_there,
}

pub internal-Coherent :
    (link : Link) (s : Shared) (id kind : ℕ) (nonce : Option ℕ) (now : ℕ)
    → Coherent s
    → Coherent (internal link s id kind nonce now)
unfolding internal
internal-Coherent link s id kind nonce now c = elim (Option-cases (position id s.routes)) [
  | inl missing ↦
      let same : internal link s id kind nonce now ≡ s = ground arith in subst Coherent (sym same) c
  | inr (at, found) ↦
      let payload = magic ++ kind ∷ (nonce_bytes nonce ++ acks s) in
      elim (Option-cases (link id payload)) [
        | inl sent ↦
            let same : internal link s id kind nonce now
                ≡ record s { sent = s.sent ++ (id, payload) ∷ [] } =
              ground arith in
            subst Coherent (sym same) c
        | inr (error, failed) ↦
            let same : internal link s id kind nonce now ≡ fail_path s id error now =
              ground arith in
            subst Coherent (sym same) (fail_path-Coherent s id error now c)
      ]
]

made_ready_same :
    (now : ℕ) (p : NativePath) → ((made_ready now p).id ≡ p.id) × ((made_ready now p).kind ≡ p.kind)
made_ready_same now p = (ground arith, ground arith)

pub peer_ready-Coherent : (s : Shared) (id now : ℕ) → Coherent s → Coherent (peer_ready s id now)
unfolding peer_ready
peer_ready-Coherent s id now c = elim (Option-cases (position id s.routes)) [
  | inl missing ↦ let same : peer_ready s id now ≡ s = ground arith in subst Coherent (sym same) c
  | inr (at, found) ↦
      let same : peer_ready s id now ≡ update_path s at (made_ready now) = ground arith in
      subst Coherent (sym same) (update_path-Coherent s at (made_ready now) (made_ready_same now) c)
]

fail_expired-Coherent :
    (b : Beat) (s : Shared) (now : ℕ) → Coherent s → Coherent (fail_expired b s now)
fail_expired-Coherent idle s now c = c
fail_expired-Coherent (expired id) s now c = fail_path-Coherent s id timed_out now c
fail_expired-Coherent (probe id nonce) s now c = c

send_probe-Coherent :
    (link : Link) (b : Beat) (s : Shared) (now : ℕ)
    → Coherent s
    → Coherent (send_probe link b s now)
send_probe-Coherent link idle s now c = c
send_probe-Coherent link (expired id) s now c = c
send_probe-Coherent link (probe id nonce) s now c = internal-Coherent link s id 1 (some nonce) now c

pub heartbeat-Coherent :
    (link : Link) (s : Shared) (now : ℕ) → Coherent s → Coherent (heartbeat link s now)
unfolding heartbeat
heartbeat-Coherent link s now c =
    let n = s.routes.next_probe in
    let n' = suc n % 2 ^ 64 in
    let b0 = beat now n s.routes.relay_path in
    let b1 = beat now n' s.routes.direct_path in
    let s1 : Shared = record s {
      routes = record (s.routes) {
        relay_path = b0.0;
        direct_path = b1.0;
        next_probe = suc n' % 2 ^ 64;
      };
    } in
    let c1 : Coherent s1 =
      Parts-SamePath _ _ _ _ c (SamePath-beat now n s.routes.relay_path)
        (SamePath-beat now n' s.routes.direct_path) in
    let c2 = fail_expired-Coherent b0.1 s1 now c1 in
    let c3 = fail_expired-Coherent b1.1 _ now c2 in
    send_probe-Coherent link b1.1 _ now (send_probe-Coherent link b0.1 _ now c3)

module _ (scaled : ℕ → ℕ) where
  reconsider-Coherent : (s : Shared) (now : ℕ) → Coherent s → Coherent (reconsider scaled s now)
  unfolding reconsider
  reconsider-Coherent s now c = elim (Option-cases s.routes.relay_path) [
    | inl none_there ↦
        let same : reconsider scaled s now ≡ s = ground arith in subst Coherent (sym same) c
    | inr (r, er) ↦ elim (Option-cases s.routes.direct_path) [
      | inl none_there ↦
          let same : reconsider scaled s now ≡ s = ground arith in subst Coherent (sym same) c
      | inr (d, ed) ↦ elim (Option-cases (target scaled r d)) [
        | inl stay ↦
            let same : reconsider scaled s now ≡ s = ground arith in subst Coherent (sym same) c
        | inr (kind, chosen) ↦
            elim (Bool-cases (s.routes.tx_epoch == 0 || leb cooldown (now - s.routes.changed_at))) [
              | inl may ↦
                  let same : reconsider scaled s now ≡ switch s kind now = ground arith in
                  subst Coherent (sym same) (switch-Coherent s kind now c (both_there s er ed kind))
              | inr wait ↦
                  let same : reconsider scaled s now ≡ s = ground arith in
                  subst Coherent (sym same) c
            ]
      ]
    ]
  ]

  pub echo-Coherent :
      (s : Shared) (id nonce now : ℕ) → Coherent s → Coherent (echo scaled s id nonce now)
  unfolding echo
  echo-Coherent s id nonce now c = elim (Option-cases (position id s.routes)) [
    | inl missing ↦
        let same : echo scaled s id nonce now ≡ s = ground arith in subst Coherent (sym same) c
    | inr (at, found) ↦
        elim (Option-cases (find_probe nonce (probes_of scaled (path_at s.routes at)))) [
          | inl unknown ↦
              let same : echo scaled s id nonce now ≡ s = ground arith in
              subst Coherent (sym same) c
          | inr (when, known) ↦
              let next = update_path s at (measured nonce when now) in
              let same : echo scaled s id nonce now ≡ reconsider scaled next now = ground arith in
              subst Coherent (sym same) (
                reconsider-Coherent next now
                  (update_path-Coherent s at (measured nonce when now) (λ p. (refl, refl)) c))
        ]
  ]
