-- ===== src/Transport/Liveness/Paths.antt =====
-- Changes of one path, and of the active kind, in a coherent session.
use nebula_desk.Prelude.{
  ℕ, ◌-◌, drop, length, ◌≡◌, ◌≢◌, inl, inr, refl, sym, ◌∙◌, subst, [], ◌∷◌, ◌++◌, leb, Bool, true,
  false, Option, none, some, arith, Bool-cases,
}
use nebula_desk.Transport.Routes.{
  PathKind, relay, direct, NativePath, path_at, Shared, publish, switch,
}
use nebula_desk.Transport.Routes.Coherent.{Filed, Apart, Serves, Parts, Coherent, with_parts}
use nebula_desk.Transport.Liveness.{update, update_path, beat, probe_due, probe_timeout}

-- The same path but for what the probes have changed.
pub SamePath : Option NativePath → Option NativePath → Type 0
SamePath none none = Unit
SamePath (some p) (some q) = (q.id ≡ p.id) × (q.kind ≡ p.kind)
SamePath _ _ = ⊥

SamePath-refl : (o : Option NativePath) → SamePath o o
unfolding SamePath
SamePath-refl none = tt
SamePath-refl (some p) = (refl, refl)

SamePath-update :
    (f : NativePath → NativePath)
    → ((p : NativePath) → ((f p).id ≡ p.id) × ((f p).kind ≡ p.kind))
    → (o : Option NativePath) → SamePath o (update f o)
unfolding SamePath
SamePath-update f same none = tt
SamePath-update f same (some p) = same p

pub SamePath-beat : (now nonce : ℕ) (o : Option NativePath) → SamePath o (beat now nonce o).0
unfolding SamePath beat
SamePath-beat now nonce none = tt
SamePath-beat now nonce (some p) =
    elim (Bool-cases (leb (probe_timeout p.kind p.peer_ready p.rtt) (now - p.last_echo))) [
      | inl late ↦
          let same : (beat now nonce (some p)).0 ≡ some p = ground arith in
          subst (SamePath (some p)) (sym same) (refl, refl)
      | inr early ↦ elim (Bool-cases (probe_due p.last_probe now)) [
        | inl due ↦
            let queued = p.probes ++ (nonce, now) ∷ [] in
            let same : (beat now nonce (some p)).0
                ≡ some
                    (record p { last_probe = some now; probes = drop (length queued - 8) queued }) =
              ground arith in
            subst (SamePath (some p)) (sym same) (refl, refl)
        | inr recent ↦
            let same : (beat now nonce (some p)).0 ≡ some p = ground arith in
            subst (SamePath (some p)) (sym same) (refl, refl)
      ]
    ]

Filed-SamePath :
    (kind : PathKind) (next_id : ℕ) (o o' : Option NativePath)
    → Filed kind next_id o
    → SamePath o o'
    → Filed kind next_id o'
unfolding SamePath
Filed-SamePath kind next_id none none c h = tt
Filed-SamePath kind next_id none (some q) c h = absurd h
Filed-SamePath kind next_id (some p) none c h = absurd h
Filed-SamePath kind next_id (some p) (some q) c h =
    (h.1 ∙ c.0, let e = h.0 in let b = c.1 in omega arith)

Apart-SamePath :
    (r d r' d' : Option NativePath) → Apart r d → SamePath r r' → SamePath d d' → Apart r' d'
unfolding SamePath
Apart-SamePath none d none d' c h k = tt
Apart-SamePath none d (some q) d' c h k = absurd h
Apart-SamePath (some p) d none d' c h k = absurd h
Apart-SamePath (some p) none (some q) none c h k = tt
Apart-SamePath (some p) none (some q) (some x) c h k = absurd k
Apart-SamePath (some p) (some y) (some q) none c h k = absurd k
Apart-SamePath (some p) (some y) (some q) (some x) c h k = λ e. c (sym h.0 ∙ e ∙ k.0)

Serves-SamePath :
    (shutdown : Bool) (active : PathKind) (r d r' d' : Option NativePath)
    → Serves shutdown active r d
    → SamePath r r'
    → SamePath d d'
    → Serves shutdown active r' d'
unfolding SamePath
Serves-SamePath true active none none none none c h k = tt
Serves-SamePath true active none none none (some q) c h k = absurd k
Serves-SamePath true active none none (some q) d' c h k = absurd h
Serves-SamePath true active (some p) d r' d' c h k = absurd c
Serves-SamePath true active none (some p) r' d' c h k = absurd c
Serves-SamePath false relay (some p) d (some q) d' c h k = tt
Serves-SamePath false relay (some p) d none d' c h k = absurd h
Serves-SamePath false relay none d r' d' c h k = absurd c
Serves-SamePath false direct r (some p) r' (some q) c h k = tt
Serves-SamePath false direct r (some p) r' none c h k = absurd k
Serves-SamePath false direct r none r' d' c h k = absurd c

pub Parts-SamePath :
    (r d r' d' : Option NativePath) {active : PathKind} {next_id : ℕ} {shutdown : Bool}
    → Parts r d active next_id shutdown
    → SamePath r r'
    → SamePath d d'
    → Parts r' d' active next_id shutdown
Parts-SamePath r d r' d' {active} {next_id} {shutdown} c h k = record {
  relay_filed = Filed-SamePath relay next_id r r' c.relay_filed h;
  direct_filed = Filed-SamePath direct next_id d d' c.direct_filed k;
  apart = Apart-SamePath r d r' d' c.apart h k;
  serves = Serves-SamePath shutdown active r d r' d' c.serves h k;
}

pub update_path-Coherent :
    (s : Shared) (at : PathKind) (f : NativePath → NativePath)
    → ((p : NativePath) → ((f p).id ≡ p.id) × ((f p).kind ≡ p.kind))
    → Coherent s
    → Coherent (update_path s at f)
update_path-Coherent s relay f same c =
    Parts-SamePath _ _ _ _ c (SamePath-update f same s.routes.relay_path)
      (SamePath-refl s.routes.direct_path)
update_path-Coherent s direct f same c =
    Parts-SamePath _ _ _ _ c (SamePath-refl s.routes.relay_path)
      (SamePath-update f same s.routes.direct_path)

switch-Coherent_at :
    (s : Shared) (r d : Option NativePath) (active : PathKind) (shutdown : Bool) (kind : PathKind)
    (now : ℕ)
    → Coherent (with_parts s r d active shutdown)
    → path_at (with_parts s r d active shutdown).routes kind ≢ none
    → Coherent (switch (with_parts s r d active shutdown) kind now)
unfolding switch publish
switch-Coherent_at s r d relay shutdown relay now c there = c
switch-Coherent_at s r d direct shutdown direct now c there = c
switch-Coherent_at s none none direct true relay now c there = absurd (there refl)
switch-Coherent_at s none none relay true direct now c there = absurd (there refl)
switch-Coherent_at s (some p) d active true kind now c there = absurd c.serves
switch-Coherent_at s none (some p) active true kind now c there = absurd c.serves
switch-Coherent_at s none d direct false relay now c there = absurd (there refl)
switch-Coherent_at s (some p) d direct false relay now c there = record {
  relay_filed = c.relay_filed;
  direct_filed = c.direct_filed;
  apart = c.apart;
  serves = tt;
}
switch-Coherent_at s r none relay false direct now c there = absurd (there refl)
switch-Coherent_at s r (some q) relay false direct now c there = record {
  relay_filed = c.relay_filed;
  direct_filed = c.direct_filed;
  apart = c.apart;
  serves = tt;
}

pub both_there :
    (s : Shared) {r d : NativePath}
    → s.routes.relay_path ≡ some r
    → s.routes.direct_path ≡ some d
    → (kind : PathKind) → path_at s.routes kind ≢ none
both_there s er ed relay = λ e. cc
both_there s er ed direct = λ e. cc

pub switch-Coherent :
    (s : Shared) (kind : PathKind) (now : ℕ)
    → Coherent s
    → path_at s.routes kind ≢ none
    → Coherent (switch s kind now)
switch-Coherent s kind now c there =
    switch-Coherent_at s s.routes.relay_path s.routes.direct_path s.routes.active s.shutdown kind
      now c there
