-- ===== src/Transport/Routes/Coherent.antt =====
-- The invariant of the shared state of a logical session.
use nebula_desk.Prelude.{
  ℕ, ◌<◌, ◌≡◌, ◌≢◌, inl, inr, refl, sym, subst, Bool, true, false, Option, none, some, arith,
  Option-cases,
}
use nebula_desk.Transport.{TransportError}
use nebula_desk.Transport.Routes.{
  PathKind, relay, direct, NativePath, path_at, Shared, position, publish, switch, stop,
  stop_with_code, retire, fail_path, fail_as, fail_at, failure, Failure, logical_close,
  late_attempt, protocol_failure, path_failure, selected,
}

-- A path stands under its own kind, with an id that was given out.
abbrev pub Filed : PathKind → ℕ → Option NativePath → Type 0
Filed kind next_id none = Unit
Filed kind next_id (some p) = (p.kind ≡ kind) × (p.id < next_id)

abbrev pub Apart : Option NativePath → Option NativePath → Type 0
Apart (some p) (some q) = p.id ≢ q.id
Apart _ _ = Unit

-- A live session has a path under its active kind, and a session that was shut down has no path.
abbrev pub Serves : Bool → PathKind → Option NativePath → Option NativePath → Type 0
Serves false relay (some p) d = Unit
Serves false relay none d = ⊥
Serves false direct r (some p) = Unit
Serves false direct r none = ⊥
Serves true kind none none = Unit
Serves true kind _ _ = ⊥

pub record Parts (r d : Option NativePath) (active : PathKind) (next_id : ℕ) (shutdown : Bool)
    : Type 0 where
  pub relay_filed : Filed relay next_id r
  pub direct_filed : Filed direct next_id d
  pub apart : Apart r d
  pub serves : Serves shutdown active r d

abbrev pub Coherent : Shared → Type 0
Coherent s =
    Parts s.routes.relay_path s.routes.direct_path s.routes.active s.routes.next_id s.shutdown

-- A state with some of its parts replaced.
abbrev pub with_parts : Shared → Option NativePath → Option NativePath → PathKind → Bool → Shared
with_parts s r d active shutdown = record s {
  routes = record (s.routes) { relay_path = r; direct_path = d; active = active };
  shutdown = shutdown;
}

pub stopped : (active : PathKind) (next_id : ℕ) → Parts none none active next_id true
stopped active next_id = record { relay_filed = tt; direct_filed = tt; apart = tt; serves = tt }

stop-Coherent_at :
    (s : Shared) (shutdown : Bool) (error : TransportError) (code : ℕ)
    → Coherent (record s { shutdown = shutdown })
    → Coherent (stop_with_code (record s { shutdown = shutdown }) error code)
unfolding stop_with_code
stop-Coherent_at s true error code c = c
stop-Coherent_at s false error code c = stopped s.routes.active s.routes.next_id

pub stop-Coherent :
    (s : Shared) (error : TransportError) (code : ℕ)
    → Coherent s
    → Coherent (stop_with_code s error code)
stop-Coherent s error code c = stop-Coherent_at s s.shutdown error code c

retire-Coherent_at :
    (s : Shared) (r d : Option NativePath) (active : PathKind) (shutdown : Bool) (at : PathKind)
    (error : TransportError) (now : ℕ)
    → Coherent (with_parts s r d active shutdown)
    → path_at (with_parts s r d active shutdown).routes at ≢ none
    → Coherent (retire (with_parts s r d active shutdown) at at error now)
unfolding retire stop stop_with_code switch publish
retire-Coherent_at s none none active true relay error now c there = absurd (there refl)
retire-Coherent_at s none none active true direct error now c there = absurd (there refl)
retire-Coherent_at s (some p) d active true at error now c there = absurd c.serves
retire-Coherent_at s none (some q) active true at error now c there = absurd c.serves
retire-Coherent_at s (some p) (some q) relay false relay error now c there = record {
  relay_filed = tt;
  direct_filed = c.direct_filed;
  apart = tt;
  serves = tt;
}
retire-Coherent_at s (some p) (some q) relay false direct error now c there = record {
  relay_filed = c.relay_filed;
  direct_filed = tt;
  apart = tt;
  serves = tt;
}
retire-Coherent_at s none (some q) relay false direct error now c there = absurd c.serves
retire-Coherent_at s r none relay false direct error now c there = absurd (there refl)
retire-Coherent_at s (some p) none relay false relay error now c there =
    stopped relay s.routes.next_id
retire-Coherent_at s none d relay false relay error now c there = absurd (there refl)
retire-Coherent_at s (some p) (some q) direct false relay error now c there = record {
  relay_filed = tt;
  direct_filed = c.direct_filed;
  apart = tt;
  serves = tt;
}
retire-Coherent_at s (some p) (some q) direct false direct error now c there = record {
  relay_filed = c.relay_filed;
  direct_filed = tt;
  apart = tt;
  serves = tt;
}
retire-Coherent_at s none (some q) direct false relay error now c there = absurd (there refl)
retire-Coherent_at s none (some q) direct false direct error now c there =
    stopped direct s.routes.next_id
retire-Coherent_at s r none direct false at error now c there = absurd c.serves

filed_kind :
    (s : Shared) (at : PathKind) (p : NativePath)
    → Coherent s
    → path_at s.routes at ≡ some p
    → p.kind ≡ at
filed_kind s relay p c h =
    let f : Filed relay s.routes.next_id (some p) = rw h at c.relay_filed in f.0
filed_kind s direct p c h =
    let f : Filed direct s.routes.next_id (some p) = rw h at c.direct_filed in f.0

retire-Coherent :
    (s : Shared) (at : PathKind) {p : NativePath} (error : TransportError) (now : ℕ)
    → Coherent s
    → path_at s.routes at ≡ some p
    → Coherent (retire s at p.kind error now)
retire-Coherent s at {p} error now c h = rw (filed_kind s at p c h) (
    retire-Coherent_at s s.routes.relay_path s.routes.direct_path s.routes.active s.shutdown at
      error now c λ e. cc)

fail_at-Coherent :
    (s : Shared) (found : Option PathKind) (error : TransportError) (now : ℕ)
    → Coherent s
    → Coherent (fail_at s found error now)
unfolding fail_at
fail_at-Coherent s none error now c = c
fail_at-Coherent s (some at) error now c = elim (Option-cases (path_at s.routes at)) [
  | inl missing ↦
      let same : fail_at s (some at) error now ≡ s = ground arith in subst Coherent (sym same) c
  | inr (p, found) ↦
      let same : fail_at s (some at) error now ≡ retire s at p.kind error now = ground arith in
      subst Coherent (sym same) (retire-Coherent s at error now c found)
]

fail_as-Coherent :
    (f : Failure) (s : Shared) (id : ℕ) (error : TransportError) (now : ℕ)
    → Coherent s
    → Coherent (fail_as f s id error now)
unfolding fail_as stop
fail_as-Coherent logical_close s id error now c = stop-Coherent s error 0 c
fail_as-Coherent late_attempt s id error now c = c
fail_as-Coherent protocol_failure s id error now c = stop-Coherent s error 0 c
fail_as-Coherent path_failure s id error now c =
    fail_at-Coherent s (position id s.routes) error now c

-- Whatever the error, after a path has failed the session is still coherent: it was shut down and
-- has no path left, or there is a path under the active kind.
pub fail_path-Coherent :
    (s : Shared) (id : ℕ) (error : TransportError) (now : ℕ)
    → Coherent s
    → Coherent (fail_path s id error now)
unfolding fail_path
fail_path-Coherent s id error now c = fail_as-Coherent (failure error) s id error now c

selected_at :
    (s : Shared) (r d : Option NativePath) (active : PathKind)
    → Coherent (with_parts s r d active false)
    → selected (with_parts s r d active s.shutdown) ≢ none
unfolding selected
selected_at s (some p) d relay c = λ e. cc
selected_at s none d relay c = absurd c.serves
selected_at s r (some q) direct c = λ e. cc
selected_at s r none direct c = absurd c.serves

-- A coherent session that is not shut down has a path for its next message.
pub selected_some : (s : Shared) → Coherent s → s.shutdown ≡ false → selected s ≢ none
unfolding selected
selected_some s c up =
    selected_at s s.routes.relay_path s.routes.direct_path s.routes.active (rw up at c)
