-- ===== src/Transport/Liveness/Reach.antt =====
-- The states that a logical session can reach, and what holds in all of them.
use nebula_desk.Prelude.{
  ℕ, suc, ◌≡◌, ◌≢◌, ◌⊎◌, inl, inr, refl, sym, subst, false, Option, none, some, arith, Option-cases,
}
use nebula_desk.Transport.{TransportError, closed}
use nebula_desk.Transport.Routes.{
  PathKind, relay, direct, NativePath, new_path, Shared, fail_path, selected,
}
use nebula_desk.Transport.Routes.Coherent.{
  Filed, Apart, Serves, Coherent, stop-Coherent, fail_path-Coherent, selected_some,
}
use nebula_desk.Transport.Liveness.{
  Link, internal, peer_ready, heartbeat, echo, start, Candidate, attach, disconnect_direct, close,
}
use nebula_desk.Transport.Liveness.Preserves.{
  internal-Coherent, peer_ready-Coherent, heartbeat-Coherent, echo-Coherent,
}

start-Coherent : (now : ℕ) → Coherent (start now)
unfolding start new_path
start-Coherent now = record {
  relay_filed = (refl, omega arith);
  direct_filed = tt;
  apart = tt;
  serves = tt;
}

attached : Shared → ℕ → Shared
attached s now = record s {
  routes = record (s.routes) {
    next_id = suc s.routes.next_id;
    direct_path = some (new_path s.routes.next_id direct now);
  };
}

attach_cases :
    (max_record : ℕ) (s : Shared) (c : Candidate) (now : ℕ)
    → ((attach max_record s c now).0 ≡ s)
      ⊎ (((attach max_record s c now).0 ≡ attached s now) × (s.shutdown ≡ false))
unfolding attach attached
attach_cases max_record s c now = ground arith

Filed-suc :
    (kind : PathKind) (n : ℕ) (o : Option NativePath) → Filed kind n o → Filed kind (suc n) o
Filed-suc kind n none f = tt
Filed-suc kind n (some p) f = (f.0, let b = f.1 in omega arith)

Apart-new :
    (o : Option NativePath) (n now : ℕ) → Filed relay n o → Apart o (some (new_path n direct now))
unfolding new_path
Apart-new none n now f = tt
Apart-new (some p) n now f = λ e. let b = f.1 in omega arith

Serves-new :
    (active : PathKind) (r d : Option NativePath) (q : NativePath)
    → Serves false active r d
    → Serves false active r (some q)
Serves-new relay (some p) d q c = tt
Serves-new relay none d q c = absurd c
Serves-new direct r d q c = tt

attached-Coherent :
    (s : Shared) (now : ℕ) → Coherent s → s.shutdown ≡ false → Coherent (attached s now)
unfolding attached new_path
attached-Coherent s now c up =
    let n = s.routes.next_id in
    let serves : Serves false s.routes.active s.routes.relay_path s.routes.direct_path =
      rw up at c.serves in
    record {
      relay_filed = Filed-suc relay n s.routes.relay_path c.relay_filed;
      direct_filed = (refl, omega arith);
      apart = Apart-new s.routes.relay_path n now c.relay_filed;
      serves = rw up (
          Serves-new s.routes.active s.routes.relay_path s.routes.direct_path
            (new_path n direct now) serves);
    }

attach-Coherent :
    (max_record : ℕ) (s : Shared) (c : Candidate) (now : ℕ)
    → Coherent s
    → Coherent (attach max_record s c now).0
attach-Coherent max_record s c now h = elim (attach_cases max_record s c now) [
  | inl same ↦ subst Coherent (sym same) h
  | inr (grown, up) ↦ subst Coherent (sym grown) (attached-Coherent s now h up)
]

disconnect_direct-Coherent :
    (s : Shared) (now : ℕ) → Coherent s → Coherent (disconnect_direct s now).0
unfolding disconnect_direct
disconnect_direct-Coherent s now c = elim (Option-cases s.routes.direct_path) [
  | inl missing ↦
      let same : (disconnect_direct s now).0 ≡ s = ground arith in subst Coherent (sym same) c
  | inr (p, found) ↦
      let same : (disconnect_direct s now).0 ≡ fail_path s p.id closed now = ground arith in
      subst Coherent (sym same) (fail_path-Coherent s p.id closed now c)
]

-- The session after any sequence of the events that act on its paths, from its start.
pub data Reached (scaled : ℕ → ℕ) (max_record : ℕ) : Shared → Type 0 where
  started : (now : ℕ) → Reached scaled max_record (start now)
  failed :
      {s : Shared} (id : ℕ) (error : TransportError) (now : ℕ)
      → Reached scaled max_record s
      → Reached scaled max_record (fail_path s id error now)
  told :
      {s : Shared} (link : Link) (id kind : ℕ) (nonce : Option ℕ) (now : ℕ)
      → Reached scaled max_record s
      → Reached scaled max_record (internal link s id kind nonce now)
  readied :
      {s : Shared} (id now : ℕ)
      → Reached scaled max_record s
      → Reached scaled max_record (peer_ready s id now)
  beaten :
      {s : Shared} (link : Link) (now : ℕ)
      → Reached scaled max_record s
      → Reached scaled max_record (heartbeat link s now)
  echoed :
      {s : Shared} (id nonce now : ℕ)
      → Reached scaled max_record s
      → Reached scaled max_record (echo scaled s id nonce now)
  joined :
      {s : Shared} (c : Candidate) (now : ℕ)
      → Reached scaled max_record s
      → Reached scaled max_record (attach max_record s c now).0
  dropped :
      {s : Shared} (now : ℕ)
      → Reached scaled max_record s
      → Reached scaled max_record (disconnect_direct s now).0
  ended :
      {s : Shared} (code : ℕ)
      → Reached scaled max_record s
      → Reached scaled max_record (close s code)

-- In every state that a session can reach, each path stands under its own kind, the ids of the
-- two differ, a session that was shut down has no path, and any other has one under its active kind.
pub Reached-Coherent :
    (scaled : ℕ → ℕ) (max_record : ℕ) {s : Shared} → Reached scaled max_record s → Coherent s
unfolding close
Reached-Coherent scaled m (started now) = start-Coherent now
Reached-Coherent scaled m (failed {s} id error now path) =
    fail_path-Coherent s id error now (Reached-Coherent scaled m path)
Reached-Coherent scaled m (told {s} link id kind nonce now path) =
    internal-Coherent link s id kind nonce now (Reached-Coherent scaled m path)
Reached-Coherent scaled m (readied {s} id now path) =
    peer_ready-Coherent s id now (Reached-Coherent scaled m path)
Reached-Coherent scaled m (beaten {s} link now path) =
    heartbeat-Coherent link s now (Reached-Coherent scaled m path)
Reached-Coherent scaled m (echoed {s} id nonce now path) =
    echo-Coherent scaled s id nonce now (Reached-Coherent scaled m path)
Reached-Coherent scaled m (joined {s} c now path) =
    attach-Coherent m s c now (Reached-Coherent scaled m path)
Reached-Coherent scaled m (dropped {s} now path) =
    disconnect_direct-Coherent s now (Reached-Coherent scaled m path)
Reached-Coherent scaled m (ended {s} code path) =
    stop-Coherent s closed code (Reached-Coherent scaled m path)

-- As long as a session is not shut down, a path is selected for its next message.
pub Reached-selected :
    (scaled : ℕ → ℕ) (max_record : ℕ) {s : Shared}
    → Reached scaled max_record s
    → s.shutdown ≡ false
    → selected s ≢ none
Reached-selected scaled max_record {s} path up =
    selected_some s (Reached-Coherent scaled max_record path) up
