-- ===== src/Transport/Liveness/Received.antt =====
-- The handlers that leave the receive counters alone.
use nebula_desk.Prelude.{
  ℕ, ◌≡◌, refl, List, [], ◌∷◌, take, drop, Option, none, some, arith, Option-cases, inl, inr, max,
}
use nebula_desk.Prelude.Bytes.{from_le}
use nebula_desk.Proto.Channel
use nebula_desk.Proto.Channel.{Channel}
use nebula_desk.Transport.{TransportError}
use nebula_desk.Transport.Routes.{
  PathKind, path_at, Shared, write, position, publish, switch, stop, stop_with_code, retire,
  fail_at, fail_as, fail_path, failure, Failure, logical_close, late_attempt, protocol_failure,
  path_failure,
}
use nebula_desk.Transport.Liveness.{
  Link, internal, read_each, read_acks, update_path, peer_ready, measured, echo, reconsider,
  find_probe, probes_of,
}

stop-received :
    (s : Shared) (error : TransportError) (code : ℕ)
    → (stop_with_code s error code).received ≡ s.received
unfolding stop_with_code
stop-received s error code = ground arith

switch-received :
    (s : Shared) (kind : PathKind) (now : ℕ) → (switch s kind now).received ≡ s.received
unfolding switch publish
switch-received s kind now = ground arith

retire-received :
    (s : Shared) (at kind : PathKind) (error : TransportError) (now : ℕ)
    → (retire s at kind error now).received ≡ s.received
unfolding retire stop
retire-received s at kind error now = grind (arith, stop-received, switch-received)

fail_at-received :
    (s : Shared) (found : Option PathKind) (error : TransportError) (now : ℕ)
    → (fail_at s found error now).received ≡ s.received
unfolding fail_at
fail_at-received s none error now = refl
fail_at-received s (some at) error now = grind (arith, retire-received)

fail_as-received :
    (f : Failure) (s : Shared) (id : ℕ) (error : TransportError) (now : ℕ)
    → (fail_as f s id error now).received ≡ s.received
unfolding fail_as stop
fail_as-received logical_close s id error now = stop-received s error 0
fail_as-received late_attempt s id error now = refl
fail_as-received protocol_failure s id error now = stop-received s error 0
fail_as-received path_failure s id error now = fail_at-received s (position id s.routes) error now

pub fail_path-received :
    (s : Shared) (id : ℕ) (error : TransportError) (now : ℕ)
    → (fail_path s id error now).received ≡ s.received
unfolding fail_path
fail_path-received s id error now = fail_as-received (failure error) s id error now

pub internal-received :
    (link : Link) (s : Shared) (id kind : ℕ) (tag : Option ℕ) (now : ℕ)
    → (internal link s id kind tag now).received ≡ s.received
unfolding internal
internal-received link s id kind tag now = grind (arith, fail_path-received)

pub peer_ready-received : (s : Shared) (id now : ℕ) → (peer_ready s id now).received ≡ s.received
unfolding peer_ready
peer_ready-received s id now = ground arith

pub publish-received : (s : Shared) (kind : PathKind) → (publish s kind).received ≡ s.received
unfolding publish
publish-received s kind = refl

read_each-received :
    (s : Shared) (cs : List Channel) (bytes : List ℕ)
    → (read_each s cs bytes).0.received ≡ s.received
unfolding read_each
read_each-received s [] bytes = refl
read_each-received s (c ∷ cs) bytes =
    let next = from_le (take 8 bytes) in
    let index = Channel.id c in
    let raised = record s {
      acknowledged = write s.acknowledged index (max (s.acknowledged index) next);
    } in
    let rest = read_each-received raised cs (drop 8 bytes) in ground arith

pub read_acks-received : (s : Shared) (bytes : List ℕ) → (read_acks s bytes).0.received ≡ s.received
unfolding read_acks
read_acks-received s bytes = grind (arith, read_each-received)

module _ (scaled : ℕ → ℕ) where
  reconsider-received : (s : Shared) (now : ℕ) → (reconsider scaled s now).received ≡ s.received
  unfolding reconsider
  reconsider-received s now = grind (arith, switch-received)

  pub echo-received :
      (s : Shared) (id nonce now : ℕ) → (echo scaled s id nonce now).received ≡ s.received
  unfolding echo
  echo-received s id nonce now = elim (Option-cases (position id s.routes)) [
    | inl missing ↦ ground arith
    | inr (at, found) ↦
        elim (Option-cases (find_probe nonce (probes_of scaled (path_at s.routes at)))) [
          | inl unknown ↦ ground arith
          | inr (when, known) ↦
              let next = update_path s at (measured nonce when now) in
              let same : echo scaled s id nonce now ≡ reconsider scaled next now = ground arith in
              rw same (reconsider-received next now)
        ]
  ]
