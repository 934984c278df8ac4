-- ===== src/Broker/Rendezvous/Once.antt =====
-- How often a connection can be in the table and in the splices.
use nebula_desk.Prelude.{
  ℕ, ◌+◌, ◌≤◌, ◌≡◌, inl, inr, refl, sym, ap, ◌∙◌, List, [], ◌∷◌, ◌==◌, if◌then◌else◌, ◌&&◌, Option,
  none, some, arith, Bool-cases,
}
use nebula_desk.Prelude.Maps.{Map, lookup, insert, erase}
use nebula_desk.Broker.Pairing
use nebula_desk.Broker.Pairing.{Side, client, agent, peer, PairKey, PairToken, ok, err, verify}
use nebula_desk.Broker.Rendezvous.{
  Waiting, Splice, Rendezvous, empty, same_side, splice_of, meet, join, leave, Event, presents,
  gives_up, admit, step, run,
}
use nebula_desk.Broker.Rendezvous.Splices.{waiting-injective}

abbrev pub one_if : ℕ → ℕ → ℕ
one_if c d = if c == d then 1 else 0

abbrev pub waits : ℕ → Map Waiting → ℕ
waits c [] = 0
waits c ((k, w) ∷ m) = one_if c w.connection + waits c m

-- The ends of splices that a connection is.
abbrev pub ends : ℕ → List Splice → ℕ
ends c [] = 0
ends c (s ∷ splices) = one_if c s.client + one_if c s.agent + ends c splices

abbrev pub arrivals : ℕ → List Event → ℕ
arrivals c [] = 0
arrivals c (presents token connection now ∷ events) = one_if c connection + arrivals c events
arrivals c (gives_up session side connection ∷ events) = arrivals c events

abbrev holds : ℕ → Rendezvous → ℕ
holds c t = waits c t.waiting + ends c t.splices

waits-insert :
    (c k : ℕ) (w : Waiting) (m : Map Waiting)
    → waits c (insert k w m) ≤ one_if c w.connection + waits c m
unfolding insert
waits-insert c k w [] = omega arith
waits-insert c k w ((j, v) ∷ m) = elim (Bool-cases (j == k)) [
  | inl here ↦ rw (here, insert) (omega arith)
  | inr later ↦ let rest = waits-insert c k w m in rw (later, insert) (omega arith)
]

waits-erase : (c k : ℕ) (m : Map Waiting) → waits c (erase k m) ≤ waits c m
unfolding erase
waits-erase c k [] = omega arith
waits-erase c k ((j, v) ∷ m) =
    let rest = waits-erase c k m in
    elim (Bool-cases (j == k)) [
      | inl here ↦ rw (here, erase) (omega arith)
      | inr later ↦ rw (later, erase) (omega arith)
    ]

waits-take :
    (c k : ℕ) (w : Waiting) (m : Map Waiting)
    → lookup k m ≡ some w
    → one_if c w.connection + waits c (erase k m) ≤ waits c m
unfolding lookup erase
waits-take c k w [] h = cc
waits-take c k w ((j, v) ∷ m) h = elim (Bool-cases (j == k)) [
  | inl here ↦
      let rest = waits-erase c k m in
      let value : v ≡ w = waiting-injective (sym (rw (here, lookup) refl) ∙ h) in
      let same : one_if c v.connection ≡ one_if c w.connection =
        ap (λ (u : Waiting). one_if c u.connection) value in
      rw (here, erase) (omega arith)
  | inr later ↦
      let rest = waits-take c k w m (sym (rw (later, lookup) refl) ∙ h) in
      rw (later, erase) (omega arith)
]

ends-splice_of :
    (c session : ℕ) (side : Side) (connection other : ℕ) (splices : List Splice)
    → ends c (splice_of session side connection other ∷ splices)
      ≡ one_if c connection + one_if c other + ends c splices
unfolding splice_of
ends-splice_of c session client connection other splices = refl
ends-splice_of c session agent connection other splices = omega arith

meet-holds :
    (c : ℕ) (t : Rendezvous) (session : ℕ) (side : Side) (connection : ℕ) (found : Option Waiting)
    → lookup session t.waiting ≡ found
    → holds c (meet t session side connection found).0 ≤ one_if c connection + holds c t
unfolding meet
meet-holds c t session side connection none h =
    let put = waits-insert c session (record { side = side; connection = connection }) t.waiting in
    omega arith
meet-holds c t session side connection (some other) h =
    let taken = waits-take c session other t.waiting h in
    elim (Bool-cases (same_side other.side (peer side))) [
      | inl opposite ↦
          let joined = ends-splice_of c session side connection other.connection t.splices in
          rw (opposite, meet) (omega arith)
      | inr same ↦
          let put = waits-insert c session other (erase session t.waiting) in
          rw (same, meet) (omega arith)
    ]

leave-holds :
    (c : ℕ) (t : Rendezvous) (session : ℕ) (side : Side) (connection : ℕ) (found : Option Waiting)
    → lookup session t.waiting ≡ found
    → holds c (leave t session side connection) ≤ holds c t
unfolding leave
leave-holds c t session side connection none h = rw (h, leave) (omega arith)
leave-holds c t session side connection (some entry) h =
    let fewer = waits-erase c session t.waiting in
    elim (Bool-cases (same_side entry.side side && entry.connection == connection)) [
      | inl own ↦ rw (h, leave) (rw own (omega arith))
      | inr other ↦ rw (h, leave) (rw other (omega arith))
    ]

admit-holds :
    (c : ℕ) (t : Rendezvous) (result : Pairing.Result PairToken) (connection : ℕ)
    → holds c (admit t result connection).0 ≤ one_if c connection + holds c t
unfolding admit join
admit-holds c t (err reason) connection = omega arith
admit-holds c t (ok token) connection =
    meet-holds c t token.session token.side connection (lookup token.session t.waiting) refl

run-holds :
    (mac : List ℕ → List ℕ → List ℕ) (encode : List ℕ → List ℕ) (decode : List ℕ → Option (List ℕ))
    (k : PairKey) (c : ℕ) (t : Rendezvous) (events : List Event)
    → holds c (run mac encode decode k t events) ≤ arrivals c events + holds c t
unfolding run step
run-holds mac encode decode k c t [] = omega arith
run-holds mac encode decode k c t (presents token connection now ∷ events) =
    let first = admit-holds c t (verify mac encode decode k token now) connection in
    let rest =
      run-holds mac encode decode k c (admit t (verify mac encode decode k token now) connection).0
        events in
    omega arith
run-holds mac encode decode k c t (gives_up session side connection ∷ events) =
    let first = leave-holds c t session side connection (lookup session t.waiting) refl in
    let rest = run-holds mac encode decode k c (leave t session side connection) events in
    omega arith

-- In every run of the relay, a connection is an end of at most as many splices as the times it came:
-- one that comes once is spliced with at most one other, and never with itself.
pub run-ends :
    (mac : List ℕ → List ℕ → List ℕ) (encode : List ℕ → List ℕ) (decode : List ℕ → Option (List ℕ))
    (k : PairKey) (c : ℕ) (events : List Event)
    → ends c (run mac encode decode k empty events).splices ≤ arrivals c events
unfolding empty
run-ends mac encode decode k c events =
    let all = run-holds mac encode decode k c empty events in omega arith
