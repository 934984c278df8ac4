-- ===== src/Broker/Rendezvous/Splices.antt =====
-- Who is spliced with whom, in every run of the relay.
use mathlib.Core.List.{Memᴰ}
use nebula_desk.Prelude.{
  ℕ, ◌≡◌, inl, inr, refl, sym, ◌∙◌, subst, List, [], ◌∷◌, ◌==◌, true, ◌&&◌, Option, none, some,
  arith, Bool-cases, All,
}
use nebula_desk.Prelude.Maps.{Map, lookup, insert, erase}
use nebula_desk.Broker.Pairing
use nebula_desk.Broker.Pairing.{Side, client, agent, peer, PairKey, PairToken, ok, err, verify}
use nebula_desk.Broker.Rendezvous.{
  Waiting, Splice, Rendezvous, empty, same_side, splice_of, meet, join, leave, Event, presents,
  gives_up, admit, step, run,
}

same_side-≡ : (a b : Side) → same_side a b ≡ true → a ≡ b
same_side-≡ client client h = refl
same_side-≡ agent agent h = refl
same_side-≡ client agent h = cc
same_side-≡ agent client h = cc

pub waiting-injective : {v w : Waiting} → some v ≡ some w → v ≡ w
waiting-injective h = cc

-- A claim on a connection holds of all that wait and of both ends of each splice.
module _ (Q : ℕ → Side → ℕ → Type 0) where
  abbrev AllWaiting : Map Waiting → Type 0
  AllWaiting [] = Unit
  AllWaiting ((session, w) ∷ m) = Q session w.side w.connection × AllWaiting m

  abbrev Joins : Splice → Type 0
  Joins s = Q s.session client s.client × Q s.session agent s.agent

  abbrev AllHold : Rendezvous → Type 0
  AllHold t = AllWaiting t.waiting × All Joins t.splices

  lookup-AllWaiting :
      (m : Map Waiting) (k : ℕ) (w : Waiting)
      → AllWaiting m
      → lookup k m ≡ some w
      → Q k w.side w.connection
  unfolding lookup
  lookup-AllWaiting [] k w all h = cc
  lookup-AllWaiting ((j, v) ∷ m) k w all h = elim (Bool-cases (j == k)) [
    | inl here ↦
        let key : j ≡ k = ground arith in
        let value : v ≡ w = waiting-injective (sym (rw (here, lookup) refl) ∙ h) in
        subst (λ i. Q i w.side w.connection) key
          (subst (λ (u : Waiting). Q j u.side u.connection) value all.0)
    | inr later ↦ lookup-AllWaiting m k w all.1 (sym (rw (later, lookup) refl) ∙ h)
  ]

  insert-AllWaiting :
      (m : Map Waiting) (k : ℕ) (w : Waiting)
      → AllWaiting m
      → Q k w.side w.connection
      → AllWaiting (insert k w m)
  unfolding insert
  insert-AllWaiting [] k w all q = (q, tt)
  insert-AllWaiting ((j, v) ∷ m) k w all q = elim (Bool-cases (j == k)) [
    | inl here ↦ rw (here, insert) (q, all.1)
    | inr later ↦ rw (later, insert) (all.0, insert-AllWaiting m k w all.1 q)
  ]

  erase-AllWaiting : (m : Map Waiting) (k : ℕ) → AllWaiting m → AllWaiting (erase k m)
  unfolding erase
  erase-AllWaiting [] k all = tt
  erase-AllWaiting ((j, v) ∷ m) k all = elim (Bool-cases (j == k)) [
    | inl here ↦ rw (here, erase) (erase-AllWaiting m k all.1)
    | inr later ↦ rw (later, erase) (all.0, erase-AllWaiting m k all.1)
  ]

  splice_of-Joins :
      (session : ℕ) (side other_side : Side) (connection other : ℕ)
      → other_side ≡ peer side
      → Q session side connection
      → Q session other_side other
      → Joins (splice_of session side connection other)
  unfolding peer splice_of
  splice_of-Joins session client other_side connection other same q r =
      (q, subst (λ d. Q session d other) same r)
  splice_of-Joins session agent other_side connection other same q r =
      (subst (λ d. Q session d other) same r, q)

  meet-AllHold :
      (t : Rendezvous) (session : ℕ) (side : Side) (connection : ℕ) (found : Option Waiting)
      → lookup session t.waiting ≡ found
      → AllHold t
      → Q session side connection
      → AllHold (meet t session side connection found).0
  unfolding meet
  meet-AllHold t session side connection none h all q = (
    insert-AllWaiting t.waiting session (record { side = side; connection = connection }) all.0 q,
    all.1,
  )
  meet-AllHold t session side connection (some other) h all q =
      let left = erase-AllWaiting t.waiting session all.0 in
      let r = lookup-AllWaiting t.waiting session other all.0 h in
      elim (Bool-cases (same_side other.side (peer side))) [
        | inl opposite ↦
            rw (opposite, meet)
              (
                left,
                (
                  splice_of-Joins session side other.side connection other.connection
                      (same_side-≡ other.side (peer side) opposite) q r,
                  all.1,
                ),
              )
        | inr same ↦
            rw (same, meet)
              (insert-AllWaiting (erase session t.waiting) session other left r, all.1)
      ]

  leave-AllHold :
      (t : Rendezvous) (session : ℕ) (side : Side) (connection : ℕ) (found : Option Waiting)
      → lookup session t.waiting ≡ found
      → AllHold t
      → AllHold (leave t session side connection)
  unfolding leave
  leave-AllHold t session side connection none h all = rw (h, leave) all
  leave-AllHold t session side connection (some entry) h all =
      elim (Bool-cases (same_side entry.side side && entry.connection == connection)) [
        | inl own ↦ rw (h, leave) (rw own (erase-AllWaiting t.waiting session all.0, all.1))
        | inr other ↦ rw (h, leave) (rw other all)
      ]

-- The connection presented, in one of the events, a token of the session and the side.
abbrev pub Presented :
    (List ℕ → List ℕ → List ℕ)
    → (List ℕ → List ℕ)
    → (List ℕ → Option (List ℕ))
    → PairKey
    → List Event
    → ℕ
    → Side
    → ℕ
    → Type 0
Presented mac encode decode k events session side connection =
    (token : List ℕ) × (now : ℕ) × (expires_at : ℕ) × Memᴰ (presents token connection now) events
    × (verify mac encode decode k token now
        ≡ ok (record { session = session; side = side; expires_at = expires_at }))

module _ (mac : List ℕ → List ℕ → List ℕ) (encode : List ℕ → List ℕ)
    (decode : List ℕ → Option (List ℕ)) (k : PairKey) (past : List Event) where
  abbrev Q : ℕ → Side → ℕ → Type 0
  Q = Presented mac encode decode k past

  admit-AllHold :
      (t : Rendezvous) (connection : ℕ) (result : Pairing.Result PairToken) (token : List ℕ)
      (now : ℕ)
      → verify mac encode decode k token now ≡ result
      → Memᴰ (presents token connection now) past
      → AllHold Q t
      → AllHold Q (admit t result connection).0
  unfolding admit join
  admit-AllHold t connection (err reason) token now h m all = all
  admit-AllHold t connection (ok found) token now h m all =
      meet-AllHold Q t found.session found.side connection (lookup found.session t.waiting) refl all
        (token, now, found.expires_at, m, h)

  step-AllHold :
      (t : Rendezvous) (event : Event)
      → Memᴰ event past
      → AllHold Q t
      → AllHold Q (step mac encode decode k t event)
  unfolding step
  step-AllHold t (presents token connection now) m all =
      admit-AllHold t connection (verify mac encode decode k token now) token now refl m all
  step-AllHold t (gives_up session side connection) m all =
      leave-AllHold Q t session side connection (lookup session t.waiting) refl all

  run-AllHold :
      (t : Rendezvous) (events : List Event)
      → ((event : Event) → Memᴰ event events → Memᴰ event past)
      → AllHold Q t
      → AllHold Q (run mac encode decode k t events)
  unfolding run
  run-AllHold t [] sub all = all
  run-AllHold t (event ∷ events) sub all =
      run-AllHold (step mac encode decode k t event) events (λ e m. sub e (Memᴰ.tail m))
        (step-AllHold t event (sub event (Memᴰ.head refl)) all)

-- In every run of the relay, each splice joins two connections of one session: one that presented an
-- accepted token for the client's side of that session, and one that presented an accepted token for
-- the agent's side of it.
pub run-Joins :
    (mac : List ℕ → List ℕ → List ℕ) (encode : List ℕ → List ℕ) (decode : List ℕ → Option (List ℕ))
    (k : PairKey) (events : List Event)
    → All
        (λ (s : Splice).
          Presented mac encode decode k events s.session client s.client
          × Presented mac encode decode k events s.session agent s.agent)
        (run mac encode decode k empty events).splices
unfolding empty
run-Joins mac encode decode k events =
    (run-AllHold mac encode decode k events empty events (λ e m. m) (tt, tt)).1
