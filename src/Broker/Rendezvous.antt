-- ===== src/Broker/Rendezvous.antt =====
-- The relay's table of half-open sessions (crates/nebula-relay/src/rendezvous.rs), and the peers that
-- the relay hands to it (crates/nebula-relay/src/lib.rs). Connections are numbers, their stable ids.
-- What has been spliced is kept in the state.
pub mod Splices
pub mod Once
use nebula_desk.Prelude.{
  ℕ, ◌+◌, List, [], ◌∷◌, ◌==◌, if◌then◌else◌, Bool, true, false, ◌&&◌, Option, none, some,
}
use nebula_desk.Prelude.Maps.{Map, lookup, insert, erase}
use nebula_desk.Broker.Pairing
use nebula_desk.Broker.Pairing.{Side, client, agent, peer, PairKey, PairToken, ok, err, verify}

pub data Outcome : Type 0 where
  spliced timed_out duplicate abandoned : Outcome

-- The signal that releases a waiting peer is sent when the splice is made, and is not kept.
pub record Waiting : Type 0 where
  pub side : Side
  pub connection : ℕ

-- `splice(client, agent)`: the two connections are forwarded to each other from here on.
pub record Splice : Type 0 where
  pub session : ℕ
  pub client : ℕ
  pub agent : ℕ

pub record Rendezvous : Type 0 where
  pub waiting : Map Waiting
  pub splices : List Splice

unfoldable pub empty : Rendezvous
empty = record { waiting = []; splices = [] }

abbrev pub same_side : Side → Side → Bool
same_side client client = true
same_side agent agent = true
same_side _ _ = false

unfoldable pub splice_of : ℕ → Side → ℕ → ℕ → Splice
splice_of session client connection other = record {
  session = session;
  client = connection;
  agent = other;
}
splice_of session agent connection other = record {
  session = session;
  client = other;
  agent = connection;
}

-- The first half of `join`, under the lock, with what the table held of the session; `none` as the
-- outcome stands for a peer that waits.
unfoldable pub meet : Rendezvous → ℕ → Side → ℕ → Option Waiting → Rendezvous × Option Outcome
unfolding peer splice_of insert erase
meet t session side connection none = (
  record t { waiting = insert session (record { side = side; connection = connection }) t.waiting },
  none,
)
meet t session side connection (some other) =
    let left = erase session t.waiting in
    if same_side other.side (peer side)
    then (
      record t {
        waiting = left;
        splices = splice_of session side connection other.connection ∷ t.splices;
      },
      some spliced,
    )
    else (record t { waiting = insert session other left }, some duplicate)

unfoldable pub join : Rendezvous → ℕ → Side → ℕ → Rendezvous × Option Outcome
unfolding lookup
join t session side connection = meet t session side connection (lookup session t.waiting)

-- The second half of `join`, for a peer that waited in vain: only its own entry is removed.
unfoldable pub leave : Rendezvous → ℕ → Side → ℕ → Rendezvous
unfolding lookup erase
leave t session side connection = elim (lookup session t.waiting) [
  | none ↦ t
  | some entry ↦
      if same_side entry.side side && entry.connection == connection
      then record t { waiting = erase session t.waiting }
      else t
]

-- What reaches the relay: a peer with its token and the time, or a peer that gives up.
pub data Event : Type 0 where
  presents : List ℕ → ℕ → ℕ → Event
  gives_up : ℕ → Side → ℕ → Event

-- `handle`: a peer whose token is not accepted never reaches the table, and has no outcome.
unfoldable pub admit : Rendezvous → Pairing.Result PairToken → ℕ → Rendezvous × Option Outcome
admit t (err reason) connection = (t, none)
admit t (ok token) connection = join t token.session token.side connection

module _ (mac : List ℕ → List ℕ → List ℕ) (encode : List ℕ → List ℕ)
    (decode : List ℕ → Option (List ℕ)) (k : PairKey) where
  unfoldable pub step : Rendezvous → Event → Rendezvous
  step t (presents token connection now) =
      (admit t (verify mac encode decode k token now) connection).0
  step t (gives_up session side connection) = leave t session side connection

  unfoldable pub run : Rendezvous → List Event → Rendezvous
  run t [] = t
  run t (event ∷ events) = run (step t event) events
