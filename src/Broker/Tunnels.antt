-- ===== src/Broker/Tunnels.antt =====
-- The gateway's registry of agent tunnels (crates/nebula-gateway/src/tunnels.rs). A machine is a
-- number; the queue of a tunnel is told by the number of its connection.
use nebula_desk.Prelude.{
  ℕ, ◌≡◌, ◌≢◌, ◌⊎◌, inl, inr, refl, sym, ap, ◌∙◌, List, [], ◌∷◌, length, ◌==◌, if◌then◌else◌, Bool,
  Option, none, some, arith, Bool-cases, All,
}
use nebula_desk.Prelude.Maps.{
  Map, lookup, insert, erase, lookup-insert_self, lookup-insert_ne, lookup-erase_ne,
}

pub record Tunnel : Type 0 where
  pub connection : ℕ
  pub credential : List ℕ
  pub application_windows : Bool

abbrev pub Tunnels : Type 0
Tunnels = Map Tunnel

pub data Replaced : Type 0 where
  nothing : Replaced
  older : Tunnel → Replaced

unfoldable pub attach : Tunnels → ℕ → Tunnel → Tunnels × Replaced  -- `Tunnels::insert`
unfolding lookup insert
attach tunnels machine tunnel = (
  insert machine tunnel tunnels,
  elim (lookup machine tunnels) [ some old ↦ older old | none ↦ nothing ],
)

unfoldable pub get : Tunnels → ℕ → Option Tunnel
unfolding lookup
get tunnels machine = lookup machine tunnels

-- `Tunnels::remove`, with what was found under the machine.
unfoldable pub detach_found : Tunnels → ℕ → ℕ → Option Tunnel → Tunnels × Option Tunnel
unfolding erase
detach_found tunnels machine connection none = (tunnels, none)
detach_found tunnels machine connection (some current) =
    if current.connection == connection
    then (erase machine tunnels, some current)
    else (tunnels, none)

unfoldable pub detach : Tunnels → ℕ → ℕ → Tunnels × Option Tunnel
unfolding lookup detach_found
detach tunnels machine connection = detach_found tunnels machine connection (lookup machine tunnels)

unfoldable pub len : Tunnels → ℕ
len tunnels = length tunnels

-- What the connections of agents do to the registry.
pub data TunnelOp : Type 0 where
  attaches : ℕ → Tunnel → TunnelOp
  detaches : ℕ → ℕ → TunnelOp

unfoldable pub run_tunnels : Tunnels → List TunnelOp → Tunnels
unfolding attach detach
run_tunnels tunnels [] = tunnels
run_tunnels tunnels (attaches machine tunnel ∷ ops) =
    run_tunnels (attach tunnels machine tunnel).0 ops
run_tunnels tunnels (detaches machine connection ∷ ops) =
    run_tunnels (detach tunnels machine connection).0 ops

-- No later connection of the machine, and the connection itself does not end.
abbrev pub Leaves : ℕ → ℕ → TunnelOp → Type 0
Leaves machine connection (attaches other tunnel) = other ≢ machine
Leaves machine connection (detaches other ended) = (other ≢ machine) ⊎ (ended ≢ connection)

detach_found-get :
    (tunnels : Tunnels) (machine other ended : ℕ) (tunnel : Tunnel) (found : Option Tunnel)
    → lookup other tunnels ≡ found
    → lookup machine tunnels ≡ some tunnel
    → ((other ≢ machine) ⊎ (ended ≢ tunnel.connection))
    → lookup machine (detach_found tunnels other ended found).0 ≡ some tunnel
unfolding detach_found
detach_found-get tunnels machine other ended tunnel none h held leaves = held
detach_found-get tunnels machine other ended tunnel (some current) h held leaves =
    elim (Bool-cases (current.connection == ended)) [
      | inl same ↦
          rw (same, detach_found)
            (elim leaves [
              | inl apart ↦ lookup-erase_ne other machine tunnels apart ∙ held
              | inr ne ↦ elim (Bool-cases (other == machine)) [
                | inl here ↦
                    let key : other ≡ machine = ground arith in
                    let value : current ≡ tunnel =
                      tunnel-injective (sym h ∙ ap (λ i. lookup i tunnels) key ∙ held) in
                    let connection : current.connection ≡ tunnel.connection =
                      ap (λ (t : Tunnel). t.connection) value in
                    absurd (ne (ground arith))
                | inr apart ↦ lookup-erase_ne other machine tunnels (λ e. ground arith) ∙ held
              ]
            ])
      | inr other_one ↦ rw (other_one, detach_found) held
    ]
  where
    tunnel-injective : {s t : Tunnel} → some s ≡ some t → s ≡ t
    tunnel-injective e = cc

held-get :
    (tunnels : Tunnels) (machine : ℕ) (tunnel : Tunnel) (ops : List TunnelOp)
    → get tunnels machine ≡ some tunnel
    → All (Leaves machine tunnel.connection) ops
    → get (run_tunnels tunnels ops) machine ≡ some tunnel
unfolding run_tunnels get
held-get tunnels machine tunnel [] held leaves = held
held-get tunnels machine tunnel (attaches other new_one ∷ ops) held leaves =
    held-get (attach tunnels other new_one).0 machine tunnel ops
      (lookup-insert_ne other machine new_one tunnels leaves.0 ∙ held) leaves.1
held-get tunnels machine tunnel (detaches other ended ∷ ops) held leaves =
    held-get (detach tunnels other ended).0 machine tunnel ops
      (detach_found-get tunnels machine other ended tunnel (lookup other tunnels) refl held
        leaves.0)
      leaves.1

-- A machine whose agent has attached keeps that tunnel through whatever happens to the registry until
-- a later connection of the machine replaces it or the connection itself ends: the end of an older
-- connection of the machine does not unregister it.
pub attach-get :
    (tunnels : Tunnels) (machine : ℕ) (tunnel : Tunnel) (ops : List TunnelOp)
    → All (Leaves machine tunnel.connection) ops
    → get (run_tunnels (attach tunnels machine tunnel).0 ops) machine ≡ some tunnel
unfolding attach get
attach-get tunnels machine tunnel ops leaves =
    held-get (attach tunnels machine tunnel).0 machine tunnel ops
      (lookup-insert_self machine tunnel tunnels) leaves
