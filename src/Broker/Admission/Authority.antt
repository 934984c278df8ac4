-- ===== src/Broker/Admission/Authority.antt =====
-- What an agent is told to start is what the ticket grants.
use nebula_desk.Prelude.{ℕ, ◌≡◌, true, Option, some}
use nebula_desk.Broker.Tunnels.{Tunnel, Tunnels, get}
use nebula_desk.Broker.Launch.{ApplicationLaunch, Text, is_application, valid_target, TicketClaims}
use nebula_desk.Broker.Admission.{
  ClientHello, SessionRequest, Effect, rejects, reports, starts, accepts, Request, request,
  no_request,
}

-- The request carries the ticket's authority as it is, and an application only where both ends take
-- application windows.
pub record Grants (encoded_len : ApplicationLaunch → Option ℕ)
    (version_of : ApplicationLaunch → Text) (claims : TicketClaims) (hello : ClientHello)
    (tunnel : Tunnel) (told : SessionRequest) : Type 0 where
  pub session : told.session ≡ claims.sid
  pub resource : told.resource_id ≡ claims.rid
  pub target : told.launch_target ≡ claims.launch_target
  pub policy : told.policy ≡ claims.policy
  pub role : told.role ≡ claims.role
  pub ticket : told.signed_ticket ≡ hello.ticket
  pub client_key : told.client_key ≡ hello.noise_public_key
  pub valid :
      valid_target encoded_len version_of claims.launch_target claims.rid claims.policy ≡ true
  pub windows :
      is_application claims.launch_target ≡ true
      → (hello.application_windows ≡ true) × (tunnel.application_windows ≡ true)

abbrev Holds : (SessionRequest → Type 0) → Request → Type 0
Holds P (request told) = P told
Holds P (no_request refusal) = Unit

-- What an effect may tell an agent, when `claims` were verified.
abbrev pub Authorised :
    (ApplicationLaunch → Option ℕ)
    → (ApplicationLaunch → Text)
    → Tunnels
    → ClientHello
    → TicketClaims
    → Effect
    → Type 0
Authorised encoded_len version_of tunnels hello claims (starts connection told) =
    (tunnel : Tunnel) × (get tunnels claims.mid ≡ some tunnel)
    × (connection ≡ tunnel.connection)
    × Grants encoded_len version_of claims hello tunnel told
Authorised encoded_len version_of tunnels hello claims (rejects refusal) = Unit
Authorised encoded_len version_of tunnels hello claims (reports session report) = Unit
Authorised encoded_len version_of tunnels hello claims (accepts a) = Unit

module _ (encoded_len : ApplicationLaunch → Option ℕ) (version_of : ApplicationLaunch → Text)
    (tunnels : Tunnels) (hello : ClientHello) (claims : TicketClaims) where
  abbrev A : Effect → Type 0
  A = Authorised encoded_len version_of tunnels hello claims
