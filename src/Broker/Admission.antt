-- ===== src/Broker/Admission.antt =====
-- How the gateway admits a client (`serve_client` and `session_request` of
-- crates/nebula-gateway/src/lib.rs), up to the wait for the client's end. The result of the check of the
-- ticket, the time at which the ticket is spent, and whether the agent's queue takes the request are
-- arguments; the writes to the client are effects.
pub mod AtMostOnce
pub mod Replays
pub mod Authority
use nebula_desk.Prelude.{
  ℕ, List, [], ◌∷◌, ◌++◌, if◌then◌else◌, Bool, true, false, not, ◌&&◌, ◌||◌, Option, none, some,
}
use nebula_desk.Broker.Pairing.{PairKey, client, agent, mint}
use nebula_desk.Broker.Tunnels.{Tunnel, Tunnels, get}
use nebula_desk.Broker.Launch.{
  Text, SessionPolicy, SessionRole, ApplicationLaunch, LaunchTarget, is_application, valid_target,
  TicketClaims,
}
use nebula_desk.Broker.Tickets.{Seen, TicketError, Verified, verified, refused, consume}

pub record ClientHello : Type 0 where
  pub ticket : Text
  pub noise_public_key : Text
  pub application_windows : Bool

pub record SessionRequest : Type 0 where
  pub session : ℕ
  pub resource_id : ℕ
  pub launch_target : LaunchTarget
  pub signed_ticket : Text
  pub policy : SessionPolicy
  pub role : SessionRole
  pub relay_addr : Text
  pub relay_pin : Text
  pub pair_token : Text
  pub client_key : Text

pub data Refusal : Type 0 where
  ticket_not_accepted machine_not_reachable windows_not_supported : Refusal

pub data Report : Type 0 where
  failed_unreachable session_active : Report

-- What `ClientHelloAck::Accepted` tells.
pub record Accepted : Type 0 where
  pub session : ℕ
  pub relay_addr : Text
  pub relay_pin : Text
  pub pair_token : Text
  pub agent_key : Text

pub data Effect : Type 0 where
  rejects : Refusal → Effect
  reports : ℕ → Report → Effect
  starts : ℕ → SessionRequest → Effect
  accepts : Accepted → Effect

pub data Request : Type 0 where
  request : SessionRequest → Request
  no_request : Refusal → Request

module _ (encoded_len : ApplicationLaunch → Option ℕ) (version_of : ApplicationLaunch → Text) where
  unfoldable pub session_request : TicketClaims → ClientHello → Bool → Text → Request
  session_request claims hello agent_application_windows pair_token =
      if not (valid_target encoded_len version_of claims.launch_target claims.rid claims.policy)
      then no_request ticket_not_accepted
      else if is_application claims.launch_target
          && (not hello.application_windows || not agent_application_windows)
      then no_request windows_not_supported
      else request (record {
        session = claims.sid;
        resource_id = claims.rid;
        launch_target = claims.launch_target;
        signed_ticket = hello.ticket;
        policy = claims.policy;
        role = claims.role;
        relay_addr = claims.relay_addr;
        relay_pin = claims.relay_pin;
        pair_token = pair_token;
        client_key = hello.noise_public_key;
      })

-- The ticket is spent if `now_due`, and not touched otherwise.
unfoldable pub spend : Bool → Seen → TicketClaims → ℕ → Seen × Option TicketError
spend true seen claims now = consume seen claims now
spend false seen claims now = (seen, none)

-- The end: the agent is told, and then the client.
unfoldable pub introduce :
    Seen × Option TicketError
    → TicketClaims
    → Tunnel
    → SessionRequest
    → Text
    → Bool
    → Seen × List Effect
introduce (seen, some error) claims tunnel told client_token sent =
    (seen, rejects ticket_not_accepted ∷ [])
introduce (seen, none) claims tunnel told client_token false =
    (seen, reports claims.sid failed_unreachable ∷ rejects machine_not_reachable ∷ [])
introduce (seen, none) claims tunnel told client_token true = (
  seen,
  starts tunnel.connection told
      ∷ accepts (record {
        session = claims.sid;
        relay_addr = claims.relay_addr;
        relay_pin = claims.relay_pin;
        pair_token = client_token;
        agent_key = claims.agent_key;
      })
      ∷ reports claims.sid session_active
      ∷ [],
)

unfoldable pub ask : Seen → TicketClaims → Tunnel → Request → Text → Bool → ℕ → Seen × List Effect
ask seen claims tunnel (no_request refusal) client_token sent now = (seen, rejects refusal ∷ [])
ask seen claims tunnel (request told) client_token sent now =
    introduce (spend (is_application claims.launch_target) seen claims now) claims tunnel told
      client_token sent

module _ (mac : List ℕ → List ℕ → List ℕ) (encode : List ℕ → List ℕ)
    (decode : List ℕ → Option (List ℕ)) (encoded_len : ApplicationLaunch → Option ℕ)
    (version_of : ApplicationLaunch → Text) (pair : PairKey) where
  -- From the lookup of the tunnel on; the first argument tells what came of spending a desktop ticket.
  unfoldable pub forward :
      Seen × Option TicketError
      → Option Tunnel
      → ClientHello
      → TicketClaims
      → Bool
      → ℕ
      → Seen × List Effect
  forward (seen, some error) tunnel hello claims sent now = (seen, rejects ticket_not_accepted ∷ [])
  forward (seen, none) none hello claims sent now =
      (seen, reports claims.sid failed_unreachable ∷ rejects machine_not_reachable ∷ [])
  forward (seen, none) (some tunnel) hello claims sent now =
      ask seen claims tunnel
        (session_request encoded_len version_of claims hello tunnel.application_windows
          (mint mac encode decode pair claims.sid agent now))
        (mint mac encode decode pair claims.sid client now) sent now

  unfoldable pub serve_client :
      Seen → Tunnels → ClientHello → Verified → Bool → ℕ → Seen × List Effect
  serve_client seen tunnels hello (refused error) sent now =
      (seen, rejects ticket_not_accepted ∷ [])
  serve_client seen tunnels hello (verified claims) sent now =
      forward (spend (not (is_application claims.launch_target)) seen claims now)
        (get tunnels claims.mid) hello claims sent now
