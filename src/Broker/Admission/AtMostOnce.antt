-- ===== src/Broker/Admission/AtMostOnce.antt =====
-- A ticket starts one session at most.
use nebula_desk.Prelude.{
  ℕ, ◌+◌, ◌-◌, ◌^◌, ◌≤◌, ◌<◌, ◌≡◌, ◌⊎◌, inl, inr, refl, sym, ap, ◌∙◌, subst, List, [], ◌∷◌, ◌==◌,
  if◌then◌else◌, Bool, true, false, not, Option, none, some,
}
use nebula_desk.Broker.Pairing.{PairKey, client, agent, mint}
use nebula_desk.Broker.Tunnels.{Tunnel, Tunnels, get}
use nebula_desk.Broker.Launch.{ApplicationLaunch, Text, is_application, TicketClaims}
use nebula_desk.Broker.Tickets.{
  Seen, TicketError, Verified, verified, refused, consume, acceptance_end,
}
use nebula_desk.Broker.Tickets.Replay.{is_ok}
use nebula_desk.Broker.Admission.{
  ClientHello, SessionRequest, Effect, rejects, reports, starts, accepts, Request, request,
  no_request, session_request, spend, introduce, ask, forward, serve_client,
}

-- How many sessions an agent is told to start.
abbrev pub started : List Effect → ℕ
started [] = 0
started (starts connection told ∷ effects) = 1 + started effects
started (rejects refusal ∷ effects) = started effects
started (reports session report ∷ effects) = started effects
started (accepts a ∷ effects) = started effects

-- What one client can do to the memory of tickets: nothing starts, or the ticket is spent for it.
abbrev pub Served : Seen → TicketClaims → ℕ → Seen × List Effect → Type 0
Served seen claims now r =
    ((r.0 ≡ seen) ⊎ (r.0 ≡ (consume seen claims now).0))
    × ((started r.1 ≡ 0)
        ⊎ ((started r.1 ≡ 1)
            × (is_ok (consume seen claims now).1 ≡ true)
            × (r.0 ≡ (consume seen claims now).0)))

-- The memory after a call that spends the ticket or leaves it.
abbrev Paid : Seen → TicketClaims → ℕ → Seen × Option TicketError → Type 0
Paid seen claims now p =
    ((p.0 ≡ seen) ⊎ (p.0 ≡ (consume seen claims now).0))
    × ((p.1 ≡ none)
        → (is_ok (consume seen claims now).1 ≡ true) × (p.0 ≡ (consume seen claims now).0))

introduce-Served :
    (seen : Seen) (claims : TicketClaims) (now : ℕ) (p : Seen × Option TicketError)
    (tunnel : Tunnel) (told : SessionRequest) (client_token : Text) (sent : Bool)
    → Paid seen claims now p
    → Served seen claims now (introduce p claims tunnel told client_token sent)
unfolding introduce
introduce-Served seen claims now (left, some error) tunnel told client_token sent paid =
    (paid.0, inl refl)
introduce-Served seen claims now (left, none) tunnel told client_token false paid =
    (paid.0, inl refl)
introduce-Served seen claims now (left, none) tunnel told client_token true paid =
    (paid.0, inr (refl, (paid.1 refl).0, (paid.1 refl).1))

consume-Paid :
    (seen : Seen) (claims : TicketClaims) (now : ℕ) → Paid seen claims now (consume seen claims now)
consume-Paid seen claims now = (inr refl, λ fine. (ap is_ok fine, refl))

ask-Served :
    (seen : Seen) (claims : TicketClaims) (now : ℕ) (p : Seen × Option TicketError) (app : Bool)
    (tunnel : Tunnel) (made : Request) (client_token : Text) (sent : Bool)
    → is_application claims.launch_target ≡ app
    → p ≡ spend (not app) seen claims now
    → p.1 ≡ none
    → Served seen claims now (ask p.0 claims tunnel made client_token sent now)
unfolding ask spend
ask-Served seen claims now p true tunnel (no_request refusal) client_token sent kind same fine =
    (inl (ap (λ q. q.0) same), inl refl)
ask-Served seen claims now p false tunnel (no_request refusal) client_token sent kind same fine =
    (inr (ap (λ q. q.0) same), inl refl)
ask-Served seen claims now p true tunnel (request told) client_token sent kind same fine =
    let now_spent : spend (is_application claims.launch_target) p.0 claims now
        ≡ consume seen claims now =
      ap (λ b. spend b p.0 claims now) kind ∙ ap (λ q. consume q.0 claims now) same in
    subst (λ q. Served seen claims now (introduce q claims tunnel told client_token sent))
      (sym now_spent)
      (introduce-Served seen claims now (consume seen claims now) tunnel told client_token sent
        (consume-Paid seen claims now))
ask-Served seen claims now p false tunnel (request told) client_token sent kind same fine =
    let kept : spend (is_application claims.launch_target) p.0 claims now ≡ (p.0, none) =
      ap (λ b. spend b p.0 claims now) kind in
    let paid : Paid seen claims now (p.0, none) = (
      inr (ap (λ q. q.0) same),
      λ e. (ap is_ok (sym (ap (λ q. q.1) same) ∙ fine), ap (λ q. q.0) same),
    ) in
    subst (λ q. Served seen claims now (introduce q claims tunnel told client_token sent))
      (sym kept) (introduce-Served seen claims now (p.0, none) tunnel told client_token sent paid)

spend-memory :
    (seen : Seen) (claims : TicketClaims) (now : ℕ) (b : Bool)
    → ((spend b seen claims now).0 ≡ seen)
      ⊎ ((spend b seen claims now).0 ≡ (consume seen claims now).0)
unfolding spend
spend-memory seen claims now true = inr refl
spend-memory seen claims now false = inl refl

module _ (mac : List ℕ → List ℕ → List ℕ) (encode : List ℕ → List ℕ)
    (decode : List ℕ → Option (List ℕ)) (encoded_len : ApplicationLaunch → Option ℕ)
    (version_of : ApplicationLaunch → Text) (pair : PairKey) where
  forward-Served :
      (seen : Seen) (claims : TicketClaims) (now : ℕ) (p : Seen × Option TicketError)
      (found : Option Tunnel) (hello : ClientHello) (sent : Bool)
      → p ≡ spend (not (is_application claims.launch_target)) seen claims now
      → Served seen claims now
          (forward mac encode decode encoded_len version_of pair p found hello claims sent now)
  unfolding forward
  forward-Served seen claims now (left, some error) found hello sent same =
      (memory (left, some error) same, inl refl)
    where
      memory :
          (p : Seen × Option TicketError)
          → p ≡ spend (not (is_application claims.launch_target)) seen claims now
          → (p.0 ≡ seen) ⊎ (p.0 ≡ (consume seen claims now).0)
      memory p e =
          subst
            (λ (q : Seen × Option TicketError). (q.0 ≡ seen) ⊎ (q.0 ≡ (consume seen claims now).0))
            (sym e) (spend-memory seen claims now (not (is_application claims.launch_target)))
  forward-Served seen claims now (left, none) none hello sent same = (
    subst (λ (q : Seen × Option TicketError). (q.0 ≡ seen) ⊎ (q.0 ≡ (consume seen claims now).0))
        (sym same) (spend-memory seen claims now (not (is_application claims.launch_target))),
    inl refl,
  )
  forward-Served seen claims now (left, none) (some tunnel) hello sent same =
      ask-Served seen claims now (left, none) (is_application claims.launch_target) tunnel
        (session_request encoded_len version_of claims hello tunnel.application_windows
          (mint mac encode decode pair claims.sid agent now))
        (mint mac encode decode pair claims.sid client now) sent refl same refl

-- A client that comes: what it says, the result of the check of its ticket, the tunnels at that time,
-- whether the agent's queue takes the request, and the time.
pub record Call : Type 0 where
  pub hello : ClientHello
  pub result : Verified
  pub tunnels : Tunnels
  pub sent : Bool
  pub now : ℕ

abbrev pub mine : ℕ → Verified → Bool
mine jti (verified claims) = claims.jti == jti
mine jti (refused error) = false

-- The clients come in the order of time.
abbrev pub InOrder : ℕ → List Call → Type 0
InOrder before [] = Unit
InOrder before (call ∷ calls) =
    (before ≤ call.now) × (call.now < 2 ^ 63 - 1) × InOrder call.now calls

-- All tickets with this id are accepted until the same time.
abbrev pub OneTicket : ℕ → ℕ → Verified → Type 0
OneTicket jti end (verified claims) = claims.jti ≡ jti → acceptance_end claims ≡ end
OneTicket jti end (refused error) = Unit

module _ (mac : List ℕ → List ℕ → List ℕ) (encode : List ℕ → List ℕ)
    (decode : List ℕ → Option (List ℕ)) (encoded_len : ApplicationLaunch → Option ℕ)
    (version_of : ApplicationLaunch → Text) (pair : PairKey) where
  abbrev pub served : Seen → Call → Seen × List Effect
  served seen call =
      serve_client mac encode decode encoded_len version_of pair seen call.tunnels call.hello
        call.result call.sent call.now

  -- How many sessions are started for a ticket when the clients are served one after another.
  unfoldable pub started_for : ℕ → Seen → List Call → ℕ
  started_for jti seen [] = 0
  started_for jti seen (call ∷ calls) =
      (if mine jti call.result then started (served seen call).1 else 0)
      + started_for jti (served seen call).0 calls

  pub served-Served :
      (seen : Seen) (claims : TicketClaims) (call : Call)
      → call.result ≡ verified claims
      → Served seen claims call.now (served seen call)
  unfolding serve_client
  served-Served seen claims call h =
      let r =
        serve_client mac encode decode encoded_len version_of pair seen call.tunnels call.hello in
      subst (λ v. Served seen claims call.now (r v call.sent call.now)) (sym h)
        (forward-Served mac encode decode encoded_len version_of pair seen claims call.now
          (spend (not (is_application claims.launch_target)) seen claims call.now)
          (get call.tunnels claims.mid) call.hello call.sent refl)
