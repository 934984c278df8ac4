-- ===== src/Broker/Tests.antt =====
-- The gateway and the relay on concrete tickets, tokens and connections.
use nebula_desk.Prelude.{
  ℕ, ◌≤◌, ◌<◌, ◌≡◌, inl, inr, refl, sym, subst, ◌∙◌, List, [], ◌∷◌, ◌++◌, replicate, ltb,
  if◌then◌else◌, Bool, true, false, Bool-cases, ◌&&◌, Option, none, some, arith, All,
}
use nebula_desk.Prelude.Bytes.{IsByte}
use nebula_desk.Broker.Pairing
use nebula_desk.Broker.Pairing.{Side, client, agent, PairKey, PairToken, mint_at, body}
use nebula_desk.Broker.Pairing.RoundTrip.{Codec, verify-mint_at, verify-authentic}
use nebula_desk.Broker.Rendezvous.{Splice, Event, presents, gives_up, run, empty}
use nebula_desk.Broker.Rendezvous.Splices.{Presented, run-Joins}
use nebula_desk.Broker.Rendezvous.Once.{ends, run-ends}
use nebula_desk.Broker.Tunnels.{Tunnel, detaches, attach, get, run_tunnels, attach-get}
use nebula_desk.Broker.Launch.{Text, ApplicationLaunch, desktop, full, controller, TicketClaims}
use nebula_desk.Broker.Tickets.{verified, acceptance_end}
use nebula_desk.Broker.Admission.{ClientHello}
use nebula_desk.Broker.Admission.AtMostOnce.{Call, started_for}
use nebula_desk.Broker.Admission.Replays.{started_for-once}

-- A code of zeros, and texts that are the bytes themselves.
abbrev zero_mac : List ℕ → List ℕ → List ℕ
zero_mac key bytes = replicate 32 0

abbrev plain : List ℕ → List ℕ
plain bytes = bytes

abbrev all_bytes : List ℕ → Bool
all_bytes [] = true
all_bytes (b ∷ bytes) = ltb b 256 && all_bytes bytes

abbrev unplain : List ℕ → Option (List ℕ)
unplain text = if all_bytes text then some text else none

all_bytes-true : (bytes : List ℕ) → All IsByte bytes → all_bytes bytes ≡ true
all_bytes-true [] h = refl
all_bytes-true (b ∷ bytes) h =
    let small = h.0 in let rest = all_bytes-true bytes h.1 in ground arith

all_bytes-IsByte : (bytes : List ℕ) → all_bytes bytes ≡ true → All IsByte bytes
all_bytes-IsByte [] h = tt
all_bytes-IsByte (b ∷ bytes) h = (ground arith, all_bytes-IsByte bytes (ground arith))

unplain-IsByte : (text bytes : List ℕ) → unplain text ≡ some bytes → All IsByte bytes
unplain-IsByte text bytes h = elim (Bool-cases (all_bytes text)) [
  | inl fine ↦
      let decoded : unplain text ≡ some text = rw fine refl in
      let same : text ≡ bytes = text-injective (sym decoded ∙ h) in
      subst (All IsByte) same (all_bytes-IsByte text fine)
  | inr bad ↦ let refusal : unplain text ≡ none = rw bad refl in absurd (no_text (sym refusal ∙ h))
]
  where
    text-injective : {a b : List ℕ} → some a ≡ some b → a ≡ b
    text-injective e = cc

    no_text : {a : List ℕ} → none ≡ some a → ⊥
    no_text e = cc

plain-Codec : Codec zero_mac plain unplain
plain-Codec = record {
  decode-encode = λ bytes h. rw (all_bytes-true bytes h) refl;
  decode-IsByte = unplain-IsByte;
  length-mac = λ key bytes. refl;
  mac-IsByte = λ key bytes. omega arith;
}

abbrev pair_key : PairKey
pair_key = record { key = [] }

verify-mint_at_example :
    Pairing.verify zero_mac plain unplain pair_key
      (mint_at zero_mac plain unplain pair_key 3 client 100)
      50
    ≡ Pairing.ok (record { session = 3; side = client; expires_at = 100 })
verify-mint_at_example =
    verify-mint_at zero_mac plain unplain plain-Codec pair_key 3 client 100 50 (omega arith)
      (omega arith)

verify-authentic_example :
    (50 < 100)
    × (unplain (mint_at zero_mac plain unplain pair_key 3 client 100)
        ≡ some (body 3 client 100 ++ zero_mac [] (body 3 client 100)))
verify-authentic_example =
    verify-authentic zero_mac plain unplain plain-Codec pair_key
      (mint_at zero_mac plain unplain pair_key 3 client 100) 50
      (record { session = 3; side = client; expires_at = 100 }) verify-mint_at_example

abbrev relay_events : List Event
relay_events =
    presents (mint_at zero_mac plain unplain pair_key 3 client 100) 1 50
    ∷ presents (mint_at zero_mac plain unplain pair_key 3 agent 100) 2 51
    ∷ gives_up 3 client 1
    ∷ []

run-Joins_example :
    All
      (λ (s : Splice).
        Presented zero_mac plain unplain pair_key relay_events s.session client s.client
        × Presented zero_mac plain unplain pair_key relay_events s.session agent s.agent)
      (run zero_mac plain unplain pair_key empty relay_events).splices
run-Joins_example = run-Joins zero_mac plain unplain pair_key relay_events

run-ends_example : ends 1 (run zero_mac plain unplain pair_key empty relay_events).splices ≤ 1
run-ends_example = run-ends zero_mac plain unplain pair_key 1 relay_events

abbrev new_tunnel : Tunnel
new_tunnel = record { connection = 2; credential = []; application_windows = true }

abbrev old_tunnel : Tunnel
old_tunnel = record { connection = 1; credential = []; application_windows = true }

-- Connection 1 of machine 9 ends after connection 2 has taken its place.
attach-get_example :
    get (run_tunnels (attach ((9, old_tunnel) ∷ []) 9 new_tunnel).0 (detaches 9 1 ∷ [])) 9
    ≡ some new_tunnel
attach-get_example =
    attach-get ((9, old_tunnel) ∷ []) 9 new_tunnel (detaches 9 1 ∷ []) (inr (omega arith), tt)

abbrev claims : TicketClaims
claims = record {
  jti = 77;
  iat = 1000;
  exp = 1060;
  sid = 3;
  tid = 1;
  uid = 2;
  mid = 9;
  rid = 4;
  role = controller;
  policy = full;
  launch_target = desktop;
  agent_key = [];
  relay_addr = [];
  relay_pin = [];
}

abbrev hello : ClientHello
hello = record { ticket = b't' ∷ []; noise_public_key = []; application_windows = false }

abbrev no_len : ApplicationLaunch → Option ℕ
no_len launch = none

abbrev no_version : ApplicationLaunch → Text
no_version launch = []

abbrev shown_at : ℕ → Call
shown_at now = record {
  hello = hello;
  result = verified claims;
  tunnels = (9, new_tunnel) ∷ [];
  sent = true;
  now = now;
}

-- The same ticket is shown twice.
started_for-once_example :
    started_for zero_mac plain unplain no_len no_version pair_key 77 []
      (shown_at 1005 ∷ shown_at 1010 ∷ [])
    ≤ 1
unfolding acceptance_end
started_for-once_example =
    started_for-once zero_mac plain unplain no_len no_version pair_key 77 1090 []
      (shown_at 1005 ∷ shown_at 1010 ∷ []) 1000 (omega arith) ((λ same. refl), ((λ same. refl), tt))
