-- ===== src/Broker/Admission/Replays.antt =====
-- All clients of a gateway: a ticket that is shown again starts nothing.
use nebula_desk.Prelude.{
  ℕ, ◌≤◌, ◌≡◌, ◌⊎◌, inl, inr, refl, sym, ap, ◌∙◌, subst, List, [], ◌∷◌, ◌-◌, ◌^◌, ◌<◌, true, false,
  Option, some, arith, Bool-cases, All,
}
use nebula_desk.Prelude.Maps.{lookup}
use nebula_desk.Broker.Pairing.{PairKey}
use nebula_desk.Broker.Launch.{ApplicationLaunch, Text}
use nebula_desk.Broker.Tickets.{Seen, Verified, verified, refused, acceptance_end}
use nebula_desk.Broker.Tickets.Replay.{Spent, consume-Spent, consume-refused, consume-spends}
use nebula_desk.Broker.Admission.{serve_client}
use nebula_desk.Broker.Admission.AtMostOnce.{
  started, Call, mine, InOrder, OneTicket, served, started_for, served-Served,
}

module _ (mac : List ℕ → List ℕ → List ℕ) (encode : List ℕ → List ℕ)
    (decode : List ℕ → Option (List ℕ)) (encoded_len : ApplicationLaunch → Option ℕ)
    (version_of : ApplicationLaunch → Text) (pair : PairKey) (jti end : ℕ) where
  abbrev next : Seen → Call → Seen
  next seen call = (served mac encode decode encoded_len version_of pair seen call).0

  abbrev starts_now : Seen → Call → ℕ
  starts_now seen call = started (served mac encode decode encoded_len version_of pair seen call).1

  -- A spent ticket stays spent.
  next-Spent :
      (seen : Seen) (call : Call) (result : Verified) (before : ℕ)
      → call.result ≡ result
      → before ≤ call.now
      → OneTicket jti end result
      → Spent jti end before seen
      → Spent jti end call.now (next seen call)
  unfolding serve_client
  next-Spent seen call (refused error) before h order one spent =
      let same : next seen call ≡ seen =
        ap
          (λ v.
            (serve_client mac encode decode encoded_len version_of pair seen call.tunnels call.hello
              v call.sent call.now).0)
          h in
      elim spent [ inl held ↦ inl (ap (lookup jti) same ∙ held) | inr over ↦ inr (omega arith) ]
  next-Spent seen call (verified claims) before h order one spent =
      let s = served-Served mac encode decode encoded_len version_of pair seen claims call h in
      elim s.0 [
        | inl same ↦ elim spent [
          | inl held ↦ inl (ap (lookup jti) same ∙ held)
          | inr over ↦ inr (omega arith)
        ]
        | inr after ↦
            subst (Spent jti end call.now) (sym after)
              (consume-Spent seen claims jti end before call.now order one spent)
      ]

  -- A spent ticket starts nothing.
  Spent-starts :
      (seen : Seen) (call : Call) (result : Verified) (before : ℕ)
      → call.result ≡ result
      → before ≤ call.now
      → call.now < 2 ^ 63 - 1
      → OneTicket jti end result
      → Spent jti end before seen
      → mine jti result ≡ true
      → starts_now seen call ≡ 0
  Spent-starts seen call (refused error) before h order small one spent own = cc
  Spent-starts seen call (verified claims) before h order small one spent own =
      let s = served-Served mac encode decode encoded_len version_of pair seen claims call h in
      let key : jti ≡ claims.jti = ground arith in
      let until : end ≡ acceptance_end claims = sym (one (sym key)) in
      let its : Spent claims.jti (acceptance_end claims) before seen =
        subst (λ e. Spent claims.jti e before seen) until
          (subst (λ j. Spent j end before seen) key spent) in
      elim s.1 [
        | inl nothing ↦ nothing
        | inr once ↦
            let refusal = consume-refused seen claims before call.now order small its in
            absurd (refuted (sym once.1 ∙ refusal))
      ]
    where
      refuted : true ≡ false → ⊥
      refuted e = cc

  Spent-started_for :
      (seen : Seen) (calls : List Call) (before : ℕ)
      → InOrder before calls
      → All (λ (call : Call). OneTicket jti end call.result) calls
      → Spent jti end before seen
      → started_for mac encode decode encoded_len version_of pair jti seen calls ≡ 0
  unfolding started_for
  Spent-started_for seen [] before order one spent = refl
  Spent-started_for seen (call ∷ calls) before order one spent =
      let rest =
        Spent-started_for (next seen call) calls call.now order.2 one.1
          (next-Spent seen call call.result before refl order.0 one.0 spent) in
      elim (Bool-cases (mine jti call.result)) [
        | inl own ↦
            let none_now =
              Spent-starts seen call call.result before refl order.0 order.1 one.0 spent own in
            rw own (omega arith)
        | inr other ↦ rw other (omega arith)
      ]

  -- What one client starts for the ticket, and what is left for the others.
  first_start :
      (seen : Seen) (call : Call) (result : Verified)
      → call.result ≡ result
      → OneTicket jti end result
      → mine jti result ≡ true
      → (starts_now seen call ≡ 0)
        ⊎ ((starts_now seen call ≡ 1) × Spent jti end call.now (next seen call))
  first_start seen call (refused error) h one own = cc
  first_start seen call (verified claims) h one own =
      let s = served-Served mac encode decode encoded_len version_of pair seen claims call h in
      let key : claims.jti ≡ jti = ground arith in
      elim s.1 [
        | inl nothing ↦ inl nothing
        | inr once ↦
            let held : lookup claims.jti (next seen call) ≡ some (acceptance_end claims) =
              ap (lookup claims.jti) once.2 ∙ consume-spends seen claims call.now once.1 in
            inr (
              once.0,
              inl (ap (λ i. lookup i (next seen call)) (sym key) ∙ held ∙ ap some (one key)),
            )
      ]

-- However often a ticket is shown to the gateway, by clients that come in the order of time, among
-- others with other tickets, at most one session is started for it, if all tickets with its id are
-- accepted until the same time.
pub started_for-once :
    (mac : List ℕ → List ℕ → List ℕ) (encode : List ℕ → List ℕ) (decode : List ℕ → Option (List ℕ))
    (encoded_len : ApplicationLaunch → Option ℕ) (version_of : ApplicationLaunch → Text)
    (pair : PairKey) (jti end : ℕ) (seen : Seen) (calls : List Call) (before : ℕ)
    → InOrder before calls
    → All (λ (call : Call). OneTicket jti end call.result) calls
    → started_for mac encode decode encoded_len version_of pair jti seen calls ≤ 1
unfolding started_for
started_for-once mac encode decode encoded_len version_of pair jti end seen [] before order one =
    omega arith
started_for-once mac encode decode encoded_len version_of pair jti end seen (call ∷ calls) before
      order one =
    let after = (served mac encode decode encoded_len version_of pair seen call).0 in
    let rest =
      started_for-once mac encode decode encoded_len version_of pair jti end after calls call.now
        order.2 one.1 in
    elim (Bool-cases (mine jti call.result)) [
      | inl own ↦
          elim (first_start mac encode decode encoded_len version_of pair jti end seen call
            call.result refl one.0 own) [
              | inl nothing ↦ rw own (omega arith)
              | inr once ↦
                  let first = once.0 in
                  let none_left =
                    Spent-started_for mac encode decode encoded_len version_of pair jti end after
                      calls call.now order.2 one.1 once.1 in
                  rw own (omega arith)
            ]
      | inr other ↦ rw other (omega arith)
    ]
