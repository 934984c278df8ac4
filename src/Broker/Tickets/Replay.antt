-- ===== src/Broker/Tickets/Replay.antt =====
-- A ticket is spent once.
use nebula_desk.Prelude.{
  ℕ, ◌-◌, ◌^◌, ◌≤◌, ◌<◌, ◌≡◌, ◌⊎◌, inl, inr, refl, sym, ap, ◌∙◌, [], ◌∷◌, ltb, leb, ◌==◌, Bool,
  true, false, Option, none, some, arith, Bool-cases,
}
use nebula_desk.Prelude.Maps.{lookup, insert, has, lookup-insert_self, lookup-insert_ne}
use nebula_desk.Broker.Launch.{TicketClaims, is_valid_at}
use nebula_desk.Broker.Tickets.{Seen, TicketError, retain_later, acceptance_end, consume}

end-injective : {a b : ℕ} → some a ≡ some b → a ≡ b
end-injective h = cc

retain_later-lookup :
    (now : ℕ) (seen : Seen) (jti end : ℕ)
    → lookup jti seen ≡ some end
    → now < end
    → lookup jti (retain_later now seen) ≡ some end
unfolding retain_later lookup
retain_later-lookup now [] jti end h later = cc
retain_later-lookup now ((j, e) ∷ seen) jti end h later = elim (Bool-cases (j == jti)) [
  | inl here ↦
      let same : e ≡ end = end-injective (sym (rw (here, lookup) refl) ∙ h) in
      let stays : ltb now e ≡ true = ground arith in rw (stays, retain_later, here) (ap some same)
  | inr other ↦
      let rest = retain_later-lookup now seen jti end (sym (rw (other, lookup) refl) ∙ h) later in
      elim (Bool-cases (ltb now e)) [
        | inl stays ↦ rw (stays, retain_later, other) rest
        | inr goes ↦ rw (goes, retain_later) rest
      ]
]

-- The ticket `jti` cannot be spent from `now` on: it is remembered until `end`, or that time has come.
abbrev pub Spent : ℕ → ℕ → ℕ → Seen → Type 0
Spent jti end now seen = (lookup jti seen ≡ some end) ⊎ (end ≤ now)

abbrev pub is_ok : Option TicketError → Bool
is_ok none = true
is_ok (some error) = false

pub consume-Spent :
    (seen : Seen) (claims : TicketClaims) (jti end then_at now : ℕ)
    → then_at ≤ now
    → (claims.jti ≡ jti → acceptance_end claims ≡ end)
    → Spent jti end then_at seen
    → Spent jti end now (consume seen claims now).0
unfolding consume
consume-Spent seen claims jti end then_at now order known (inr over) = inr (omega arith)
consume-Spent seen claims jti end then_at now order known (inl held) =
    elim (Bool-cases (leb end now)) [
      | inl over ↦ inr (ground arith)
      | inr early ↦ inl (kept (retain_later-lookup now seen jti end held (ground arith)))
    ]
  where
    put :
        lookup jti (retain_later now seen) ≡ some end
        → lookup jti (insert claims.jti (acceptance_end claims) (retain_later now seen)) ≡ some end
    put left = elim (Bool-cases (claims.jti == jti)) [
      | inl own ↦
          let key : claims.jti ≡ jti = ground arith in
          ap (λ i. lookup i (insert claims.jti (acceptance_end claims) (retain_later now seen)))
            (sym key)
          ∙ lookup-insert_self claims.jti (acceptance_end claims) (retain_later now seen)
          ∙ ap some (known key)
      | inr other ↦
          lookup-insert_ne claims.jti jti (acceptance_end claims) (retain_later now seen)
            (λ e. ground arith)
          ∙ left
    ]

    kept :
        lookup jti (retain_later now seen) ≡ some end
        → lookup jti (consume seen claims now).0 ≡ some end
    kept left = elim (Bool-cases (is_valid_at claims now)) [
      | inl valid ↦ elim (Bool-cases (has claims.jti (retain_later now seen))) [
        | inl again ↦ rw (valid, again, consume) (put left)
        | inr first ↦ rw (valid, first, consume) (put left)
      ]
      | inr late ↦ rw (late, consume) held
    ]

valid_before :
    (claims : TicketClaims) (now : ℕ)
    → now < 2 ^ 63 - 1
    → is_valid_at claims now ≡ true
    → now < acceptance_end claims
unfolding is_valid_at acceptance_end
valid_before claims now small valid = ground arith

pub consume-refused :
    (seen : Seen) (claims : TicketClaims) (then_at now : ℕ)
    → then_at ≤ now
    → now < 2 ^ 63 - 1
    → Spent claims.jti (acceptance_end claims) then_at seen
    → is_ok (consume seen claims now).1 ≡ false
unfolding consume
consume-refused seen claims then_at now order small spent =
    elim (Bool-cases (is_valid_at claims now)) [
      | inl valid ↦
          let alive : now < acceptance_end claims = valid_before claims now small valid in
          let held : lookup claims.jti seen ≡ some (acceptance_end claims) = elim spent [
            | inl h ↦ h
            | inr over ↦ absurd (omega arith)
          ] in
          let left = retain_later-lookup now seen claims.jti (acceptance_end claims) held alive in
          let again : has claims.jti (retain_later now seen) ≡ true = rw (left, has) refl in
          rw (valid, again, consume) refl
      | inr late ↦ rw (late, consume) refl
    ]

pub consume-spends :
    (seen : Seen) (claims : TicketClaims) (now : ℕ)
    → is_ok (consume seen claims now).1 ≡ true
    → lookup claims.jti (consume seen claims now).0 ≡ some (acceptance_end claims)
unfolding consume
consume-spends seen claims now h = elim (Bool-cases (is_valid_at claims now)) [
  | inl valid ↦ elim (Bool-cases (has claims.jti (retain_later now seen))) [
    | inl again ↦ absurd (refuted (sym h ∙ (rw (valid, again, consume) refl)))
    | inr first ↦
        rw (valid, first, consume)
          (lookup-insert_self claims.jti (acceptance_end claims) (retain_later now seen))
  ]
  | inr late ↦ absurd (refuted (sym h ∙ (rw (late, consume) refl)))
]
  where
    refuted : true ≡ false → ⊥
    refuted e = cc
