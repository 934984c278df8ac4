-- ===== src/Broker/Tickets.antt =====
-- The gateway's check of tickets (crates/nebula-gateway/src/tickets.rs).
-- `kid_of` stands for the key id in the header of a token, `check` for the verification of a token
-- with one key, and `decode` for unpadded base64; the answer of the manager is an argument.
pub mod Replay
use nebula_desk.Prelude.{
  ℕ, ◌+◌, ◌-◌, ◌^◌, min, List, [], ◌∷◌, length, ltb, leb, ◌==◌, if◌then◌else◌, Bool, true, false,
  not, ◌&&◌, ◌||◌, Option, none, some,
}
use nebula_desk.Prelude.Maps.{Map, lookup, insert, has}
use nebula_desk.Broker.Launch.{
  Text, ApplicationLaunch, TicketClaims, is_valid_at, valid_target, clock_skew,
}

abbrev pub min_refresh_interval : ℕ
min_refresh_interval = 10

pub data TicketError : Type 0 where
  invalid unknown_key replayed : TicketError

-- What is remembered: each ticket id, with the time at which its ticket is no longer accepted.
abbrev pub Seen : Type 0
Seen = Map ℕ

-- `seen.retain(|_, exp| *exp > now)`
unfoldable pub retain_later : ℕ → Seen → Seen
retain_later now [] = []
retain_later now ((jti, exp) ∷ seen) =
    let rest = retain_later now seen in if ltb now exp then (jti, exp) ∷ rest else rest

unfoldable pub acceptance_end : TicketClaims → ℕ
acceptance_end claims = min (claims.exp + clock_skew) (2 ^ 63 - 1)

-- `consume` at the time `now`, under the lock; `none` where the ticket is spent by this call.
unfoldable pub consume : Seen → TicketClaims → ℕ → Seen × Option TicketError
unfolding is_valid_at retain_later acceptance_end lookup insert
consume seen claims now =
    let left = retain_later now seen in
    let stored = insert claims.jti (acceptance_end claims) left in
    if not (is_valid_at claims now)
    then (seen, some invalid)
    else if has claims.jti left
    then (stored, some replayed)
    else (stored, none)

-- The parts of a published key that the gateway reads.
pub record Jwk : Type 0 where
  pub is_okp : Bool  -- `kty == "OKP"`
  pub is_ed25519 : Bool  -- `crv == "Ed25519"`
  pub x : Text
  pub kid : ℕ

pub record Keys : Type 0 where
  pub by_kid : Map Text
  pub fetched_at : Option ℕ

pub data Verified : Type 0 where
  verified : TicketClaims → Verified
  refused : TicketError → Verified

unfoldable pub usable : (Text → Option Text) → List Jwk → Map Text → Map Text
unfolding insert
usable decode [] by_kid = by_kid
usable decode (jwk ∷ jwks) by_kid = usable decode jwks (
    if not jwk.is_okp || not jwk.is_ed25519
    then by_kid
    else elim (decode jwk.x) [ none ↦ by_kid | some raw ↦ insert jwk.kid raw by_kid ])

-- `refresh`: `none` is a manager that does not answer. The keys stay when it publishes none of use.
unfoldable pub refresh : (Text → Option Text) → Keys → Option (List Jwk) → ℕ → Keys
unfolding usable
refresh decode keys none now = keys
refresh decode keys (some jwks) now =
    let by_kid = usable decode jwks [] in
    if length by_kid == 0 then keys else record { by_kid = by_kid; fetched_at = some now }

abbrev pub recent : Option ℕ → ℕ → Bool
recent none now = false
recent (some at) now = ltb (now - at) min_refresh_interval

unfoldable pub refresh_if_stale : (Text → Option Text) → Keys → Option (List Jwk) → ℕ → Keys
unfolding refresh
refresh_if_stale decode keys answer now =
    if recent keys.fetched_at now then keys else refresh decode keys answer now

module _ (check : Text → Text → Option TicketClaims) where
  -- `TicketVerifier::decode`, with the key that was found.
  unfoldable pub decode_with : Option Text → Text → Verified
  decode_with none token = refused unknown_key
  decode_with (some key) token = elim (check key token) [
    | none ↦ refused invalid
    | some claims ↦ verified claims
  ]

  unfoldable pub decode_token : Keys → Text → ℕ → Verified
  unfolding lookup
  decode_token keys token kid = decode_with (lookup kid keys.by_kid) token

-- The last check of `verify`: what the ticket launches.
unfoldable pub checked_target :
    (ApplicationLaunch → Option ℕ) → (ApplicationLaunch → Text) → Verified → Verified
checked_target encoded_len version_of (refused error) = refused error
checked_target encoded_len version_of (verified claims) =
    if valid_target encoded_len version_of claims.launch_target claims.rid claims.policy
    then verified claims
    else refused invalid

module _ (kid_of : Text → Option ℕ) (check : Text → Text → Option TicketClaims)
    (decode : Text → Option Text) (encoded_len : ApplicationLaunch → Option ℕ)
    (version_of : ApplicationLaunch → Text) where
  -- One refresh and one retry, for a key that is not known.
  unfoldable pub retried : Keys → Text → ℕ → Option (List Jwk) → ℕ → Verified → Keys × Verified
  retried keys token kid answer now (verified claims) = (keys, verified claims)
  retried keys token kid answer now (refused unknown_key) =
      let keys' = refresh_if_stale decode keys answer now in
      (keys', decode_token check keys' token kid)
  retried keys token kid answer now (refused error) = (keys, refused error)

  unfoldable pub verify : Keys → Text → Option (List Jwk) → ℕ → Keys × Verified
  verify keys token answer now = elim (kid_of token) [
    | none ↦ (keys, refused invalid)
    | some kid ↦
        let (keys', result) =
          retried keys token kid answer now (decode_token check keys token kid) in
        (keys', checked_target encoded_len version_of result)
  ]
