-- ===== src/Broker/Pairing.antt =====
-- Pairing tokens (crates/ndp-signal/src/pairing.rs). `mac` stands for HMAC-SHA256, `encode` and
-- `decode` for the unpadded base64 of the base64 crate. A session id is the number of its UUID.
pub mod RoundTrip
use nebula_desk.Prelude.{
  ℕ, ◌+◌, ◌-◌, List, [], ◌∷◌, ◌++◌, length, take, drop, ltb, leb, ◌==◌, if◌then◌else◌, Bool, true,
  false, not, Option, none, some,
}
use nebula_desk.Prelude.Bytes.{to_be, from_be, same_bytes}

abbrev pub token_ttl : ℕ
token_ttl = 30

abbrev pub min_secret_len : ℕ
min_secret_len = 32

pub data Side : Type 0 where
  client agent : Side

unfoldable pub peer : Side → Side
peer client = agent
peer agent = client

unfoldable pub tag : Side → ℕ
tag client = 1
tag agent = 2

unfoldable pub from_tag : ℕ → Option Side
from_tag t = if t == 1 then some client else if t == 2 then some agent else none

pub data TokenError : Type 0 where
  malformed bad_signature expired : TokenError

pub data Result {ℓ} (A : Type ℓ) : Type ℓ where
  ok : A → Result A
  err : TokenError → Result A

infixl 5 ◌>>=◌ ◌>>◌
abbrev pub ◌>>=◌ {ℓ κ} : {A : Type ℓ} {B : Type κ} → Result A → (A → Result B) → Result B
ok x >>= f = f x
err reason >>= f = err reason

abbrev pub ◌>>◌ {ℓ κ} : {A : Type ℓ} {B : Type κ} → Result A → Result B → Result B
first >> second = first >>= λ _. second

abbrev pub reject_if : Bool → TokenError → Result (Unit {0})
reject_if true reason = err reason
reject_if false reason = ok tt

abbrev pub ok_or {ℓ} : {A : Type ℓ} → Option A → TokenError → Result A
ok_or (some x) reason = ok x
ok_or none reason = err reason

abbrev pub token_len : ℕ
token_len = 16 + 1 + 8 + 32

pub record PairToken : Type 0 where
  pub session : ℕ
  pub side : Side
  pub expires_at : ℕ

pub record PairKey : Type 0 where
  pub key : List ℕ

unfoldable pub new : List ℕ → Result PairKey
new secret =
    if ltb (length secret) min_secret_len then err malformed else ok (record { key = secret })

-- What the tag of a token is over.
unfoldable pub body : ℕ → Side → ℕ → List ℕ
unfolding tag to_be
body session side expires_at = to_be 16 session ++ (tag side ∷ to_be 8 expires_at)

-- The token of what a body holds: the number of the session, the tag of the side, the expiry.
unfoldable pub read_fields : ℕ → ℕ → ℕ → ℕ → Result PairToken
read_fields session t expires_at now = do
  side ← ok_or (from_tag t) malformed
  reject_if (leb expires_at now) expired
  ok (record { session = session; side = side; expires_at = expires_at })

unfoldable pub read_body : List ℕ → ℕ → Result PairToken
read_body bytes now =
    read_fields (from_be (take 16 bytes)) (from_be (take 1 (drop 16 bytes)))
      (from_be (take 8 (drop 17 bytes))) now

module _ (mac : List ℕ → List ℕ → List ℕ) (encode : List ℕ → List ℕ)
    (decode : List ℕ → Option (List ℕ)) where
  unfoldable pub mint_at : PairKey → ℕ → Side → ℕ → List ℕ
  unfolding body
  mint_at k session side expires_at =
      encode (body session side expires_at ++ mac k.key (body session side expires_at))

  unfoldable pub mint : PairKey → ℕ → Side → ℕ → List ℕ
  unfolding mint_at
  mint k session side now = mint_at k session side (now + token_ttl)

  unfoldable pub verify : PairKey → List ℕ → ℕ → Result PairToken
  verify k token now = do
    raw ← ok_or (decode token) malformed
    reject_if (not (length raw == token_len)) malformed
    let head = take (token_len - 32) raw
    reject_if (not (same_bytes (mac k.key head) (drop (token_len - 32) raw))) bad_signature
    read_body head now
