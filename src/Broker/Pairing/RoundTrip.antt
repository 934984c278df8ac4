-- ===== src/Broker/Pairing/RoundTrip.antt =====
-- A minted token is read back, and only what the key authenticated is accepted.
use nebula_desk.Prelude.{
  ℕ, zero, suc, ◌^◌, ◌<◌, ◌≡◌, refl, sym, ap, ◌∙◌, subst, List, [], ◌∷◌, ◌++◌, length, take, drop,
  length-append, length-take, length-drop, take-append-drop, take_at, drop_at, leb, ◌==◌,
  if◌then◌else◌, Bool, true, false, not, Option, none, some, arith, append-nil, All, All-append,
  All-take, All-drop,
}
use nebula_desk.Prelude.Bytes.{
  to_be, from_le, from_be, IsByte, same_bytes, same_bytes-≡, same_bytes_refl, length-to_be,
  to_be-IsByte, from_be-to_be, to_be-from_be,
}
use nebula_desk.Broker.Pairing.{
  Side, client, agent, tag, from_tag, TokenError, malformed, bad_signature, expired, Result, ok,
  err, ◌>>=◌, ◌>>◌, reject_if, ok_or, token_len, PairToken, PairKey, body, mint_at, read_fields,
  read_body, verify,
}

from_be_one : (b : ℕ) → from_be (b ∷ []) ≡ b
unfolding from_be from_le
from_be_one b = omega arith

take_8 : (l : List ℕ) → length l ≡ 8 → take 8 l ≡ l
take_8 l h = ap (take 8) (sym (append-nil l)) ∙ take_at 8 l [] h

from_tag-tag : (side : Side) → from_tag (tag side) ≡ some side
unfolding from_tag tag
from_tag-tag client = refl
from_tag-tag agent = refl

length-body :
    (session : ℕ) (side : Side) (expires_at : ℕ) → length (body session side expires_at) ≡ 25
unfolding body
length-body session side expires_at =
    let id = to_be 16 session in
    let rest = tag side ∷ to_be 8 expires_at in
    omega (arith, length-append id rest, length-to_be 16 session, length-to_be 8 expires_at)

body-IsByte :
    (session : ℕ) (side : Side) (expires_at : ℕ) → All IsByte (body session side expires_at)
unfolding body tag
body-IsByte session side expires_at =
    All-append IsByte (to_be 16 session) (tag side ∷ to_be 8 expires_at) (to_be-IsByte 16 session)
      (tag-IsByte side, to_be-IsByte 8 expires_at)
  where
    tag-IsByte : (side : Side) → tag side < 256
    tag-IsByte client = omega arith
    tag-IsByte agent = omega arith

drop_17 : (bytes : List ℕ) → drop 17 bytes ≡ drop 1 (drop 16 bytes)
drop_17 bytes = drop_more 16 bytes
  where
    drop_more : (n : ℕ) (bytes : List ℕ) → drop (suc n) bytes ≡ drop 1 (drop n bytes)
    drop_more zero bytes = refl
    drop_more (suc n) [] = refl
    drop_more (suc n) (b ∷ bytes) = drop_more n bytes

reject_if_ok_or :
    (late : Bool) (t : PairToken)
    → (reject_if late expired >> ok t) ≡ (if late then err expired else ok t)
reject_if_ok_or true t = refl
reject_if_ok_or false t = refl

read_fields-tag :
    (session : ℕ) (side : Side) (expires_at now : ℕ)
    → read_fields session (tag side) expires_at now ≡ (
        if leb expires_at now
        then err expired
        else ok (record { session = session; side = side; expires_at = expires_at }))
unfolding read_fields
read_fields-tag session side expires_at now = rw (from_tag-tag side) (
    reject_if_ok_or (leb expires_at now)
      (record { session = session; side = side; expires_at = expires_at }))

read_body-body :
    (session : ℕ) (side : Side) (expires_at now : ℕ)
    → session < 256 ^ 16
    → expires_at < 256 ^ 8
    → read_body (body session side expires_at) now ≡ (
        if leb expires_at now
        then err expired
        else ok (record { session = session; side = side; expires_at = expires_at }))
unfolding read_body body
read_body-body session side expires_at now small later =
    let id = to_be 16 session in
    let rest = tag side ∷ to_be 8 expires_at in
    let first : take 16 (id ++ rest) ≡ id = take_at 16 id rest (length-to_be 16 session) in
    let second : drop 16 (id ++ rest) ≡ rest = drop_at 16 id rest (length-to_be 16 session) in
    let third : drop 17 (id ++ rest) ≡ to_be 8 expires_at =
      drop_17 (id ++ rest) ∙ ap (drop 1) second in
    let third' : take 8 (drop 17 (id ++ rest)) ≡ to_be 8 expires_at =
      ap (take 8) third ∙ take_8 (to_be 8 expires_at) (length-to_be 8 expires_at) in
    ap
      (λ n.
        read_fields n (from_be (take 1 (drop 16 (id ++ rest))))
          (from_be (take 8 (drop 17 (id ++ rest)))) now)
      (ap from_be first ∙ from_be-to_be 16 session small)
    ∙ ap (λ n. read_fields session n (from_be (take 8 (drop 17 (id ++ rest)))) now)
        (ap (λ l. from_be (take 1 l)) second ∙ from_be_one (tag side))
    ∙ ap (λ n. read_fields session (tag side) n now)
        (ap from_be third' ∙ from_be-to_be 8 expires_at later)
    ∙ read_fields-tag session side expires_at now

-- What the base64 crate and the hmac crate give.
pub record Codec (mac : List ℕ → List ℕ → List ℕ) (encode : List ℕ → List ℕ)
    (decode : List ℕ → Option (List ℕ)) : Type 0 where
  pub decode-encode : (bytes : List ℕ) → All IsByte bytes → decode (encode bytes) ≡ some bytes
  pub decode-IsByte : (text bytes : List ℕ) → decode text ≡ some bytes → All IsByte bytes
  pub length-mac : (key bytes : List ℕ) → length (mac key bytes) ≡ 32
  pub mac-IsByte : (key bytes : List ℕ) → All IsByte (mac key bytes)

-- A token that a key mints is read back with the same key: until its expiry it gives the session and
-- the side it was minted for, and from its expiry on it is refused as expired.
pub verify-mint_at :
    (mac : List ℕ → List ℕ → List ℕ) (encode : List ℕ → List ℕ) (decode : List ℕ → Option (List ℕ))
    (codec : Codec mac encode decode) (k : PairKey) (session : ℕ) (side : Side) (expires_at now : ℕ)
    → session < 256 ^ 16
    → expires_at < 256 ^ 8
    → verify mac encode decode k (mint_at mac encode decode k session side expires_at) now ≡ (
        if leb expires_at now
        then err expired
        else ok (record { session = session; side = side; expires_at = expires_at }))
unfolding mint_at verify
verify-mint_at mac encode decode codec k session side expires_at now small later =
    let head = body session side expires_at in
    let code = mac k.key head in
    let size = length-body session side expires_at in
    let valid : All IsByte (head ++ code) =
      All-append IsByte head code (body-IsByte session side expires_at)
        (codec.mac-IsByte k.key head) in
    let whole : length (head ++ code) == token_len ≡ true =
      let a = length-append head code in let b = codec.length-mac k.key head in ground arith in
    let front : take 25 (head ++ code) ≡ head = take_at 25 head code size in
    let back : drop 25 (head ++ code) ≡ code = drop_at 25 head code size in
    rw (codec.decode-encode (head ++ code) valid, whole, front, back, same_bytes_refl code)
      (read_body-body session side expires_at now small later)

ok-injective : {a b : PairToken} → ok a ≡ ok b → a ≡ b
ok-injective h = cc

bind_ok :
    {A B : Type 0} (m : Result A) (f : A → Result B) (b : B)
    → m >>= f ≡ ok b
    → (a : A) × (m ≡ ok a) × (f a ≡ ok b)
bind_ok (ok a) f b h = (a, refl, h)
bind_ok (err reason) f b h = cc

ok_or_ok :
    {A : Type 0} (o : Option A) (reason : TokenError) (a : A) → ok_or o reason ≡ ok a → o ≡ some a
ok_or_ok (some x) reason a h = cc
ok_or_ok none reason a h = cc

reject_if_ok : (b : Bool) (reason : TokenError) (u : Unit) → reject_if b reason ≡ ok u → b ≡ false
reject_if_ok true reason u h = cc
reject_if_ok false reason u h = refl

from_tag_ok : (t : ℕ) (side : Side) → from_tag t ≡ some side → t ≡ tag side
unfolding from_tag tag
from_tag_ok t client h = ground arith
from_tag_ok t agent h = ground arith

to_be_part :
    (n : ℕ) (bytes : List ℕ) → All IsByte bytes → length bytes ≡ n → to_be n (from_be bytes) ≡ bytes
to_be_part n bytes h size =
    subst (λ k. to_be k (from_be bytes) ≡ bytes) size (to_be-from_be bytes h)

read_fields_ok :
    (session b expires_at now : ℕ) (t : PairToken)
    → read_fields session b expires_at now ≡ ok t
    → (session ≡ t.session) × (b ≡ tag t.side) × (expires_at ≡ t.expires_at) × (now < t.expires_at)
unfolding read_fields
read_fields_ok session b expires_at now t h =
    let s = bind_ok (ok_or (from_tag b) malformed) _ t h in
    let late = bind_ok (reject_if (leb expires_at now) expired) _ t s.2 in
    let fresh = reject_if_ok (leb expires_at now) expired late.0 late.1 in
    let same = ok-injective late.2 in
    let known : from_tag b ≡ some s.0 = ok_or_ok (from_tag b) malformed s.0 s.1 in
    (
      ap (λ u. u.session) same,
      from_tag_ok b s.0 known ∙ ap (λ u. tag u.side) same,
      ap (λ u. u.expires_at) same,
      subst (λ n. now < n) (ap (λ u. u.expires_at) same) (ground arith),
    )

take_one : (l : List ℕ) → length l ≡ 9 → take 1 l ≡ from_be (take 1 l) ∷ []
take_one [] h = absurd (omega arith)
take_one (b ∷ l) h = ap (λ c. c ∷ []) (sym (from_be_one b))

-- A body of 25 bytes that is read is the body of what it is read as.
read_body_ok :
    (bytes : List ℕ) (now : ℕ) (t : PairToken)
    → All IsByte bytes
    → length bytes ≡ 25
    → read_body bytes now ≡ ok t
    → (bytes ≡ body t.session t.side t.expires_at) × (now < t.expires_at)
unfolding read_body body
read_body_ok bytes now t valid size h =
    let id = take 16 bytes in
    let rest = drop 16 bytes in
    let s =
      read_fields_ok (from_be id) (from_be (take 1 rest)) (from_be (take 8 (drop 17 bytes))) now t
        h in
    let length_rest : length rest ≡ 9 = omega (arith, length-drop 16 bytes) in
    let id_part : to_be 16 t.session ≡ id =
      ap (to_be 16) (sym s.0)
      ∙ to_be_part 16 id (All-take IsByte 16 bytes valid) (omega (arith, length-take 16 bytes)) in
    let rest_valid = All-drop IsByte 16 bytes valid in
    let tail : drop 17 bytes ≡ drop 1 rest = drop_17 bytes in
    let length_tail : length (drop 1 rest) ≡ 8 = omega (arith, length-drop 1 rest) in
    let expiry : take 8 (drop 17 bytes) ≡ drop 1 rest =
      ap (take 8) tail ∙ take_8 (drop 1 rest) length_tail in
    let expiry_part : to_be 8 t.expires_at ≡ drop 1 rest =
      ap (to_be 8) (sym s.2 ∙ ap from_be expiry)
      ∙ to_be_part 8 (drop 1 rest) (All-drop IsByte 1 rest rest_valid) length_tail in
    let side_part : take 1 rest ≡ tag t.side ∷ [] =
      take_one rest length_rest ∙ ap (λ b. b ∷ []) s.1 in
    (
      sym (take-append-drop 16 bytes)
          ∙ ap (λ l. l ++ rest) (sym id_part)
          ∙ ap (λ l. to_be 16 t.session ++ l)
              (sym (take-append-drop 1 rest)
                ∙ ap (λ l. l ++ drop 1 rest) side_part
                ∙ ap (λ l. tag t.side ∷ l) (sym expiry_part)),
      s.3,
    )

-- Only tokens that the key authenticated are accepted, before their expiry, and with what they were
-- made for: an accepted token is the body of its session, side and expiry, followed by the code of
-- that body under the key.
pub verify-authentic :
    (mac : List ℕ → List ℕ → List ℕ) (encode : List ℕ → List ℕ) (decode : List ℕ → Option (List ℕ))
    (codec : Codec mac encode decode) (k : PairKey) (token : List ℕ) (now : ℕ) (t : PairToken)
    → verify mac encode decode k token now ≡ ok t
    → (now < t.expires_at)
      × (decode token
          ≡ some (
              body t.session t.side t.expires_at ++ mac k.key (body t.session t.side t.expires_at)))
unfolding verify
verify-authentic mac encode decode codec k token now t h =
    let raw = bind_ok (ok_or (decode token) malformed) _ t h in
    let known : decode token ≡ some raw.0 = ok_or_ok (decode token) malformed raw.0 raw.1 in
    let sized = bind_ok (reject_if (not (length raw.0 == token_len)) malformed) _ t raw.2 in
    let long = reject_if_ok (not (length raw.0 == token_len)) malformed sized.0 sized.1 in
    let head = take 25 raw.0 in
    let code = drop 25 raw.0 in
    let signed =
      bind_ok (reject_if (not (same_bytes (mac k.key head) code)) bad_signature) _ t sized.2 in
    let match =
      reject_if_ok (not (same_bytes (mac k.key head) code)) bad_signature signed.0 signed.1 in
    let same : mac k.key head ≡ code = same_bytes-≡ (mac k.key head) code (ground arith) in
    let valid = All-take IsByte 25 raw.0 (codec.decode-IsByte token raw.0 known) in
    let size : length head ≡ 25 = let a = length-take 25 raw.0 in ground arith in
    let read = read_body_ok head now t valid size signed.2 in
    (
      read.1,
      known
          ∙ ap some (
              sym (take-append-drop 25 raw.0)
              ∙ ap (λ l. head ++ l) (sym same)
              ∙ ap (λ l. l ++ mac k.key l) read.0),
    )
