-- ===== src/Crypto/Record/Seal.antt =====
-- A sealer never uses a nonce twice.
use nebula_desk.Prelude.{
  ℕ, suc, ◌+◌, ◌^◌, ◌≤◌, ◌<◌, List, [], ◌∷◌, ◌==◌, if◌then◌else◌, ◌≡◌, ◌≢◌, arith, length, All, sym,
  ap, ◌∙◌, ◌++◌, drop, some, none, refl, subst,
}
use nebula_desk.Prelude.Bytes.{to_le, from_le, from_le-to_le}
use nebula_desk.Proto
use nebula_desk.Proto.Readers.{read_int-to_le}
use nebula_desk.Proto.Channel
use nebula_desk.Proto.Channel.{Channel}
use nebula_desk.Proto.Header.{MsgHeader, to_bytes, header_len}
use nebula_desk.Proto.Header.Codec.{length-to_bytes}
use nebula_desk.Crypto.Aead.{Aead}
use nebula_desk.Crypto.Record.{Result, ok, err, RecordSealer, nonce_for, numbered, sealed, seal}

-- The channel and the sequence number can be read back from a nonce.
pub nonce_for-injective :
    (c d : Channel) (m n : ℕ)
    → m < 2 ^ 64
    → n < 2 ^ 64
    → nonce_for c m ≡ nonce_for d n
    → (c ≡ d) × (m ≡ n)
unfolding nonce_for
nonce_for-injective c d m n hm hn e =
    let first = read_int-to_le 4 (Channel.id c) (to_le 8 m) (omega (arith, Channel.id-lt c)) in
    let other = read_int-to_le 4 (Channel.id d) (to_le 8 n) (omega (arith, Channel.id-lt d)) in
    let both : Proto.ok (Channel.id c, to_le 8 m) ≡ Proto.ok (Channel.id d, to_le 8 n) =
      sym first ∙ ap (Proto.read_int 4) e ∙ other in
    let ids : Channel.id c ≡ Channel.id d = cc in
    let tails : to_le 8 m ≡ to_le 8 n = cc in
    (
      Channel.id-injective c d ids,
      sym (from_le-to_le 8 m hm) ∙ ap from_le tails ∙ from_le-to_le 8 n hn,
    )

abbrev pub Request : Type 0
Request = Channel × MsgHeader × List ℕ

-- An AEAD that reveals the nonce it is called with: its ciphertext is the nonce.
abbrev pub revealing : Aead
revealing = record {
  encrypt = λ key nonce aad text. some nonce;
  decrypt = λ key nonce aad cipher. none;
}

-- What stands behind the header of a record.
abbrev pub behind_header : Result (List ℕ) → List ℕ
behind_header (ok bytes) = drop header_len bytes
behind_header (err failure) = []

-- The nonces that `seal` hands to its AEAD over a list of requests, one after the other: each is read
-- from the record that the same call gives under the AEAD that reveals them. The sealer goes through
-- the states that the AEAD `a` leaves.
module _ (a : Aead) where
  unfoldable pub nonces : RecordSealer → List Request → List (List ℕ)
  nonces s [] = []
  nonces s ((channel, header, payload) ∷ requests) =
      behind_header (seal revealing s channel header payload).1
      ∷ nonces (seal a s channel header payload).0 requests

drop-append {ℓ} : {A : Type ℓ} (xs ys : List A) → drop (length xs) (xs ++ ys) ≡ ys
drop-append [] ys = refl
drop-append (x ∷ xs) ys = drop-append xs ys

-- The nonce is that of the counter of the channel.
handed_nonce :
    (s : RecordSealer) (c : Channel) (h : MsgHeader) (p : List ℕ)
    → behind_header (seal revealing s c h p).1 ≡ nonce_for c (s.counters c)
unfolding seal sealed
handed_nonce s c h p =
    let aad = to_bytes (numbered h (s.counters c)) in
    ap (λ n. drop n (aad ++ nonce_for c (s.counters c)))
      (sym (length-to_bytes (numbered h (s.counters c))))
    ∙ drop-append aad (nonce_for c (s.counters c))

abbrev pub AllDifferent : List (List ℕ) → Type 0
AllDifferent [] = Unit
AllDifferent (n ∷ ns) = All (λ m. n ≢ m) ns × AllDifferent ns

-- No counter comes to its wrap-around within the run.
abbrev pub HasRoom : RecordSealer → ℕ → Type 0
HasRoom s count = (c : Channel) → s.counters c + count < 2 ^ 64

module _ (a : Aead) where
  counter-seal :
      (s : RecordSealer) (c : Channel) (h : MsgHeader) (p : List ℕ) (d : Channel)
      → s.counters c + 1 < 2 ^ 64
      → (seal a s c h p).0.counters d
        ≡ (if Channel.id d == Channel.id c then s.counters c + 1 else s.counters d)
  unfolding seal
  counter-seal s c h p d room = ground arith

  seal-HasRoom :
      (s : RecordSealer) (c : Channel) (h : MsgHeader) (p : List ℕ) (n : ℕ)
      → HasRoom s (suc n)
      → HasRoom (seal a s c h p).0 n
  seal-HasRoom s c h p n room d = ground (arith, counter-seal s c h p d, room c, room d)

  seal-counter_le :
      (s : RecordSealer) (c : Channel) (h : MsgHeader) (p : List ℕ) (d : Channel)
      → s.counters c + 1 < 2 ^ 64
      → s.counters d ≤ (seal a s c h p).0.counters d
  seal-counter_le s c h p d room =
      ground (arith, counter-seal s c h p d, ap s.counters, Channel.id-injective d c)

  -- A nonce whose number lies below the counter of its channel is not used any more.
  nonces_ahead :
      (s : RecordSealer) (requests : List Request) (c : Channel) (n : ℕ)
      → HasRoom s (length requests)
      → n < s.counters c
      → All (λ m. nonce_for c n ≢ m) (nonces a s requests)
  unfolding nonces
  nonces_ahead s [] c n room h = tt
  nonces_ahead s ((d, header, payload) ∷ requests) c n room h =
      let more : s.counters d + 1 < 2 ^ 64 = omega (arith, room d) in
      (
        (λ e.
            let (same, equal) =
              nonce_for-injective c d n (s.counters d) (omega (arith, room c)) (omega arith)
                (e ∙ handed_nonce s d header payload) in
            omega (arith, ap s.counters same, equal)),
        nonces_ahead (seal a s d header payload).0 requests c n
            (seal-HasRoom s d header payload (length requests) room)
            (omega (arith, seal-counter_le s d header payload c more)),
      )

  -- Over a run of seals on any channels, in which no counter of 64 bits wraps around, the nonces that
  -- `seal` hands to the AEAD, read through an AEAD that returns the nonce it is called with, are all
  -- different.
  pub nonces-AllDifferent :
      (s : RecordSealer) (requests : List Request)
      → HasRoom s (length requests)
      → AllDifferent (nonces a s requests)
  unfolding nonces
  nonces-AllDifferent s [] room = tt
  nonces-AllDifferent s ((d, header, payload) ∷ requests) room =
      let more : s.counters d + 1 < 2 ^ 64 = omega (arith, room d) in
      (
        subst (λ m. All (λ n. m ≢ n) (nonces a (seal a s d header payload).0 requests))
            (sym (handed_nonce s d header payload))
            (nonces_ahead (seal a s d header payload).0 requests d (s.counters d)
              (seal-HasRoom s d header payload (length requests) room)
              (ground (arith, counter-seal s d header payload d))),
        nonces-AllDifferent (seal a s d header payload).0 requests
            (seal-HasRoom s d header payload (length requests) room),
      )
