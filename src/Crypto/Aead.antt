-- ===== src/Crypto/Aead.antt =====
-- ChaCha20-Poly1305, which crates/ndp-crypto takes from another package: a key, a nonce, the
-- associated data and a text. `none` is the package's opaque error.
use nebula_desk.Prelude.{ℕ, ◌+◌, List, length, Option, some, ◌≡◌}

pub record Aead : Type 0 where
  pub encrypt : List ℕ → List ℕ → List ℕ → List ℕ → Option (List ℕ)
  pub decrypt : List ℕ → List ℕ → List ℕ → List ℕ → Option (List ℕ)

abbrev pub aead_tag_len : ℕ
aead_tag_len = 16

-- What the package documents: decryption under the same key, nonce and associated data returns the
-- text, and the tag takes 16 bytes.
pub record AeadLaws (a : Aead) : Type 0 where
  pub opens :
      (key nonce aad text cipher : List ℕ)
      → a.encrypt key nonce aad text ≡ some cipher
      → a.decrypt key nonce aad cipher ≡ some text
  pub tagged :
      (key nonce aad text cipher : List ℕ)
      → a.encrypt key nonce aad text ≡ some cipher
      → length cipher ≡ length text + aead_tag_len
