-- ===== src/Crypto.antt =====
-- What the program takes from crates that are not part of the repository: SHA-256, HMAC-SHA256 and
-- URL-safe base64 without padding. A record of functions with the laws that the code relies on.
use remote_control.Base.{ℕ, ◌≡◌, refl, List, Option, some}

pub record Crypto : Type 0 where
  -- The digest of a message, as bytes.
  pub sha256 : List ℕ → List ℕ
  -- Of a key and a message.
  pub hmac_sha256 : List ℕ → List ℕ → List ℕ
  -- The characters of the encoding are ASCII, so it is its own UTF-8.
  pub base64_encode : List ℕ → List ℕ
  pub base64_decode : List ℕ → Option (List ℕ)
  pub decode-encode : (bytes : List ℕ) → base64_decode (base64_encode bytes) ≡ some bytes

-- A stand-in that meets the law, for tests and examples.
abbrev pub plain_crypto : Crypto
plain_crypto = record {
  sha256 = λ bytes. bytes;
  hmac_sha256 = λ key bytes. bytes;
  base64_encode = λ bytes. bytes;
  base64_decode = λ text. some text;
  decode-encode = λ bytes. refl;
}
