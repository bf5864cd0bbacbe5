-- ===== src/Pairing.antt =====
-- server-pc/src/pairing.rs: the one-shot pairing code. The state under the mutex is a record; the
-- random draws and the clock are arguments. An `Instant` is a number of nanoseconds.
pub mod Once
use remote_control.Base.{
  ℕ, ◌+◌, ◌-◌, ◌*◌, ◌^◌, Bool, true, false, List, [], ◌∷◌, map, ltb, not, ◌==◌, list_eq,
  if◌then◌else◌,
}
use remote_control.Crypto.{Crypto}
use remote_control.Config.{pairing_code_ttl_secs}

pub record PairingStore : Type 0 where
  pub code : List ℕ
  pub key : List ℕ
  pub created : ℕ
  pub consumed : Bool

pub data VerifyResult : Type 0 where
  ok bad_code expired used : VerifyResult

-- What `thread_rng` gives: six digits and the 32 bytes of a key.
pub record Draws : Type 0 where
  pub digits : List ℕ
  pub key_bytes : List ℕ

-- Each digit is printed by `to_string`.
unfoldable pub digits_text : List ℕ → List ℕ
digits_text = map (λ d. b'0' + d)

unfoldable pub new_with_fresh_code : Draws → ℕ → PairingStore
unfolding digits_text
new_with_fresh_code draws now = record {
  code = digits_text draws.digits;
  key = draws.key_bytes;
  created = now;
  consumed = false;
}

-- The code, and the key as the QR payload spells it.
unfoldable pub current_qr_fields : Crypto → PairingStore → List ℕ × List ℕ
current_qr_fields crypto store = (store.code, crypto.base64_encode store.key)

-- `elapsed() > Duration::from_secs(…)`; `Instant` subtraction stops at zero.
unfoldable pub verify_and_consume : PairingStore → ℕ → List ℕ → PairingStore × VerifyResult
verify_and_consume store now candidate =
    if store.consumed
    then (store, used)
    else if ltb (pairing_code_ttl_secs * 10 ^ 9) (now - store.created)
    then (store, expired)
    else if not (store.code == candidate)
    then (store, bad_code)
    else (record store { consumed = true }, ok)

unfoldable pub rotate : PairingStore → Draws → ℕ → PairingStore
unfolding digits_text
rotate store draws now = record store {
  code = digits_text draws.digits;
  key = draws.key_bytes;
  created = now;
  consumed = false;
}
