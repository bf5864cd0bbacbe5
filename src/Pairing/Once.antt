-- ===== src/Pairing/Once.antt =====
-- server-pc/src/pairing.rs: how often one code can be used, over every history of calls.
use remote_control.Base.{
  ℕ, suc, ◌+◌, ◌-◌, ◌*◌, ◌^◌, ◌≤◌, ◌≡◌, refl, ◌≢◌, ◌↔◌, Bool, true, false, List, [], ◌∷◌, ◌||◌, All,
  list_eq, list_beq_iff, if◌then◌else◌, arith,
}
use remote_control.Pairing.{PairingStore, VerifyResult, ok, Draws, verify_and_consume, rotate}

-- The calls of a history, each with its time.
pub data Call : Type 0 where
  verifies : ℕ → List ℕ → Call
  rotates : ℕ → Draws → Call

abbrev pub is_accepted : VerifyResult → Bool
is_accepted ok = true
is_accepted _ = false

-- The store after a list of attempts.
unfoldable pub after_guesses : PairingStore → List (ℕ × List ℕ) → PairingStore
after_guesses s [] = s
after_guesses s ((at, g) ∷ guesses) = after_guesses (verify_and_consume s at g).0 guesses

wrong_guess_keeps :
    (s : PairingStore) (at : ℕ) (g : List ℕ) → g ≢ s.code → (verify_and_consume s at g).0 ≡ s
unfolding verify_and_consume
wrong_guess_keeps s at g w = ground (arith, list_beq_iff s.code g)

-- The number of attempts that are answered `ok`, and of rotations.
is_ok : VerifyResult → ℕ
is_ok ok = 1
is_ok _ = 0

unfoldable pub accepted : PairingStore → List Call → ℕ
unfolding is_ok
accepted s [] = 0
accepted s (verifies now c ∷ calls) =
    is_ok (verify_and_consume s now c).1 + accepted (verify_and_consume s now c).0 calls
accepted s (rotates now d ∷ calls) = accepted (rotate s d now) calls

unfoldable pub rotations : List Call → ℕ
rotations [] = 0
rotations (verifies now c ∷ calls) = rotations calls
rotations (rotates now d ∷ calls) = suc (rotations calls)

-- How many attempts the code in the store is still good for.
abbrev left : PairingStore → ℕ
left s = if s.consumed then 0 else 1

verify_left :
    (s : PairingStore) (now : ℕ) (c : List ℕ)
    → is_ok (verify_and_consume s now c).1 + left (verify_and_consume s now c).0 ≤ left s
unfolding verify_and_consume is_ok
verify_left s now c = ground arith

left-rotate : (s : PairingStore) (now : ℕ) (d : Draws) → left (rotate s d now) ≡ 1
unfolding rotate
left-rotate s now d = refl

-- Over every history of attempts and rotations, and from every store, no more attempts are accepted
-- than there are codes: the one in the store, if it is unused, and one for each rotation.
pub accepted-le_codes :
    (s : PairingStore) (calls : List Call)
    → accepted s calls ≤ (if s.consumed then 0 else 1) + rotations calls
unfolding accepted rotations
accepted-le_codes s [] = omega arith
accepted-le_codes s (verifies now c ∷ calls) =
    omega (arith, verify_left s now c, accepted-le_codes (verify_and_consume s now c).0 calls)
accepted-le_codes s (rotates now d ∷ calls) =
    omega (arith, left-rotate s now d, accepted-le_codes (rotate s d now) calls)

-- An attempt is accepted exactly if the code is unused, no older than 300 s and the right one; the
-- store changes with an accepted attempt, which marks the code used, and with no other.
pub verify_and_consume_outcome :
    (s : PairingStore) (now : ℕ) (c : List ℕ)
    → (((verify_and_consume s now c).1 ≡ ok)
        ↔ ((s.consumed ≡ false) × (now - s.created ≤ 300 * 10 ^ 9) × (s.code ≡ c)))
      × ((verify_and_consume s now c).0
          ≡ (record s { consumed = s.consumed || is_accepted (verify_and_consume s now c).1 }))
unfolding verify_and_consume
verify_and_consume_outcome s now c = (ground (arith, list_beq_iff s.code c), ground arith)

-- Attempts with wrong codes, however many, leave the code good: the right one is still accepted
-- until it is 300 s old.
pub wrong_guesses_harmless :
    (s : PairingStore) (guesses : List (ℕ × List ℕ)) (now : ℕ)
    → All (λ g. g.1 ≢ s.code) guesses
    → s.consumed ≡ false
    → now - s.created ≤ 300 * 10 ^ 9
    → (verify_and_consume (after_guesses s guesses) now s.code).1 ≡ ok
unfolding after_guesses
wrong_guesses_harmless s [] now w u t = (verify_and_consume_outcome s now s.code).0.1 (u, t, refl)
wrong_guesses_harmless s ((at, g) ∷ guesses) now (w, ws) u t =
    rw (wrong_guess_keeps s at g w) (wrong_guesses_harmless s guesses now ws u t)
