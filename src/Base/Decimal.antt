-- ===== src/Base/Decimal.antt =====
-- Rust's `to_string` and `parse` of unsigned integers.
use Prim.Native.Nat.{ℕ, zero, suc, ◌+◌, ◌-◌, ◌*◌, ◌/◌, ◌%◌, ◌^◌, ◌<◌, ◌≤◌}
use mathlib.Core.Path.{◌≡◌, refl, ap, sym, ◌∙◌}
use mathlib.Core.Bool.{◌&&◌}
use mathlib.Core.List.{List, [], ◌∷◌, ◌++◌, append_assoc, append-nil}
use mathlib.Core.Option.{Option, none, some}
use native.Mathlib.Omega.{arith}
use remote_control.Base.Tests.{leb, ltb, nat_beq, if◌then◌else◌, if_intro}

-- At most `k` digits.
unfoldable pub print_digits : ℕ → ℕ → List ℕ
print_digits zero n = []
print_digits (suc k) n =
    let rest = print_digits k (n / 10) in
    if ltb n 10 then (b'0' + n) ∷ [] else rest ++ ((b'0' + n % 10) ∷ [])

-- The largest `u64` has 20 digits.
unfoldable pub to_string : ℕ → List ℕ
to_string n = print_digits 20 n

-- The digits to come, after a value that is within the type.
unfoldable pub parse_digits : ℕ → ℕ → List ℕ → Option ℕ
parse_digits max acc [] = some acc
parse_digits max acc (c ∷ s) =
    let value = acc * 10 + (c - b'0') in
    let rest = parse_digits max value s in
    if leb b'0' c && leb c b'9' && leb value max then rest else none

abbrev after_sign : ℕ → ℕ → List ℕ → Option ℕ
after_sign max c [] = parse_digits max 0 (c ∷ [])
after_sign max c (d ∷ s) =
    if nat_beq c b'+' then parse_digits max 0 (d ∷ s) else parse_digits max 0 (c ∷ d ∷ s)

-- A `+` may stand before the digits.
unfoldable pub parse_uint : ℕ → List ℕ → Option ℕ
parse_uint max [] = none
parse_uint max (c ∷ s) = after_sign max c s

parse-print_digits :
    (k n max : ℕ) (rest : List ℕ)
    → n < 10 ^ k
    → n ≤ max
    → parse_digits max 0 (print_digits k n ++ rest) ≡ parse_digits max n rest
unfolding print_digits parse_digits
parse-print_digits zero n max rest h m = let e : n ≡ 0 = omega arith in rw (e) refl
parse-print_digits (suc k) n max rest h m =
    let digit : List ℕ = (b'0' + n % 10) ∷ [] in
    let value : n / 10 * 10 + (b'0' + n % 10 - b'0') ≡ n = omega arith in
    let ih = parse-print_digits k (n / 10) max (digit ++ rest) (omega arith) (omega arith) in
    if_intro (λ s. parse_digits max 0 (s ++ rest) ≡ parse_digits max n rest) (ltb n 10)
      (λ b. ground arith)
      (λ b. rw (append_assoc (print_digits k (n / 10)) digit rest) (ih ∙ ground (arith, value)))

print_digits-cons :
    (k n : ℕ) → (c : ℕ) × (s : List ℕ) × (print_digits (suc k) n ≡ c ∷ s) × (b'0' ≤ c)
unfolding print_digits
print_digits-cons zero n =
    if_intro (λ l. (c : ℕ) × (s : List ℕ) × (l ≡ c ∷ s) × (b'0' ≤ c)) (ltb n 10)
      (λ b. (b'0' + n, [], refl, omega arith)) (λ b. (b'0' + n % 10, [], refl, omega arith))
print_digits-cons (suc k) n =
    let (c, s, e, d) = print_digits-cons k (n / 10) in
    if_intro (λ l. (c : ℕ) × (s : List ℕ) × (l ≡ c ∷ s) × (b'0' ≤ c)) (ltb n 10)
      (λ b. (b'0' + n, [], refl, omega arith))
      (λ b. (c, s ++ ((b'0' + n % 10) ∷ []), ap (λ l. l ++ ((b'0' + n % 10) ∷ [])) e, d))

after_sign_digit :
    (max c : ℕ) (s : List ℕ) → b'0' ≤ c → after_sign max c s ≡ parse_digits max 0 (c ∷ s)
after_sign_digit max c [] h = refl
after_sign_digit max c (d ∷ s) h = ground arith

-- What is printed is read back, within the type.
pub parse_uint-to_string :
    (n max : ℕ) → n ≤ max → max < 2 ^ 64 → parse_uint max (to_string n) ≡ some n
unfolding to_string parse_uint parse_digits
parse_uint-to_string n max m small =
    let (c, s, e, d) = print_digits-cons 19 n in
    rw (e, to_string)
      (after_sign_digit max c s d
        ∙ ap (parse_digits max 0) (sym e ∙ sym (append-nil (print_digits 20 n)))
        ∙ parse-print_digits 20 n max [] (omega arith) m)
