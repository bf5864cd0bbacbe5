-- ===== src/Hex.antt =====
-- The lowercase hexadecimal printing that server-pc/src/connection.rs (`hex_encode`) and the two
-- copies of `sha256_hex` share.
use remote_control.Base.{
  ℕ, ◌+◌, ◌*◌, ◌/◌, ◌%◌, ◌<◌, ◌≡◌, refl, List, [], ◌∷◌, ltb, if◌then◌else◌, length, arith, All,
}
use remote_control.Base.Bytes.{IsByte}

-- `write!(s, "{b:02x}")` writes two digits for a byte.
hex_digit : ℕ → ℕ
hex_digit d = if ltb d 10 then b'0' + d else 87 + d

unfoldable pub hex_encode : List ℕ → List ℕ
unfolding hex_digit
hex_encode [] = []
hex_encode (b ∷ bytes) = hex_digit (b / 16) ∷ hex_digit (b % 16) ∷ hex_encode bytes

pub length-hex_encode : (bytes : List ℕ) → length (hex_encode bytes) ≡ 2 * length bytes
unfolding hex_encode
length-hex_encode [] = refl
length-hex_encode (b ∷ bytes) = omega (arith, length-hex_encode bytes)

hex_digit_injective : (a b : ℕ) → a < 16 → b < 16 → hex_digit a ≡ hex_digit b → a ≡ b
unfolding hex_digit
hex_digit_injective a b p q e = ground arith

-- Two byte strings are printed alike only if they are equal.
pub hex_encode_injective :
    (xs ys : List ℕ) → All IsByte xs → All IsByte ys → hex_encode xs ≡ hex_encode ys → xs ≡ ys
unfolding hex_encode
hex_encode_injective [] [] hx hy e = refl
hex_encode_injective [] (y ∷ ys) hx hy e = ground arith
hex_encode_injective (x ∷ xs) [] hx hy e = ground arith
hex_encode_injective (x ∷ xs) (y ∷ ys) hx hy e =
    unfold hex_digit in ground (arith, hex_encode_injective xs ys)
