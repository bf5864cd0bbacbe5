-- ===== src/QrServer/Percent.antt =====
-- server-pc/src/qr_server.rs: `percent_decode`. Texts are the bytes of their UTF-8 here, and the lossy
-- conversion of the standard library is an argument.
use remote_control.Base.{
  ℕ, ◌+◌, ◌-◌, ◌*◌, ◌&&◌, List, [], ◌∷◌, Option, none, some, leb, nat_beq, if◌then◌else◌,
}

unfoldable pub hex_value : ℕ → Option ℕ
hex_value c =
    if leb b'0' c && leb c b'9'
    then some (c - b'0')
    else if leb b'a' c && leb c b'f'
    then some (c - b'a' + 10)
    else if leb b'A' c && leb c b'F'
    then some (c - b'A' + 10)
    else none

-- `u8::from_str_radix(h, 16)` on two bytes: a `+` may stand in the place of the first digit.
unfoldable pub from_hex_pair : ℕ → ℕ → Option ℕ
from_hex_pair a b = elim (hex_value b) [
  | none ↦ none
  | some low ↦
      if nat_beq a b'+'
      then some low
      else elim (hex_value a) [ none ↦ none | some high ↦ some (high * 16 + low) ]
]

-- The bytes before the conversion to text. A triplet that is malformed is passed on.
unfoldable pub decode_triplets : List ℕ → List ℕ
decode_triplets [] = []
decode_triplets (a ∷ []) = a ∷ []
decode_triplets (a ∷ b ∷ []) = a ∷ b ∷ []
decode_triplets (a ∷ b ∷ c ∷ s) =
    let plain = a ∷ decode_triplets (b ∷ c ∷ s) in
    let rest = decode_triplets s in
    if nat_beq a b'%' then elim (from_hex_pair b c) [ none ↦ plain | some v ↦ v ∷ rest ] else plain

unfoldable pub percent_decode : (List ℕ → List ℕ) → List ℕ → List ℕ
percent_decode from_utf8_lossy s = from_utf8_lossy (decode_triplets s)
