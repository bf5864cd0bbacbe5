-- ===== src/Base/Text.antt =====
-- Rust's `String` as the list of its scalar values, and the functions of `str` that the program
-- calls. `codes` turns a literal into such a list.
use Prim.Native.Char.{code}
use Prim.Native.Nat.{ℕ, ◌+◌, ◌/◌, ◌%◌}
use Prim.Native.String.{String}
use mathlib.Core.Path.{◌≡◌, refl, ap}
use mathlib.Core.Logic.{◌⊎◌, inl, inr}
use mathlib.Core.Bool.{Bool, true, false, ◌&&◌, ◌||◌}
use mathlib.Core.List.{List, [], ◌∷◌, ◌++◌}
use mathlib.Core.Option.{Option, none, some}
use native.Mathlib.Omega.{arith}
use remote_control.Base.Tests.{leb, ltb, nat_beq, nat_beq_iff, Bool-cases, if◌then◌else◌}

abbrev pub codes : String → List ℕ
codes String.[] = []
codes (String.◌∷◌ c s) = code c ∷ codes s

-- `char::len_utf8` and `as_bytes`.
unfoldable pub utf8_char : ℕ → List ℕ
utf8_char c =
    if ltb c 0x80
    then c ∷ []
    else if ltb c 0x800
    then (0xc0 + c / 64) ∷ (0x80 + c % 64) ∷ []
    else if ltb c 0x10000
    then (0xe0 + c / 4096) ∷ (0x80 + c / 64 % 64) ∷ (0x80 + c % 64) ∷ []
    else (0xf0 + c / 262144) ∷ (0x80 + c / 4096 % 64) ∷ (0x80 + c / 64 % 64) ∷ (0x80 + c % 64) ∷ []

unfoldable pub as_bytes : List ℕ → List ℕ
unfolding utf8_char
as_bytes [] = []
as_bytes (c ∷ s) = utf8_char c ++ as_bytes s

-- `rsplit_once`: at the last `c`.
unfoldable pub rsplit_once : ℕ → List ℕ → Option (List ℕ × List ℕ)
rsplit_once c [] = none
rsplit_once c (x ∷ s) = elim (rsplit_once c s) [
  | some (a, b) ↦ some (x ∷ a, b)
  | none ↦ if nat_beq x c then some ([], s) else none
]

-- `split_once`: at the first `c`.
unfoldable pub split_once : ℕ → List ℕ → Option (List ℕ × List ℕ)
split_once c [] = none
split_once c (x ∷ s) =
    if nat_beq x c
    then some ([], s)
    else elim (split_once c s) [ some (a, b) ↦ some (x ∷ a, b) | none ↦ none ]

unfoldable pub strip_prefix : List ℕ → List ℕ → Option (List ℕ)
strip_prefix [] s = some s
strip_prefix (p ∷ ps) [] = none
strip_prefix (p ∷ ps) (x ∷ s) = if nat_beq p x then strip_prefix ps s else none

unfoldable pub starts_with : List ℕ → List ℕ → Bool
unfolding strip_prefix
starts_with p s = elim (strip_prefix p s) [ some r ↦ true | none ↦ false ]

unfoldable pub contains : ℕ → List ℕ → Bool
contains c [] = false
contains c (x ∷ s) = nat_beq x c || contains c s

unfoldable pub to_ascii_lowercase : List ℕ → List ℕ
to_ascii_lowercase [] = []
to_ascii_lowercase (c ∷ s) = (if leb 65 c && leb c 90 then c + 32 else c) ∷ to_ascii_lowercase s

-- `rsplit_once` returns the text around the last `c`, and nothing exactly if there is none.
abbrev pub RsplitOnce : ℕ → List ℕ → Option (List ℕ × List ℕ) → Type 0
RsplitOnce c s r =
    ((r ≡ none) × (contains c s ≡ false))
    ⊎ ((a : List ℕ) × (b : List ℕ) × (r ≡ some (a, b))
        × (s ≡ a ++ (c ∷ b))
        × (contains c b ≡ false))

pub rsplit_once_cases : (c : ℕ) (s : List ℕ) → RsplitOnce c s (rsplit_once c s)
unfolding rsplit_once contains
rsplit_once_cases c [] = inl (refl, refl)
rsplit_once_cases c (x ∷ s) = go (rsplit_once_cases c s)
  where
    go : RsplitOnce c s (rsplit_once c s) → RsplitOnce c (x ∷ s) (rsplit_once c (x ∷ s))
    go (inr (a, b, e, p, q)) = inr (x ∷ a, b, rw (e, rsplit_once) refl, ap (◌∷◌ x) p, q)
    go (inl (e, q)) = elim (Bool-cases (nat_beq x c)) [
      | inl y ↦ inr ([], s, rw (e, rsplit_once) (rw y), ground (arith, nat_beq_iff x c), q)
      | inr n ↦ inl (rw (e, rsplit_once) (rw n), rw n q)
    ]
