-- ===== src/Base/Utf8.antt =====
-- The standard library's `str::from_utf8`: a byte string is a `String` when it is well formed
-- UTF-8 (the byte ranges of the Unicode standard, table 3-7).
use Prim.Native.Nat.{ℕ, ◌<◌}
use mathlib.Core.Path.{◌≡◌, refl}
use mathlib.Core.Bool.{Bool, true, false, ◌&&◌, ◌||◌}
use mathlib.Core.List.{List, [], ◌∷◌}
use mathlib.Core.Option.{Option, none, some}
use native.Mathlib.Omega.{arith}
use remote_control.Base.Tests.{leb, ltb, nat_beq, if◌then◌else◌}
use remote_control.Base.Lists.{All}

abbrev pub within : ℕ → ℕ → ℕ → Bool
within lo hi b = leb lo b && leb b hi

abbrev is_tail : ℕ → Bool
is_tail = within 0x80 0xbf

-- The second byte that may follow the leader of three, and of four bytes.
second_of_three : ℕ → ℕ → Bool
second_of_three a b =
    (nat_beq a 0xe0 && within 0xa0 0xbf b)
    || (within 0xe1 0xec a && is_tail b)
    || (nat_beq a 0xed && within 0x80 0x9f b)
    || (within 0xee 0xef a && is_tail b)

second_of_four : ℕ → ℕ → Bool
second_of_four a b =
    (nat_beq a 0xf0 && within 0x90 0xbf b)
    || (within 0xf1 0xf3 a && is_tail b)
    || (nat_beq a 0xf4 && within 0x80 0x8f b)

-- What a scan still has to read of the scalar it is in.
pub data Scan : Type 0 where
  start : Scan
  tails : ℕ → Scan
  three four : ℕ → Scan

-- One byte; `none` where it is not well formed.
scan_byte : Scan → ℕ → Option Scan
scan_byte start b =
    if ltb b 0x80
    then some start
    else if within 0xc2 0xdf b
    then some (tails 0)
    else if within 0xe0 0xef b
    then some (three b)
    else if within 0xf0 0xf4 b
    then some (four b)
    else none
scan_byte (tails n) b =
    if is_tail b then (if nat_beq n 0 then some start else some (tails 0)) else none
scan_byte (three a) b = if second_of_three a b then some (tails 0) else none
scan_byte (four a) b = if second_of_four a b then some (tails 1) else none

is_start : Scan → Bool
is_start start = true
is_start _ = false

scan : Option Scan → List ℕ → Bool
scan none bs = false
scan (some s) [] = is_start s
scan (some s) (b ∷ bs) = scan (scan_byte s b) bs

unfoldable pub is_utf8 : List ℕ → Bool
unfolding scan scan_byte is_start second_of_three second_of_four
is_utf8 bs = scan (some start) bs

unfoldable pub from_utf8 : List ℕ → Option (List ℕ)
from_utf8 bs = if is_utf8 bs then some bs else none

-- ASCII is well formed.
pub is_utf8-ascii : (bs : List ℕ) → All (λ b. b < 128) bs → is_utf8 bs ≡ true
unfolding is_utf8
is_utf8-ascii [] h = refl
is_utf8-ascii (b ∷ bs) h = ground (arith, is_utf8-ascii bs h.1)
