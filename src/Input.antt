-- ===== src/Input.antt =====
-- server-pc/src/input.rs: the events of a call, which are sent one by one. Whether `SendInput` takes the
-- `k`-th event is an argument, and so is the rounding of a coordinate, since it is done in floating point.
pub mod Keys
pub mod Wheel
use remote_control.Base.{
  ℕ, zero, suc, ◌+◌, ◌-◌, ◌*◌, ◌/◌, ◌%◌, ◌^◌, Bool, true, false, ◌||◌, not, List, [], ◌∷◌, ◌++◌,
  Option, none, some, min, ltb, nat_beq, if◌then◌else◌,
}
use remote_control.Base.Int.{ℤ, pos, negsuc}
use remote_control.Protocol.Messages.{MouseButton, left, right, middle}

pub data MouseFlag : Type 0 where
  absolute_move : MouseFlag
  button_down button_up : MouseButton → MouseFlag
  wheel hwheel : MouseFlag

-- A `MOUSEINPUT` (dx, dy, mouseData and dwFlags) or a `KEYBDINPUT` (wVk, wScan, the flags UNICODE and
-- KEYUP).
pub data InputEvent : Type 0 where
  mouse : ℕ → ℕ → ℕ → MouseFlag → InputEvent
  key : ℕ → ℕ → Bool → Bool → InputEvent

-- One after the other, up to the first that fails. The result is the list of those that got through, and
-- whether all did.
unfoldable pub send : (ℕ → Bool) → ℕ → List InputEvent → List InputEvent × Bool
send taken k [] = ([], true)
send taken k (e ∷ es) =
    let rest = send taken (suc k) es in if taken k then (e ∷ rest.0, rest.1) else ([], false)

module _ {ℓ} {F : Type ℓ} (scaled : F → ℕ) (taken : ℕ → Bool) where
  -- `scaled` clamps to 0 and 1 and multiplies by 65535.
  unfoldable pub move_to : F → F → List InputEvent × Bool
  move_to x y = send taken 0 (mouse (scaled x) (scaled y) 0 absolute_move ∷ [])

-- `saturating_mul(120)` on an `i32`, and the cast to `u32` that keeps the bits.
unfoldable pub wheel_data : ℤ → ℕ
wheel_data (pos n) = min (n * 120) (2 ^ 31 - 1)
wheel_data (negsuc n) = 2 ^ 32 - min (suc n * 120) (2 ^ 31)

unfoldable pub is_zero : ℤ → Bool
is_zero (pos n) = nat_beq n 0
is_zero (negsuc n) = false

unfoldable pub wheel_events : ℤ → ℤ → List InputEvent
wheel_events dx dy =
    (if is_zero dy then [] else mouse 0 0 (wheel_data dy) wheel ∷ [])
    ++ (if is_zero dx then [] else mouse 0 0 (wheel_data dx) hwheel ∷ [])

-- `char::encode_utf16`.
unfoldable pub encode_utf16 : ℕ → List ℕ
encode_utf16 c =
    if ltb c 0x10000
    then c ∷ []
    else (0xd800 + (c - 0x10000) / 1024) ∷ (0xdc00 + (c - 0x10000) % 1024) ∷ []

unfoldable pub unit_events : List ℕ → List InputEvent
unit_events [] = []
unit_events (u ∷ us) = key 0 u true false ∷ key 0 u true true ∷ unit_events us

unfoldable pub text_events : List ℕ → List InputEvent
text_events [] = []
text_events (c ∷ text) = unit_events (encode_utf16 c) ++ text_events text

module _ (taken : ℕ → Bool) where
  unfoldable pub button : MouseButton → Bool → List InputEvent × Bool
  button b down = send taken 0 (mouse 0 0 0 (if down then button_down b else button_up b) ∷ [])

  unfoldable pub scroll : ℤ → ℤ → List InputEvent × Bool
  scroll dx dy = send taken 0 (wheel_events dx dy)

  unfoldable pub type_unicode : List ℕ → List InputEvent × Bool
  type_unicode text = send taken 0 (text_events text)

  unfoldable pub vkey : ℕ → Bool → List InputEvent × Bool
  vkey vk down =
      if nat_beq vk 0 || ltb 0xff vk
      then ([], false)
      else send taken 0 (key vk 0 false (not down) ∷ [])
