-- ===== src/Input/Wheel.antt =====
-- server-pc/src/input.rs: `scroll`.
use remote_control.Base.{ℕ, ◌-◌, ◌^◌, ◌<◌, ◌≡◌, min, ltb, if◌then◌else◌, arith}
use remote_control.Base.Int.{ℤ, pos, negsuc, ◌*ℤ◌}
use remote_control.Input.{wheel_data}

-- Windows reads the number as signed.
abbrev pub as_i32 : ℕ → ℤ
as_i32 x = if ltb x (2 ^ 31) then pos x else negsuc (2 ^ 32 - x - 1)

-- The nearest `i32`.
abbrev pub saturated : ℤ → ℤ
saturated (pos n) = pos (min n (2 ^ 31 - 1))
saturated (negsuc n) = negsuc (min n (2 ^ 31 - 1))

-- For every number of notches, the wheel is turned by 120 times as much in the same direction, or as far
-- as 32 bits allow; the number that is sent has 32 bits.
pub wheel_data_saturates :
    (d : ℤ) → (as_i32 (wheel_data d) ≡ saturated (d *ℤ pos 120)) × (wheel_data d < 2 ^ 32)
unfolding wheel_data ◌*ℤ◌
wheel_data_saturates (pos n) = (ground arith, ground arith)
wheel_data_saturates (negsuc n) = (ground arith, ground arith)
