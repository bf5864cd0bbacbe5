-- ===== src/Encoder/Nv12/Range.antt =====
-- server-pc/src/encoder/common.rs: the values that `bgra_to_nv12` computes.
use remote_control.Base.{ℕ, ◌≤◌, arith}
use remote_control.Base.Bytes.{IsByte}
use remote_control.Base.Int.{◌+ℤ◌, ◌-ℤ◌}
use remote_control.Encoder.Nv12.{shift_8, to_byte, luma, chroma_u, chroma_v}

-- The limited range of BT.601.
abbrev pub IsLuma : ℕ → Type 0
IsLuma y = (16 ≤ y) × (y ≤ 235)

abbrev pub IsChroma : ℕ → Type 0
IsChroma c = (16 ≤ c) × (c ≤ 240)

pub luma-IsLuma : (b g r : ℕ) → IsByte b → IsByte g → IsByte r → IsLuma (luma b g r)
unfolding luma to_byte shift_8 ◌+ℤ◌
luma-IsLuma b g r hb hg hr = ground arith

pub chroma_u-IsChroma : (b g r : ℕ) → IsByte b → IsByte g → IsByte r → IsChroma (chroma_u b g r)
unfolding chroma_u to_byte shift_8 ◌+ℤ◌ ◌-ℤ◌
chroma_u-IsChroma b g r hb hg hr = ground arith

pub chroma_v-IsChroma : (b g r : ℕ) → IsByte b → IsByte g → IsByte r → IsChroma (chroma_v b g r)
unfolding chroma_v to_byte shift_8 ◌+ℤ◌ ◌-ℤ◌
chroma_v-IsChroma b g r hb hg hr = ground arith
