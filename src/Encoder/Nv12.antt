-- ===== src/Encoder/Nv12.antt =====
-- server-pc/src/encoder/common.rs: `bgra_to_nv12`. A slice or an index out of range panics, which is
-- `none` here. The planes are what the loops write, row by row.
pub mod Range
pub mod Total
use remote_control.Base.{
  ℕ, zero, suc, ◌+◌, ◌-◌, ◌*◌, ◌/◌, ◌%◌, ◌≤◌, Bool, true, false, List, [], ◌∷◌, ◌++◌, Option, none,
  some, ltb, leb, if◌then◌else◌, take, drop, length,
}
use remote_control.Base.Int.{ℤ, pos, negsuc, ◌+ℤ◌, ◌-ℤ◌, ltb_ℤ}

-- `>> 8` on an `i32` rounds down.
unfoldable pub shift_8 : ℤ → ℤ
shift_8 (pos n) = pos (n / 256)
shift_8 (negsuc n) = negsuc (n / 256)

-- `clamp(0, 255) as u8`.
unfoldable pub to_byte : ℤ → ℕ
to_byte (pos n) = if ltb 255 n then 255 else n
to_byte (negsuc n) = 0

unfoldable pub luma : ℕ → ℕ → ℕ → ℕ
luma b g r = to_byte (shift_8 (pos (66 * r + 129 * g + 25 * b + 128)) +ℤ pos 16)

unfoldable pub chroma_u : ℕ → ℕ → ℕ → ℕ
chroma_u b g r = to_byte (shift_8 (pos (112 * b + 128) -ℤ pos (38 * r + 74 * g)) +ℤ pos 128)

unfoldable pub chroma_v : ℕ → ℕ → ℕ → ℕ
chroma_v b g r = to_byte (shift_8 (pos (112 * r + 128) -ℤ pos (94 * g + 18 * b)) +ℤ pos 128)

-- `&bytes[from..from + len]`.
unfoldable pub slice : List ℕ → ℕ → ℕ → Option (List ℕ)
slice bytes from len =
    if leb (from + len) (length bytes) then some (take len (drop from bytes)) else none

unfoldable pub luma_row : ℕ → List ℕ → Option (List ℕ)
luma_row zero row = some []
luma_row (suc w) (b ∷ g ∷ r ∷ a ∷ row) = elim (luma_row w row) [
  | none ↦ none
  | some ys ↦ some (luma b g r ∷ ys)
]
luma_row (suc w) _ = none

-- The rows from `y` on, `k` of them.
unfoldable pub luma_rows : ℕ → List ℕ → ℕ → ℕ → ℕ → Option (List ℕ)
luma_rows zero bgra stride w y = some []
luma_rows (suc k) bgra stride w y = elim (slice bgra (y * stride) (w * 4)) [
  | none ↦ none
  | some row ↦ elim (luma_row w row) [
    | none ↦ none
    | some ys ↦ elim (luma_rows k bgra stride w (suc y)) [
      | none ↦ none
      | some rest ↦ some (ys ++ rest)
    ]
  ]
]

-- Two pixels of two rows at a time. An odd width runs out of the row.
unfoldable pub chroma_row : ℕ → List ℕ → List ℕ → Option (List ℕ)
chroma_row zero r0 r1 = some []
chroma_row (suc (suc w)) (b0 ∷ g0 ∷ d0 ∷ a0 ∷ b1 ∷ g1 ∷ d1 ∷ a1 ∷ r0)
      (b2 ∷ g2 ∷ d2 ∷ a2 ∷ b3 ∷ g3 ∷ d3 ∷ a3 ∷ r1) =
    let b = (b0 + b1 + b2 + b3) / 4 in
    let g = (g0 + g1 + g2 + g3) / 4 in
    let r = (d0 + d1 + d2 + d3) / 4 in
    elim (chroma_row w r0 r1) [
      | none ↦ none
      | some uvs ↦ some (chroma_u b g r ∷ chroma_v b g r ∷ uvs)
    ]
chroma_row _ r0 r1 = none

-- `(0..h).step_by(2)`: the rows `y` and `y + 1`, and so on, in `k` rounds. `uv_len` is the length of the
-- plane that is left in `out`.
unfoldable pub chroma_rows : ℕ → List ℕ → ℕ → ℕ → ℕ → ℕ → Option (List ℕ)
chroma_rows zero bgra stride w uv_len y = some []
chroma_rows (suc k) bgra stride w uv_len y =
    let rest = chroma_rows k bgra stride w uv_len (y + 2) in
    elim (slice bgra (y * stride) (w * 4)) [
      | none ↦ none
      | some r0 ↦ elim (slice bgra ((y + 1) * stride) (w * 4)) [
        | none ↦ none
        | some r1 ↦
            if leb (y / 2 * w + w) uv_len
            then elim (chroma_row w r0 r1) [
              | none ↦ none
              | some uvs ↦ elim rest [ none ↦ none | some more ↦ some (uvs ++ more) ]
            ]
            else none
      ]
    ]

-- The Y plane and the written part of the UV plane. `split_at_mut` panics if `out` is too
-- short. The assertion on the length of `out` is one of debug builds only.
unfoldable pub bgra_to_nv12 : List ℕ → ℕ → ℕ → ℕ → ℕ → Option (List ℕ × List ℕ)
bgra_to_nv12 bgra stride w h out_len =
    if leb (w * h) out_len
    then elim (luma_rows h bgra stride w 0) [
      | none ↦ none
      | some ys ↦ elim (chroma_rows ((h + 1) / 2) bgra stride w (out_len - w * h) 0) [
        | none ↦ none
        | some uvs ↦ some (ys, uvs)
      ]
    ]
    else none
