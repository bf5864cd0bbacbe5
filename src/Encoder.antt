-- ===== src/Encoder.antt =====
-- server-pc/src/encoder/common.rs and resize.rs: a captured frame becomes the input of an encoder. What
-- the `fast_image_resize` crate computes is an argument.
pub mod Nv12
pub mod Sdk
pub mod Mft
pub mod Software
use remote_control.Base.{
  ℕ, zero, suc, ◌+◌, ◌-◌, ◌*◌, Bool, ◌&&◌, List, [], ◌∷◌, ◌++◌, Option, none, some, ◌==◌, nat_eq,
  if◌then◌else◌,
}
use remote_control.Encoder.Nv12.{slice, bgra_to_nv12}

-- The format and the time stamp are not read here.
pub record CapturedFrame : Type 0 where
  pub width : ℕ
  pub height : ℕ
  pub stride : ℕ
  pub pixels : List ℕ

-- A `BgraResizer` is made for one source size.
pub record BgraResizer : Type 0 where
  pub src_w : ℕ
  pub src_h : ℕ

-- The rows from `y` on, without their padding.
unfoldable pub pack_rows : ℕ → List ℕ → ℕ → ℕ → ℕ → Option (List ℕ)
pack_rows zero src src_stride row_bytes y = some []
pack_rows (suc k) src src_stride row_bytes y = elim (slice src (y * src_stride) row_bytes) [
  | none ↦ none
  | some row ↦ elim (pack_rows k src src_stride row_bytes (suc y)) [
    | none ↦ none
    | some rest ↦ some (row ++ rest)
  ]
]

-- The packed source, its size and the target size; `none` where it returns an error.
abbrev pub ResizeCrate : Type 0
ResizeCrate = List ℕ → ℕ → ℕ → ℕ → ℕ → Option (List ℕ)

unfoldable pub resize_into : ResizeCrate → BgraResizer → List ℕ → ℕ → ℕ → ℕ → Option (List ℕ)
resize_into resize r src src_stride dst_w dst_h =
    elim (pack_rows r.src_h src src_stride (r.src_w * 4) 0) [
      | none ↦ none
      | some packed ↦ resize packed r.src_w r.src_h dst_w dst_h
    ]

-- The resizer is made for the first frame that needs one, and kept.
unfoldable pub resizer_for : Option BgraResizer → CapturedFrame → BgraResizer
resizer_for none frame = record { src_w = frame.width; src_h = frame.height }
resizer_for (some r) frame = r

-- The resizer after the call, and the planes; `none` for an error or a panic. The buffer of the resized
-- picture is written in full before it is read, so it is no part of the state.
unfoldable pub frame_to_nv12 :
    ResizeCrate
    → Option BgraResizer
    → CapturedFrame
    → ℕ
    → ℕ
    → ℕ
    → Option BgraResizer × Option (List ℕ × List ℕ)
frame_to_nv12 resize resizer frame target_w target_h out_len =
    if frame.width == target_w && frame.height == target_h
    then (resizer, bgra_to_nv12 frame.pixels frame.stride target_w target_h out_len)
    else (let r = resizer_for resizer frame in
        (
          some r,
          elim (resize_into resize r frame.pixels frame.stride target_w target_h) [
            | none ↦ none
            | some resized ↦ bgra_to_nv12 resized (target_w * 4) target_w target_h out_len
          ],
        ))
