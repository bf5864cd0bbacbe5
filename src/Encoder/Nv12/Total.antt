-- ===== src/Encoder/Nv12/Total.antt =====
-- server-pc/src/encoder/common.rs: `bgra_to_nv12` stays within its buffers.
use remote_control.Base.{
  ℕ, zero, suc, ◌+◌, ◌-◌, ◌*◌, ◌/◌, ◌≤◌, ◌≡◌, refl, List, [], ◌∷◌, ◌++◌, some, true, leb, All,
  All-append, take, drop, length, length-take, length-drop, length-append, arith,
}
use remote_control.Base.Bytes.{IsByte}
use remote_control.Encoder.Nv12.{
  luma, chroma_u, chroma_v, slice, luma_row, luma_rows, chroma_row, chroma_rows, bgra_to_nv12,
}
use remote_control.Encoder.Nv12.Range.{
  IsLuma, IsChroma, luma-IsLuma, chroma_u-IsChroma, chroma_v-IsChroma,
}

All-take : (n : ℕ) (xs : List ℕ) → All IsByte xs → All IsByte (take n xs)
All-take zero xs h = tt
All-take (suc n) [] h = tt
All-take (suc n) (x ∷ xs) h = (h.0, All-take n xs h.1)

All-drop : (n : ℕ) (xs : List ℕ) → All IsByte xs → All IsByte (drop n xs)
All-drop zero xs h = h
All-drop (suc n) [] h = tt
All-drop (suc n) (x ∷ xs) h = All-drop n xs h.1

abbrev Row : ℕ → List ℕ → Type 0
Row w row = (length row ≡ w * 4) × All IsByte row

slice-Row :
    (bytes : List ℕ) (from w : ℕ)
    → from + w * 4 ≤ length bytes
    → All IsByte bytes
    → (row : List ℕ) × (slice bytes from (w * 4) ≡ some row) × Row w row
unfolding slice
slice-Row bytes from w fits h = (
  take (w * 4) (drop from bytes),
  ground arith,
  (
    omega (arith, length-take (w * 4) (drop from bytes), length-drop from bytes),
    All-take (w * 4) (drop from bytes) (All-drop from bytes h),
  ),
)

luma_row-total :
    (w : ℕ) (row : List ℕ)
    → Row w row
    → (ys : List ℕ) × (luma_row w row ≡ some ys) × (length ys ≡ w) × All IsLuma ys
unfolding luma_row
luma_row-total zero row h = ([], refl, refl, tt)
luma_row-total (suc w) (b ∷ g ∷ r ∷ a ∷ row) ((e, (hb, (hg, (hr, (ha, h)))))) =
    let (ys, eq, len, all) = luma_row-total w row (omega arith, h) in
    (luma b g r ∷ ys, rw (eq) refl, omega arith, (luma-IsLuma b g r hb hg hr, all))
luma_row-total (suc w) [] h = absurd (omega arith)
luma_row-total (suc w) (b ∷ []) h = absurd (omega arith)
luma_row-total (suc w) (b ∷ g ∷ []) h = absurd (omega arith)
luma_row-total (suc w) (b ∷ g ∷ r ∷ []) h = absurd (omega arith)

chroma_row-total :
    (w m : ℕ) (r0 r1 : List ℕ)
    → w ≡ 2 * m
    → Row w r0
    → Row w r1
    → (uvs : List ℕ) × (chroma_row w r0 r1 ≡ some uvs) × (length uvs ≡ w) × All IsChroma uvs
unfolding chroma_row
chroma_row-total zero m r0 r1 e h0 h1 = ([], refl, refl, tt)
chroma_row-total (suc zero) m r0 r1 e h0 h1 = absurd (omega arith)
chroma_row-total (suc (suc w)) m (b0 ∷ g0 ∷ d0 ∷ a0 ∷ b1 ∷ g1 ∷ d1 ∷ a1 ∷ r0)
      (b2 ∷ g2 ∷ d2 ∷ a2 ∷ b3 ∷ g3 ∷ d3 ∷ a3 ∷ r1) e h0 h1 =
    let (uvs, eq, len, all) =
      chroma_row-total w (m - 1) r0 r1 (omega arith) (omega arith, h0.1.1.1.1.1.1.1.1.1)
        (omega arith, h1.1.1.1.1.1.1.1.1.1) in
    let b : ℕ = (b0 + b1 + b2 + b3) / 4 in
    let g : ℕ = (g0 + g1 + g2 + g3) / 4 in
    let r : ℕ = (d0 + d1 + d2 + d3) / 4 in
    (
      chroma_u b g r ∷ chroma_v b g r ∷ uvs,
      rw (eq) refl,
      omega arith,
      (
        chroma_u-IsChroma b g r (ground arith) (ground arith) (ground arith),
        (chroma_v-IsChroma b g r (ground arith) (ground arith) (ground arith), all),
      ),
    )
chroma_row-total (suc (suc w)) m r0 r1 e h0 h1 = absurd (omega arith)

leb-true : (a b : ℕ) → a ≤ b → leb a b ≡ true
leb-true a b h = ground arith

module _ (bgra : List ℕ) (stride w : ℕ) where
  luma_rows-step :
      (k y : ℕ) (row ys rest : List ℕ)
      → slice bgra (y * stride) (w * 4) ≡ some row
      → luma_row w row ≡ some ys
      → luma_rows k bgra stride w (suc y) ≡ some rest
      → luma_rows (suc k) bgra stride w y ≡ some (ys ++ rest)
  unfolding luma_rows
  luma_rows-step k y row ys rest a b c = rw (a, luma_rows) (rw (b) (rw (c) refl))

  chroma_rows-step :
      (k y uv_len : ℕ) (r0 r1 uvs rest : List ℕ)
      → slice bgra (y * stride) (w * 4) ≡ some r0
      → slice bgra ((y + 1) * stride) (w * 4) ≡ some r1
      → y / 2 * w + w ≤ uv_len
      → chroma_row w r0 r1 ≡ some uvs
      → chroma_rows k bgra stride w uv_len (y + 2) ≡ some rest
      → chroma_rows (suc k) bgra stride w uv_len y ≡ some (uvs ++ rest)
  unfolding chroma_rows
  chroma_rows-step k y uv_len r0 r1 uvs rest a b fits c d =
      rw (a, chroma_rows)
        (rw (b) (rw (leb-true (y / 2 * w + w) uv_len fits) (rw (c) (rw (d) refl))))

  nv12-step :
      (h out_len : ℕ) (ys uvs : List ℕ)
      → w * h ≤ out_len
      → luma_rows h bgra stride w 0 ≡ some ys
      → chroma_rows ((h + 1) / 2) bgra stride w (out_len - w * h) 0 ≡ some uvs
      → bgra_to_nv12 bgra stride w h out_len ≡ some (ys, uvs)
  unfolding bgra_to_nv12
  nv12-step h out_len ys uvs fits a b =
      rw (leb-true (w * h) out_len fits, bgra_to_nv12) (rw (a) (rw (b) refl))

module _ (bgra : List ℕ) (stride w : ℕ) (bytes : All IsByte bgra) (fits : w * 4 ≤ stride) where
  luma_rows-total :
      (k y : ℕ)
      → y * stride + k * stride ≤ length bgra
      → (ys : List ℕ) × (luma_rows k bgra stride w y ≡ some ys)
        × (length ys ≡ w * k)
        × All IsLuma ys
  unfolding luma_rows
  luma_rows-total zero y h = ([], refl, omega arith, tt)
  luma_rows-total (suc k) y h =
      let (row, cut, ok) = slice-Row bgra (y * stride) w (omega arith) bytes in
      let (ys, eq, len, all) = luma_row-total w row ok in
      let (rest, more, len', all') = luma_rows-total k (suc y) (omega arith) in
      (
        ys ++ rest,
        luma_rows-step bgra stride w k y row ys rest cut eq more,
        omega (arith, length-append ys rest),
        All-append IsLuma ys rest all all',
      )

  chroma_rows-total :
      (m k y uv_len : ℕ)
      → w ≡ 2 * m
      → 2 * y * stride + 2 * k * stride ≤ length bgra
      → y * w + k * w ≤ uv_len
      → (uvs : List ℕ) × (chroma_rows k bgra stride w uv_len (2 * y) ≡ some uvs)
        × (length uvs ≡ w * k)
        × All IsChroma uvs
  unfolding chroma_rows
  chroma_rows-total m zero y uv_len even h room = ([], refl, omega arith, tt)
  chroma_rows-total m (suc k) y uv_len even h room =
      let (r0, cut0, ok0) = slice-Row bgra (2 * y * stride) w (omega arith) bytes in
      let (r1, cut1, ok1) = slice-Row bgra ((2 * y + 1) * stride) w (omega arith) bytes in
      let (uvs, eq, len, all) = chroma_row-total w m r0 r1 even ok0 ok1 in
      let (rest, more, len', all') =
        chroma_rows-total m k (suc y) uv_len even (omega arith) (omega arith) in
      let next : 2 * suc y ≡ 2 * y + 2 = omega arith in
      let half : 2 * y / 2 ≡ y = omega arith in
      (
        uvs ++ rest,
        chroma_rows-step bgra stride w k (2 * y) uv_len r0 r1 uvs rest cut0 cut1
            (rw (half) (omega arith)) eq (rw (← next) more),
        omega (arith, length-append uvs rest),
        All-append IsChroma uvs rest all all',
      )

-- For a picture of even width and height, whose rows lie in the input with a stride of at least the
-- width, and an output of the size that NV12 needs: the conversion reads and writes within its buffers,
-- fills both planes, and every value is in the limited range, 16 to 235 for Y and 16 to 240 for U and V.
pub bgra_to_nv12-total :
    (m n stride out_len : ℕ) (bgra : List ℕ)
    → All IsByte bgra
    → 2 * m * 4 ≤ stride
    → 2 * n * stride ≤ length bgra
    → 2 * m * (2 * n) + 2 * m * n ≤ out_len
    → (ys : List ℕ) × (uvs : List ℕ) × (bgra_to_nv12 bgra stride (2 * m) (2 * n) out_len
        ≡ some (ys, uvs))
      × (length ys ≡ 2 * m * (2 * n))
      × (length uvs ≡ 2 * m * n)
      × All IsLuma ys
      × All IsChroma uvs
unfolding bgra_to_nv12
bgra_to_nv12-total m n stride out_len bgra bytes fits covers room =
    let w : ℕ = 2 * m in
    let (ys, eq, len, all) = luma_rows-total bgra stride w bytes fits (2 * n) 0 (omega arith) in
    let (uvs, eq', len', all') =
      chroma_rows-total bgra stride w bytes fits m n 0 (out_len - w * (2 * n)) refl (omega arith)
        (omega arith) in
    let rounds : (2 * n + 1) / 2 ≡ n = omega arith in
    (
      ys,
      uvs,
      nv12-step bgra stride w (2 * n) out_len ys uvs (omega arith) eq (rw (rounds) eq'),
      len,
      len',
      all,
      all',
    )
