-- ===== src/Encoder/Software/Total.antt =====
-- server-pc/src/encoder/mf_h264.rs: a frame of the right size is encoded.
use remote_control.Base.{
  ℕ, ◌+◌, ◌*◌, ◌/◌, ◌%◌, ◌^◌, ◌≤◌, ◌≡◌, refl, true, false, List, [], ◌∷◌, ◌++◌, Option, some,
  length, All, arith, ap, ◌∙◌, map, nat_eq,
}
use remote_control.Base.Bytes.{IsByte}
use remote_control.Encoder.Mft.{Sample}
use remote_control.Encoder.Nv12.Range.{IsLuma, IsChroma}
use remote_control.Encoder.Nv12.Total.{bgra_to_nv12-total}
use remote_control.Encoder.Nv12.{bgra_to_nv12}
use remote_control.Encoder.Software.{
  SoftwareFrame, OutputAnswer, gives, need_more_input, inputs, emits, MediaFoundationH264Encoder,
  drain_output, input_sample, process_sample, encode,
}
use remote_control.Encoder.{BgraResizer, CapturedFrame, ResizeCrate, frame_to_nv12}
use remote_control.Stream.Video.{EncodedPacket}

drain_output-gives :
    (packets : List EncodedPacket) (later : List OutputAnswer)
    → drain_output (map gives packets ++ (need_more_input ∷ later)) ≡ (map emits packets, true)
unfolding drain_output
drain_output-gives [] later = refl
drain_output-gives (p ∷ packets) later = rw (drain_output-gives packets later) refl

-- The captured frame has the even size of the encoder, and its rows lie in its bytes.
abbrev pub Fits : ℕ → ℕ → CapturedFrame → MediaFoundationH264Encoder → Type 0
Fits m n frame e =
    (e.config.width ≡ 2 * m)
    × (e.config.height ≡ 2 * n)
    × (frame.width ≡ 2 * m)
    × (frame.height ≡ 2 * n)
    × (2 * m * 4 ≤ frame.stride)
    × (2 * n * frame.stride ≤ length frame.pixels)
    × All IsByte frame.pixels

same_size :
    (resize : ResizeCrate) (r : Option BgraResizer) (frame : CapturedFrame) (w h out_len : ℕ)
    → frame.width ≡ w
    → frame.height ≡ h
    → frame_to_nv12 resize r frame w h out_len
      ≡ (r, bgra_to_nv12 frame.pixels frame.stride w h out_len)
unfolding frame_to_nv12
same_size resize r frame w h out_len ew eh = ground arith

buffer_fits : (m n : ℕ) → 2 * m * (2 * n) + 2 * m * n ≤ 2 * m * (2 * n) * 3 / 2
buffer_fits m n = grind arith

converts :
    (resize : ResizeCrate) (m n : ℕ) (frame : CapturedFrame) (e : MediaFoundationH264Encoder)
    → Fits m n frame e
    → (ys : List ℕ) × (uvs : List ℕ) × (frame_to_nv12 resize e.resizer frame e.config.width
          e.config.height
          (e.config.width * e.config.height * 3 / 2)
        ≡ (e.resizer, some (ys, uvs)))
      × (length ys ≡ 2 * m * (2 * n))
      × (length uvs ≡ 2 * m * n)
      × All IsLuma ys
      × All IsChroma uvs
converts resize m n frame e (w, h, fw, fh, stride, rows, bytes) =
    let c = e.config in
    let out_len = 2 * m * (2 * n) * 3 / 2 in
    let (ys, uvs, done, ly, lu, ry, ru) =
      bgra_to_nv12-total m n frame.stride out_len frame.pixels bytes stride rows
        (buffer_fits m n) in
    (
      ys,
      uvs,
      ap (λ k. frame_to_nv12 resize e.resizer frame k c.height (k * c.height * 3 / 2)) w
          ∙ ap (λ k. frame_to_nv12 resize e.resizer frame (2 * m) k (2 * m * k * 3 / 2)) h
          ∙ same_size resize e.resizer frame (2 * m) (2 * n) out_len fw fh
          ∙ ap (λ o. (e.resizer, o)) done,
      ly,
      lu,
      ry,
      ru,
    )

-- Where the captured frame has the size of the encoder, which is even, and its rows lie in its bytes, and
-- where the calls of Media Foundation succeed: `encode` succeeds, hands over one sample with the time of
-- the frame in units of 100 ns, cast to 64 bits, and both planes in full, in the limited range of values, marked as a keyframe if one was
-- asked for, and puts out the packets that come, in order; the request is served by it.
pub encode-total :
    (resize : ResizeCrate) (m n : ℕ) (f : SoftwareFrame) (e : MediaFoundationH264Encoder)
    (packets : List EncodedPacket) (later : List OutputAnswer)
    → Fits m n f.frame e
    → f.is_bgra8 ≡ true
    → f.sample_made ≡ true
    → f.input_taken ≡ true
    → f.outputs ≡ map gives packets ++ (need_more_input ∷ later)
    → (sample : Sample) × (encode resize f e
        ≡ (record e { pending_keyframe = false }, inputs sample ∷ map emits packets, true))
      × (sample.time ≡ f.pts_nanos / 100 % 2 ^ 64)
      × (sample.clean_point ≡ e.pending_keyframe)
      × (length sample.planes.0 ≡ 2 * m * (2 * n))
      × (length sample.planes.1 ≡ 2 * m * n)
      × All IsLuma sample.planes.0
      × All IsChroma sample.planes.1
unfolding encode process_sample input_sample
encode-total resize m n f e packets later fits bgra made taken outs =
    let (ys, uvs, done, ly, lu, ry, ru) = converts resize m n f.frame e fits in
    let drained : drain_output f.outputs ≡ (map emits packets, true) =
      ap drain_output outs ∙ drain_output-gives packets later in
    (
      input_sample f (ys, uvs) e,
      rw (done, encode)
          (rw (bgra) (
            rw (made) (
              rw (drained, process_sample)
                (rw (taken) (
                  ap
                    (λ r. (
                      record e { resizer = r; pending_keyframe = false },
                      inputs (input_sample f (ys, uvs) (record e { resizer = r }))
                          ∷ map emits packets,
                      true,
                    ))
                    (ap (λ o. o.0) done)))))),
      refl,
      refl,
      ly,
      lu,
      ry,
      ru,
    )
