-- ===== src/Tests/Picture.antt =====
-- The colour conversion and the software encoder at a concrete picture.
use remote_control.Base.{ℕ, ◌≡◌, refl, true, false, List, [], ◌∷◌, none, length, All, arith}
use remote_control.Base.Int.{◌+ℤ◌}
use remote_control.Encoder.Mft.{Sample}
use remote_control.Encoder.Nv12.{luma, to_byte, shift_8}
use remote_control.Encoder.Nv12.Range.{IsLuma, IsChroma}
use remote_control.Encoder.Software.Total.{encode-total}
use remote_control.Encoder.Software.{
  SoftwareFrame, gives, need_more_input, inputs, emits, MediaFoundationH264Encoder, encode,
}
use remote_control.Encoder.{ResizeCrate}
use remote_control.Stream.Video.{EncodedPacket}

-- Two by two pixels: black, white, and two of another colour.
abbrev picture : List ℕ
picture = 0 ∷ 0 ∷ 0 ∷ 255 ∷ 255 ∷ 255 ∷ 255 ∷ 255 ∷ 10 ∷ 200 ∷ 30 ∷ 255 ∷ 10 ∷ 200 ∷ 30 ∷ 255 ∷ []

abbrev packet : EncodedPacket
packet = record { bytes = 1 ∷ []; is_keyframe = true; has_config = true }

abbrev captured : SoftwareFrame
captured = record {
  frame = record { width = 2; height = 2; stride = 8; pixels = picture };
  is_bgra8 = true;
  pts_nanos = 1000;
  sample_made = true;
  input_taken = true;
  outputs = gives packet ∷ need_more_input ∷ [];
}

abbrev encoder : MediaFoundationH264Encoder
encoder = record {
  config = record {
    width = 2;
    height = 2;
    fps = 30;
    bitrate_kbps = 1000;
    keyframe_interval_frames = 30;
  };
  resizer = none;
  pending_keyframe = true;
}

abbrev no_scaling : ResizeCrate
no_scaling source w h w' h' = none

encode-total_example :
    (sample : Sample) × (encode no_scaling captured encoder
      ≡ (record encoder { pending_keyframe = false }, inputs sample ∷ emits packet ∷ [], true))
    × (sample.time ≡ 10)
    × (sample.clean_point ≡ true)
    × (length sample.planes.0 ≡ 4)
    × (length sample.planes.1 ≡ 2)
    × All IsLuma sample.planes.0
    × All IsChroma sample.planes.1
encode-total_example =
    encode-total no_scaling 1 1 captured encoder (packet ∷ []) []
      (refl, refl, refl, refl, omega arith, omega arith, ground arith) refl refl refl refl

-- Black and white are the ends of the range.
luma_ends : (luma 0 0 0 ≡ 16) × (luma 255 255 255 ≡ 235)
unfolding luma to_byte ◌+ℤ◌ shift_8
luma_ends = (refl, refl)
