-- ===== src/Stream/Audio/Header.antt =====
-- server-pc/src/audio/encoder.rs: the codec header.
use remote_control.Base.{ℕ, ◌<◌, ◌^◌, ◌≡◌, refl, length, take, drop, get_or, arith}
use remote_control.Base.Bytes.{of_le_bytes, le_bytes}
use remote_control.Base.Text.{codes}
use remote_control.Stream.Audio.{build_opus_id_header}

-- The header has 19 bytes, and every field is read back from its place in the documented layout.
pub opus_header_fields :
    (channels pre_skip rate : ℕ)
    → pre_skip < 2 ^ 16
    → rate < 2 ^ 32
    → (length (build_opus_id_header channels pre_skip rate) ≡ 19)
      × (take 8 (build_opus_id_header channels pre_skip rate) ≡ codes "OpusHead")
      × (get_or (build_opus_id_header channels pre_skip rate) 9 0 ≡ channels)
      × (of_le_bytes (take 2 (drop 10 (build_opus_id_header channels pre_skip rate))) ≡ pre_skip)
      × (of_le_bytes (take 4 (drop 12 (build_opus_id_header channels pre_skip rate))) ≡ rate)
unfolding build_opus_id_header le_bytes of_le_bytes
opus_header_fields c p r hp hr = (refl, refl, refl, ground arith, ground arith)
