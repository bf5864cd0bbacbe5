-- ===== src/Stream/Audio.antt =====
-- server-pc/src/stream.rs: `run_audio_loop`, and server-pc/src/audio/encoder.rs: the codec header. The
-- samples, the capture and the Opus encoder are arguments.
pub mod Samples
pub mod Header
use remote_control.Base.{
  ℕ, zero, suc, ◌+◌, ◌-◌, ◌*◌, ◌/◌, ◌^◌, Bool, true, false, not, ◌||◌, List, [], ◌∷◌, ◌++◌, Option,
  none, some, length, min, leb, take, drop, replicate, if◌then◌else◌, nat_beq,
}
use remote_control.Base.Bytes.{le_bytes}
use remote_control.Base.Text.{codes}
use remote_control.Protocol.{build_audio_frame}
use remote_control.Protocol.Messages.{AudioMetadata}

-- `build_opus_id_header`: "OpusHead", the version, and the fields in little-endian order.
unfoldable pub build_opus_id_header : ℕ → ℕ → ℕ → List ℕ
build_opus_id_header channels pre_skip sample_rate =
    codes "OpusHead"
    ++ (1
        ∷ channels
        ∷ (le_bytes 2 pre_skip ++ (le_bytes 4 sample_rate ++ (le_bytes 2 0 ++ (0 ∷ [])))))

abbrev pub opus_pre_skip_samples : ℕ
opus_pre_skip_samples = 312

abbrev pub opus_seek_preroll_ns : ℕ
opus_seek_preroll_ns = 80000000

-- What `start_stream` says of the audio, with the padded base64 of the crate of that name.
unfoldable pub audio_metadata : (List ℕ → List ℕ) → AudioMetadata
audio_metadata base64_encode = record {
  codec = "opus";
  sample_rate = 48000;
  channels = 2;
  frame_size_ms = 20;
  bitrate_kbps = 64;
  csd_0_b64 = base64_encode (build_opus_id_header 2 opus_pre_skip_samples 48000);
  csd_1_b64 = base64_encode (le_bytes 8 (opus_pre_skip_samples * 1000000000 / 48000));
  csd_2_b64 = base64_encode (le_bytes 8 opus_seek_preroll_ns);
}

-- The answers of WASAPI while it has packets: a failed call, a silent packet of so many frames, or the
-- samples of one.
pub data CaptureCall {ℓ} (A : Type ℓ) : Type ℓ where
  failed : CaptureCall A
  silent : ℕ → CaptureCall A
  heard : List A → CaptureCall A

-- A pass of the loop: the stop flag, the capture, the time of the stamp of each frame, and whether the
-- channel still has a receiver.
pub record AudioRound {ℓ} (A : Type ℓ) : Type ℓ where
  pub stop : Bool
  pub calls : List (CaptureCall A)
  pub stamps : ℕ → ℕ
  pub open_at : ℕ → Bool

-- `E` is the state of the Opus encoder.
pub record AudioLoop {ℓ} (A : Type ℓ) (E : Type ℓ) : Type ℓ where
  pub pending : List A
  pub encoder : E
  pub running : Bool

-- The frames that were given to the encoder and the messages that were sent.
abbrev pub Done {ℓ} : Type ℓ → Type ℓ → Type ℓ
Done A E = AudioLoop A E × List (List A) × List (List ℕ)

module _ {ℓ} {A : Type ℓ} (silence : A) where
  -- `read_into`: the samples behind those that are there, and whether all calls went well.
  unfoldable pub read_into : List (CaptureCall A) → List A → List A × Bool
  read_into [] out = (out, true)
  read_into (failed ∷ calls) out = (out, false)
  read_into (silent frames ∷ calls) out = read_into calls (out ++ replicate (frames * 2) silence)
  read_into (heard samples ∷ calls) out = read_into calls (out ++ samples)

module _ {ℓ} {A E : Type ℓ} (silence : A) (encode : E → List A → E × Option (List ℕ)) where
  -- A frame is 20 ms of two channels at 48 kHz, 960 * 2 samples.
  -- The `while` over the samples that are there. Each round takes a frame, so their number is enough
  -- fuel. The `k`-th frame of the pass is next.
  unfoldable pub drain : ℕ → AudioRound A → ℕ → AudioLoop A E → Done A E
  drain zero r k w = (w, [], [])
  drain (suc fuel) r k w =
      let frame = take 1920 w.pending in
      let out = encode w.encoder frame in
      let w' = record w { pending = drop 1920 w.pending; encoder = out.0 } in
      let rest = drain fuel r (suc k) w' in
      if leb 1920 (length w.pending)
      then (elim out.1 [
        | none ↦ (record w' { running = false }, frame ∷ [], [])
        | some packet ↦
            if r.open_at k
            then (
              rest.0,
              frame ∷ rest.1,
              build_audio_frame packet (min (r.stamps k / 1000) (2 ^ 64 - 1)) ∷ rest.2,
            )
            else (record w' { running = false }, frame ∷ [], [])
      ])
      else (w, [], [])

  unfoldable pub audio_round : AudioRound A → AudioLoop A E → Done A E
  audio_round r w =
      if r.stop
      then (record w { running = false }, [], [])
      else (let got = read_into silence r.calls w.pending in
          if got.1
          then drain (length got.0) r 0 (record w { pending = got.0 })
          else (record w { pending = got.0; running = false }, [], []))

  unfoldable pub audio_loop : List (AudioRound A) → AudioLoop A E → Done A E
  audio_loop [] w = (w, [], [])
  audio_loop (r ∷ rs) w =
      let first = audio_round r w in
      let rest = audio_loop rs first.0 in
      if w.running then (rest.0, first.1 ++ rest.1, first.2 ++ rest.2) else (w, [], [])

  -- Another format than two channels at 48 kHz switches the audio off.
  unfoldable pub run_audio_loop : ℕ → ℕ → List (AudioRound A) → E → Done A E
  run_audio_loop channels rate rs e =
      let w : AudioLoop A E = record { pending = []; encoder = e; running = true } in
      if not (nat_beq channels 2) || not (nat_beq rate 48000)
      then (record w { running = false }, [], [])
      else audio_loop rs w
