-- ===== src/Tests/Streams.antt =====
-- The worker loops of a stream and its encoders, at concrete inputs.
use remote_control.Base.{
  ℕ, ◌≡◌, refl, ◌<◌, ◌⊎◌, true, false, List, [], ◌∷◌, ◌++◌, Option, none, some, All, length, map,
  replicate, arith, nat_beq, suc, Bool,
}
use remote_control.Encoder.Mft.Samples.{samples_in_order, queued, handed}
use remote_control.Encoder.Mft.{MftFrame, NvencMftEncoder, need_input, have_output, encodes, Use}
use remote_control.Encoder.Mft
use remote_control.Encoder.Sdk.Discipline.{calls_in_order, held_after, nothing}
use remote_control.Encoder.Sdk.Keyframes.{keyframe_forced_once, forced}
use remote_control.Encoder.Sdk.{
  Answers, accepted, need_more_input, signalled, timed_out, idr, new_encoder, keyframe, frame,
  use_all,
}
use remote_control.Encoder.{ResizeCrate}
use remote_control.Stream.Audio.Samples.{audio_samples_in_order, all_samples, concat, Carry}
use remote_control.Stream.Audio.{AudioRound, run_audio_loop, silent, heard}
use remote_control.Stream.Video.Delivery.{
  video_frames_in_order, packets_taken, frames_sent, CarryAll,
}
use remote_control.Stream.Video.Pace.{video_pacing, Paced}
use remote_control.Stream.Video.Requests.{keyframe_request_served, AskedFirst}
use remote_control.Stream.Video.{
  EncodedPacket, Round, encoded, pushed, Event, passes, keyframe_requested, VideoLoop,
  new_video_loop, run_video_loop, forces_keyframe, captures, Action,
}
use remote_control.Stream.{gpu_sdk, cpu_mft_h264}

abbrev packet : EncodedPacket
packet = record { bytes = 1 ∷ 2 ∷ []; is_keyframe = true; has_config = true }

abbrev first_only : ℕ → Bool
first_only n = nat_beq n 0

-- A frame of two packets at 5 ms; the receiver is gone with the second one.
abbrev at_5_ms : Round
at_5_ms = record {
  now = 5000000;
  cpu = encoded (packet ∷ packet ∷ []);
  sdk = pushed 2 (packet ∷ packet ∷ []);
  after = 6000000;
  stamps = λ k. 6000000;
  open_at = first_only;
}

-- A frame at 20 ms, which is early for a frame every 33 ms.
abbrev at_20_ms : Round
at_20_ms = record at_5_ms { now = 20000000; open_at = λ k. true }

abbrev busy : List Event
busy = passes at_20_ms ∷ keyframe_requested ∷ passes at_5_ms ∷ passes at_20_ms ∷ []

video_pacing_example :
    Paced 33000000 5000000 0 (run_video_loop 33000000 busy (new_video_loop gpu_sdk 5000000)).1
video_pacing_example = video_pacing 33000000 5000000 gpu_sdk busy

video_frames_in_order_example :
    let (w', acts) = run_video_loop 33000000 busy (new_video_loop cpu_mft_h264 5000000) in
    (done : List EncodedPacket) × (unsent : List EncodedPacket) × (packets_taken acts
      ≡ done ++ unsent)
    × CarryAll (frames_sent acts) done
    × ((w'.running ≡ false) ⊎ (unsent ≡ []))
video_frames_in_order_example =
    video_frames_in_order 33000000 busy (new_video_loop cpu_mft_h264 5000000)

abbrev started : VideoLoop
started = new_video_loop gpu_sdk 5000000

keyframe_request_served_example :
    AskedFirst (run_video_loop 33000000 (keyframe_requested ∷ busy) started).1
    × ((rest : List Action) × ((run_video_loop 33000000
            (keyframe_requested ∷ passes at_5_ms ∷ busy)
            started).1
          ≡ forces_keyframe ∷ captures 5000000 ∷ rest))
unfolding new_video_loop
keyframe_request_served_example =
    keyframe_request_served 33000000 started busy at_5_ms refl refl (omega arith)

-- An encoder that counts its frames and gives their number.
abbrev counting : ℕ → List ℕ → ℕ × Option (List ℕ)
counting n samples = (suc n, some (n ∷ []))

abbrev sounds : List (AudioRound ℕ)
sounds =
    record {
      stop = false;
      calls = silent 970 ∷ heard (7 ∷ 8 ∷ []) ∷ [];
      stamps = λ k. 0;
      open_at = λ k. true;
    }
    ∷ []

audio_samples_in_order_example :
    let (w, fs, ms) = run_audio_loop 0 counting 2 48000 sounds 0 in
    (rest : List ℕ) × (all_samples 0 sounds ≡ concat fs ++ rest)
    × All (λ f. length f ≡ 1920) fs
    × Carry 0 counting 0 fs ms
    × ((w.running ≡ false) ⊎ ((rest ≡ w.pending) × (length rest < 1920) × (length fs ≡ length ms)))
audio_samples_in_order_example = audio_samples_in_order 0 counting sounds 0

abbrev good_frame : Answers
good_frame = record {
  got = some true;
  mapped = true;
  submitted = accepted;
  waited = signalled;
  locked = some (1 ∷ [], idr);
}

-- One frame that is late, one that the driver keeps, one that is not mapped and a good one.
abbrev frames : List Answers
frames =
    record good_frame { waited = timed_out }
    ∷ record good_frame { submitted = need_more_input }
    ∷ record good_frame { mapped = false }
    ∷ good_frame
    ∷ []

calls_in_order_example :
    held_after nothing (use_all (keyframe ∷ map frame frames) new_encoder).1 ≡ some nothing
calls_in_order_example = calls_in_order (keyframe ∷ map frame frames) new_encoder

keyframe_forced_once_example :
    (forced (use_all (keyframe ∷ map frame frames) new_encoder).1 ≡ [])
    ⊎ ((n : ℕ) × (forced (use_all (keyframe ∷ map frame frames) new_encoder).1
          ≡ true ∷ replicate n false))
keyframe_forced_once_example = keyframe_forced_once frames new_encoder

abbrev no_scaling : ResizeCrate
no_scaling source w h w' h' = none

abbrev black : MftFrame
black = record {
  frame = record { width = 2; height = 2; stride = 8; pixels = replicate 16 0 };
  is_bgra8 = true;
  pts_nanos = 33000000;
  sample_made = true;
  events = need_input true ∷ have_output (some packet) ∷ need_input true ∷ [];
}

abbrev transform : NvencMftEncoder
transform = record {
  config = record {
    width = 2;
    height = 2;
    fps = 30;
    bitrate_kbps = 1000;
    keyframe_interval_frames = 30;
  };
  resizer = none;
  pending_inputs = [];
  pending_keyframe = false;
}

abbrev inputs : List Use
inputs = encodes (record black { events = [] }) ∷ encodes black ∷ []

samples_in_order_example :
    let (e', acts) = Mft.use_all no_scaling inputs transform in
    handed acts ++ e'.pending_inputs ≡ transform.pending_inputs ++ queued acts
samples_in_order_example = samples_in_order no_scaling inputs transform
