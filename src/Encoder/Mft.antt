-- ===== src/Encoder/Mft.antt =====
-- server-pc/src/encoder/nvenc_mft.rs: `encode`, `drain_events` and `force_keyframe`. What Media Foundation
-- answers is an argument; what becomes of the samples is a list of actions.
pub mod Samples
use remote_control.Base.{
  ℕ, ◌+◌, ◌*◌, ◌/◌, ◌%◌, ◌^◌, Bool, true, false, List, [], ◌∷◌, ◌++◌, Option, none, some,
  if◌then◌else◌,
}
use remote_control.Encoder.{BgraResizer, CapturedFrame, ResizeCrate, frame_to_nv12}
use remote_control.Stream.Video.{EncodedPacket}
use remote_control.Stream.{EncoderConfig}

-- The planes, the time and the duration in units of 100 ns, and the mark of a keyframe. The time is cast
-- to an `i64`, whose 64 bits are kept.
pub record Sample : Type 0 where
  pub planes : List ℕ × List ℕ
  pub time : ℕ
  pub duration : ℕ
  pub clean_point : Bool

-- `need_input` says whether `ProcessInput` would succeed, `have_output` what `ProcessOutput` gives. The
-- events that are there come to an end.
pub data MftEvent : Type 0 where
  need_input : Bool → MftEvent
  have_output : Option EncodedPacket → MftEvent
  other_event : MftEvent
  event_error : MftEvent

pub data Action : Type 0 where
  queues : Sample → Action
  hands : Sample → Action
  emits : EncodedPacket → Action

-- A captured frame with its format and time, whether the calls that make a sample succeed, and the events.
pub record MftFrame : Type 0 where
  pub frame : CapturedFrame
  pub is_bgra8 : Bool
  pub pts_nanos : ℕ
  pub sample_made : Bool
  pub events : List MftEvent

pub record NvencMftEncoder : Type 0 where
  pub config : EncoderConfig
  pub resizer : Option BgraResizer
  pub pending_inputs : List Sample
  pub pending_keyframe : Bool

-- The encoder, the actions, and whether the call succeeds.
abbrev pub Outcome : Type 0
Outcome = NvencMftEncoder × List Action × Bool

-- The queue behind the events, which is all of the encoder that they change.
abbrev pub Drained : Type 0
Drained = List Sample × List Action × Bool

unfoldable pub and_then : Action → Drained → Drained
and_then first (queue, acts, ok) = (queue, first ∷ acts, ok)

unfoldable pub drain_events : List MftEvent → List Sample → Drained
drain_events [] queue = (queue, [], true)
drain_events (event_error ∷ events) queue = (queue, [], false)
drain_events (other_event ∷ events) queue = drain_events events queue
drain_events (have_output none ∷ events) queue = (queue, [], false)
drain_events (have_output (some packet) ∷ events) queue =
    and_then (emits packet) (drain_events events queue)
drain_events (need_input ok ∷ events) [] = drain_events events []
drain_events (need_input true ∷ events) (sample ∷ later) =
    and_then (hands sample) (drain_events events later)
drain_events (need_input false ∷ events) (sample ∷ later) = (later, hands sample ∷ [], false)

unfoldable pub sample_of : MftFrame → List ℕ × List ℕ → NvencMftEncoder → Sample
sample_of f planes e = record {
  planes = planes;
  time = f.pts_nanos / 100 % 2 ^ 64;
  duration = 10000000 / e.config.fps;
  clean_point = e.pending_keyframe;
}

-- The sample joins the queue, and the events are drained.
unfoldable pub queue_sample : MftFrame → List ℕ × List ℕ → NvencMftEncoder → Outcome
queue_sample f planes e =
    let sample = sample_of f planes e in
    let drained = drain_events f.events (e.pending_inputs ++ (sample ∷ [])) in
    (
      record e { pending_inputs = drained.0; pending_keyframe = false },
      queues sample ∷ drained.1,
      drained.2,
    )

-- The buffer for NV12 has `width * height * 3 / 2` bytes.
unfoldable pub encode : ResizeCrate → MftFrame → NvencMftEncoder → Outcome
encode resize f e =
    let c = e.config in
    let converted =
      frame_to_nv12 resize e.resizer f.frame c.width c.height (c.width * c.height * 3 / 2) in
    let e' = record e { resizer = converted.0 } in
    if f.is_bgra8
    then (elim converted.1 [
      | none ↦ (e', [], false)
      | some planes ↦ if f.sample_made then queue_sample f planes e' else (e', [], false)
    ])
    else (e, [], false)

unfoldable pub force_keyframe : NvencMftEncoder → NvencMftEncoder
force_keyframe e = record e { pending_keyframe = true }

pub data Use : Type 0 where
  keyframe : Use
  encodes : MftFrame → Use

unfoldable pub use_once : ResizeCrate → Use → NvencMftEncoder → NvencMftEncoder × List Action
use_once resize keyframe e = (force_keyframe e, [])
use_once resize (encodes f) e = let out = encode resize f e in (out.0, out.1)

unfoldable pub use_all : ResizeCrate → List Use → NvencMftEncoder → NvencMftEncoder × List Action
use_all resize [] e = (e, [])
use_all resize (u ∷ us) e =
    let first = use_once resize u e in
    let rest = use_all resize us first.0 in (rest.0, first.1 ++ rest.1)
