-- ===== src/Encoder/Software.antt =====
-- server-pc/src/encoder/mf_h264.rs: `encode`, `drain_output` and `force_keyframe` of the software encoder.
-- What Media Foundation answers is an argument; what becomes of the samples is a list of actions.
pub mod Total
pub mod Keyframes
use remote_control.Base.{
  ℕ, ◌*◌, ◌/◌, ◌%◌, ◌^◌, Bool, true, false, List, [], ◌∷◌, ◌++◌, Option, none, some, if◌then◌else◌,
}
use remote_control.Encoder.{BgraResizer, CapturedFrame, ResizeCrate, frame_to_nv12}
use remote_control.Encoder.Mft.{Sample}
use remote_control.Stream.Video.{EncodedPacket}
use remote_control.Stream.{EncoderConfig}

-- A call of `ProcessOutput`: a sample that becomes a packet, one that does not or none at all, the answer
-- that more input is needed, or another error.
pub data OutputAnswer : Type 0 where
  gives : EncodedPacket → OutputAnswer
  no_sample need_more_input output_error : OutputAnswer

pub data SoftwareAction : Type 0 where
  inputs : Sample → SoftwareAction
  emits : EncodedPacket → SoftwareAction

-- A captured frame with its format and time, whether the calls that make a sample and `ProcessInput`
-- succeed, and the answers of `ProcessOutput`, which says in the end that it needs more input.
pub record SoftwareFrame : Type 0 where
  pub frame : CapturedFrame
  pub is_bgra8 : Bool
  pub pts_nanos : ℕ
  pub sample_made : Bool
  pub input_taken : Bool
  pub outputs : List OutputAnswer

pub record MediaFoundationH264Encoder : Type 0 where
  pub config : EncoderConfig
  pub resizer : Option BgraResizer
  pub pending_keyframe : Bool

-- The first frame must be a keyframe.
unfoldable pub new_software_encoder : EncoderConfig → MediaFoundationH264Encoder
new_software_encoder config = record { config = config; resizer = none; pending_keyframe = true }

unfoldable pub force_keyframe : MediaFoundationH264Encoder → MediaFoundationH264Encoder
force_keyframe e = record e { pending_keyframe = true }

unfoldable pub drain_output : List OutputAnswer → List SoftwareAction × Bool
drain_output [] = ([], true)
drain_output (gives packet ∷ answers) =
    let rest = drain_output answers in (emits packet ∷ rest.0, rest.1)
drain_output (no_sample ∷ answers) = ([], false)
drain_output (need_more_input ∷ answers) = ([], true)
drain_output (output_error ∷ answers) = ([], false)

unfoldable pub input_sample : SoftwareFrame → List ℕ × List ℕ → MediaFoundationH264Encoder → Sample
input_sample f planes e = record {
  planes = planes;
  time = f.pts_nanos / 100 % 2 ^ 64;
  duration = 10000000 / e.config.fps;
  clean_point = e.pending_keyframe;
}

-- The encoder, the actions, and whether the call succeeds.
abbrev pub Encoded : Type 0
Encoded = MediaFoundationH264Encoder × List SoftwareAction × Bool

-- The sample is handed over, and the packets are taken.
unfoldable pub process_sample :
    SoftwareFrame → List ℕ × List ℕ → MediaFoundationH264Encoder → Encoded
process_sample f planes e =
    let drained = drain_output f.outputs in
    (
      record e { pending_keyframe = false },
      inputs (input_sample f planes e) ∷ (if f.input_taken then drained.0 else []),
      if f.input_taken then drained.1 else false,
    )

unfoldable pub encode : ResizeCrate → SoftwareFrame → MediaFoundationH264Encoder → Encoded
encode resize f e =
    let c = e.config in
    let converted =
      frame_to_nv12 resize e.resizer f.frame c.width c.height (c.width * c.height * 3 / 2) in
    let e' = record e { resizer = converted.0 } in
    if f.is_bgra8
    then (elim converted.1 [
      | none ↦ (e', [], false)
      | some planes ↦ if f.sample_made then process_sample f planes e' else (e', [], false)
    ])
    else (e, [], false)

pub data SoftwareUse : Type 0 where
  keyframe : SoftwareUse
  encodes : SoftwareFrame → SoftwareUse

unfoldable pub software_use :
    ResizeCrate
    → List SoftwareUse
    → MediaFoundationH264Encoder
    → MediaFoundationH264Encoder × List SoftwareAction
software_use resize [] e = (e, [])
software_use resize (keyframe ∷ us) e = software_use resize us (force_keyframe e)
software_use resize (encodes f ∷ us) e =
    let out = encode resize f e in
    let rest = software_use resize us out.0 in (rest.0, out.1 ++ rest.1)
