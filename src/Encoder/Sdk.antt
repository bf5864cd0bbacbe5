-- ===== src/Encoder/Sdk.antt =====
-- server-pc/src/encoder/nvenc_sdk.rs: `capture_and_encode` and `force_keyframe`. What the capture and the
-- NVENC functions answer is an argument, and the calls are listed. The counters of the log are left out.
pub mod Discipline
pub mod Keyframes
use remote_control.Base.{
  ℕ, Bool, true, false, List, [], ◌∷◌, ◌++◌, Option, none, some, if◌then◌else◌,
}
use remote_control.Stream.Video.{EncodedPacket}

pub data PictureType : Type 0 where
  idr intra predicted other : PictureType

pub data Submitted : Type 0 where
  accepted need_more_input rejected : Submitted

pub data Waited : Type 0 where
  signalled wait_failed timed_out : Waited

-- `got` is `none` for an error of the capture, and `locked` where the lock fails.
pub record Answers : Type 0 where
  pub got : Option Bool
  pub mapped : Bool
  pub submitted : Submitted
  pub waited : Waited
  pub locked : Option (List ℕ × PictureType)

pub data ApiCall : Type 0 where
  map_input : ApiCall
  map_failed : ApiCall
  encode_picture : Bool → ApiCall
  wait_output : ApiCall
  reset_event : ApiCall
  lock_bitstream : ApiCall
  lock_failed : ApiCall
  unlock_bitstream : ApiCall
  unmap_input : ApiCall

pub record NvencSdkEncoder : Type 0 where
  pub async_mode : Bool
  pub pending_idr : Bool

unfoldable pub new_encoder : NvencSdkEncoder
new_encoder = record { async_mode = true; pending_idr = true }

unfoldable pub force_keyframe : NvencSdkEncoder → NvencSdkEncoder
force_keyframe e = record e { pending_idr = true }

unfoldable pub is_keyframe : PictureType → Bool
is_keyframe idr = true
is_keyframe intra = true
is_keyframe _ = false

-- The calls, the packets, and the number that is returned; `none` is an error.
abbrev pub Outcome : Type 0
Outcome = List ApiCall × List EncodedPacket × Option ℕ

-- The bitstream of one picture.
unfoldable pub drain_bitstream : Option (List ℕ × PictureType) → Outcome
drain_bitstream none = (lock_failed ∷ unmap_input ∷ [], [], none)
drain_bitstream (some (bytes, picture)) = (
  lock_bitstream ∷ unlock_bitstream ∷ unmap_input ∷ [],
  record { bytes = bytes; is_keyframe = is_keyframe picture; has_config = is_keyframe picture }
      ∷ [],
  some 1,
)

unfoldable pub prepend : List ApiCall → Outcome → Outcome
prepend calls (more, packets, result) = (calls ++ more, packets, result)

unfoldable pub on_waited : Answers → Waited → Outcome
on_waited a signalled = prepend (wait_output ∷ reset_event ∷ []) (drain_bitstream a.locked)
on_waited a wait_failed = (wait_output ∷ unmap_input ∷ [], [], none)
on_waited a timed_out = (wait_output ∷ unmap_input ∷ [], [], none)

unfoldable pub await_output : Bool → Answers → Outcome
await_output false a = drain_bitstream a.locked
await_output true a = on_waited a a.waited

unfoldable pub on_submitted : Bool → Answers → Submitted → Outcome
on_submitted async_mode a accepted = await_output async_mode a
on_submitted async_mode a need_more_input = (unmap_input ∷ [], [], some 0)
on_submitted async_mode a rejected = (unmap_input ∷ [], [], none)

unfoldable pub encode_mapped : Answers → NvencSdkEncoder → NvencSdkEncoder × Outcome
encode_mapped a e = (
  record e { pending_idr = false },
  prepend (map_input ∷ encode_picture e.pending_idr ∷ []) (on_submitted e.async_mode a a.submitted),
)

unfoldable pub capture_and_encode : Answers → NvencSdkEncoder → NvencSdkEncoder × Outcome
capture_and_encode a e = elim a.got [
  | none ↦ (e, ([], [], none))
  | some false ↦ (e, ([], [], some 0))
  | some true ↦ if a.mapped then encode_mapped a e else (e, (map_failed ∷ [], [], none))
]

-- What the video worker does with it.
pub data Use : Type 0 where
  keyframe : Use
  frame : Answers → Use

unfoldable pub use_once : Use → NvencSdkEncoder → NvencSdkEncoder × List ApiCall
use_once keyframe e = (force_keyframe e, [])
use_once (frame a) e = let out = capture_and_encode a e in (out.0, out.1.0)

unfoldable pub use_all : List Use → NvencSdkEncoder → NvencSdkEncoder × List ApiCall
use_all [] e = (e, [])
use_all (u ∷ us) e =
    let first = use_once u e in let rest = use_all us first.0 in (rest.0, first.1 ++ rest.1)
