-- ===== src/Stream/Video.antt =====
-- server-pc/src/stream.rs: `run_video_loop`. The clock and the answers of the capture and the encoder
-- are arguments of a round; times are nanoseconds since the stream was started. What the loop does is
-- a list of actions. The counters of the log line are left out.
pub mod Pace
pub mod Requests
pub mod Delivery
use remote_control.Base.{
  ℕ, zero, suc, ◌+◌, ◌-◌, ◌/◌, ◌^◌, Bool, true, false, List, [], ◌∷◌, ◌++◌, length, min, max, ltb,
  leb, nat_beq, if◌then◌else◌,
}
use remote_control.Protocol.{build_video_frame}
use remote_control.Stream.{EncoderSlot, gpu_sdk, cpu_mft_h264, cpu_mft_hevc, cpu_software}

-- An `EncodedPacket`; its own time stamp is not read here.
pub record EncodedPacket : Type 0 where
  pub bytes : List ℕ
  pub is_keyframe : Bool
  pub has_config : Bool

-- What capture and encoding come to in one round.
pub data Captured : Type 0 where
  idle : Captured
  failed : Captured
  taken : List EncodedPacket → Captured

-- `next_frame`, then `encode`: no frame in time, a frame that the encoder refuses or encodes, an error.
pub data CpuAnswer : Type 0 where
  no_frame : CpuAnswer
  refused : CpuAnswer
  encoded : List EncodedPacket → CpuAnswer
  capture_error : CpuAnswer

-- `capture_and_encode`: the number that it returns and the packets, or an error.
pub data SdkAnswer : Type 0 where
  pushed : ℕ → List EncodedPacket → SdkAnswer
  sdk_error : SdkAnswer

-- The clock at the head of a round and behind the capture; for each packet the time at which it is
-- stamped, and whether the channel still has a receiver.
pub record Round : Type 0 where
  pub now : ℕ
  pub cpu : CpuAnswer
  pub sdk : SdkAnswer
  pub after : ℕ
  pub stamps : ℕ → ℕ
  pub open_at : ℕ → Bool

pub data Action : Type 0 where
  sleeps : ℕ → Action
  forces_keyframe : Action
  captures : ℕ → Action
  takes : List EncodedPacket → Action
  sends : List ℕ → Action

pub record VideoLoop : Type 0 where
  pub slot : EncoderSlot
  pub force_kf : Bool
  pub stopped : Bool
  pub running : Bool
  pub idle_strikes : ℕ
  pub next_due : ℕ

unfoldable pub new_video_loop : EncoderSlot → ℕ → VideoLoop
new_video_loop slot now = record {
  slot = slot;
  force_kf = false;
  stopped = false;
  running = true;
  idle_strikes = 0;
  next_due = now;
}

unfoldable pub cpu_captured : CpuAnswer → Captured
cpu_captured no_frame = idle
cpu_captured refused = failed
cpu_captured (encoded ps) = taken ps
cpu_captured capture_error = failed

unfoldable pub sdk_captured : SdkAnswer → Captured
sdk_captured (pushed n ps) = if nat_beq n 0 then idle else taken ps
sdk_captured sdk_error = failed

unfoldable pub captured : EncoderSlot → Round → Captured
captured gpu_sdk r = sdk_captured r.sdk
captured cpu_mft_h264 r = cpu_captured r.cpu
captured cpu_mft_hevc r = cpu_captured r.cpu
captured cpu_software r = cpu_captured r.cpu

-- The stamp in microseconds, saturated to 64 bits.
unfoldable pub wrap : EncodedPacket → ℕ → List ℕ
wrap p at = build_video_frame p.bytes (min (at / 1000) (2 ^ 64 - 1)) p.is_keyframe p.has_config

-- The packets from the `k`-th on; the flag says whether the loop goes on.
unfoldable pub send_packets : List EncodedPacket → ℕ → Round → Bool × List Action
send_packets [] k r = (true, [])
send_packets (p ∷ ps) k r =
    let rest = send_packets ps (suc k) r in
    if r.open_at k then (rest.0, sends (wrap p (r.stamps k)) ∷ rest.1) else (false, [])

-- No frame: the thirtieth time in a row, the encoder is asked for a keyframe.
unfoldable pub strike : VideoLoop → VideoLoop × List Action
strike w =
    if leb 30 (w.idle_strikes + 1)
    then (record w { idle_strikes = 0 }, forces_keyframe ∷ [])
    else (record w { idle_strikes = w.idle_strikes + 1 }, [])

unfoldable pub on_captured : ℕ → Round → Captured → VideoLoop → VideoLoop × List Action
on_captured interval r idle w = strike w
on_captured interval r failed w = (record w { running = false }, [])
on_captured interval r (taken ps) w =
    let sent = send_packets ps 0 r in
    (
      record w {
        idle_strikes = 0;
        next_due = max (w.next_due + interval) r.after;
        running = sent.0;
      },
      takes ps ∷ sent.1,
    )

-- The swap of the flag, the capture and what follows it.
unfoldable pub serve : ℕ → Round → VideoLoop → VideoLoop × List Action
serve interval r w =
    let next = on_captured interval r (captured w.slot r) (record w { force_kf = false }) in
    (next.0, (if w.force_kf then forces_keyframe ∷ [] else []) ++ (captures r.now ∷ next.1))

unfoldable pub early_margin : ℕ
early_margin = 2000000

-- One pass of the `while`.
unfoldable pub round : ℕ → Round → VideoLoop → VideoLoop × List Action
round interval r w =
    if w.stopped
    then (record w { running = false }, [])
    else if ltb (r.now + early_margin) w.next_due
    then (w, sleeps (min ((w.next_due - r.now) / 1000000) 20) ∷ [])
    else serve interval r w

-- What the worker meets: a round of its own, or another thread that sets one of the shared flags.
pub data Event : Type 0 where
  passes : Round → Event
  keyframe_requested : Event
  stop_requested : Event

unfoldable pub step : ℕ → Event → VideoLoop → VideoLoop × List Action
step interval (passes r) w = if w.running then round interval r w else (w, [])
step interval keyframe_requested w = (record w { force_kf = true }, [])
step interval stop_requested w = (record w { stopped = true }, [])

unfoldable pub run_video_loop : ℕ → List Event → VideoLoop → VideoLoop × List Action
run_video_loop interval [] w = (w, [])
run_video_loop interval (e ∷ es) w =
    let next = step interval e w in
    let rest = run_video_loop interval es next.0 in (rest.0, next.1 ++ rest.1)
