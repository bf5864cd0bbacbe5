-- ===== src/Encoder/Sdk/Discipline.antt =====
-- server-pc/src/encoder/nvenc_sdk.rs: the input is unmapped and the bitstream unlocked on every path.
use remote_control.Base.{
  ℕ, Bool, true, false, List, [], ◌∷◌, ◌++◌, Option, none, some, ◌≡◌, refl, ◌∙◌, ap, some_injective,
  Option-cases, if_intro, inl, inr,
}
use remote_control.Encoder.Sdk.{
  Answers, ApiCall, map_input, map_failed, encode_picture, wait_output, reset_event, lock_bitstream,
  lock_failed, unlock_bitstream, unmap_input, NvencSdkEncoder, Use, keyframe, frame, use_once,
  use_all, capture_and_encode, encode_mapped, on_submitted, on_waited, await_output, Outcome,
  drain_bitstream, prepend, Submitted, Waited, accepted, need_more_input, rejected, signalled,
  wait_failed, timed_out, PictureType,
}

-- What the program holds of the encoder.
pub data Held : Type 0 where
  nothing : Held
  input : Held
  bitstream : Held

-- A call is allowed only where it makes sense; `none` is a misuse.
abbrev pub allowed : Held → ApiCall → Option Held
allowed nothing map_input = some input
allowed nothing map_failed = some nothing
allowed input (encode_picture forced) = some input
allowed input wait_output = some input
allowed input reset_event = some input
allowed input lock_bitstream = some bitstream
allowed input lock_failed = some input
allowed input unmap_input = some nothing
allowed bitstream unlock_bitstream = some input
allowed _ _ = none

abbrev pub held_after : Held → List ApiCall → Option Held
held_after h [] = some h
held_after h (c ∷ cs) = elim (allowed h c) [ none ↦ none | some h' ↦ held_after h' cs ]

held_after-append :
    (h : Held) (xs ys : List ApiCall)
    → held_after h xs ≡ some nothing
    → held_after h (xs ++ ys) ≡ held_after nothing ys
held_after-append h [] ys e = ap (λ k. held_after k ys) (some_injective e)
held_after-append h (x ∷ xs) ys e = elim (Option-cases (allowed h x)) [
  | inl n ↦ let never : none ≡ some nothing = rw (n, held_after) at e in cc
  | inr (h', y) ↦ rw (y, held_after) (held_after-append h' xs ys (rw (y, held_after) at e))
]

drain-releases :
    (o : Option (List ℕ × PictureType)) → held_after input (drain_bitstream o).0 ≡ some nothing
unfolding drain_bitstream
drain-releases none = refl
drain-releases (some (bytes, picture)) = refl

waited-releases : (a : Answers) (w : Waited) → held_after input (on_waited a w).0 ≡ some nothing
unfolding on_waited prepend
waited-releases a signalled = drain-releases a.locked
waited-releases a wait_failed = refl
waited-releases a timed_out = refl

submitted-releases :
    (async : Bool) (a : Answers) (s : Submitted)
    → held_after input (on_submitted async a s).0 ≡ some nothing
unfolding on_submitted await_output
submitted-releases false a accepted = drain-releases a.locked
submitted-releases true a accepted = waited-releases a a.waited
submitted-releases async a need_more_input = refl
submitted-releases async a rejected = refl

capture_and_encode-releases :
    (a : Answers) (e : NvencSdkEncoder)
    → held_after nothing (capture_and_encode a e).1.0 ≡ some nothing
unfolding capture_and_encode encode_mapped prepend
capture_and_encode-releases a e =
    let P : NvencSdkEncoder × Outcome → Type 0 = λ o. held_after nothing o.1.0 ≡ some nothing in
    let mapped =
      if_intro P a.mapped (λ _. submitted-releases e.async_mode a a.submitted) (λ _. refl) in
    elim (Option-cases a.got) [
      | inl n ↦ rw (n, capture_and_encode) refl
      | inr (false, n) ↦ rw (n, capture_and_encode) refl
      | inr (true, n) ↦ rw (n, capture_and_encode) mapped
    ]

use_once-releases :
    (u : Use) (e : NvencSdkEncoder) → held_after nothing (use_once u e).1 ≡ some nothing
unfolding use_once
use_once-releases keyframe e = refl
use_once-releases (frame a) e = capture_and_encode-releases a e

-- Whatever the graphics driver answers, the calls of any number of frames keep to the protocol of the
-- encoder, on every path, errors included: the input is mapped only while nothing is held, a picture is
-- submitted and the output awaited only while it is mapped, the bitstream is locked only then, and
-- behind each frame it is unlocked and the input unmapped.
pub calls_in_order :
    (us : List Use) (e : NvencSdkEncoder) → held_after nothing (use_all us e).1 ≡ some nothing
unfolding use_all
calls_in_order [] e = refl
calls_in_order (u ∷ us) e =
    held_after-append nothing (use_once u e).1 (use_all us (use_once u e).0).1
      (use_once-releases u e)
    ∙ calls_in_order us (use_once u e).0
