-- ===== src/Encoder/Sdk/Keyframes.antt =====
-- server-pc/src/encoder/nvenc_sdk.rs: a request for a keyframe is served once.
use remote_control.Base.{
  ℕ, suc, Bool, true, false, List, [], ◌∷◌, ◌++◌, Option, none, some, ◌≡◌, refl, ◌⊎◌, inl, inr, ◌∙◌,
  ap, replicate, map, Option-cases, if_intro,
}
use remote_control.Encoder.Sdk.{
  Answers, ApiCall, map_input, map_failed, encode_picture, wait_output, reset_event, lock_bitstream,
  lock_failed, unlock_bitstream, unmap_input, NvencSdkEncoder, keyframe, frame, use_once, use_all,
  force_keyframe, capture_and_encode, encode_mapped, on_submitted, on_waited, Outcome, await_output,
  drain_bitstream, prepend, Submitted, Waited, accepted, need_more_input, rejected, signalled,
  wait_failed, timed_out, PictureType,
}

-- For each picture that is submitted, whether a keyframe is forced.
abbrev pub forced : List ApiCall → List Bool
forced [] = []
forced (encode_picture f ∷ cs) = f ∷ forced cs
forced (_ ∷ cs) = forced cs

forced-append : (xs ys : List ApiCall) → forced (xs ++ ys) ≡ forced xs ++ forced ys
forced-append [] ys = refl
forced-append (encode_picture f ∷ xs) ys = ap (◌∷◌ f) (forced-append xs ys)
forced-append (map_input ∷ xs) ys = forced-append xs ys
forced-append (map_failed ∷ xs) ys = forced-append xs ys
forced-append (wait_output ∷ xs) ys = forced-append xs ys
forced-append (reset_event ∷ xs) ys = forced-append xs ys
forced-append (lock_bitstream ∷ xs) ys = forced-append xs ys
forced-append (lock_failed ∷ xs) ys = forced-append xs ys
forced-append (unlock_bitstream ∷ xs) ys = forced-append xs ys
forced-append (unmap_input ∷ xs) ys = forced-append xs ys

drain-forced : (o : Option (List ℕ × PictureType)) → forced (drain_bitstream o).0 ≡ []
unfolding drain_bitstream
drain-forced none = refl
drain-forced (some (bytes, picture)) = refl

waited-forced : (a : Answers) (w : Waited) → forced (on_waited a w).0 ≡ []
unfolding on_waited prepend
waited-forced a signalled = drain-forced a.locked
waited-forced a wait_failed = refl
waited-forced a timed_out = refl

submitted-forced :
    (async : Bool) (a : Answers) (s : Submitted) → forced (on_submitted async a s).0 ≡ []
unfolding on_submitted await_output
submitted-forced false a accepted = drain-forced a.locked
submitted-forced true a accepted = waited-forced a a.waited
submitted-forced async a need_more_input = refl
submitted-forced async a rejected = refl

-- A frame submits one picture, forced where a keyframe is pending, or none.
abbrev Submits : NvencSdkEncoder → NvencSdkEncoder × Outcome → Type 0
Submits e o =
    ((forced o.1.0 ≡ []) × (o.0.pending_idr ≡ e.pending_idr))
    ⊎ ((forced o.1.0 ≡ e.pending_idr ∷ []) × (o.0.pending_idr ≡ false))

capture_and_encode-Submits :
    (a : Answers) (e : NvencSdkEncoder) → Submits e (capture_and_encode a e)
unfolding capture_and_encode encode_mapped prepend
capture_and_encode-Submits a e =
    let mapped =
      if_intro (Submits e) a.mapped
        (λ _. inr (ap (◌∷◌ e.pending_idr) (submitted-forced e.async_mode a a.submitted), refl))
        (λ _. inl (refl, refl)) in
    elim (Option-cases a.got) [
      | inl n ↦ rw (n, capture_and_encode) (inl (refl, refl))
      | inr (false, n) ↦ rw (n, capture_and_encode) (inl (refl, refl))
      | inr (true, n) ↦ rw (n, capture_and_encode) mapped
    ]

later_unforced :
    (answers : List Answers) (e : NvencSdkEncoder)
    → e.pending_idr ≡ false
    → (n : ℕ) × (forced (use_all (map frame answers) e).1 ≡ replicate n false)
unfolding use_all use_once
later_unforced [] e off = (0, refl)
later_unforced (a ∷ answers) e off =
    let first = capture_and_encode a e in
    let calls = (use_all (map frame answers) first.0).1 in
    elim (capture_and_encode-Submits a e) [
      | inl (none_submitted, kept) ↦
          let (n, all) = later_unforced answers first.0 (kept ∙ off) in
          (n, forced-append first.1.0 calls ∙ ap (λ fs. fs ++ forced calls) none_submitted ∙ all)
      | inr (one, cleared) ↦
          let (n, all) = later_unforced answers first.0 cleared in
          (
            suc n,
            forced-append first.1.0 calls
                ∙ ap (λ fs. fs ++ forced calls) (one ∙ ap (λ b. b ∷ []) off)
                ∙ ap (◌∷◌ false) all,
          )
    ]

first_forced :
    (answers : List Answers) (e : NvencSdkEncoder)
    → e.pending_idr ≡ true
    → (forced (use_all (map frame answers) e).1 ≡ [])
      ⊎ ((n : ℕ) × (forced (use_all (map frame answers) e).1 ≡ true ∷ replicate n false))
unfolding use_all use_once
first_forced [] e on = inl refl
first_forced (a ∷ answers) e on =
    let first = capture_and_encode a e in
    let calls = (use_all (map frame answers) first.0).1 in
    let whole = forced-append first.1.0 calls in
    elim (capture_and_encode-Submits a e) [
      | inl (none_submitted, kept) ↦
          let skip = whole ∙ ap (λ fs. fs ++ forced calls) none_submitted in
          elim (first_forced answers first.0 (kept ∙ on)) [
            | inl nothing ↦ inl (skip ∙ nothing)
            | inr (n, all) ↦ inr (n, skip ∙ all)
          ]
      | inr (one, cleared) ↦
          let (n, all) = later_unforced answers first.0 cleared in
          inr (
            n,
            whole ∙ ap (λ fs. fs ++ forced calls) (one ∙ ap (λ b. b ∷ []) on) ∙ ap (◌∷◌ true) all,
          )
    ]

-- After a request for a keyframe, and whatever the capture and the driver answer for the frames that
-- follow: the first picture that is submitted is forced to be a keyframe and no later one is, however
-- many frames time out or cannot be mapped before it.
pub keyframe_forced_once :
    (answers : List Answers) (e : NvencSdkEncoder)
    → (forced (use_all (keyframe ∷ map frame answers) e).1 ≡ [])
      ⊎ ((n : ℕ) × (forced (use_all (keyframe ∷ map frame answers) e).1 ≡ true ∷ replicate n false))
unfolding use_all use_once force_keyframe
keyframe_forced_once answers e = first_forced answers (record e { pending_idr = true }) refl
