-- ===== src/Stream/Video/Pace.antt =====
-- server-pc/src/stream.rs: the pacing of `run_video_loop`.
use remote_control.Base.{
  ℕ, suc, ◌+◌, ◌*◌, ◌≤◌, false, List, [], ◌∷◌, ◌++◌, ltb, leb, arith, if_intro, ◌≡◌, refl, subst,
  Bool-cases, inl, inr,
}
use remote_control.Stream.{EncoderSlot}
use remote_control.Stream.Video.{
  VideoLoop, Round, Captured, idle, failed, taken, Action, sleeps, forces_keyframe, captures, takes,
  sends, EncodedPacket, Event, passes, keyframe_requested, stop_requested, new_video_loop,
  send_packets, strike, on_captured, captured, serve, early_margin, round, step, run_video_loop,
}

-- The number of frames that the actions take.
abbrev pub frames_taken : List Action → ℕ
frames_taken [] = 0
frames_taken (takes ps ∷ acts) = suc (frames_taken acts)
frames_taken (_ ∷ acts) = frames_taken acts

-- Where `n` frames have been taken since the time `start`, every capture comes after that many
-- intervals, or 2 ms before.
abbrev pub Paced : ℕ → ℕ → ℕ → List Action → Type 0
Paced interval start n [] = Unit
Paced interval start n (captures now ∷ acts) =
    (start + n * interval ≤ now + early_margin) × Paced interval start n acts
Paced interval start n (takes ps ∷ acts) = Paced interval start (suc n) acts
Paced interval start n (_ ∷ acts) = Paced interval start n acts

module _ (interval start : ℕ) where
  Paced-append :
      (n : ℕ) (xs ys : List Action)
      → Paced interval start n xs
      → Paced interval start (n + frames_taken xs) ys
      → Paced interval start n (xs ++ ys)
  Paced-append n [] ys h k = subst (λ m. Paced interval start m ys) (omega arith) k
  Paced-append n (sleeps a ∷ xs) ys h k = Paced-append n xs ys h k
  Paced-append n (forces_keyframe ∷ xs) ys h k = Paced-append n xs ys h k
  Paced-append n (captures a ∷ xs) ys h k = (h.0, Paced-append n xs ys h.1 k)
  Paced-append n (takes ps ∷ xs) ys h k =
      Paced-append (suc n) xs ys h (subst (λ m. Paced interval start m ys) (omega arith) k)
  Paced-append n (sends b ∷ xs) ys h k = Paced-append n xs ys h k

  frames_taken-append :
      (xs ys : List Action) → frames_taken (xs ++ ys) ≡ frames_taken xs + frames_taken ys
  frames_taken-append [] ys = omega arith
  frames_taken-append (sleeps a ∷ xs) ys = frames_taken-append xs ys
  frames_taken-append (forces_keyframe ∷ xs) ys = frames_taken-append xs ys
  frames_taken-append (captures a ∷ xs) ys = frames_taken-append xs ys
  frames_taken-append (takes ps ∷ xs) ys = omega (arith, frames_taken-append xs ys)
  frames_taken-append (sends b ∷ xs) ys = frames_taken-append xs ys

  -- The actions are paced, and the next frame is due after all that were taken.
  abbrev Keeps : ℕ → VideoLoop × List Action → Type 0
  Keeps n (w, acts) =
      Paced interval start n acts × (start + (n + frames_taken acts) * interval ≤ w.next_due)

  send_packets-sends :
      (ps : List EncodedPacket) (k : ℕ) (r : Round) (n : ℕ)
      → Paced interval start n (send_packets ps k r).1 × (frames_taken (send_packets ps k r).1 ≡ 0)
  unfolding send_packets
  send_packets-sends [] k r n = (tt, refl)
  send_packets-sends (p ∷ ps) k r n = elim (Bool-cases (r.open_at k)) [
    | inl o ↦ rw (o) (send_packets-sends ps (suc k) r n)
    | inr c ↦ rw (c) (tt, refl)
  ]

  on_captured-Keeps :
      (n : ℕ) (r : Round) (c : Captured) (w : VideoLoop)
      → start + n * interval ≤ w.next_due
      → Keeps n (on_captured interval r c w)
  unfolding on_captured strike
  on_captured-Keeps n r idle w h =
      if_intro (Keeps n) (leb 30 (w.idle_strikes + 1)) (λ _. (tt, omega arith))
        (λ _. (tt, omega arith))
  on_captured-Keeps n r failed w h = (tt, omega arith)
  on_captured-Keeps n r (taken ps) w h =
      let (paced, none_taken) = send_packets-sends ps 0 r (suc n) in
      (paced, rw (none_taken) (grind arith))

  serve-Keeps :
      (n : ℕ) (r : Round) (w : VideoLoop)
      → start + n * interval ≤ w.next_due
      → w.next_due ≤ r.now + early_margin
      → Keeps n (serve interval r w)
  unfolding serve
  serve-Keeps n r w h due =
      let k = on_captured-Keeps n r (captured w.slot r) (record w { force_kf = false }) h in
      if_intro
        (λ asked. Keeps n (
          (on_captured interval r (captured w.slot r) (record w { force_kf = false })).0,
          asked
              ++ (captures r.now
                  ∷ (on_captured interval r (captured w.slot r) (record w { force_kf = false })).1),
        ))
        w.force_kf (λ _. ((omega arith, k.0), k.1)) (λ _. ((omega arith, k.0), k.1))

  step-Keeps :
      (n : ℕ) (e : Event) (w : VideoLoop)
      → start + n * interval ≤ w.next_due
      → Keeps n (step interval e w)
  unfolding step round
  step-Keeps n (passes r) w h =
      if_intro (Keeps n) w.running
        (λ _.
          if_intro (Keeps n) w.stopped (λ _. (tt, omega arith))
            (λ _.
              if_intro (Keeps n) (ltb (r.now + early_margin) w.next_due) (λ _. (tt, omega arith))
                (λ due. serve-Keeps n r w h (ground arith))))
        (λ _. (tt, omega arith))
  step-Keeps n keyframe_requested w h = (tt, omega arith)
  step-Keeps n stop_requested w h = (tt, omega arith)

  run-Paced :
      (n : ℕ) (es : List Event) (w : VideoLoop)
      → start + n * interval ≤ w.next_due
      → Paced interval start n (run_video_loop interval es w).1
  unfolding run_video_loop
  run-Paced n [] w h = tt
  run-Paced n (e ∷ es) w h =
      let (paced, due) = step-Keeps n e w h in
      let next = step interval e w in
      Paced-append n next.1 (run_video_loop interval es next.0).1 paced
        (run-Paced (n + frames_taken next.1) es next.0 due)

-- Whatever the capture and the encoder answer, whenever keyframes are requested, and however the clock
-- is read: in a loop that starts at `start`, a capture that comes after `n` frames were taken does not
-- begin before `start` and `n` frame intervals, less 2 ms.
pub video_pacing :
    (interval start : ℕ) (slot : EncoderSlot) (es : List Event)
    → Paced interval start 0 (run_video_loop interval es (new_video_loop slot start)).1
unfolding new_video_loop
video_pacing interval start slot es =
    run-Paced interval start 0 es (new_video_loop slot start) (omega arith)
