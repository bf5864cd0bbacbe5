-- ===== src/Stream/Video/Requests.antt =====
-- server-pc/src/stream.rs: the two shared flags of `run_video_loop`.
use remote_control.Base.{
  ℕ, ◌+◌, ◌≤◌, ◌≡◌, refl, true, false, List, [], ◌∷◌, ◌++◌, ltb, arith, if_intro,
}
use remote_control.Stream.Video.{
  VideoLoop, Round, Action, sleeps, forces_keyframe, captures, Event, passes, keyframe_requested,
  stop_requested, on_captured, captured, serve, early_margin, round, step, run_video_loop,
}

-- The encoder is asked for a keyframe before the desktop is captured the next time.
abbrev pub AskedFirst : List Action → Type 0
AskedFirst [] = Unit
AskedFirst (forces_keyframe ∷ acts) = Unit
AskedFirst (sleeps n ∷ acts) = AskedFirst acts
AskedFirst _ = ⊥

module _ (interval : ℕ) where
  serve_asked :
      (r : Round) (w : VideoLoop)
      → w.force_kf ≡ true
      → (rest : List Action) × ((serve interval r w).1 ≡ forces_keyframe ∷ captures r.now ∷ rest)
  unfolding serve
  serve_asked r w h =
      ((on_captured interval r (captured w.slot r) (record w { force_kf = false })).1, rw (h) refl)

  pub run_over :
      (es : List Event) (w : VideoLoop) → w.running ≡ false → (run_video_loop interval es w).1 ≡ []
  unfolding run_video_loop step
  run_over [] w h = refl
  run_over (passes r ∷ es) w h =
      if_intro (λ (o : VideoLoop × List Action). o.1 ++ (run_video_loop interval es o.0).1 ≡ [])
        w.running (λ go. cc) (λ _. run_over es w h)
  run_over (keyframe_requested ∷ es) w h = run_over es (record w { force_kf = true }) h
  run_over (stop_requested ∷ es) w h = run_over es (record w { stopped = true }) h

  run_asked :
      (es : List Event) (w : VideoLoop)
      → w.force_kf ≡ true
      → AskedFirst (run_video_loop interval es w).1
  unfolding run_video_loop step round
  run_asked [] w h = tt
  run_asked (passes r ∷ es) w h =
      let P : VideoLoop × List Action → Type 0 =
        λ o. AskedFirst (o.1 ++ (run_video_loop interval es o.0).1) in
      if_intro P w.running
        (λ _.
          if_intro P w.stopped (λ _. rw (run_over es (record w { running = false }) refl) tt)
            (λ _.
              if_intro P (ltb (r.now + early_margin) w.next_due) (λ _. run_asked es w h)
                (λ _. let (rest, e) = serve_asked r w h in rw (e) tt)))
        (λ _. run_asked es w h)
  run_asked (keyframe_requested ∷ es) w h = run_asked es (record w { force_kf = true }) refl
  run_asked (stop_requested ∷ es) w h = run_asked es (record w { stopped = true }) h

  run_stopped :
      (es : List Event) (w : VideoLoop) → w.stopped ≡ true → (run_video_loop interval es w).1 ≡ []
  unfolding run_video_loop step round
  run_stopped [] w h = refl
  run_stopped (passes r ∷ es) w h =
      let P : VideoLoop × List Action → Type 0 =
        λ o. o.1 ++ (run_video_loop interval es o.0).1 ≡ [] in
      if_intro P w.running
        (λ _.
          if_intro P w.stopped (λ _. run_over es (record w { running = false }) refl) (λ off. cc))
        (λ _. run_stopped es w h)
  run_stopped (keyframe_requested ∷ es) w h = run_stopped es (record w { force_kf = true }) h
  run_stopped (stop_requested ∷ es) w h = run_stopped es (record w { stopped = true }) refl

  pub keeps_off :
      (es : List Event) (w : VideoLoop)
      → w.running ≡ false
      → (run_video_loop interval es w).0.running ≡ false
  unfolding run_video_loop step
  keeps_off [] w h = h
  keeps_off (passes r ∷ es) w h =
      if_intro (λ (o : VideoLoop × List Action). (run_video_loop interval es o.0).0.running ≡ false)
        w.running (λ go. cc) (λ _. keeps_off es w h)
  keeps_off (keyframe_requested ∷ es) w h = keeps_off es (record w { force_kf = true }) h
  keeps_off (stop_requested ∷ es) w h = keeps_off es (record w { stopped = true }) h

  pub keyframe_request_served :
      (w : VideoLoop) (es : List Event) (r : Round)
      → w.running ≡ true
      → w.stopped ≡ false
      → w.next_due ≤ r.now + early_margin
      → AskedFirst (run_video_loop interval (keyframe_requested ∷ es) w).1
        × ((rest : List Action) × ((run_video_loop interval
                (keyframe_requested ∷ passes r ∷ es)
                w).1
              ≡ forces_keyframe ∷ captures r.now ∷ rest))
  unfolding run_video_loop step round
  keyframe_request_served w es r go on due = (
    run_asked es (record w { force_kf = true }) refl,
    let asked = record w { force_kf = true } in
        let (rest, e) = serve_asked r asked refl in
        let here : step interval (passes r) asked ≡ serve interval r asked = ground arith in
        (
          rest ++ (run_video_loop interval es (serve interval r asked).0).1,
          rw (here) (rw (e) refl),
        ),
  )

  -- After a request to stop nothing is captured, taken or sent any more, and the loop has ended with
  -- its next round.
  pub stop_request_served :
      (w : VideoLoop) (es : List Event) (r : Round)
      → ((run_video_loop interval (stop_requested ∷ es) w).1 ≡ [])
        × ((run_video_loop interval (stop_requested ∷ passes r ∷ es) w).0.running ≡ false)
  unfolding run_video_loop step round
  stop_request_served w es r = (
    run_stopped es (record w { stopped = true }) refl,
    if_intro (λ (o : VideoLoop × List Action). (run_video_loop interval es o.0).0.running ≡ false)
        w.running (λ _. keeps_off es (record w { stopped = true; running = false }) refl)
        (λ off. keeps_off es (record w { stopped = true }) off),
  )
