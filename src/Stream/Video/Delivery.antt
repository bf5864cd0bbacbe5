-- ===== src/Stream/Video/Delivery.antt =====
-- server-pc/src/stream.rs: what `run_video_loop` puts into the packet channel.
use remote_control.Base.{
  ℕ, suc, ◌+◌, ◌-◌, ◌/◌, ◌^◌, ◌≡◌, refl, Bool, true, false, List, [], ◌∷◌, ◌++◌, ltb, leb, arith,
  if_intro, Bool-cases, inl, inr, ap, ◌∙◌, ◌↔◌, ◌⊎◌, bit_and, drop, some, min, append_assoc,
  append-nil, sym, subst,
}
use remote_control.Protocol.{frame_header_len, peek_frame_header, video_type}
use remote_control.Protocol.Frames.{video_frame_layout}
use remote_control.Stream.Video.Requests.{run_over, keeps_off}
use remote_control.Stream.Video.{
  EncodedPacket, VideoLoop, Round, Captured, idle, failed, taken, Action, sleeps, forces_keyframe,
  captures, takes, sends, Event, passes, keyframe_requested, stop_requested, on_captured, captured,
  serve, early_margin, round, step, run_video_loop, send_packets, strike, wrap,
}

-- The packets that the encoder gave, and the frames that went into the channel.
abbrev pub packets_taken : List Action → List EncodedPacket
packets_taken [] = []
packets_taken (takes ps ∷ acts) = ps ++ packets_taken acts
packets_taken (_ ∷ acts) = packets_taken acts

abbrev pub frames_sent : List Action → List (List ℕ)
frames_sent [] = []
frames_sent (sends f ∷ acts) = f ∷ frames_sent acts
frames_sent (_ ∷ acts) = frames_sent acts

-- A video frame whose flag bits and payload are those of the packet.
abbrev pub Carries : List ℕ → EncodedPacket → Type 0
Carries f p =
    (flags : ℕ) × (peek_frame_header f ≡ some (video_type, flags))
    × ((bit_and flags 1 ≡ 1) ↔ (p.is_keyframe ≡ true))
    × ((bit_and flags 2 ≡ 2) ↔ (p.has_config ≡ true))
    × (drop frame_header_len f ≡ p.bytes)

abbrev pub CarryAll : List (List ℕ) → List EncodedPacket → Type 0
CarryAll [] [] = Unit
CarryAll (f ∷ fs) (p ∷ ps) = Carries f p × CarryAll fs ps
CarryAll [] (p ∷ ps) = ⊥
CarryAll (f ∷ fs) [] = ⊥

-- The frames that were sent carry the packets that were taken, in order, but for some at the end, and
-- none is missing where the flag is set.
abbrev Delivers : Bool → List Action → Type 0
Delivers whole acts =
    (done : List EncodedPacket) × (unsent : List EncodedPacket) × (packets_taken acts
      ≡ done ++ unsent)
    × CarryAll (frames_sent acts) done
    × (whole ≡ true → unsent ≡ [])

wrap-Carries : (p : EncodedPacket) (at : ℕ) → Carries (wrap p at) p
unfolding wrap
wrap-Carries p at =
    let (flags, head, key, config, stamp, payload) =
      video_frame_layout p.bytes (min (at / 1000) (2 ^ 64 - 1)) p.is_keyframe p.has_config
        (omega arith) in
    (flags, head, key, config, payload)

CarryAll-append :
    (fs : List (List ℕ)) (ps : List EncodedPacket) (gs : List (List ℕ)) (qs : List EncodedPacket)
    → CarryAll fs ps
    → CarryAll gs qs
    → CarryAll (fs ++ gs) (ps ++ qs)
CarryAll-append [] [] gs qs h k = k
CarryAll-append (f ∷ fs) (p ∷ ps) gs qs h k = (h.0, CarryAll-append fs ps gs qs h.1 k)
CarryAll-append [] (p ∷ ps) gs qs h k = absurd h
CarryAll-append (f ∷ fs) [] gs qs h k = absurd h

packets_taken-append :
    (xs ys : List Action) → packets_taken (xs ++ ys) ≡ packets_taken xs ++ packets_taken ys
packets_taken-append [] ys = refl
packets_taken-append (sleeps a ∷ xs) ys = packets_taken-append xs ys
packets_taken-append (forces_keyframe ∷ xs) ys = packets_taken-append xs ys
packets_taken-append (captures a ∷ xs) ys = packets_taken-append xs ys
packets_taken-append (takes ps ∷ xs) ys =
    ap (◌++◌ ps) (packets_taken-append xs ys)
    ∙ sym (append_assoc ps (packets_taken xs) (packets_taken ys))
packets_taken-append (sends b ∷ xs) ys = packets_taken-append xs ys

frames_sent-append :
    (xs ys : List Action) → frames_sent (xs ++ ys) ≡ frames_sent xs ++ frames_sent ys
frames_sent-append [] ys = refl
frames_sent-append (sleeps a ∷ xs) ys = frames_sent-append xs ys
frames_sent-append (forces_keyframe ∷ xs) ys = frames_sent-append xs ys
frames_sent-append (captures a ∷ xs) ys = frames_sent-append xs ys
frames_sent-append (takes ps ∷ xs) ys = frames_sent-append xs ys
frames_sent-append (sends b ∷ xs) ys = ap (◌∷◌ b) (frames_sent-append xs ys)

-- What follows a whole delivery.
Delivers-append :
    (whole : Bool) (xs ys : List Action)
    → Delivers true xs
    → Delivers whole ys
    → Delivers whole (xs ++ ys)
Delivers-append whole xs ys (ps, us, e, c, all) (qs, vs, e', c', all') = (
  ps ++ qs,
  vs,
  packets_taken-append xs ys
      ∙ ap (λ u. u ++ packets_taken ys) (e ∙ ap (◌++◌ ps) (all refl) ∙ append-nil ps)
      ∙ ap (◌++◌ ps) e'
      ∙ sym (append_assoc ps qs vs),
  subst (λ fs. CarryAll fs (ps ++ qs)) (sym (frames_sent-append xs ys))
      (CarryAll-append (frames_sent xs) ps (frames_sent ys) qs c c'),
  all',
)

silent :
    (whole : Bool) (acts : List Action)
    → packets_taken acts ≡ []
    → frames_sent acts ≡ []
    → Delivers whole acts
silent whole acts p f = ([], [], p, subst (λ fs. CarryAll fs []) (sym f) tt, λ _. refl)

send_packets-Carries :
    (ps : List EncodedPacket) (k : ℕ) (r : Round)
    → (done : List EncodedPacket) × (unsent : List EncodedPacket) × (ps ≡ done ++ unsent)
      × CarryAll (frames_sent (send_packets ps k r).1) done
      × (packets_taken (send_packets ps k r).1 ≡ [])
      × ((send_packets ps k r).0 ≡ true → unsent ≡ [])
unfolding send_packets
send_packets-Carries [] k r = ([], [], refl, tt, refl, λ _. refl)
send_packets-Carries (p ∷ ps) k r = elim (Bool-cases (r.open_at k)) [
  | inl o ↦
      let (done, unsent, e, c, none_taken, all) = send_packets-Carries ps (suc k) r in
      rw (o) (p ∷ done, unsent, ap (◌∷◌ p) e, (wrap-Carries p (r.stamps k), c), none_taken, all)
  | inr c ↦ rw (c) ([], p ∷ ps, refl, tt, refl, λ n. cc)
]

on_captured-Delivers :
    (interval : ℕ) (r : Round) (c : Captured) (w : VideoLoop)
    → Delivers (on_captured interval r c w).0.running (on_captured interval r c w).1
unfolding on_captured strike
on_captured-Delivers interval r idle w =
    if_intro (λ (o : VideoLoop × List Action). Delivers o.0.running o.1)
      (leb 30 (w.idle_strikes + 1)) (λ _. silent w.running (forces_keyframe ∷ []) refl refl)
      (λ _. silent w.running [] refl refl)
on_captured-Delivers interval r failed w = silent false [] refl refl
on_captured-Delivers interval r (taken ps) w =
    let (done, unsent, e, c, none_taken, all) = send_packets-Carries ps 0 r in
    (done, unsent, ap (◌++◌ ps) none_taken ∙ append-nil ps ∙ e, c, all)

step-Delivers :
    (interval : ℕ) (e : Event) (w : VideoLoop)
    → Delivers (step interval e w).0.running (step interval e w).1
unfolding step round serve
step-Delivers interval (passes r) w =
    let P : VideoLoop × List Action → Type 0 = λ o. Delivers o.0.running o.1 in
    let captured_then =
      on_captured-Delivers interval r (captured w.slot r) (record w { force_kf = false }) in
    if_intro P w.running
      (λ _.
        if_intro P w.stopped (λ _. silent false [] refl refl)
          (λ _.
            if_intro P (ltb (r.now + early_margin) w.next_due)
              (λ _.
                silent w.running (sleeps (min ((w.next_due - r.now) / 1000000) 20) ∷ []) refl refl)
              (λ _.
                if_intro
                  (λ (asked : List Action).
                    Delivers
                      (on_captured interval r (captured w.slot r)
                        (record w { force_kf = false })).0.running
                      (asked
                        ++ (captures r.now
                            ∷ (on_captured interval r (captured w.slot r)
                                (record w { force_kf = false })).1)))
                  w.force_kf (λ _. captured_then) (λ _. captured_then))))
      (λ _. silent w.running [] refl refl)
step-Delivers interval keyframe_requested w = silent w.running [] refl refl
step-Delivers interval stop_requested w = silent w.running [] refl refl

run-Delivers :
    (interval : ℕ) (es : List Event) (w : VideoLoop)
    → Delivers (run_video_loop interval es w).0.running (run_video_loop interval es w).1
unfolding run_video_loop
run-Delivers interval [] w = silent w.running [] refl refl
run-Delivers interval (e ∷ es) w =
    let next = step interval e w in
    let rest = run_video_loop interval es next.0 in
    let first : Delivers next.0.running next.1 = step-Delivers interval e w in
    elim (Bool-cases next.0.running) [
      | inl on ↦
          Delivers-append rest.0.running next.1 rest.1 (subst (λ b. Delivers b next.1) on first)
            (run-Delivers interval es next.0)
      | inr off ↦
          subst (λ acts. Delivers rest.0.running (next.1 ++ acts))
            (sym (run_over interval es next.0 off))
            (subst (Delivers rest.0.running) (sym (append-nil next.1))
              (subst (λ b. Delivers b next.1) (off ∙ sym (keeps_off interval es next.0 off)) first))
    ]

-- The frames that the loop puts into the channel carry the packets that the encoder gave, in the same
-- order, each with the keyframe and configuration bits and the bytes of its packet; packets at the end
-- may be missing, but none is while the loop still runs.
pub video_frames_in_order :
    (interval : ℕ) (es : List Event) (w : VideoLoop)
    → let (w', acts) = run_video_loop interval es w in
      (done : List EncodedPacket) × (unsent : List EncodedPacket) × (packets_taken acts
        ≡ done ++ unsent)
      × CarryAll (frames_sent acts) done
      × ((w'.running ≡ false) ⊎ (unsent ≡ []))
video_frames_in_order interval es w =
    let (done, unsent, e, c, all) = run-Delivers interval es w in
    (
      done,
      unsent,
      e,
      c,
      elim (Bool-cases (run_video_loop interval es w).0.running) [
        | inl on ↦ inr (all on)
        | inr off ↦ inl off
      ],
    )
