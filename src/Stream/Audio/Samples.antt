-- ===== src/Stream/Audio/Samples.antt =====
-- server-pc/src/stream.rs: no sample of `run_audio_loop` is lost or changes its place.
use remote_control.Base.{
  ℕ, zero, suc, ◌-◌, ◌*◌, ◌/◌, ◌^◌, ◌≤◌, ◌<◌, ◌≡◌, refl, true, false, List, [], ◌∷◌, ◌++◌, Option,
  some, length, min, leb, take, drop, replicate, All, All-append, length-take, length-drop,
  length-append, take-append-drop, append_assoc, append-nil, Bool-cases, ◌⊎◌, inl, inr, arith,
  if_intro, option_intro, ap, sym, ◌∙◌, subst,
}
use remote_control.Base.Bytes.{le_bytes}
use remote_control.Protocol.{build_audio_frame, frame_header_len}
use remote_control.Stream.Audio.{
  CaptureCall, failed, silent, heard, AudioRound, AudioLoop, Done, read_into, drain, audio_round,
  audio_loop, run_audio_loop,
}

-- The payload of an audio frame.
drop-build_audio_frame :
    (packet : List ℕ) (pts : ℕ) → drop frame_header_len (build_audio_frame packet pts) ≡ packet
unfolding build_audio_frame le_bytes
drop-build_audio_frame packet pts = ground arith

module _ {ℓ} {A : Type ℓ} where
  abbrev pub concat : List (List A) → List A
  concat [] = []
  concat (xs ∷ xss) = xs ++ concat xss

  concat-append : (xss yss : List (List A)) → concat (xss ++ yss) ≡ concat xss ++ concat yss
  concat-append [] yss = refl
  concat-append (xs ∷ xss) yss =
      ap (◌++◌ xs) (concat-append xss yss) ∙ sym (append_assoc xs (concat xss) (concat yss))

module _ {ℓ} {A : Type ℓ} (silence : A) where
  -- What the calls bring before one fails.
  abbrev pub samples : List (CaptureCall A) → List A
  samples [] = []
  samples (failed ∷ calls) = []
  samples (silent frames ∷ calls) = replicate (frames * 2) silence ++ samples calls
  samples (heard xs ∷ calls) = xs ++ samples calls

  abbrev pub all_samples : List (AudioRound A) → List A
  all_samples [] = []
  all_samples (r ∷ rs) = samples r.calls ++ all_samples rs

  read_into-samples :
      (calls : List (CaptureCall A)) (out : List A)
      → (read_into silence calls out).0 ≡ out ++ samples calls
  unfolding read_into
  read_into-samples [] out = sym (append-nil out)
  read_into-samples (failed ∷ calls) out = sym (append-nil out)
  read_into-samples (silent n ∷ calls) out =
      read_into-samples calls (out ++ replicate (n * 2) silence)
      ∙ append_assoc out (replicate (n * 2) silence) (samples calls)
  read_into-samples (heard xs ∷ calls) out =
      read_into-samples calls (out ++ xs) ∙ append_assoc out xs (samples calls)

module _ {ℓ} {A E : Type ℓ} (silence : A) (encode : E → List A → E × Option (List ℕ)) where
  -- The encoder behind some frames.
  abbrev pub behind : E → List (List A) → E
  behind e [] = e
  behind e (f ∷ fs) = behind (encode e f).0 fs

  -- The messages carry the packets of the frames, in order; the last frame may have none.
  abbrev pub Carry : E → List (List A) → List (List ℕ) → Type 0
  Carry e [] [] = Unit
  Carry e (f ∷ fs) [] = length fs ≡ 0
  Carry e [] (m ∷ ms) = ⊥
  Carry e (f ∷ fs) (m ∷ ms) =
      (packet : List ℕ) × ((encode e f).1 ≡ some packet)
      × (drop frame_header_len m ≡ packet)
      × Carry (encode e f).0 fs ms

  -- The samples `xs` are cut into whole frames, but for a rest, which is pending while the loop runs.
  abbrev Cuts : List A → E → Done A E → Type ℓ
  Cuts xs e (w, fs, ms) =
      (rest : List A) × (xs ≡ concat fs ++ rest)
      × All (λ f. length f ≡ 1920) fs
      × Carry e fs ms
      × (w.running ≡ true
          → (rest ≡ w.pending)
            × (length rest < 1920)
            × (length fs ≡ length ms)
            × (w.encoder ≡ behind e fs))

  -- The first frame, and what the encoder and the channel make of it.
  cut_frame :
      (xs : List A) (e : E) (o : Done A E) (message packet : List ℕ)
      → 1920 ≤ length xs
      → (encode e (take 1920 xs)).1 ≡ some packet
      → drop frame_header_len message ≡ packet
      → Cuts (drop 1920 xs) (encode e (take 1920 xs)).0 o
      → Cuts xs e (o.0, take 1920 xs ∷ o.1, message ∷ o.2)
  cut_frame xs e (w, fs, ms) message packet h given payload (rest, cut, whole, carry, go) = (
    rest,
    sym (take-append-drop 1920 xs)
        ∙ ap (◌++◌ (take 1920 xs)) cut
        ∙ sym (append_assoc (take 1920 xs) (concat fs) rest),
    (omega (arith, length-take 1920 xs), whole),
    (packet, given, payload, carry),
    λ on. ((go on).0, (go on).1, ap suc (go on).2, (go on).3),
  )

  last_frame :
      (xs : List A) (e : E) (w : AudioLoop A E)
      → 1920 ≤ length xs
      → w.running ≡ false
      → Cuts xs e (w, take 1920 xs ∷ [], [])
  last_frame xs e w h off = (
    drop 1920 xs,
    sym (take-append-drop 1920 xs)
        ∙ ap (λ ys. ys ++ drop 1920 xs) (sym (append-nil (take 1920 xs))),
    (omega (arith, length-take 1920 xs), tt),
    refl,
    λ on. cc,
  )

  no_frame :
      (xs : List A) (e : E) (w : AudioLoop A E)
      → (w.running ≡ true → (xs ≡ w.pending) × (length xs < 1920) × (w.encoder ≡ e))
      → Cuts xs e (w, [], [])
  no_frame xs e w h = (xs, refl, tt, tt, λ on. ((h on).0, (h on).1, refl, (h on).2))

  drain-Cuts :
      (fuel : ℕ) (r : AudioRound A) (k : ℕ) (w : AudioLoop A E)
      → length w.pending ≤ fuel
      → Cuts w.pending w.encoder (drain silence encode fuel r k w)
  unfolding drain
  drain-Cuts zero r k w h = no_frame w.pending w.encoder w (λ _. (refl, omega arith, refl))
  drain-Cuts (suc fuel) r k w h =
      let P : Done A E → Type ℓ = Cuts w.pending w.encoder in
      let frame : List A = take 1920 w.pending in
      let w' : AudioLoop A E = record w {
        pending = drop 1920 w.pending;
        encoder = (encode w.encoder frame).0;
      } in
      if_intro P (leb 1920 (length w.pending))
        (λ enough.
          let full : 1920 ≤ length w.pending = ground arith in
          option_intro P (encode w.encoder frame).1
            (last_frame w.pending w.encoder (record w' { running = false }) full refl)
            (λ packet given.
              if_intro P (r.open_at k)
                (λ _.
                  cut_frame w.pending w.encoder (drain silence encode fuel r (suc k) w')
                    (build_audio_frame packet (min (r.stamps k / 1000) (2 ^ 64 - 1))) packet full
                    given (drop-build_audio_frame packet (min (r.stamps k / 1000) (2 ^ 64 - 1)))
                    (drain-Cuts fuel r (suc k) w' (omega (arith, length-drop 1920 w.pending))))
                (λ _. last_frame w.pending w.encoder (record w' { running = false }) full refl)))
        (λ few. no_frame w.pending w.encoder w (λ _. (refl, ground arith, refl)))

  round-Cuts :
      (r : AudioRound A) (w : AudioLoop A E)
      → Cuts (w.pending ++ samples silence r.calls) w.encoder (audio_round silence encode r w)
  unfolding audio_round
  round-Cuts r w =
      let all : List A = w.pending ++ samples silence r.calls in
      let P : Done A E → Type ℓ = Cuts all w.encoder in
      let got = read_into silence r.calls w.pending in
      if_intro P r.stop (λ _. no_frame all w.encoder (record w { running = false }) (λ on. cc))
        (λ _.
          if_intro P got.1
            (λ _.
              subst
                (λ xs.
                  Cuts xs w.encoder
                    (drain silence encode (length got.0) r 0 (record w { pending = got.0 })))
                (read_into-samples silence r.calls w.pending)
                (drain-Cuts (length got.0) r 0 (record w { pending = got.0 }) (omega arith)))
            (λ _.
              no_frame all w.encoder (record w { pending = got.0; running = false }) (λ on. cc)))

  behind-append : (e : E) (fs gs : List (List A)) → behind e (fs ++ gs) ≡ behind (behind e fs) gs
  behind-append e [] gs = refl
  behind-append e (f ∷ fs) gs = behind-append (encode e f).0 fs gs

  Carry-append :
      (e : E) (fs gs : List (List A)) (ms ns : List (List ℕ))
      → length fs ≡ length ms
      → Carry e fs ms
      → Carry (behind e fs) gs ns
      → Carry e (fs ++ gs) (ms ++ ns)
  Carry-append e [] gs [] ns l h k = k
  Carry-append e (f ∷ fs) gs (m ∷ ms) ns l (p, given, payload, h) k =
      (p, given, payload, Carry-append (encode e f).0 fs gs ms ns (omega arith) h k)
  Carry-append e [] gs (m ∷ ms) ns l h k = absurd h
  Carry-append e (f ∷ fs) gs [] ns l h k = absurd (omega arith)

  -- A pass, and then what the later passes do; or the end.
  Cuts-append :
      (xs ys : List A) (e : E) (o o' : Done A E)
      → o.0.running ≡ true
      → Cuts xs e o
      → Cuts (o.0.pending ++ ys) o.0.encoder o'
      → Cuts (xs ++ ys) e (o'.0, o.1 ++ o'.1, o.2 ++ o'.2)
  Cuts-append xs ys e (w, fs, ms) (w', gs, ns) on (rest, cut, whole, carry, go)
        (rest', cut', whole', carry', go') =
      (
        rest',
        ap (λ zs. zs ++ ys) (cut ∙ ap (◌++◌ (concat fs)) (go on).0)
            ∙ append_assoc (concat fs) w.pending ys
            ∙ ap (◌++◌ (concat fs)) cut'
            ∙ sym (append_assoc (concat fs) (concat gs) rest')
            ∙ ap (λ zs. zs ++ rest') (sym (concat-append fs gs)),
        All-append (λ f. length f ≡ 1920) fs gs whole whole',
        Carry-append e fs gs ms ns (go on).2 carry (subst (λ d. Carry d gs ns) (go on).3 carry'),
        λ on'. (
          (go' on').0,
          (go' on').1,
          omega (arith, length-append fs gs, length-append ms ns, (go on).2, (go' on').2),
          (go' on').3 ∙ ap (λ d. behind d gs) (go on).3 ∙ sym (behind-append e fs gs),
        ),
      )

  Cuts-over :
      (xs ys : List A) (e : E) (o : Done A E)
      → o.0.running ≡ false
      → Cuts xs e o
      → Cuts (xs ++ ys) e (o.0, o.1 ++ [], o.2 ++ [])
  Cuts-over xs ys e (w, fs, ms) off (rest, cut, whole, carry, go) =
      rw (append-nil fs, append-nil ms)
        (
          rest ++ ys,
          ap (λ zs. zs ++ ys) cut ∙ append_assoc (concat fs) rest ys,
          whole,
          carry,
          λ on. cc,
        )

  audio_loop_over :
      (rs : List (AudioRound A)) (w : AudioLoop A E)
      → w.running ≡ false
      → audio_loop silence encode rs w ≡ (w, [], [])
  unfolding audio_loop
  audio_loop_over [] w off = refl
  audio_loop_over (r ∷ rs) w off =
      if_intro (λ (o : Done A E). o ≡ (w, [], [])) w.running (λ on. cc) (λ _. refl)

  audio_loop-Cuts :
      (rs : List (AudioRound A)) (w : AudioLoop A E)
      → w.running ≡ true
      → length w.pending < 1920
      → Cuts (w.pending ++ all_samples silence rs) w.encoder (audio_loop silence encode rs w)
  unfolding audio_loop
  audio_loop-Cuts [] w on few =
      no_frame (w.pending ++ []) w.encoder w
        (λ _. (append-nil w.pending, rw (append-nil w.pending) few, refl))
  audio_loop-Cuts (r ∷ rs) w on few =
      let first = audio_round silence encode r w in
      let rest = audio_loop silence encode rs first.0 in
      let later : List A = all_samples silence rs in
      let start : Cuts (w.pending ++ samples silence r.calls) w.encoder first = round-Cuts r w in
      let both : Done A E = (rest.0, first.1 ++ rest.1, first.2 ++ rest.2) in
      let cut : Cuts ((w.pending ++ samples silence r.calls) ++ later) w.encoder both =
        elim (Bool-cases first.0.running) [
          | inl go ↦
              Cuts-append (w.pending ++ samples silence r.calls) later w.encoder first rest go start
                (audio_loop-Cuts rs first.0 go (rw (← (start.4 go).0) (start.4 go).1))
          | inr off ↦
              rw (audio_loop_over rs first.0 off)
                (Cuts-over (w.pending ++ samples silence r.calls) later w.encoder first off start)
        ] in
      if_intro (Cuts (w.pending ++ (samples silence r.calls ++ later)) w.encoder) w.running
        (λ _.
          subst (λ xs. Cuts xs w.encoder both)
            (append_assoc w.pending (samples silence r.calls) later) cut)
        (λ off. cc)

  -- For a device of two channels at 48 kHz, whatever the calls of WASAPI, the encoder and the channel
  -- answer: the samples, in their order, are cut into frames of 1920 for the encoder, and nothing but a
  -- rest is left over; the messages carry the packets of these frames, in order. While the loop runs, the
  -- rest is pending and less than a frame, and every frame has its message.
  pub audio_samples_in_order :
      (rs : List (AudioRound A)) (e : E)
      → let (w, fs, ms) = run_audio_loop silence encode 2 48000 rs e in
        (rest : List A) × (all_samples silence rs ≡ concat fs ++ rest)
        × All (λ f. length f ≡ 1920) fs
        × Carry e fs ms
        × ((w.running ≡ false)
            ⊎ ((rest ≡ w.pending) × (length rest < 1920) × (length fs ≡ length ms)))
  unfolding run_audio_loop
  audio_samples_in_order rs e =
      let start : AudioLoop A E = record { pending = []; encoder = e; running = true } in
      let (rest, cut, whole, carry, go) = audio_loop-Cuts rs start refl (omega arith) in
      (
        rest,
        cut,
        whole,
        carry,
        elim (Bool-cases (audio_loop silence encode rs start).0.running) [
          | inl on ↦ inr ((go on).0, (go on).1, (go on).2)
          | inr off ↦ inl off
        ],
      )
