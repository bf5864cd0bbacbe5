-- ===== src/RelayClient/Writer/Arrives/Traffic.antt =====
-- server-pc/src/relay_client.rs: the steps of the writer of the tunnel.
use remote_control.Base.{
  ℕ, true, false, List, [], ◌∷◌, ◌++◌, map, if◌then◌else◌, ◌≡◌, refl, ◌⊎◌, inl, inr, ap, sym, ◌∙◌,
  append-nil, if_intro, list_intro, arith, Bool-cases,
}
use remote_control.RelayClient.Frame.{TunnelFrame, encode}
use remote_control.RelayClient.Writer.{
  TunnelOut, frame_out, ping_out, TunnelWriter, host_send, sink_send, on_frame_turn, on_tick,
  WriterEvent, host_sends, senders_gone, frame_turn, tick, writer_step, writer_run,
}

-- The binary messages, which the relay decodes; it answers a ping by itself.
abbrev pub binaries : List TunnelOut → List (List ℕ)
binaries [] = []
binaries (frame_out bytes ∷ out) = bytes ∷ binaries out
binaries (ping_out ∷ out) = binaries out

-- The frames that are sent to the writer while it runs.
abbrev pub newly : WriterEvent → TunnelWriter → List TunnelFrame
newly (host_sends f) w = if w.writing then f ∷ [] else []
newly senders_gone w = []
newly (frame_turn sent) w = []
newly (tick sent) w = []

abbrev pub queued : List WriterEvent → TunnelWriter → List TunnelFrame
queued [] w = []
queued (e ∷ es) w = newly e w ++ queued es (writer_step e w)

binaries-append : (xs ys : List TunnelOut) → binaries (xs ++ ys) ≡ binaries xs ++ binaries ys
binaries-append [] ys = refl
binaries-append (frame_out bytes ∷ xs) ys = ap (◌∷◌ bytes) (binaries-append xs ys)
binaries-append (ping_out ∷ xs) ys = binaries-append xs ys

-- Some frames were sent since, and others may be left.
abbrev pub Keeps : TunnelWriter → List TunnelFrame → TunnelWriter → Type 0
Keeps w new w' =
    (done : List TunnelFrame) × (rest : List TunnelFrame) × (binaries w'.wire
      ≡ binaries w.wire ++ map encode done)
    × (w.host_out ++ new ≡ done ++ rest)
    × ((w'.writing ≡ false) ⊎ (rest ≡ w'.host_out))

abbrev pub IsIdle : TunnelWriter → List TunnelFrame → TunnelWriter → Type 0
IsIdle w new w' = (w'.wire ≡ w.wire) × (new ≡ []) × (w'.writing ≡ false)

host_send-on :
    (f : TunnelFrame) (w : TunnelWriter)
    → w.writing ≡ true
    → (host_send f w ≡ record w { host_out = w.host_out ++ (f ∷ []) })
      × (newly (host_sends f) w ≡ f ∷ [])
unfolding host_send
host_send-on f w on = (ground arith, ground arith)

host_send-off :
    (f : TunnelFrame) (w : TunnelWriter)
    → w.writing ≡ false
    → (host_send f w ≡ w) × (newly (host_sends f) w ≡ [])
unfolding host_send
host_send-off f w off = (ground arith, ground arith)

step-IsIdle :
    (e : WriterEvent) (w : TunnelWriter)
    → w.writing ≡ false
    → IsIdle w (newly e w) (writer_step e w)
unfolding writer_step
step-IsIdle (host_sends f) w off =
    let (same, new) = host_send-off f w off in
    (ap (λ v. v.wire) same, new, ap (λ v. v.writing) same ∙ off)
step-IsIdle senders_gone w off = (refl, refl, off)
step-IsIdle (frame_turn sent) w off =
    if_intro (IsIdle w []) w.writing (λ on. cc) (λ _. (refl, refl, off))
step-IsIdle (tick sent) w off = if_intro (IsIdle w []) w.writing (λ on. cc) (λ _. (refl, refl, off))

pub run-IsIdle :
    (es : List WriterEvent) (w : TunnelWriter)
    → w.writing ≡ false
    → IsIdle w (queued es w) (writer_run es w)
unfolding writer_run
run-IsIdle [] w off = (refl, refl, off)
run-IsIdle (e ∷ es) w off =
    let (wire, new, off') = step-IsIdle e w off in
    let (wires, news, off'') = run-IsIdle es (writer_step e w) off' in
    (wires ∙ wire, ap (λ fs. fs ++ queued es (writer_step e w)) new ∙ news, off'')

pub nothing_sent :
    (w w' : TunnelWriter)
    → binaries w'.wire ≡ binaries w.wire
    → (w'.writing ≡ false) ⊎ (w.host_out ≡ w'.host_out)
    → Keeps w [] w'
nothing_sent w w' b h =
    ([], w.host_out, b ∙ sym (append-nil (binaries w.wire)), append-nil w.host_out, h)

waits-Keeps :
    (w : TunnelWriter) → Keeps w [] (if w.host_open then w else record w { writing = false })
waits-Keeps w =
    if_intro (Keeps w []) w.host_open (λ _. nothing_sent w w refl (inr refl))
      (λ _. nothing_sent w (record w { writing = false }) refl (inl refl))

pub step-Keeps : (e : WriterEvent) (w : TunnelWriter) → Keeps w (newly e w) (writer_step e w)
unfolding writer_step on_frame_turn on_tick sink_send
step-Keeps (host_sends f) w = elim (Bool-cases w.writing) [
  | inl on ↦
      let (sent, new) = host_send-on f w on in
      (
        [],
        w.host_out ++ (f ∷ []),
        ap (λ v. binaries v.wire) sent ∙ sym (append-nil (binaries w.wire)),
        ap (◌++◌ w.host_out) new,
        inr (sym (ap (λ v. v.host_out) sent)),
      )
  | inr off ↦
      let (same, new) = host_send-off f w off in
      (
        [],
        w.host_out,
        ap (λ v. binaries v.wire) same ∙ sym (append-nil (binaries w.wire)),
        ap (◌++◌ w.host_out) new ∙ append-nil w.host_out,
        inr (sym (ap (λ v. v.host_out) same)),
      )
]
step-Keeps senders_gone w = nothing_sent w (record w { host_open = false }) refl (inr refl)
step-Keeps (frame_turn true) w =
    if_intro (Keeps w []) w.writing
      (λ _.
        list_intro (Keeps w []) w.host_out (λ _. waits-Keeps w)
          (λ f fs e. (
            f ∷ [],
            fs,
            binaries-append w.wire (frame_out (encode f) ∷ []),
            append-nil w.host_out ∙ e,
            inr refl,
          )))
      (λ _. nothing_sent w w refl (inr refl))
step-Keeps (frame_turn false) w =
    if_intro (Keeps w []) w.writing
      (λ _.
        list_intro (Keeps w []) w.host_out (λ _. waits-Keeps w)
          (λ f fs e. nothing_sent w (record w { host_out = fs; writing = false }) refl (inl refl)))
      (λ _. nothing_sent w w refl (inr refl))
step-Keeps (tick true) w =
    if_intro (Keeps w []) w.writing
      (λ _.
        nothing_sent w (record w { wire = w.wire ++ (ping_out ∷ []) })
          (binaries-append w.wire (ping_out ∷ []) ∙ append-nil (binaries w.wire)) (inr refl))
      (λ _. nothing_sent w w refl (inr refl))
step-Keeps (tick false) w =
    if_intro (Keeps w []) w.writing
      (λ _. nothing_sent w (record w { writing = false }) refl (inl refl))
      (λ _. nothing_sent w w refl (inr refl))
