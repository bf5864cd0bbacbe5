-- ===== src/Encoder/Mft/Samples.antt =====
-- server-pc/src/encoder/nvenc_mft.rs: the samples reach the encoder in order.
use remote_control.Base.{
  ℕ, true, false, List, [], ◌∷◌, ◌++◌, none, some, ◌≡◌, refl, sym, ap, ◌∙◌, append_assoc,
  append-nil, if_intro, option_intro, ◌*◌, ◌/◌,
}
use remote_control.Encoder.{ResizeCrate, frame_to_nv12}
use remote_control.Encoder.Mft.{
  Sample, MftEvent, need_input, have_output, other_event, event_error, Action, queues, hands, emits,
  MftFrame, NvencMftEncoder, Outcome, and_then, drain_events, sample_of, queue_sample, encode,
  force_keyframe, Use, keyframe, encodes, use_once, use_all,
}

abbrev pub queued : List Action → List Sample
queued [] = []
queued (queues s ∷ acts) = s ∷ queued acts
queued (_ ∷ acts) = queued acts

abbrev pub handed : List Action → List Sample
handed [] = []
handed (hands s ∷ acts) = s ∷ handed acts
handed (_ ∷ acts) = handed acts

queued-append : (xs ys : List Action) → queued (xs ++ ys) ≡ queued xs ++ queued ys
queued-append [] ys = refl
queued-append (queues s ∷ xs) ys = ap (◌∷◌ s) (queued-append xs ys)
queued-append (hands s ∷ xs) ys = queued-append xs ys
queued-append (emits p ∷ xs) ys = queued-append xs ys

handed-append : (xs ys : List Action) → handed (xs ++ ys) ≡ handed xs ++ handed ys
handed-append [] ys = refl
handed-append (queues s ∷ xs) ys = handed-append xs ys
handed-append (hands s ∷ xs) ys = ap (◌∷◌ s) (handed-append xs ys)
handed-append (emits p ∷ xs) ys = handed-append xs ys

-- Nothing is lost, doubled or overtaken between the queue and the transform.
abbrev pub InOrder : NvencMftEncoder → NvencMftEncoder → List Action → Type 0
InOrder e e' acts = handed acts ++ e'.pending_inputs ≡ e.pending_inputs ++ queued acts

drain_events-InOrder :
    (events : List MftEvent) (queue : List Sample)
    → (handed (drain_events events queue).1 ++ (drain_events events queue).0 ≡ queue)
      × (queued (drain_events events queue).1 ≡ [])
unfolding drain_events and_then
drain_events-InOrder [] queue = (refl, refl)
drain_events-InOrder (event_error ∷ events) queue = (refl, refl)
drain_events-InOrder (other_event ∷ events) queue = drain_events-InOrder events queue
drain_events-InOrder (have_output none ∷ events) queue = (refl, refl)
drain_events-InOrder (have_output (some p) ∷ events) queue = drain_events-InOrder events queue
drain_events-InOrder (need_input ok ∷ events) [] = drain_events-InOrder events []
drain_events-InOrder (need_input true ∷ events) (s ∷ later) =
    let (order, none_queued) = drain_events-InOrder events later in (ap (◌∷◌ s) order, none_queued)
drain_events-InOrder (need_input false ∷ events) (s ∷ later) = (refl, refl)

queue_sample-InOrder :
    (f : MftFrame) (planes : List ℕ × List ℕ) (e : NvencMftEncoder)
    → InOrder e (queue_sample f planes e).0 (queue_sample f planes e).1
unfolding queue_sample
queue_sample-InOrder f planes e =
    let sample = sample_of f planes e in
    let (order, none_queued) = drain_events-InOrder f.events (e.pending_inputs ++ (sample ∷ [])) in
    order ∙ ap (λ qs. e.pending_inputs ++ (sample ∷ qs)) (sym none_queued)

nothing_done : (e : NvencMftEncoder) → InOrder e e []
nothing_done e = sym (append-nil e.pending_inputs)

use_once-InOrder :
    (resize : ResizeCrate) (u : Use) (e : NvencMftEncoder)
    → InOrder e (use_once resize u e).0 (use_once resize u e).1
unfolding use_once encode force_keyframe
use_once-InOrder resize keyframe e = nothing_done e
use_once-InOrder resize (encodes f) e =
    let c = e.config in
    let converted =
      frame_to_nv12 resize e.resizer f.frame c.width c.height (c.width * c.height * 3 / 2) in
    let e' : NvencMftEncoder = record e { resizer = converted.0 } in
    let P : Outcome → Type 0 = λ o. InOrder e o.0 o.1 in
    if_intro P f.is_bgra8
      (λ _. option_intro P converted.1 (nothing_done e) (λ planes _.
        if_intro P f.sample_made (λ _. queue_sample-InOrder f planes e') (λ _. nothing_done e)))
      (λ _. nothing_done e)

-- Over any use of the encoder, whatever Media Foundation answers: the samples that were handed to the
-- transform, with those that wait behind them, are the ones that waited before and those that were queued
-- since, each once and in the order in which they were queued.
pub samples_in_order :
    (resize : ResizeCrate) (us : List Use) (e : NvencMftEncoder)
    → let (e', acts) = use_all resize us e in
      handed acts ++ e'.pending_inputs ≡ e.pending_inputs ++ queued acts
unfolding use_all
samples_in_order resize [] e = nothing_done e
samples_in_order resize (u ∷ us) e =
    let (e1, first) = use_once resize u e in
    let (e2, later) = use_all resize us e1 in
    ap (λ hs. hs ++ e2.pending_inputs) (handed-append first later)
    ∙ append_assoc (handed first) (handed later) e2.pending_inputs
    ∙ ap (◌++◌ (handed first)) (samples_in_order resize us e1)
    ∙ sym (append_assoc (handed first) e1.pending_inputs (queued later))
    ∙ ap (λ qs. qs ++ queued later) (use_once-InOrder resize u e)
    ∙ append_assoc e.pending_inputs (queued first) (queued later)
    ∙ ap (◌++◌ e.pending_inputs) (sym (queued-append first later))
