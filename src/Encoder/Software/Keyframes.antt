-- ===== src/Encoder/Software/Keyframes.antt =====
-- server-pc/src/encoder/mf_h264.rs: a request for a keyframe is served once.
use remote_control.Base.{
  ℕ, suc, ◌*◌, ◌/◌, Bool, true, false, List, [], ◌∷◌, ◌++◌, ◌≡◌, refl, ◌⊎◌, inl, inr, if◌then◌else◌,
  ◌∙◌, ap, replicate, map, if_intro, option_intro,
}
use remote_control.Encoder.{ResizeCrate, frame_to_nv12}
use remote_control.Encoder.Software.{
  SoftwareFrame, OutputAnswer, gives, no_sample, need_more_input, output_error, SoftwareAction,
  inputs, emits, MediaFoundationH264Encoder, force_keyframe, drain_output, input_sample,
  process_sample, encode, Encoded, keyframe, encodes, software_use,
}

-- The marks of the samples that are handed over.
abbrev pub marks : List SoftwareAction → List Bool
marks [] = []
marks (inputs s ∷ acts) = s.clean_point ∷ marks acts
marks (emits p ∷ acts) = marks acts

marks-append : (xs ys : List SoftwareAction) → marks (xs ++ ys) ≡ marks xs ++ marks ys
marks-append [] ys = refl
marks-append (inputs s ∷ xs) ys = ap (◌∷◌ s.clean_point) (marks-append xs ys)
marks-append (emits p ∷ xs) ys = marks-append xs ys

marks-drain_output : (answers : List OutputAnswer) → marks (drain_output answers).0 ≡ []
unfolding drain_output
marks-drain_output [] = refl
marks-drain_output (gives p ∷ answers) = marks-drain_output answers
marks-drain_output (no_sample ∷ answers) = refl
marks-drain_output (need_more_input ∷ answers) = refl
marks-drain_output (output_error ∷ answers) = refl

-- A frame hands over one sample, marked where a keyframe is pending, or none.
abbrev Marks : MediaFoundationH264Encoder → Encoded → Type 0
Marks e o =
    ((marks o.1 ≡ []) × (o.0.pending_keyframe ≡ e.pending_keyframe))
    ⊎ ((marks o.1 ≡ e.pending_keyframe ∷ []) × (o.0.pending_keyframe ≡ false))

encode-Marks :
    (resize : ResizeCrate) (f : SoftwareFrame) (e : MediaFoundationH264Encoder)
    → Marks e (encode resize f e)
unfolding encode process_sample input_sample
encode-Marks resize f e =
    let c = e.config in
    let converted =
      frame_to_nv12 resize e.resizer f.frame c.width c.height (c.width * c.height * 3 / 2) in
    let packets : marks (if f.input_taken then (drain_output f.outputs).0 else []) ≡ [] =
      if_intro (λ acts. marks acts ≡ []) f.input_taken (λ _. marks-drain_output f.outputs)
        (λ _. refl) in
    if_intro (Marks e) f.is_bgra8
      (λ _. option_intro (Marks e) converted.1 (inl (refl, refl)) (λ planes _.
        if_intro (Marks e) f.sample_made (λ _. inr (ap (◌∷◌ e.pending_keyframe) packets, refl))
          (λ _. inl (refl, refl))))
      (λ _. inl (refl, refl))

module _ (resize : ResizeCrate) where
  later_unmarked :
      (fs : List SoftwareFrame) (e : MediaFoundationH264Encoder)
      → e.pending_keyframe ≡ false
      → (n : ℕ) × (marks (software_use resize (map encodes fs) e).1 ≡ replicate n false)
  unfolding software_use
  later_unmarked [] e off = (0, refl)
  later_unmarked (f ∷ fs) e off =
      let out = encode resize f e in
      let acts = (software_use resize (map encodes fs) out.0).1 in
      elim (encode-Marks resize f e) [
        | inl (none_marked, kept) ↦
            let (n, all) = later_unmarked fs out.0 (kept ∙ off) in
            (n, marks-append out.1 acts ∙ ap (λ ms. ms ++ marks acts) none_marked ∙ all)
        | inr (one, cleared) ↦
            let (n, all) = later_unmarked fs out.0 cleared in
            (
              suc n,
              marks-append out.1 acts
                  ∙ ap (λ ms. ms ++ marks acts) (one ∙ ap (λ b. b ∷ []) off)
                  ∙ ap (◌∷◌ false) all,
            )
      ]

  first_marked :
      (fs : List SoftwareFrame) (e : MediaFoundationH264Encoder)
      → e.pending_keyframe ≡ true
      → (marks (software_use resize (map encodes fs) e).1 ≡ [])
        ⊎ ((n : ℕ) × (marks (software_use resize (map encodes fs) e).1 ≡ true ∷ replicate n false))
  unfolding software_use
  first_marked [] e on = inl refl
  first_marked (f ∷ fs) e on =
      let out = encode resize f e in
      let acts = (software_use resize (map encodes fs) out.0).1 in
      let whole = marks-append out.1 acts in
      elim (encode-Marks resize f e) [
        | inl (none_marked, kept) ↦
            let skip = whole ∙ ap (λ ms. ms ++ marks acts) none_marked in
            elim (first_marked fs out.0 (kept ∙ on)) [
              | inl nothing ↦ inl (skip ∙ nothing)
              | inr (n, all) ↦ inr (n, skip ∙ all)
            ]
        | inr (one, cleared) ↦
            let (n, all) = later_unmarked fs out.0 cleared in
            inr (
              n,
              whole ∙ ap (λ ms. ms ++ marks acts) (one ∙ ap (λ b. b ∷ []) on) ∙ ap (◌∷◌ true) all,
            )
      ]

  -- After a request for a keyframe, whatever the captured frames are and Media Foundation answers: the
  -- first sample that is handed over is marked as a keyframe, and no later one is.
  pub keyframe_marked_once :
      (fs : List SoftwareFrame) (e : MediaFoundationH264Encoder)
      → (marks (software_use resize (keyframe ∷ map encodes fs) e).1 ≡ [])
        ⊎ ((n : ℕ) × (marks (software_use resize (keyframe ∷ map encodes fs) e).1
              ≡ true ∷ replicate n false))
  unfolding software_use force_keyframe
  keyframe_marked_once fs e = first_marked fs (record e { pending_keyframe = true }) refl
