-- ===== src/Stream/Limits.antt =====
-- server-pc/src/stream.rs: the ranges of the stream parameters, and the fallback chain.
use remote_control.Base.{
  ℕ, zero, suc, ◌*◌, ◌^◌, ◌≤◌, ◌<◌, ◌≡◌, refl, ◌↔◌, ◌⊎◌, inl, inr, true, false, Option, none, some,
  arith, Option-cases,
}
use remote_control.Stream.{
  StreamRequestParams, encoder_config, clamp, unwrap_or, RequestedCodec, h264, hevc, Backends,
  choose_encoder, cpu_mft_hevc, capture_retry,
}

mul_bounds : (a b m n : ℕ) → a ≤ m → b ≤ n → a * b ≤ m * n
mul_bounds a b m n p q = grind arith

clamp_bounds : (x lo hi : ℕ) → lo ≤ hi → (lo ≤ clamp x lo hi) × (clamp x lo hi ≤ hi)
clamp_bounds x lo hi h = ground arith

-- Whatever a client asks for, the frame rate is 15 to 60, the bitrate 1,000 to 50,000 kbps and the
-- keyframe interval 1 to 600 frames; the product that the interval is computed from fits a `u32`.
pub stream_limits :
    (req : StreamRequestParams) (w h : ℕ)
    → let cfg = encoder_config req w h in
      (15 ≤ cfg.fps)
      × (cfg.fps ≤ 60)
      × (1000 ≤ cfg.bitrate_kbps)
      × (cfg.bitrate_kbps ≤ 50000)
      × (1 ≤ cfg.keyframe_interval_frames)
      × (cfg.keyframe_interval_frames ≤ 600)
      × (clamp (unwrap_or req.keyframe_interval_ms 1000) 200 10000 * cfg.fps < 2 ^ 32)
unfolding encoder_config
stream_limits req w h =
    let f : ℕ = clamp (unwrap_or req.max_fps 60) 15 60 in
    let k : ℕ = clamp (unwrap_or req.keyframe_interval_ms 1000) 200 10000 in
    let r : ℕ = clamp (unwrap_or req.max_bitrate_kbps 16000) 1000 50000 in
    let (f0, f1) = clamp_bounds (unwrap_or req.max_fps 60) 15 60 (omega arith) in
    let (k0, k1) = clamp_bounds (unwrap_or req.keyframe_interval_ms 1000) 200 10000 (omega arith) in
    let (r0, r1) = clamp_bounds (unwrap_or req.max_bitrate_kbps 16000) 1000 50000 (omega arith) in
    let product : k * f ≤ 10000 * 60 = mul_bounds k f 10000 60 k1 f1 in
    (f0, f1, r0, r1, omega arith, omega arith, omega arith)

-- An encoder is found exactly if one that the request allows is there: any of the three for H.264,
-- and the HEVC one besides for HEVC. The stream is HEVC only if that was asked for.
choose_encoder_outcome :
    (c : RequestedCodec) (b : Backends)
    → ((choose_encoder c b ≡ none) ↔ (
        (b.nvenc_sdk ≡ false)
        × (b.nvenc_mft ≡ false)
        × (b.software ≡ false)
        × ((c ≡ h264) ⊎ (b.nvenc_mft_hevc ≡ false))))
      × ((choose_encoder c b ≡ some cpu_mft_hevc) ↔ ((c ≡ hevc) × (b.nvenc_mft_hevc ≡ true)))
unfolding choose_encoder
choose_encoder_outcome h264 b = (ground arith, ground arith)
choose_encoder_outcome hevc b = (ground arith, ground arith)

-- What the first of `n` answers that is not `none` is.
abbrev pub First {ℓ} : {C : Type ℓ} → ℕ → (ℕ → Option C) → Option C → Type ℓ
First {C = C} n answer r =
    ((r ≡ none) × ((k : ℕ) → k < n → answer k ≡ none))
    ⊎ ((k : ℕ) × (c : C) × (k < n)
        × (answer k ≡ some c)
        × (r ≡ some c)
        × ((j : ℕ) → j < k → answer j ≡ none))

failed {ℓ} :
    {C : Type ℓ} (n : ℕ) (answer : ℕ → Option C)
    → answer 0 ≡ none
    → ((k : ℕ) → k < n → answer (suc k) ≡ none)
    → (k : ℕ) → k < suc n
    → answer k ≡ none
failed n answer e later zero h = e
failed n answer e later (suc k) h = later k (omega arith)

-- The retry loop returns the first capture that any of its attempts gives, and gives up exactly if
-- all of them fail.
pub capture_retry_outcome {ℓ} :
    {C : Type ℓ} (n : ℕ) (answer : ℕ → Option C)
    → ((capture_retry n answer ≡ none) × ((k : ℕ) → k < n → answer k ≡ none))
      ⊎ ((k : ℕ) × (c : C) × (k < n)
          × (answer k ≡ some c)
          × (capture_retry n answer ≡ some c)
          × ((j : ℕ) → j < k → answer j ≡ none))
unfolding capture_retry
capture_retry_outcome zero answer = inl (refl, λ k h. elim h [ ])
capture_retry_outcome {C = C} (suc n) answer =
    split (Option-cases (answer 0)) (capture_retry_outcome n (λ k. answer (suc k)))
  where
    split :
        (answer 0 ≡ none) ⊎ ((c : C) × (answer 0 ≡ some c))
        → First n (λ k. answer (suc k)) (capture_retry n (λ k. answer (suc k)))
        → First (suc n) answer (capture_retry (suc n) answer)
    split (inr (c, e)) later = inr (0, c, omega arith, e, rw (e, capture_retry), λ j h. elim h [ ])
    split (inl e) (inl (r, all)) = inl (rw (e, capture_retry) r, failed n answer e all)
    split (inl e) (inr (k, c, h, a, r, before)) =
        inr (suc k, c, omega arith, a, rw (e, capture_retry) r, failed k answer e before)
