-- ===== src/QrServer/SendFile/Spool.antt =====
-- server-pc/src/qr_server.rs: the loop of `handle_send_file` that puts the body into the spool file.
use remote_control.Base.{
  ℕ, zero, suc, ◌-◌, ◌≤◌, ◌≡◌, ◌≢◌, List, [], ◌∷◌, ◌++◌, none, ◌==◌, nat_eq, if_intro, option_intro,
  take, drop, length, length-take, length-drop, ◌↔◌, take_all, append-nil, append_assoc, ap, sym,
  ◌∙◌, arith,
}
use remote_control.QrServer.SendFile.{
  SendIo, Spooled, complete, out_of_fuel, at_end, spool, read_size,
}

minus_zero : (r : ℕ) → r - 0 ≡ r
minus_zero r = omega arith

-- A piece of at most `n` bytes, and what is then still wanted.
take_split :
    (n r : ℕ) (xs : List ℕ)
    → n ≤ r
    → take n xs ++ take (r - length (take n xs)) (drop n xs) ≡ take r xs
take_split zero r xs h = ap (λ k. take k xs) (minus_zero r)
take_split (suc n) zero xs h = absurd (omega arith)
take_split (suc n) (suc r) [] h = take_all (suc r - 0) [] (omega arith)
take_split (suc n) (suc r) (x ∷ xs) h =
    let same : suc r - suc (length (take n xs)) ≡ r - length (take n xs) = omega arith in
    rw (same) (ap (◌∷◌ x) (take_split n r xs (omega arith)))

at_end_stops : (io : SendIo) (file : List ℕ) → at_end io file ≢ out_of_fuel
at_end_stops io file = if_intro (λ x. x ≢ out_of_fuel) io.body_ends (λ b e. cc (e)) (λ b e. cc (e))

-- Whatever the reads return and however the writes go, the loop ends after at most as many rounds as
-- the body has bytes.
pub spool_terminates :
    (fuel : ℕ) (io : SendIo) (i remaining : ℕ) (file arriving : List ℕ)
    → remaining ≤ fuel
    → spool fuel io i remaining file arriving ≢ out_of_fuel
unfolding spool
spool_terminates zero io i remaining file arriving h =
    if_intro (λ x. x ≢ out_of_fuel) (remaining == 0) (λ b e. cc (e)) (λ b. ground arith)
spool_terminates (suc fuel) io i remaining file arriving h =
    let chunk : List ℕ = take (read_size io i remaining) arriving in
    if_intro (λ x. x ≢ out_of_fuel) (remaining == 0) (λ b e. cc (e))
      (λ b.
        if_intro (λ x. x ≢ out_of_fuel) (length chunk == 0) (λ c. at_end_stops io file)
          (λ c.
            option_intro (λ x. x ≢ out_of_fuel) (io.writes i)
              (spool_terminates fuel io (suc i) (remaining - length chunk) (file ++ chunk)
                (drop (read_size io i remaining) arriving) (ground arith))
              (λ n w e. cc (e))))

module _ (io : SendIo) (i remaining : ℕ) (file arriving : List ℕ) where
  abbrev chunk : List ℕ
  chunk = take (read_size io i remaining) arriving

  abbrev left : List ℕ
  left = drop (read_size io i remaining) arriving

  joined : (file ++ chunk) ++ take (remaining - length chunk) left ≡ file ++ take remaining arriving
  joined =
      append_assoc file chunk (take (remaining - length chunk) left)
      ∙ ap (◌++◌ file) (take_split (read_size io i remaining) remaining arriving (omega arith))

  enough : (remaining - length chunk ≤ length left) ↔ (remaining ≤ length arriving)
  enough = (
    λ h. omega (
      arith,
      length-take (read_size io i remaining) arriving,
      length-drop (read_size io i remaining) arriving,
    ),
    λ h. omega (
      arith,
      length-take (read_size io i remaining) arriving,
      length-drop (read_size io i remaining) arriving,
    ),
  )

-- What a complete spool file holds.
pub spool_holds :
    (fuel : ℕ) (io : SendIo) (i remaining : ℕ) (file arriving content : List ℕ)
    → spool fuel io i remaining file arriving ≡ complete content
    → (content ≡ file ++ take remaining arriving) × (remaining ≤ length arriving)
unfolding spool
spool_holds zero io i remaining file arriving content =
    if_intro
      (λ x.
        x ≡ complete content
        → (content ≡ file ++ take remaining arriving) × (remaining ≤ length arriving))
      (remaining == 0)
      (λ b e. let z : remaining ≡ 0 = ground arith in rw (z) (cc (append-nil file, e), omega arith))
      (λ b e. cc (e))
spool_holds (suc fuel) io i remaining file arriving content =
    let P : Spooled → Type 0 = λ x.
      x ≡ complete content
      → (content ≡ file ++ take remaining arriving) × (remaining ≤ length arriving) in
    if_intro P (remaining == 0)
      (λ b e. let z : remaining ≡ 0 = ground arith in rw (z) (cc (append-nil file, e), omega arith))
      (λ b.
        if_intro P (length (chunk io i remaining file arriving) == 0)
          (λ c. if_intro P io.body_ends (λ d e. cc (e)) (λ d e. cc (e)))
          (λ c.
            option_intro P (io.writes i)
              (λ e.
                let ih =
                  spool_holds fuel io (suc i)
                    (remaining - length (chunk io i remaining file arriving))
                    (file ++ chunk io i remaining file arriving) (left io i remaining file arriving)
                    content e in
                (
                  ih.0 ∙ joined io i remaining file arriving,
                  (enough io i remaining file arriving).0 ih.1,
                ))
              (λ n w e. cc (e))))

-- Where every write succeeds, the body's bytes make a complete file.
pub spool_completes :
    (fuel : ℕ) (io : SendIo) (i remaining : ℕ) (file arriving : List ℕ)
    → remaining ≤ fuel
    → ((j : ℕ) → io.writes j ≡ none)
    → remaining ≤ length arriving
    → spool fuel io i remaining file arriving ≡ complete (file ++ take remaining arriving)
unfolding spool
spool_completes zero io i remaining file arriving h w r =
    let z : remaining ≡ 0 = omega arith in rw (z) (ap complete (sym (append-nil file)))
spool_completes (suc fuel) io i remaining file arriving h w r =
    let P : Spooled → Type 0 = λ x. x ≡ complete (file ++ take remaining arriving) in
    let size = length-take (read_size io i remaining) arriving in
    if_intro P (remaining == 0)
      (λ b. let z : remaining ≡ 0 = ground arith in rw (z) (ap complete (sym (append-nil file))))
      (λ b.
        if_intro P (length (chunk io i remaining file arriving) == 0) (λ c. ground (arith, size))
          (λ c.
            option_intro P (io.writes i)
              (spool_completes fuel io (suc i)
                  (remaining - length (chunk io i remaining file arriving))
                  (file ++ chunk io i remaining file arriving) (left io i remaining file arriving)
                  (ground arith) w ((enough io i remaining file arriving).1 r)
                ∙ ap complete (joined io i remaining file arriving))
              (λ n e. cc (e, w i))))
