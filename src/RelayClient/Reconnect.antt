-- ===== src/RelayClient/Reconnect.antt =====
-- server-pc/src/lib.rs: the loop that opens the tunnel to the relay again. How many seconds a tunnel lived
-- is an argument, and the result are the seconds of the sleep behind each of them.
use remote_control.Base.{
  ℕ, zero, suc, ◌*◌, ◌^◌, ◌≤◌, ◌<◌, List, [], ◌∷◌, ◌++◌, length, min, leb, if◌then◌else◌, ◌≡◌, refl,
  All, arith, ap, ◌∙◌,
}

unfoldable pub sleep_secs : ℕ → ℕ → ℕ
sleep_secs backoff_secs lived = if leb 60 lived then 1 else backoff_secs

unfoldable pub next_backoff : ℕ → ℕ
next_backoff backoff_secs = min (backoff_secs * 2) 30

unfoldable pub reconnect : ℕ → List ℕ → List ℕ
reconnect backoff_secs [] = []
reconnect backoff_secs (lived ∷ later) =
    let slept = sleep_secs backoff_secs lived in slept ∷ reconnect (next_backoff slept) later

-- 1, 2, 4, 8, 16, 30, 30, ...
abbrev pub doubling : ℕ → ℕ → List ℕ
doubling zero k = []
doubling (suc n) k = min (2 ^ k) 30 ∷ doubling n (suc k)

short_tunnels :
    (shorts : List ℕ) (k : ℕ)
    → All (λ lived. lived < 60) shorts
    → reconnect (min (2 ^ k) 30) shorts ≡ doubling (length shorts) k
unfolding reconnect sleep_secs next_backoff
short_tunnels [] k a = refl
short_tunnels (lived ∷ later) k a =
    let slept : sleep_secs (min (2 ^ k) 30) lived ≡ min (2 ^ k) 30 = ground arith in
    let twice : 2 ^ suc k ≡ 2 * 2 ^ k = omega arith in
    let doubled : next_backoff (min (2 ^ k) 30) ≡ min (2 ^ suc k) 30 = omega arith in
    rw (slept) (
      ap (◌∷◌ (min (2 ^ k) 30))
        (ap (λ b. reconnect b later) doubled ∙ short_tunnels later (suc k) a.1))

after_long :
    (b : ℕ) (before : List ℕ) (long : ℕ) (shorts : List ℕ)
    → 60 ≤ long
    → All (λ lived. lived < 60) shorts
    → reconnect b (before ++ (long ∷ shorts))
      ≡ reconnect b before ++ doubling (suc (length shorts)) 0
unfolding reconnect next_backoff sleep_secs
after_long b [] long shorts l a =
    let slept : sleep_secs b long ≡ 1 = ground arith in
    rw (slept) (ap (◌∷◌ 1) (short_tunnels shorts 1 a))
after_long b (lived ∷ before) long shorts l a =
    let slept = sleep_secs b lived in
    ap (◌∷◌ slept) (after_long (next_backoff slept) before long shorts l a)

-- The sleeps behind tunnels that live for less than a minute are 1, 2, 4, 8 and 16 seconds and then 30
-- seconds each, from the start, and again from the last tunnel on that lived for a minute or more.
pub reconnect_backoff :
    (shorts : List ℕ) (before : List ℕ) (long : ℕ)
    → All (λ lived. lived < 60) shorts
    → 60 ≤ long
    → (reconnect 1 shorts ≡ doubling (length shorts) 0)
      × (reconnect 1 (before ++ (long ∷ shorts))
          ≡ reconnect 1 before ++ doubling (suc (length shorts)) 0)
reconnect_backoff shorts before long a l =
    (short_tunnels shorts 0 a, after_long 1 before long shorts l a)
