-- ===== src/QrPage/BaseUrl.antt =====
-- server-pc/src/qr.rs and relay_client.rs: what each makes of the relay's base address.
use remote_control.Base.{
  ℕ, zero, suc, ◌≡◌, refl, ◌≢◌, Bool, true, false, not, List, [], ◌∷◌, ◌++◌, none, some,
  nat_beq_iff, if◌then◌else◌, All, ap, ◌∙◌, arith, inl, inr, length, replicate, list_eq, list_beq,
  Option-cases, ◌&&◌,
}
use remote_control.Base.Text.{codes, contains, starts_with, strip_prefix}
use remote_control.QrPage.{
  stripped, trim_start, trim_start_matches, relay_authority, scheme_is_https,
}
use remote_control.RelayClient.Url.{
  RelayConfig, trim_slashes, authority, parse_ws_authority, with_scheme, host_ws_url,
}

-- A host, perhaps with its port: no `/` and no `?`, and not the beginning of a scheme.
abbrev pub IsHostPart : List ℕ → Type 0
IsHostPart h =
    (h ≢ []) × All (λ x. (x ≢ b'/') × (x ≢ b'?')) h × (h ≢ codes "https:") × (h ≢ codes "http:")

abbrev pub scheme : Bool → List ℕ
scheme https = if https then codes "https://" else codes "http://"

-- The base address that the user typed, perhaps with slashes behind it.
abbrev pub base : Bool → List ℕ → ℕ → List ℕ
base https h slashes = scheme https ++ (h ++ replicate slashes b'/')

trim_slashes-replicate : (n : ℕ) → trim_slashes (replicate n b'/') ≡ []
unfolding trim_slashes list_beq
trim_slashes-replicate zero = refl
trim_slashes-replicate (suc n) = rw (trim_slashes-replicate n) refl

trim_slashes_host :
    (h : List ℕ) (n : ℕ)
    → All (λ x. (x ≢ b'/') × (x ≢ b'?')) h
    → trim_slashes (h ++ replicate n b'/') ≡ h
unfolding trim_slashes list_beq
trim_slashes_host [] n a = trim_slashes-replicate n
trim_slashes_host (x ∷ h) n a = rw (trim_slashes_host h n a.1) (ground arith)

-- What stands before a text that does not end.
trim_slashes-append :
    (p h : List ℕ) (n : ℕ)
    → h ≢ []
    → All (λ x. (x ≢ b'/') × (x ≢ b'?')) h
    → trim_slashes (p ++ (h ++ replicate n b'/')) ≡ p ++ h
unfolding trim_slashes list_beq
trim_slashes-append [] h n ne a = trim_slashes_host h n a
trim_slashes-append (x ∷ p) [] n ne a = absurd (ne refl)
trim_slashes-append (x ∷ []) (y ∷ h) n ne a = rw (trim_slashes-append [] (y ∷ h) n ne a) refl
trim_slashes-append (x ∷ z ∷ p) (y ∷ h) n ne a =
    rw (trim_slashes-append (z ∷ p) (y ∷ h) n ne a, trim_slashes) refl

strip_prefix-append : (p s : List ℕ) → strip_prefix p (p ++ s) ≡ some s
unfolding strip_prefix
strip_prefix-append [] s = refl
strip_prefix-append (x ∷ p) s = ground (arith, nat_beq_iff x x, strip_prefix-append p s)

-- A scheme in front of a host and slashes is that host.
scheme_host :
    (q h : List ℕ) (n : ℕ) (r : List ℕ)
    → All (λ x. x ≢ b'/') q
    → All (λ x. (x ≢ b'/') × (x ≢ b'?')) h
    → strip_prefix (q ++ codes "//") (h ++ replicate n b'/') ≡ some r
    → h ≡ q
unfolding strip_prefix
scheme_host [] [] n r a b e = refl
scheme_host [] (y ∷ h) n r a b e = ground arith
scheme_host (x ∷ q) [] zero r a b e = cc
scheme_host (x ∷ q) [] (suc n) r a b e = ground arith
scheme_host (x ∷ q) (y ∷ h) n r a b e = ground (arith, scheme_host q h n r a.1 b.1)

no_scheme :
    (q h : List ℕ) (n : ℕ)
    → All (λ x. x ≢ b'/') q
    → All (λ x. (x ≢ b'/') × (x ≢ b'?')) h
    → h ≢ q
    → strip_prefix (q ++ codes "//") (h ++ replicate n b'/') ≡ none
no_scheme q h n a b ne =
    elim (Option-cases (strip_prefix (q ++ codes "//") (h ++ replicate n b'/'))) [
      | inl e ↦ e
      | inr (r, e) ↦ absurd (ne (scheme_host q h n r a b e))
    ]

trim_start-none : (k : ℕ) (p s : List ℕ) → strip_prefix p s ≡ none → trim_start k p s ≡ s
unfolding trim_start
trim_start-none zero p s e = refl
trim_start-none (suc k) p s e = rw (e, trim_start) refl

trim_start_matches-none : (p s : List ℕ) → strip_prefix p s ≡ none → trim_start_matches p s ≡ s
unfolding trim_start_matches
trim_start_matches-none p s e = trim_start-none (length s) p s e

trim_start_matches_once :
    (x : ℕ) (p s : List ℕ)
    → strip_prefix (x ∷ p) s ≡ none
    → trim_start_matches (x ∷ p) ((x ∷ p) ++ s) ≡ s
unfolding trim_start_matches trim_start
trim_start_matches_once x p s e =
    rw (strip_prefix-append (x ∷ p) s, trim_start) (trim_start-none (length (p ++ s)) (x ∷ p) s e)

other_scheme : (s : List ℕ) → strip_prefix (codes "https://") (codes "http://" ++ s) ≡ none
unfolding strip_prefix
other_scheme s = refl

module _ (h : List ℕ) (n : ℕ) (ok : IsHostPart h) where
  abbrev behind : List ℕ
  behind = h ++ replicate n b'/'

  no_https : strip_prefix (codes "https://") behind ≡ none
  no_https = no_scheme (codes "https:") h n (omega arith) ok.1 ok.2

  no_http : strip_prefix (codes "http://") behind ≡ none
  no_http = no_scheme (codes "http:") h n (omega arith) ok.1 ok.3

  pub stripped-base : (https : Bool) → stripped (base https h n) ≡ h
  unfolding stripped
  stripped-base true =
      rw (trim_start_matches_once b'h' (codes "ttps://") behind no_https, stripped)
        (rw (trim_start_matches-none (codes "http://") behind no_http) (trim_slashes_host h n ok.1))
  stripped-base false =
      rw
        (
          trim_start_matches-none (codes "https://") (codes "http://" ++ behind)
              (other_scheme behind),
          stripped,
        )
        (rw (trim_start_matches_once b'h' (codes "ttp://") behind no_http)
          (trim_slashes_host h n ok.1))

  pub scheme_is_https-base : (https : Bool) → scheme_is_https (base https h n) ≡ https
  unfolding scheme_is_https starts_with strip_prefix
  scheme_is_https-base true = refl
  scheme_is_https-base false = refl

  pub host_ws_url-base :
      (https : Bool) (cfg : RelayConfig)
      → cfg.base_url ≡ base https h n
      → host_ws_url cfg ≡ some (with_scheme (if https then codes "wss" else codes "ws") h cfg)
  unfolding host_ws_url
  host_ws_url-base true cfg e =
      let trimmed : trim_slashes cfg.base_url ≡ codes "https://" ++ h =
        ap trim_slashes e ∙ trim_slashes-append (codes "https://") h n ok.0 ok.1 in
      rw (trimmed, host_ws_url) (rw (strip_prefix-append (codes "https://") h) refl)
  host_ws_url-base false cfg e =
      let trimmed : trim_slashes cfg.base_url ≡ codes "http://" ++ h =
        ap trim_slashes e ∙ trim_slashes-append (codes "http://") h n ok.0 ok.1 in
      rw (trimmed, host_ws_url)
        (rw (other_scheme h) (rw (trimmed) (rw (strip_prefix-append (codes "http://") h) refl)))

authority-host :
    (h s : List ℕ) → All (λ x. (x ≢ b'/') × (x ≢ b'?')) h → authority (h ++ (b'/' ∷ s)) ≡ h
unfolding authority
authority-host [] s a = refl
authority-host (x ∷ h) s a = rw (authority-host h s a.1) (ground arith)

-- What the PC dials over TCP itself: the host with its port, where the scheme is `http` and a port is
-- there.
pub parse_ws_authority-host :
    (https : Bool) (h : List ℕ) (cfg : RelayConfig)
    → h ≢ []
    → All (λ x. (x ≢ b'/') × (x ≢ b'?')) h
    → parse_ws_authority (with_scheme (if https then codes "wss" else codes "ws") h cfg)
      ≡ (if not https && contains b':' h then some h else none)
unfolding parse_ws_authority with_scheme strip_prefix list_beq
parse_ws_authority-host true h cfg ne a = refl
parse_ws_authority-host false [] cfg ne a = absurd (ne refl)
parse_ws_authority-host false (x ∷ h) cfg ne a =
    let behind =
      codes "v1/host?host_id=" ++ (cfg.host_id ++ (codes "&host_token=" ++ cfg.host_token)) in
    rw (authority-host (x ∷ h) behind a) (ground arith)

pub dialled :
    (https : Bool) (h : List ℕ) (cfg : RelayConfig)
    → stripped cfg.base_url ≡ h
    → (if not https && contains b':' h then some h else none)
      ≡ (if not https && contains b':' h then some (relay_authority cfg.base_url) else none)
unfolding relay_authority
dialled https h cfg e = rw (e, relay_authority) (ground arith)
