-- ===== src/QrPage/Query.antt =====
-- server-pc/src/qr.rs: the payload of the QR code is read back.
pub mod Fields
use remote_control.Base.{
  ℕ, zero, suc, ◌≡◌, refl, ◌≢◌, List, [], ◌∷◌, ◌++◌, Option, none, some, nat_beq, nat_beq_iff,
  if◌then◌else◌, All, All-append, append_assoc, ap, ◌∙◌, arith, Bool-cases, inl, inr, subst, map,
  if_intro, option_intro, ◌+◌, ◌/◌, ◌%◌, ◌≤◌, ◌<◌, ◌⊎◌, ltb, length, ◌==◌, list_eq, ◌&&◌,
  some_injective,
}
use remote_control.Base.Decimal.{to_string, print_digits}
use remote_control.Base.Text.{codes, split_once, strip_prefix, contains}
use remote_control.Config.{protocol_version}
use remote_control.RelayClient.Url.{trim_slashes}
use remote_control.QrPage.{
  trim_start, trim_start_matches, stripped, RelayQrInfo, build_payload, build_combined_payload,
  relay_query, relay_authority, scheme_is_https,
}
use remote_control.QrPage.Query.Fields.{
  IsFree, Field, field, fields, address_and_query, split_once-append, IsWritable, render,
  fields-render,
}

abbrev IsDigit : ℕ → Type 0
IsDigit x = (b'0' ≤ x) × (x ≤ b'9')

print_digits-IsDigit : (k n : ℕ) → All IsDigit (print_digits k n)
unfolding print_digits
print_digits-IsDigit zero n = tt
print_digits-IsDigit (suc k) n =
    if_intro (All IsDigit) (ltb n 10) (λ small. (ground arith, tt))
      (λ _.
        All-append IsDigit (print_digits k (n / 10)) ((b'0' + n % 10) ∷ [])
          (print_digits-IsDigit k (n / 10)) (omega arith, tt))

digits-IsFree : (c : ℕ) (s : List ℕ) → (c < b'0') ⊎ (b'9' < c) → All IsDigit s → IsFree c s
digits-IsFree c [] h a = tt
digits-IsFree c (x ∷ s) h a = (λ e. ground arith, digits-IsFree c s h a.1)

pub to_string-IsFree : (c n : ℕ) → (c < b'0') ⊎ (b'9' < c) → IsFree c (to_string n)
unfolding to_string
to_string-IsFree c n h = digits-IsFree c (print_digits 20 n) h (print_digits-IsDigit 20 n)

strip_prefix-IsFree :
    (c : ℕ) (p s rest : List ℕ) → strip_prefix p s ≡ some rest → IsFree c s → IsFree c rest
unfolding strip_prefix
strip_prefix-IsFree c [] s rest e h = subst (IsFree c) (some_injective e) h
strip_prefix-IsFree c (x ∷ p) [] rest e h = cc
strip_prefix-IsFree c (x ∷ p) (y ∷ s) rest e h = elim (Bool-cases (nat_beq x y)) [
  | inl same ↦ strip_prefix-IsFree c p s rest (rw same at e) h.1
  | inr other ↦ let never = rw other at e in cc
]

trim_start-IsFree : (c fuel : ℕ) (p s : List ℕ) → IsFree c s → IsFree c (trim_start fuel p s)
unfolding trim_start
trim_start-IsFree c zero p s h = h
trim_start-IsFree c (suc fuel) p s h =
    option_intro (IsFree c) (strip_prefix p s) h
      (λ rest e. trim_start-IsFree c fuel p rest (strip_prefix-IsFree c p s rest e h))

trim_slashes-IsFree : (c : ℕ) (s : List ℕ) → IsFree c s → IsFree c (trim_slashes s)
unfolding trim_slashes
trim_slashes-IsFree c [] h = tt
trim_slashes-IsFree c (x ∷ s) h =
    if_intro (IsFree c) (trim_slashes s == [] && nat_beq x b'/') (λ _. tt)
      (λ _. (h.0, trim_slashes-IsFree c s h.1))

stripped-IsFree : (c : ℕ) (s : List ℕ) → IsFree c s → IsFree c (stripped s)
unfolding stripped trim_start_matches
stripped-IsFree c s h =
    let https = trim_start-IsFree c (length s) (codes "https://") s h in
    let s' = trim_start (length s) (codes "https://") s in
    trim_slashes-IsFree c (trim_start (length s') (codes "http://") s')
      (trim_start-IsFree c (length s') (codes "http://") s' https)

relay_authority-IsFree : (s : List ℕ) → IsFree b'&' s → IsFree b'&' (relay_authority s)
unfolding relay_authority
relay_authority-IsFree s h =
    if_intro (IsFree b'&') (contains b':' (stripped s)) (λ _. stripped-IsFree b'&' s h)
      (λ _.
        All-append (λ x. x ≢ b'&') (stripped s)
          (b':' ∷ to_string (if scheme_is_https s then 443 else 80)) (stripped-IsFree b'&' s h)
          (
            omega arith,
            to_string-IsFree b'&' (if scheme_is_https s then 443 else 80) (inl (omega arith)),
          ))

-- The fields of a relay.
abbrev pub relay_fields : RelayQrInfo → List Field
relay_fields r =
    (codes "rh", relay_authority r.base_url)
    ∷ (codes "rid", r.host_id)
    ∷ (codes "rtls", to_string (if scheme_is_https r.base_url then 1 else 0))
    ∷ []

abbrev pub all_fields : List ℕ → List ℕ → Option RelayQrInfo → List Field
all_fields code key relay =
    (codes "c", code) ∷ (codes "k", key) ∷ (elim relay [ none ↦ [] | some r ↦ relay_fields r ])

abbrev pub lan_address : List ℕ → ℕ → List ℕ
lan_address host port = codes "rc://" ++ (host ++ (b':' ∷ (to_string port ++ codes "/")))

payload_shape :
    (host : List ℕ) (port : ℕ) (code key : List ℕ) (relay : Option RelayQrInfo)
    → build_combined_payload host port code key relay
      ≡ lan_address host port
        ++ (b'?' ∷ render (codes "v", to_string protocol_version) (all_fields code key relay))
unfolding build_combined_payload build_payload relay_query
payload_shape host port code key none = simp append_assoc
payload_shape host port code key (some r) = simp append_assoc

abbrev pub IsPlain : Option RelayQrInfo → Type 0
IsPlain none = Unit
IsPlain (some r) = IsFree b'&' r.base_url × IsFree b'&' r.host_id

all_fields-IsWritable :
    (code key : List ℕ) (relay : Option RelayQrInfo)
    → IsFree b'&' code
    → IsFree b'&' key
    → IsPlain relay
    → All IsWritable (all_fields code key relay)
all_fields-IsWritable code key none c k p =
    ((omega arith, omega arith, c), ((omega arith, omega arith, k), tt))
all_fields-IsWritable code key (some r) c k p =
    let tls =
      to_string-IsFree b'&' (if scheme_is_https r.base_url then 1 else 0) (inl (omega arith)) in
    let authority = relay_authority-IsFree r.base_url p.0 in
    (
      (omega arith, omega arith, c),
      (
        (omega arith, omega arith, k),
        (
          (omega arith, omega arith, authority),
          ((omega arith, omega arith, p.1), ((omega arith, omega arith, tls), tt)),
        ),
      ),
    )

lan_address-IsFree :
    (host : List ℕ) (port : ℕ) → IsFree b'?' host → IsFree b'?' (lan_address host port)
lan_address-IsFree host port h =
    let ending : IsFree b'?' (to_string port ++ codes "/") =
      All-append (λ x. x ≢ b'?') (to_string port) (codes "/")
        (to_string-IsFree b'?' port (inr (omega arith))) (omega arith) in
    All-append (λ x. x ≢ b'?') (codes "rc://") (host ++ (b':' ∷ (to_string port ++ codes "/")))
      (omega arith)
      (All-append (λ x. x ≢ b'?') host (b':' ∷ (to_string port ++ codes "/")) h
        (omega arith, ending))

-- Where the address has no `?` and the texts no `&`: the payload with its relay is read back by splitting
-- it at the first `?`, at each `&` and at the first `=` of a field, and holds the address, the version,
-- the code, the key and, if there is a relay, its authority, the id of the PC there and the mark of TLS.
pub payload_read_back :
    (host : List ℕ) (port : ℕ) (code key : List ℕ) (relay : Option RelayQrInfo)
    → IsFree b'?' host
    → IsFree b'&' code
    → IsFree b'&' key
    → IsPlain relay
    → address_and_query (build_combined_payload host port code key relay)
      ≡ some (
        lan_address host port,
        (codes "v", to_string protocol_version) ∷ all_fields code key relay,
      )
payload_read_back host port code key relay h c k p =
    let version : Field = (codes "v", to_string protocol_version) in
    let later = all_fields code key relay in
    let plain : IsWritable version =
      (omega arith, omega arith, to_string-IsFree b'&' protocol_version (inl (omega arith))) in
    ap address_and_query (payload_shape host port code key relay)
    ∙ rw
        (
          split_once-append b'?' (lan_address host port) (render version later)
              (lan_address-IsFree host port h),
          address_and_query,
        )
        (ap (λ fs. some (lan_address host port, fs))
          (fields-render version later plain (all_fields-IsWritable code key relay c k p)))
