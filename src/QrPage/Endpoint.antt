-- ===== src/QrPage/Endpoint.antt =====
-- server-pc/src/qr.rs and relay_client.rs: the relay that the phone is told of is the one that the PC
-- dials.
use remote_control.Base.{
  Option, sym, All-append, ℕ, ◌≡◌, refl, ◌≢◌, Bool, true, false, not, List, [], ◌∷◌, ◌++◌, none,
  some, if◌then◌else◌, All, ap, ◌∙◌, arith, list_eq, ◌&&◌,
}
use remote_control.Base.Decimal.{to_string}
use remote_control.Base.Text.{codes, contains}
use remote_control.QrPage.BaseUrl.{
  IsHostPart, base, stripped-base, scheme_is_https-base, host_ws_url-base, parse_ws_authority-host,
  dialled,
}
use remote_control.QrPage.{stripped, relay_authority, scheme_is_https}
use remote_control.Stream.{unwrap_or}
use remote_control.RelayClient.Url.{RelayConfig, parse_ws_authority, with_scheme, host_ws_url}

-- A host name or an IPv4 address: no `/`, `?` or `:` in it.
abbrev pub IsName : List ℕ → Type 0
IsName name = (name ≢ []) × All (λ x. (x ≢ b'/') × (x ≢ b'?') × (x ≢ b':')) name

-- A port, if there is one: not empty, and no `/` or `?`.
abbrev pub IsPort : Option (List ℕ) → Type 0
IsPort none = Unit
IsPort (some port) = (port ≢ []) × All (λ x. (x ≢ b'/') × (x ≢ b'?')) port

abbrev pub host_part : List ℕ → Option (List ℕ) → List ℕ
host_part name none = name
host_part name (some port) = name ++ (b':' ∷ port)

abbrev pub default_port : Bool → List ℕ
default_port https = to_string (if https then 443 else 80)

-- The host with a port, the one that is written or that of the scheme.
abbrev pub full_authority : Bool → List ℕ → Option (List ℕ) → List ℕ
full_authority https name port = name ++ (b':' ∷ unwrap_or port (default_port https))

no_colon :
    (name : List ℕ)
    → All (λ x. (x ≢ b'/') × (x ≢ b'?') × (x ≢ b':')) name
    → contains b':' name ≡ false
unfolding contains
no_colon [] a = refl
no_colon (x ∷ name) a = ground (arith, no_colon name a.1, a.0)

a_colon : (name port : List ℕ) → contains b':' (name ++ (b':' ∷ port)) ≡ true
unfolding contains
a_colon [] port = refl
a_colon (x ∷ name) port = ground (arith, a_colon name port)

name_part :
    (name : List ℕ)
    → All (λ x. (x ≢ b'/') × (x ≢ b'?') × (x ≢ b':')) name
    → All (λ x. (x ≢ b'/') × (x ≢ b'?')) name
name_part [] a = tt
name_part (x ∷ name) a = ((a.0.0, a.0.1), name_part name a.1)

name_not_scheme :
    (q name : List ℕ) → All (λ x. (x ≢ b'/') × (x ≢ b'?') × (x ≢ b':')) name → name ≢ q ++ codes ":"
name_not_scheme [] [] a e = cc
name_not_scheme [] (x ∷ name) a e = a.0.2 cc
name_not_scheme (y ∷ q) [] a e = cc
name_not_scheme (y ∷ q) (x ∷ name) a e = name_not_scheme q name a.1 cc

port_not_scheme :
    (q name port : List ℕ)
    → All (λ x. (x ≢ b'/') × (x ≢ b'?') × (x ≢ b':')) name
    → All (λ x. x ≢ b':') q
    → port ≢ []
    → name ++ (b':' ∷ port) ≢ q ++ codes ":"
port_not_scheme [] [] port a b ne e = ne cc
port_not_scheme [] (x ∷ name) port a b ne e = a.0.2 cc
port_not_scheme (y ∷ q) [] port a b ne e = b.0 (sym cc)
port_not_scheme (y ∷ q) (x ∷ name) port a b ne e = port_not_scheme q name port a.1 b.1 ne cc

with_port_ne : (name port : List ℕ) → name ++ (b':' ∷ port) ≢ []
with_port_ne [] port e = cc
with_port_ne (x ∷ name) port e = cc

host_part-IsHostPart :
    (name : List ℕ) (port : Option (List ℕ))
    → IsName name
    → IsPort port
    → IsHostPart (host_part name port)
host_part-IsHostPart name none n p = (
  n.0,
  name_part name n.1,
  name_not_scheme (codes "https") name n.1,
  name_not_scheme (codes "http") name n.1,
)
host_part-IsHostPart name (some port) n p = (
  with_port_ne name port,
  All-append _ name (b':' ∷ port) (name_part name n.1) ((omega arith, omega arith), p.1),
  port_not_scheme (codes "https") name port n.1 (omega arith) p.0,
  port_not_scheme (codes "http") name port n.1 (omega arith) p.0,
)

-- The payload's rule on a host part that is a name with or without a port.
with_port :
    (https : Bool) (name : List ℕ) (port : Option (List ℕ))
    → IsName name
    → (if contains b':' (host_part name port)
        then host_part name port
        else host_part name port ++ (b':' ∷ default_port https))
      ≡ full_authority https name port
with_port https name none n = rw (no_colon name n.1) refl
with_port https name (some port) n = rw (a_colon name port) refl

direct :
    (https : Bool) (name : List ℕ) (port : Option (List ℕ)) (out : List ℕ)
    → IsName name
    → (if not https && contains b':' (host_part name port) then some out else none)
      ≡ (elim port [ none ↦ none | some _ ↦ if https then none else some out ])
direct true name none out n = refl
direct true name (some port) out n = refl
direct false name none out n = rw (no_colon name n.1) refl
direct false name (some port) out n = rw (a_colon name port) refl

-- For a base address `http://` or `https://` with a host name or an IPv4 address (no colon in it) behind
-- it, perhaps with a port, and any number of slashes: the PC dials `ws://` or `wss://` and that host and
-- port, and the payload names the same host with the port that is written, or with 80 or 443 where none
-- is, and the same scheme. The PC opens the connection itself, without TLS, exactly where the scheme is
-- `http` and a port is written, and then to the very authority of the payload.
pub relay_endpoint_agrees :
    (https : Bool) (name : List ℕ) (port : Option (List ℕ)) (slashes : ℕ) (cfg : RelayConfig)
    → IsName name
    → IsPort port
    → cfg.base_url ≡ base https (host_part name port) slashes
    → (url : List ℕ) × (host_ws_url cfg ≡ some url)
      × (url ≡ with_scheme (if https then codes "wss" else codes "ws") (host_part name port) cfg)
      × (relay_authority cfg.base_url ≡ full_authority https name port)
      × (scheme_is_https cfg.base_url ≡ https)
      × (parse_ws_authority url ≡ (elim port [
        | none ↦ none
        | some _ ↦ if https then none else some (relay_authority cfg.base_url)
      ]))
unfolding relay_authority
relay_endpoint_agrees https name port n cfg okn okp e =
    let h = host_part name port in
    let ok = host_part-IsHostPart name port okn okp in
    let url = with_scheme (if https then codes "wss" else codes "ws") h cfg in
    let strip = ap stripped e ∙ stripped-base h n ok https in
    let tls = ap scheme_is_https e ∙ scheme_is_https-base h n ok https in
    let rule : relay_authority cfg.base_url
        ≡ (if contains b':' h then h else h ++ (b':' ∷ default_port https)) =
      rw (strip, tls, relay_authority) refl in
    (
      url,
      host_ws_url-base h n ok https cfg e,
      refl,
      rule ∙ with_port https name port okn,
      tls,
      parse_ws_authority-host https h cfg ok.0 ok.1
          ∙ dialled https h cfg strip
          ∙ direct https name port (relay_authority cfg.base_url) okn,
    )
