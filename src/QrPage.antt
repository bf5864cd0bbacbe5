-- ===== src/QrPage.antt =====
-- server-pc/src/qr.rs: the payload of the QR code and what the page shows. The text around the values
-- and the drawing of the QR code are left out.
pub mod Escape
pub mod Query
pub mod BaseUrl
pub mod Endpoint
use remote_control.Base.{
  ℕ, zero, suc, Bool, true, false, List, [], ◌∷◌, ◌++◌, Option, none, some, length, nat_beq,
  if◌then◌else◌,
}
use remote_control.Base.Decimal.{to_string}
use remote_control.Base.Text.{codes, contains, starts_with, strip_prefix}
use remote_control.Config.{protocol_version}
use remote_control.Net.{DiscoveredAddr, InterfaceKind, physical, virtual, unknown, Ipv4Addr}
use remote_control.RelayClient.Url.{trim_slashes}

pub record RelayQrInfo : Type 0 where
  pub base_url : List ℕ
  pub host_id : List ℕ

unfoldable pub build_payload : List ℕ → ℕ → List ℕ → List ℕ → List ℕ
build_payload host port code key =
    codes "rc://"
    ++ (host
        ++ (b':'
            ∷ (to_string port
                ++ (codes "/?v="
                    ++ (to_string protocol_version
                        ++ (codes "&c=" ++ (code ++ (codes "&k=" ++ key))))))))

-- `trim_start_matches` of a text that is not empty, which takes off at most as many as there are letters.
unfoldable pub trim_start : ℕ → List ℕ → List ℕ → List ℕ
trim_start zero prefix s = s
trim_start (suc fuel) prefix s = elim (strip_prefix prefix s) [
  | none ↦ s
  | some rest ↦ trim_start fuel prefix rest
]

unfoldable pub trim_start_matches : List ℕ → List ℕ → List ℕ
trim_start_matches prefix s = trim_start (length s) prefix s

unfoldable pub stripped : List ℕ → List ℕ
stripped base_url =
    trim_slashes
      (trim_start_matches (codes "http://") (trim_start_matches (codes "https://") base_url))

unfoldable pub scheme_is_https : List ℕ → Bool
scheme_is_https base_url = starts_with (codes "https://") base_url

unfoldable pub relay_authority : List ℕ → List ℕ
relay_authority base_url =
    if contains b':' (stripped base_url)
    then stripped base_url
    else stripped base_url ++ (b':' ∷ to_string (if scheme_is_https base_url then 443 else 80))

unfoldable pub relay_query : RelayQrInfo → List ℕ
relay_query r =
    codes "&rh="
    ++ (relay_authority r.base_url
        ++ (codes "&rid="
            ++ (r.host_id
                ++ (codes "&rtls=" ++ to_string (if scheme_is_https r.base_url then 1 else 0)))))

unfoldable pub build_combined_payload : List ℕ → ℕ → List ℕ → List ℕ → Option RelayQrInfo → List ℕ
build_combined_payload host port code key none = build_payload host port code key
build_combined_payload host port code key (some r) =
    build_payload host port code key ++ relay_query r

-- `replace` of one character.
unfoldable pub replace : ℕ → List ℕ → List ℕ → List ℕ
replace c new [] = []
replace c new (x ∷ s) = (if nat_beq x c then new else x ∷ []) ++ replace c new s

unfoldable pub html_escape : List ℕ → List ℕ
html_escape s =
    replace b'"' (codes "&quot;")
      (replace b'>' (codes "&gt;") (replace b'<' (codes "&lt;") (replace b'&' (codes "&amp;") s)))

unfoldable pub not_virtual : List DiscoveredAddr → List DiscoveredAddr
not_virtual [] = []
not_virtual (a ∷ addrs) =
    let rest = not_virtual addrs in elim a.kind [ virtual ↦ rest | _ ↦ a ∷ rest ]

-- All of them, where there would be none.
unfoldable pub visible : List DiscoveredAddr → List DiscoveredAddr
visible addrs = elim (not_virtual addrs) [ [] ↦ addrs | a ∷ rest ↦ a ∷ rest ]

-- `Ipv4Addr::to_string`.
unfoldable pub dotted : Ipv4Addr → List ℕ
dotted v =
    to_string v.o0
    ++ (b'.' ∷ (to_string v.o1 ++ (b'.' ∷ (to_string v.o2 ++ (b'.' ∷ to_string v.o3)))))

-- The address, the kind and the name that the card shows.
unfoldable pub primary : List DiscoveredAddr → List ℕ × InterfaceKind × List ℕ
primary [] = (codes "0.0.0.0", unknown, codes "relay-only")
primary (a ∷ addrs) = (dotted a.addr, a.kind, a.iface_name)

unfoldable pub kind_label : InterfaceKind → List ℕ × List ℕ
kind_label physical = (codes "物理网卡", codes "ok")
kind_label unknown = (codes "--", codes "warn")
kind_label virtual = (codes "虚拟网卡", codes "bad")

-- The values of the page: the payload is drawn as it is, the others stand in the text.
pub record QrHtml : Type 0 where
  pub qr : List ℕ
  pub code : List ℕ
  pub lan_display : List ℕ
  pub iface : List ℕ
  pub kind_label : List ℕ
  pub kind_class : List ℕ
  pub relay_display : Option (List ℕ)
  pub payload : List ℕ

unfoldable pub page_asked : List DiscoveredAddr → Option RelayQrInfo → Bool
page_asked [] none = false
page_asked _ _ = true

-- `none` is an error. `drawn` says whether `QrCode::new` takes the payload.
unfoldable pub build_qr_html :
    (List ℕ → Bool) → List DiscoveredAddr → ℕ → List ℕ → List ℕ → Option RelayQrInfo → Option QrHtml
build_qr_html drawn addrs port code key relay = elim (page_asked addrs relay) [
  | false ↦ none
  | true ↦
      let (address, kind, name) = primary (visible addrs) in
      let payload = build_combined_payload address port code key relay in
      if drawn payload
      then some (record {
        qr = payload;
        code = code;
        lan_display = html_escape (address ++ (b':' ∷ to_string port));
        iface = html_escape name;
        kind_label = (kind_label kind).0;
        kind_class = (kind_label kind).1;
        relay_display = elim relay [
          | none ↦ none
          | some r ↦ some (html_escape (stripped r.base_url))
        ];
        payload = html_escape payload;
      })
      else none
]
