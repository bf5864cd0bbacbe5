-- ===== src/Tests/Page.antt =====
-- The page with the QR code and the injected input, at concrete inputs.
use remote_control.Base.{
  ℕ, ◌≡◌, refl, ◌⊎◌, false, List, [], ◌∷◌, ◌++◌, Option, some, All, arith, ltb,
}
use remote_control.Base.Decimal.{to_string}
use remote_control.Base.Text.{codes, contains}
use remote_control.Config.{protocol_version}
use remote_control.Input.Keys.{type_unicode_read_back, decode_utf16, Typed}
use remote_control.Input.{InputEvent, type_unicode}
use remote_control.QrPage.Endpoint.{relay_endpoint_agrees}
use remote_control.QrPage.BaseUrl.{base}
use remote_control.QrPage.Escape.{html_escape_lem, entities, shown, IsInert}
use remote_control.QrPage.Query.Fields.{address_and_query}
use remote_control.QrPage.Query.{payload_read_back, lan_address, all_fields}
use remote_control.QrPage.{
  html_escape, RelayQrInfo, build_combined_payload, relay_authority, scheme_is_https,
}
use remote_control.RelayClient.Url.{RelayConfig, host_ws_url, with_scheme, parse_ws_authority}

-- A name that tries to open a tag, and one that is escaped already.
html_escape_lem_example :
    (html_escape (codes "<b a=\"&lt;\">") ≡ entities (codes "<b a=\"&lt;\">"))
    × All IsInert (html_escape (codes "<b a=\"&lt;\">"))
    × (shown 12 (html_escape (codes "<b a=\"&lt;\">")) ≡ codes "<b a=\"&lt;\">")
html_escape_lem_example = html_escape_lem (codes "<b a=\"&lt;\">")

abbrev relay : Option RelayQrInfo
relay = some (record { base_url = codes "https://h.x/"; host_id = codes "pc" })

payload_read_back_example :
    address_and_query
      (build_combined_payload (codes "10.0.0.2") 9999 (codes "123456") (codes "k=") relay)
    ≡ some (
      lan_address (codes "10.0.0.2") 9999,
      (codes "v", to_string protocol_version) ∷ all_fields (codes "123456") (codes "k=") relay,
    )
payload_read_back_example =
    payload_read_back (codes "10.0.0.2") 9999 (codes "123456") (codes "k=") relay (omega arith)
      (omega arith) (omega arith) (omega arith, omega arith)

abbrev dialled : RelayConfig
dialled = record {
  base_url = base false (codes "h.x:8080") 2;
  host_id = codes "pc";
  host_token = codes "t";
}

relay_endpoint_agrees_example :
    (url : List ℕ) × (host_ws_url dialled ≡ some url)
    × (url ≡ with_scheme (codes "ws") (codes "h.x:8080") dialled)
    × (relay_authority dialled.base_url ≡ codes "h.x:8080")
    × (scheme_is_https dialled.base_url ≡ false)
    × (parse_ws_authority url ≡ some (relay_authority dialled.base_url))
unfolding contains
relay_endpoint_agrees_example =
    relay_endpoint_agrees false (codes "h.x") (some (codes "8080")) 2 dialled
      ((λ e. cc), omega arith) ((λ e. cc), omega arith) refl

-- A letter and a character outside the first plane; Windows takes three events.
type_unicode_read_back_example :
    (us : List ℕ) × (es : List InputEvent) × (unsent : List InputEvent) × (decode_utf16 us
      ≡ 97 ∷ 0x1f600 ∷ [])
    × Typed us es
    × (es ≡ (type_unicode (λ k. ltb k 3) (97 ∷ 0x1f600 ∷ [])).0 ++ unsent)
    × (((type_unicode (λ k. ltb k 3) (97 ∷ 0x1f600 ∷ [])).1 ≡ false) ⊎ (unsent ≡ []))
type_unicode_read_back_example =
    type_unicode_read_back (λ k. ltb k 3) (97 ∷ 0x1f600 ∷ []) (ground arith)
