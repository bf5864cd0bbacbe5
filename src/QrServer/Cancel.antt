-- ===== src/QrServer/Cancel.antt =====
-- server-pc/src/qr_server.rs: `handle_cancel_send`, with the id in the query of the path.
pub mod Reaches
use remote_control.Base.{
  ℕ, zero, suc, ◌-◌, ◌^◌, ◌<◌, ◌≡◌, refl, List, [], ◌∷◌, ◌++◌, Option, none, some, nat_beq, list_eq,
  ◌==◌, if◌then◌else◌,
}
use remote_control.Base.Decimal.{parse_uint, to_string, parse_uint-to_string}
use remote_control.Base.Text.{codes, split_once, strip_prefix}
use remote_control.FileSend.{cancel, dispatch}
use remote_control.QrServer.{Shared, Reply, send_json}

-- `split(c)`: the part before the first `c`, and the parts behind it.
unfoldable pub split : ℕ → List ℕ → List ℕ → List (List ℕ)
split c part [] = part ∷ []
split c part (x ∷ s) =
    let next = split c [] s in
    let on = split c (part ++ (x ∷ [])) s in if nat_beq x c then part ∷ next else on

unfoldable pub first_id : List (List ℕ) → Option ℕ
first_id [] = none
first_id (kv ∷ rest) = elim (strip_prefix (codes "id=") kv) [
  | some v ↦ parse_uint (2 ^ 32 - 1) v
  | none ↦ first_id rest
]

unfoldable pub parse_id_query : List ℕ → Option ℕ
parse_id_query path = elim (split_once b'?' path) [
  | none ↦ none
  | some (_, q) ↦ first_id (split b'&' [] q)
]

unfoldable pub handle_cancel_send : List ℕ → Shared → Shared × Reply
handle_cancel_send path_query sh = elim (parse_id_query path_query) [
  | none ↦
      (sh, send_json 400 (codes "Bad Request") (codes "{\"ok\":false,\"reason\":\"missing id\"}"))
  | some id ↦ (
    record sh { channels = (dispatch sh.bridge sh.channels (cancel id)).0 },
    send_json 200 (codes "OK") (codes "{\"ok\":true}"),
  )
]
