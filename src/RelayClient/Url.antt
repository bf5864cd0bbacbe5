-- ===== src/RelayClient/Url.antt =====
-- server-pc/src/relay_client.rs: `host_ws_url` and `parse_ws_authority`. Texts are lists of scalar values.
use remote_control.Base.{
  ℕ, not, ◌&&◌, ◌||◌, List, [], ◌∷◌, ◌++◌, Option, none, some, ◌==◌, list_eq, nat_beq,
  if◌then◌else◌,
}
use remote_control.Base.Text.{codes, strip_prefix, contains}

pub record RelayConfig : Type 0 where
  pub base_url : List ℕ
  pub host_id : List ℕ
  pub host_token : List ℕ

-- `trim_end_matches('/')`.
unfoldable pub trim_slashes : List ℕ → List ℕ
trim_slashes [] = []
trim_slashes (c ∷ s) =
    let rest = trim_slashes s in if rest == [] && nat_beq c b'/' then [] else c ∷ rest

-- Up to the first `/` or `?`.
unfoldable pub authority : List ℕ → List ℕ
authority [] = []
authority (c ∷ s) =
    let rest = authority s in if nat_beq c b'/' || nat_beq c b'?' then [] else c ∷ rest

unfoldable pub parse_ws_authority : List ℕ → Option (List ℕ)
parse_ws_authority ws_url = elim (strip_prefix (codes "ws://") ws_url) [
  | none ↦ none
  | some rest ↦
      if authority rest == [] || not (contains b':' (authority rest))
      then none
      else some (authority rest)
]

unfoldable pub with_scheme : List ℕ → List ℕ → RelayConfig → List ℕ
with_scheme scheme host_part cfg =
    scheme
    ++ (codes "://"
        ++ (host_part
            ++ (codes "/v1/host?host_id="
                ++ (cfg.host_id ++ (codes "&host_token=" ++ cfg.host_token)))))

-- `splitn(2, "://").nth(1)` is what follows the scheme, since the base starts with it.
unfoldable pub host_ws_url : RelayConfig → Option (List ℕ)
host_ws_url cfg = elim (strip_prefix (codes "https://") (trim_slashes cfg.base_url)) [
  | some host_part ↦ some (with_scheme (codes "wss") host_part cfg)
  | none ↦ elim (strip_prefix (codes "http://") (trim_slashes cfg.base_url)) [
    | some host_part ↦ some (with_scheme (codes "ws") host_part cfg)
    | none ↦ none
  ]
]
