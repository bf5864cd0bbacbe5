-- ===== src/RelayClient/Frame.antt =====
-- server-pc/src/relay_client.rs: the binary tunnel frames, as the PC reads and writes them. A `String`
-- is the list of its UTF-8 bytes here, since the code copies and validates those.
pub mod Agreement
use remote_control.Base.{
  ℕ, ◌+◌, Bool, true, false, List, [], ◌∷◌, ◌++◌, Option, none, some, not, ltb, ◌==◌, nat_eq,
  if◌then◌else◌, length, get_or, drop, take, replicate, min,
}
use remote_control.Base.Utf8.{from_utf8}

pub data TunnelFrame : Type 0 where
  client_open : List ℕ → TunnelFrame
  client_close : List ℕ → TunnelFrame
  data_frame : List ℕ → Bool → List ℕ → TunnelFrame

abbrev pub tunnel_header_len : ℕ
tunnel_header_len = 38

abbrev pub tf_open : ℕ
tf_open = 1

abbrev pub tf_close : ℕ
tf_close = 2

abbrev pub tf_data : ℕ
tf_data = 3

-- Exactly 36 bytes: the id cut off there, or filled up with `0` digits.
unfoldable pub push_uuid : List ℕ → List ℕ → List ℕ
push_uuid buf uuid =
    let n = min (length uuid) 36 in buf ++ (take n uuid ++ drop n (replicate 36 b'0'))

unfoldable pub encode : TunnelFrame → List ℕ
encode (client_open client_id) = push_uuid (tf_open ∷ []) client_id ++ (0 ∷ [])
encode (client_close client_id) = push_uuid (tf_close ∷ []) client_id ++ (0 ∷ [])
encode (data_frame client_id text payload) =
    push_uuid (tf_data ∷ []) client_id ++ ((if text then 1 else 0) ∷ payload)

-- `match mty` of `decode`, after the header is read.
unfoldable pub decode_type : ℕ → List ℕ → ℕ → List ℕ → Option TunnelFrame
decode_type mty client_id flag payload =
    if mty == tf_open
    then some (client_open client_id)
    else if mty == tf_close
    then some (client_close client_id)
    else if mty == tf_data
    then some (data_frame client_id (not (flag == 0)) payload)
    else none

-- The bytes of the header are read only below the tested length.
unfoldable pub decode : List ℕ → Option TunnelFrame
decode bytes =
    if ltb (length bytes) tunnel_header_len
    then none
    else elim (from_utf8 (take 36 (drop 1 bytes))) [
      | none ↦ none
      | some client_id ↦
          decode_type (get_or bytes 0 0) client_id (get_or bytes 37 0)
            (drop tunnel_header_len bytes)
    ]
