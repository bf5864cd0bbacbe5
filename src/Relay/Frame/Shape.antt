-- ===== src/Relay/Frame/Shape.antt =====
-- The layout of a tunnel frame of relay/src/main.rs: the lengths of its parts.
use remote_control.Base.{
  ℕ, ◌+◌, ◌≡◌, refl, true, false, List, [], ◌∷◌, ◌++◌, length, arith, min, take, drop, replicate,
  length-append, length-take, length-drop, take_all, append-nil,
}
use remote_control.Relay.Frame.{
  TunnelFrame, client_open, client_close, data_frame, push_uuid, encode, tunnel_header_len,
}

-- The 36 bytes that `push_uuid` appends.
unfoldable pub uuid_field : List ℕ → List ℕ
uuid_field uuid =
    take (min (length uuid) 36) uuid ++ drop (min (length uuid) 36) (replicate 36 b'0')

pub push_uuid_lem : (buf uuid : List ℕ) → push_uuid buf uuid ≡ buf ++ uuid_field uuid
unfolding push_uuid uuid_field
push_uuid_lem buf uuid = refl

pub length-uuid_field : (uuid : List ℕ) → length (uuid_field uuid) ≡ 36
unfolding uuid_field
length-uuid_field uuid =
    let n : ℕ = min (length uuid) 36 in
    let zeros : List ℕ = replicate 36 b'0' in
    omega
      (arith, length-append (take n uuid) (drop n zeros), length-take n uuid, length-drop n zeros)

pub uuid_field_exact : (uuid : List ℕ) → length uuid ≡ 36 → uuid_field uuid ≡ uuid
unfolding uuid_field
uuid_field_exact uuid h = rw (h, take_all 36 uuid (omega arith), append-nil)

-- The frame type, the flag byte and the payload of a frame.
abbrev pub type_byte : TunnelFrame → ℕ
type_byte (client_open c) = 1
type_byte (client_close c) = 2
type_byte (data_frame c t p) = 3

abbrev pub client_of : TunnelFrame → List ℕ
client_of (client_open c) = c
client_of (client_close c) = c
client_of (data_frame c t p) = c

abbrev pub flag_byte : TunnelFrame → ℕ
flag_byte (client_open c) = 0
flag_byte (client_close c) = 0
flag_byte (data_frame c true p) = 1
flag_byte (data_frame c false p) = 0

abbrev pub payload_of : TunnelFrame → List ℕ
payload_of (client_open c) = []
payload_of (client_close c) = []
payload_of (data_frame c t p) = p

-- One layout for all frames.
pub encode_layout :
    (f : TunnelFrame)
    → encode f ≡ type_byte f ∷ (uuid_field (client_of f) ++ (flag_byte f ∷ payload_of f))
unfolding encode
encode_layout (client_open c) = rw push_uuid_lem
encode_layout (client_close c) = rw push_uuid_lem
encode_layout (data_frame c true p) = rw push_uuid_lem
encode_layout (data_frame c false p) = rw push_uuid_lem

-- An encoded frame has 38 bytes of header and then the payload, whatever the client id.
pub length-encode :
    (f : TunnelFrame) → length (encode f) ≡ tunnel_header_len + length (payload_of f)
length-encode f = rw encode_layout (
    omega (
      arith,
      length-append (uuid_field (client_of f)) (flag_byte f ∷ payload_of f),
      length-uuid_field (client_of f),
    ))
