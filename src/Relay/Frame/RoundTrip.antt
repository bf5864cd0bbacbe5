-- ===== src/Relay/Frame/RoundTrip.antt =====
-- `TunnelFrame::decode` of relay/src/main.rs against `TunnelFrame::encode`.
use remote_control.Base.{
  ℕ, ◌≡◌, refl, true, false, List, ◌∷◌, ◌++◌, length, arith, none, some, nat_eq, if◌then◌else◌,
  take-append, get_or-append, length-append, Bool-cases, ltb, drop, get_or, take, length-take,
  length-drop, inl, inr, drop-append_past,
}
use remote_control.Base.Utf8.{is_utf8, from_utf8}
use remote_control.Relay.Frame.{
  TunnelFrame, client_open, client_close, data_frame, encode, decode, decode_type,
}
use remote_control.Relay.Frame.Shape.{
  uuid_field, uuid_field_exact, length-uuid_field, encode_layout, type_byte, client_of, flag_byte,
  payload_of,
}

-- What `decode` reads from any bytes with the layout of a frame.
pub decode_layout :
    (t : ℕ) (u : List ℕ) (flag : ℕ) (p : List ℕ)
    → length u ≡ 36
    → decode (t ∷ (u ++ (flag ∷ p))) ≡ (if is_utf8 u then decode_type t u flag p else none)
decode_layout t u flag p h = elim (Bool-cases (is_utf8 u)) [
  | inl v ↦
      unfold decode from_utf8 in
      ground (
        arith,
        take-append u (flag ∷ p) 36,
        get_or-append u p flag 0 36,
        drop-append_past u p flag 36,
        length-append u (flag ∷ p),
      )
  | inr v ↦
      unfold decode from_utf8 in
      ground (
        arith,
        take-append u (flag ∷ p) 36,
        get_or-append u p flag 0 36,
        drop-append_past u p flag 36,
        length-append u (flag ∷ p),
      )
]

-- The frame that `decode` gives back: the id as it was put on the wire.
abbrev pub on_wire : TunnelFrame → TunnelFrame
on_wire (client_open c) = client_open (uuid_field c)
on_wire (client_close c) = client_close (uuid_field c)
on_wire (data_frame c t p) = data_frame (uuid_field c) t p

decode_type-on_wire :
    (f : TunnelFrame)
    → decode_type (type_byte f) (uuid_field (client_of f)) (flag_byte f) (payload_of f)
      ≡ some (on_wire f)
unfolding decode_type
decode_type-on_wire (client_open c) = refl
decode_type-on_wire (client_close c) = refl
decode_type-on_wire (data_frame c true p) = refl
decode_type-on_wire (data_frame c false p) = refl

pub decode-encode_wire :
    (f : TunnelFrame)
    → decode (encode f) ≡ (if is_utf8 (uuid_field (client_of f)) then some (on_wire f) else none)
decode-encode_wire f = rw (encode_layout f) (
    rw
      (
        decode_layout (type_byte f) (uuid_field (client_of f)) (flag_byte f) (payload_of f)
            (length-uuid_field (client_of f)),
        decode_type-on_wire f,
      )
      refl)

-- A frame with a client id of 36 bytes of UTF-8, as every UUID is, is decoded to itself.
pub decode-encode :
    (f : TunnelFrame)
    → length (client_of f) ≡ 36
    → is_utf8 (client_of f) ≡ true
    → decode (encode f) ≡ some f
decode-encode f h v = rw (decode-encode_wire f) (by_cases f h v)
  where
    by_cases :
        (g : TunnelFrame)
        → length (client_of g) ≡ 36
        → is_utf8 (client_of g) ≡ true
        → (if is_utf8 (uuid_field (client_of g)) then some (on_wire g) else none) ≡ some g
    by_cases (client_open c) k w = rw (uuid_field_exact c k, w)
    by_cases (client_close c) k w = rw (uuid_field_exact c k, w)
    by_cases (data_frame c t p) k w = rw (uuid_field_exact c k, w)

decode_type_client :
    (t : ℕ) (u : List ℕ) (flag : ℕ) (p : List ℕ) (f : TunnelFrame)
    → decode_type t u flag p ≡ some f
    → client_of f ≡ u
unfolding decode_type
decode_type_client t u flag p (client_open c) e = ground arith
decode_type_client t u flag p (client_close c) e = ground arith
decode_type_client t u flag p (data_frame c b q) e = ground arith

-- What is decoded has an id of 36 bytes of UTF-8.
pub decode_client :
    (bytes : List ℕ) (f : TunnelFrame)
    → decode bytes ≡ some f
    → (length (client_of f) ≡ 36) × (is_utf8 (client_of f) ≡ true)
unfolding decode from_utf8
decode_client bytes f e =
    let u : List ℕ = take 36 (drop 1 bytes) in
    elim (Bool-cases (ltb (length bytes) 38)) [
      | inl short ↦ ground arith
      | inr long ↦ elim (Bool-cases (is_utf8 u)) [
        | inl v ↦ ground (
          arith,
          length-take 36 (drop 1 bytes),
          length-drop 1 bytes,
          decode_type_client (get_or bytes 0 0) u (get_or bytes 37 0) (drop 38 bytes) f,
        )
        | inr v ↦ ground arith
      ]
    ]

-- A decoded frame that is encoded again is decoded to the same frame: forwarding a tunnel frame
-- any number of times does not change it.
pub decode-encode-decode :
    (bytes : List ℕ) (f : TunnelFrame) → decode bytes ≡ some f → decode (encode f) ≡ some f
decode-encode-decode bytes f e = let (h, v) = decode_client bytes f e in decode-encode f h v
