-- ===== src/Input/Keys.antt =====
-- server-pc/src/input.rs: `type_unicode`.
use remote_control.Base.{
  ℕ, suc, ◌+◌, ◌-◌, ◌*◌, ◌≤◌, ◌<◌, ◌≡◌, refl, ◌⊎◌, inl, inr, Bool, true, false, List, [], ◌∷◌, ◌++◌,
  ltb, leb, ◌&&◌, if◌then◌else◌, All, arith, ap, ◌∙◌, Bool-cases,
}
use remote_control.Input.{
  InputEvent, key, send, encode_utf16, unit_events, text_events, type_unicode,
}

-- A Unicode scalar value.
abbrev pub IsScalar : ℕ → Type 0
IsScalar c = (c < 0xd800) ⊎ ((0xe000 ≤ c) × (c < 0x110000))

-- How UTF-16 is read.
abbrev pub decode_utf16 : List ℕ → List ℕ
decode_utf16 [] = []
decode_utf16 (u ∷ []) = u ∷ []
decode_utf16 (u ∷ v ∷ us) =
    let pair = decode_utf16 us in
    let single = decode_utf16 (v ∷ us) in
    if leb 0xd800 u && ltb u 0xdc00
    then (0x10000 + (u - 0xd800) * 1024 + (v - 0xdc00)) ∷ pair
    else u ∷ single

-- The units of the keys that go down, each of which comes up at once.
abbrev pub Typed : List ℕ → List InputEvent → Type 0
Typed [] [] = Unit
Typed (u ∷ us) (key vk scan uni up ∷ key vk' scan' uni' up' ∷ es) =
    (scan ≡ u)
    × (scan' ≡ u)
    × (u < 0x10000)
    × (vk ≡ 0)
    × (vk' ≡ 0)
    × (uni ≡ true)
    × (uni' ≡ true)
    × (up ≡ false)
    × (up' ≡ true)
    × Typed us es
Typed _ _ = ⊥

units : List ℕ → List ℕ
units [] = []
units (c ∷ text) = encode_utf16 c ++ units text

Typed-append :
    (us vs : List ℕ) (fs : List InputEvent)
    → All (λ u. u < 0x10000) us
    → Typed vs fs
    → Typed (us ++ vs) (unit_events us ++ fs)
unfolding unit_events
Typed-append [] vs fs a t = t
Typed-append (u ∷ us) vs fs a t =
    (refl, refl, a.0, refl, refl, refl, refl, refl, refl, Typed-append us vs fs a.1 t)

encode_utf16_bounds : (c : ℕ) → IsScalar c → All (λ u. u < 0x10000) (encode_utf16 c)
unfolding encode_utf16
encode_utf16_bounds c s = ground arith

decode-encode_utf16 :
    (c : ℕ) (us : List ℕ) → IsScalar c → decode_utf16 (encode_utf16 c ++ us) ≡ c ∷ decode_utf16 us
unfolding encode_utf16
decode-encode_utf16 c [] s = ground arith
decode-encode_utf16 c (v ∷ us) s = ground arith

text_events-Typed : (text : List ℕ) → All IsScalar text → Typed (units text) (text_events text)
unfolding text_events units
text_events-Typed [] a = tt
text_events-Typed (c ∷ text) a =
    Typed-append (encode_utf16 c) (units text) (text_events text) (encode_utf16_bounds c a.0)
      (text_events-Typed text a.1)

decode-units : (text : List ℕ) → All IsScalar text → decode_utf16 (units text) ≡ text
unfolding units
decode-units [] a = refl
decode-units (c ∷ text) a =
    decode-encode_utf16 c (units text) a.0 ∙ ap (◌∷◌ c) (decode-units text a.1)

-- What is sent is a beginning of the events, and all of them where the call succeeds.
send_prefix :
    (taken : ℕ → Bool) (k : ℕ) (es : List InputEvent)
    → (unsent : List InputEvent) × (es ≡ (send taken k es).0 ++ unsent)
      × (((send taken k es).1 ≡ false) ⊎ (unsent ≡ []))
unfolding send
send_prefix taken k [] = ([], refl, inr refl)
send_prefix taken k (e ∷ es) = elim (Bool-cases (taken k)) [
  | inl t ↦
      let (unsent, same, all) = send_prefix taken (suc k) es in
      rw (t) (unsent, ap (◌∷◌ e) same, all)
  | inr f ↦ rw (f) (e ∷ es, refl, inl refl)
]

-- A text is typed as UTF-16: there are units, each pressed and released before the next one, that are
-- read back as the text, surrogate pairs included. What Windows takes of these events is a beginning of
-- them, and all of them where the call succeeds.
pub type_unicode_read_back :
    (taken : ℕ → Bool) (text : List ℕ)
    → All IsScalar text
    → (us : List ℕ) × (es : List InputEvent) × (unsent : List InputEvent) × (decode_utf16 us ≡ text)
      × Typed us es
      × (es ≡ (type_unicode taken text).0 ++ unsent)
      × (((type_unicode taken text).1 ≡ false) ⊎ (unsent ≡ []))
unfolding type_unicode
type_unicode_read_back taken text a =
    let (unsent, same, all) = send_prefix taken 0 (text_events text) in
    (units text, text_events text, unsent, decode-units text a, text_events-Typed text a, same, all)
