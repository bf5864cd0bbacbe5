-- ===== src/QrPage/Escape.antt =====
-- server-pc/src/qr.rs: `html_escape` against a translation of one character at a time.
use remote_control.Base.{
  ℕ, zero, suc, ◌≡◌, refl, ◌≢◌, List, [], ◌∷◌, ◌++◌, none, some, length, nat_beq, if◌then◌else◌,
  All, All-append, append_assoc, ap, sym, ◌∙◌, arith, subst,
}
use remote_control.Base.Text.{codes, strip_prefix}
use remote_control.QrPage.{replace, html_escape}

-- The text of HTML that shows as the character.
abbrev pub entity : ℕ → List ℕ
entity c =
    if nat_beq c b'&'
    then codes "&amp;"
    else if nat_beq c b'<'
    then codes "&lt;"
    else if nat_beq c b'>'
    then codes "&gt;"
    else if nat_beq c b'"'
    then codes "&quot;"
    else c ∷ []

abbrev pub entities : List ℕ → List ℕ
entities [] = []
entities (c ∷ s) = entity c ++ entities s

-- How a browser reads the four entities, one character for each unit of fuel.
abbrev pub shown : ℕ → List ℕ → List ℕ
shown zero s = s
shown (suc fuel) [] = []
shown (suc fuel) (c ∷ s) = elim (strip_prefix (codes "&amp;") (c ∷ s)) [
  | some rest ↦ b'&' ∷ shown fuel rest
  | none ↦ elim (strip_prefix (codes "&lt;") (c ∷ s)) [
    | some rest ↦ b'<' ∷ shown fuel rest
    | none ↦ elim (strip_prefix (codes "&gt;") (c ∷ s)) [
      | some rest ↦ b'>' ∷ shown fuel rest
      | none ↦ elim (strip_prefix (codes "&quot;") (c ∷ s)) [
        | some rest ↦ b'"' ∷ shown fuel rest
        | none ↦ c ∷ shown fuel s
      ]
    ]
  ]
]

-- Nothing that opens or closes a tag or an attribute.
abbrev pub IsInert : ℕ → Type 0
IsInert c = (c ≢ b'<') × (c ≢ b'>') × (c ≢ b'"')

replace-append :
    (c : ℕ) (new xs ys : List ℕ) → replace c new (xs ++ ys) ≡ replace c new xs ++ replace c new ys
unfolding replace
replace-append c new [] ys = refl
replace-append c new (x ∷ xs) ys =
    ap (◌++◌ (if nat_beq x c then new else x ∷ [])) (replace-append c new xs ys)
    ∙ sym (append_assoc (if nat_beq x c then new else x ∷ []) (replace c new xs) (replace c new ys))

html_escape-append : (xs ys : List ℕ) → html_escape (xs ++ ys) ≡ html_escape xs ++ html_escape ys
unfolding html_escape
html_escape-append xs ys = rw (replace-append b'&' (codes "&amp;") xs ys) (
    rw (replace-append b'<' (codes "&lt;"))
      (rw (replace-append b'>' (codes "&gt;")) (rw (replace-append b'"' (codes "&quot;")) refl)))

html_escape_one : (c : ℕ) → html_escape (c ∷ []) ≡ entity c
unfolding html_escape replace
html_escape_one c = ground arith

html_escape-entities : (s : List ℕ) → html_escape s ≡ entities s
unfolding html_escape replace
html_escape-entities [] = refl
html_escape-entities (c ∷ s) =
    html_escape-append (c ∷ []) s
    ∙ ap (λ t. t ++ html_escape s) (html_escape_one c)
    ∙ ap (◌++◌ (entity c)) (html_escape-entities s)

entity-IsInert : (c : ℕ) → All IsInert (entity c)
entity-IsInert c = ground arith

shown-entity :
    (c fuel : ℕ) (rest : List ℕ) → shown (suc fuel) (entity c ++ rest) ≡ c ∷ shown fuel rest
unfolding strip_prefix
shown-entity c fuel rest = ground arith

entities-IsInert : (s : List ℕ) → All IsInert (entities s)
entities-IsInert [] = tt
entities-IsInert (c ∷ s) =
    All-append IsInert (entity c) (entities s) (entity-IsInert c) (entities-IsInert s)

shown-entities : (s : List ℕ) → shown (length s) (entities s) ≡ s
shown-entities [] = refl
shown-entities (c ∷ s) = shown-entity c (length s) (entities s) ∙ ap (◌∷◌ c) (shown-entities s)

-- Four replacements one after the other do not disturb each other: they give what a translation of one
-- character at a time gives. The result opens no tag and ends no attribute, and a browser shows the text
-- that was escaped.
pub html_escape_lem :
    (s : List ℕ)
    → (html_escape s ≡ entities s)
      × All IsInert (html_escape s)
      × (shown (length s) (html_escape s) ≡ s)
html_escape_lem s =
    let e = html_escape-entities s in
    (
      e,
      subst (All IsInert) (sym e) (entities-IsInert s),
      ap (shown (length s)) e ∙ shown-entities s,
    )
