-- ===== src/QrPage/Query/Fields.antt =====
-- server-pc/src/qr.rs: the fields of a query are read back.
use remote_control.Base.{
  ℕ, ◌≡◌, refl, ◌≢◌, List, [], ◌∷◌, ◌++◌, Option, none, some, nat_beq, nat_beq_iff, if◌then◌else◌,
  All, All-append, ap, arith, map, list_eq,
}
use remote_control.Base.Text.{split_once}

-- The first piece and the later ones, between the `c`.
abbrev pub pieces : ℕ → List ℕ → List ℕ × List (List ℕ)
pieces c [] = ([], [])
pieces c (x ∷ s) =
    let rest = pieces c s in if nat_beq x c then ([], rest.0 ∷ rest.1) else (x ∷ rest.0, rest.1)

abbrev pub IsFree : ℕ → List ℕ → Type 0
IsFree c s = All (λ x. x ≢ c) s

abbrev pub Field : Type 0
Field = List ℕ × List ℕ

abbrev pub field : List ℕ → Field
field s = elim (split_once b'=' s) [ some (k, v) ↦ (k, v) | none ↦ (s, []) ]

-- The names and values of a query, which stand between `&`.
abbrev pub fields : List ℕ → List Field
fields s = map field ((pieces b'&' s).0 ∷ (pieces b'&' s).1)

-- What stands before the query, and the query.
abbrev pub address_and_query : List ℕ → Option (List ℕ × List Field)
address_and_query s = elim (split_once b'?' s) [
  | some (address, query) ↦ some (address, fields query)
  | none ↦ none
]

pieces_free : (c : ℕ) (s : List ℕ) → IsFree c s → pieces c s ≡ (s, [])
pieces_free c [] h = refl
pieces_free c (x ∷ s) h = ground (arith, pieces_free c s)

pieces-append :
    (c : ℕ) (s t : List ℕ)
    → IsFree c s
    → pieces c (s ++ (c ∷ t)) ≡ (s, (pieces c t).0 ∷ (pieces c t).1)
pieces-append c [] t h = ground arith
pieces-append c (x ∷ s) t h = ground (arith, pieces-append c s t)

pub split_once-append :
    (c : ℕ) (s t : List ℕ) → IsFree c s → split_once c (s ++ (c ∷ t)) ≡ some (s, t)
unfolding split_once
split_once-append c [] t h = ground (arith, nat_beq_iff c c)
split_once-append c (x ∷ s) t h = ground (arith, split_once-append c s t)

abbrev pub IsWritable : Field → Type 0
IsWritable (k, v) = IsFree b'=' k × IsFree b'&' k × IsFree b'&' v

abbrev assign : Field → List ℕ
assign (k, v) = k ++ (b'=' ∷ v)

abbrev pub render : Field → List Field → List ℕ
render f [] = assign f
render f (g ∷ gs) = assign f ++ (b'&' ∷ render g gs)

field-assign : (f : Field) → IsWritable f → field (assign f) ≡ f
field-assign (k, v) h = rw (split_once-append b'=' k v h.0, field) refl

assign-IsFree : (f : Field) → IsWritable f → IsFree b'&' (assign f)
assign-IsFree (k, v) h = All-append (λ x. x ≢ b'&') k (b'=' ∷ v) h.1 (omega arith, h.2)

pub fields-render :
    (f : Field) (fs : List Field) → IsWritable f → All IsWritable fs → fields (render f fs) ≡ f ∷ fs
fields-render f [] h hs =
    rw (pieces_free b'&' (assign f) (assign-IsFree f h)) (ap (λ g. g ∷ []) (field-assign f h))
fields-render f (g ∷ gs) h hs =
    rw (pieces-append b'&' (assign f) (render g gs) (assign-IsFree f h))
      (rw (field-assign f h) (ap (◌∷◌ f) (fields-render g gs hs.0 hs.1)))
