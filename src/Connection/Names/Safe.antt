-- ===== src/Connection/Names/Safe.antt =====
-- server-pc/src/connection.rs, `sanitize_filename`: the names that it returns.
use remote_control.Base.{
  ℕ, zero, suc, ◌-◌, ◌≤◌, ◌<◌, ◌≡◌, refl, ◌≢◌, inl, inr, false, List, [], ◌∷◌, ◌++◌, arith,
  Bool-cases, length, take, length-take, length-append, All, All-append, ltb, ◌||◌, ◌&&◌, ◌==◌,
  list_eq, list_beq_iff, list_beq, ap, subst, sym, append-nil,
}
use remote_control.Base.Text.{contains, codes, rsplit_once_cases, as_bytes, utf8_char}
use remote_control.Connection.Names.{
  is_forbidden, is_whitespace, without_forbidden, trim_start, trim_end, trim, split_extension,
  shorten, sanitize_filename,
}

-- The characters that a path or Windows gives a meaning.
abbrev pub special : List ℕ
special = 0 ∷ codes "/\\:*?\"<>|"

abbrev pub Plain : List ℕ → Type 0
Plain s = All (λ c. contains c special ≡ false) s

is_forbidden_lem : (c : ℕ) → is_forbidden c ≡ false → contains c special ≡ false
unfolding is_forbidden contains
is_forbidden_lem c h = ground arith

without_forbidden-Plain : (s : List ℕ) → Plain (without_forbidden s)
unfolding without_forbidden
without_forbidden-Plain [] = tt
without_forbidden-Plain (c ∷ s) = elim (Bool-cases (is_forbidden c)) [
  | inl y ↦ rw (y, without_forbidden) (without_forbidden-Plain s)
  | inr n ↦ rw (n, without_forbidden) (is_forbidden_lem c n, without_forbidden-Plain s)
]

trim_start-Plain : (s : List ℕ) → Plain s → Plain (trim_start s)
unfolding trim_start
trim_start-Plain [] p = tt
trim_start-Plain (c ∷ s) p = elim (Bool-cases (is_whitespace c)) [
  | inl y ↦ rw (y, trim_start) (trim_start-Plain s p.1)
  | inr n ↦ rw (n, trim_start) p
]

trim_end-Plain : (s : List ℕ) → Plain s → Plain (trim_end s)
unfolding trim_end
trim_end-Plain [] p = tt
trim_end-Plain (c ∷ s) p = elim (Bool-cases (trim_end s == [] && is_whitespace c)) [
  | inl y ↦ rw (y, trim_end) tt
  | inr n ↦ rw (n, trim_end) (p.0, trim_end-Plain s p.1)
]

take-Plain : (n : ℕ) (s : List ℕ) → Plain s → Plain (take n s)
take-Plain zero s p = tt
take-Plain (suc n) [] p = tt
take-Plain (suc n) (c ∷ s) p = (p.0, take-Plain n s p.1)

Plain-split : (a b : List ℕ) → Plain (a ++ b) → Plain a × Plain b
Plain-split [] b p = (tt, p)
Plain-split (c ∷ a) b p = let (x, y) = Plain-split a b p.1 in ((p.0, x), y)

length-le_as_bytes : (s : List ℕ) → length s ≤ length (as_bytes s)
unfolding as_bytes utf8_char
length-le_as_bytes [] = omega arith
length-le_as_bytes (c ∷ s) =
    ground (arith, length-le_as_bytes s, length-append (utf8_char c) (as_bytes s))

-- The stem and the extension of a name, and their lengths.
split_extension_lem :
    (s : List ℕ) → let r = split_extension s in (r.0 ++ r.1 ≡ s) × (length r.1 ≤ 32)
unfolding split_extension
split_extension_lem s = elim (rsplit_once_cases b'.' s) [
  | inl (e, no_dot) ↦ rw (e, split_extension) (append-nil s, omega arith)
  | inr (a, b, e, whole, last) ↦ elim (Bool-cases (ltb (length (as_bytes b)) 32)) [
    | inl y ↦ rw (e, split_extension) (rw y (sym whole, ground (arith, length-le_as_bytes b)))
    | inr n ↦ rw (e, split_extension) (rw n (append-nil s, omega arith))
  ]
]

shorten_lem :
    (s : List ℕ) → Plain s → 200 < length s → Plain (shorten s) × (length (shorten s) ≡ 200)
unfolding shorten
shorten_lem s p long =
    let (whole, short) = split_extension_lem s in
    let stem : List ℕ = (split_extension s).0 in
    let ext : List ℕ = (split_extension s).1 in
    let (x, y) = Plain-split stem ext (subst Plain (sym whole) p) in
    (
      All-append _ (take (200 - length ext) stem) ext (take-Plain (200 - length ext) stem x) y,
      omega (
        arith,
        ap length whole,
        length-append stem ext,
        length-append (take (200 - length ext) stem) ext,
        length-take (200 - length ext) stem,
      ),
    )

trim-Plain : (s : List ℕ) → Plain s → Plain (trim s)
unfolding trim
trim-Plain s p = trim_end-Plain (trim_start s) (trim_start-Plain s p)

default-Plain : Plain (codes "received.bin")
unfolding contains
default-Plain = (
  refl,
  (refl, (refl, (refl, (refl, (refl, (refl, (refl, (refl, (refl, (refl, (refl, tt))))))))))),
)

abbrev pub Safe : List ℕ → Type 0
Safe name =
    Plain name × (1 ≤ length name) × (length name ≤ 200) × (name ≢ codes ".") × (name ≢ codes "..")

long-Safe : (s : List ℕ) → Plain s → length s ≡ 200 → Safe s
long-Safe s p n = (
  p,
  omega arith,
  omega arith,
  (λ e. omega (arith, ap length e)),
  λ e. omega (arith, ap length e),
)

short-Safe :
    (s : List ℕ)
    → Plain s
    → (s == [] || s == codes "." || s == codes "..") ≡ false
    → length s ≤ 200
    → Safe s
unfolding list_beq
short-Safe [] p n h = cc
short-Safe (c ∷ s) p n h = (
  p,
  omega arith,
  h,
  (λ e. ground (arith, list_beq_iff (c ∷ s) (codes "."))),
  λ e. ground (arith, list_beq_iff (c ∷ s) (codes "..")),
)

-- Whatever name a phone sends, the name that is used has no NUL and none of `/ \ : * ? " < > |`, has 1 to
-- 200 characters, and is neither `.` nor `..`.
pub sanitize_filename-Safe : (raw : List ℕ) → Safe (sanitize_filename raw)
unfolding sanitize_filename
sanitize_filename-Safe raw =
    let trimmed : List ℕ = trim (without_forbidden raw) in
    let plain = trim-Plain (without_forbidden raw) (without_forbidden-Plain raw) in
    elim (Bool-cases (trimmed == [] || trimmed == codes "." || trimmed == codes "..")) [
      | inl y ↦
          rw (y, sanitize_filename) (default-Plain, omega arith, omega arith, (λ e. cc), λ e. cc)
      | inr n ↦ elim (Bool-cases (ltb 200 (length trimmed))) [
        | inl long ↦
            let (short, full) = shorten_lem trimmed plain (ground arith) in
            rw (n, sanitize_filename) (rw long (long-Safe (shorten trimmed) short full))
        | inr fits ↦ rw (n, sanitize_filename) (rw fits (short-Safe trimmed plain n (ground arith)))
      ]
    ]
