-- ===== src/Format/Escape.antt =====
-- `escapeHTML` of internal/format/format.go: the five replacements are one pass, nothing of the markup
-- is left in the result, and a browser reads the text back.
use mathlib.Core.List.{append_assoc}
use rdw.Common.{
  ◌==◌, if◌then◌else◌, All, All-append, Option, none, some, suc, zero, is_present, Text, codes,
  after_prefix, ℕ, ◌≡◌, refl, sym, ◌≢◌, Bool-cases, inl, inr, ==_iff, true, false, [], ◌∷◌, ◌++◌,
  arith,
}
use rdw.Format.{replace_byte, escape_html}

-- What the markup reads a byte as: the reference for the five bytes that it knows, else the byte.
unfoldable escape_byte : ℕ → Text
escape_byte c =
    if c == 38
    then codes "&amp;"
    else if c == 60
    then codes "&lt;"
    else if c == 62
    then codes "&gt;"
    else if c == 34
    then codes "&#34;"
    else if c == 39
    then codes "&#39;"
    else c ∷ []

unfoldable escape_each : Text → Text
escape_each [] = []
escape_each (c ∷ s) = escape_byte c ++ escape_each s

replace_byte-append :
    (old : ℕ) (new s t : Text)
    → replace_byte old new (s ++ t) ≡ replace_byte old new s ++ replace_byte old new t
unfolding replace_byte
replace_byte-append old new [] t = refl
replace_byte-append old new (c ∷ s) t = elim (Bool-cases (c == old)) [
  | inl e ↦ rw (e, replace_byte-append old new s t) (sym (append_assoc new _ _))
  | inr n ↦ rw (n, replace_byte-append old new s t) refl
]

pub escape_html-append : (s t : Text) → escape_html (s ++ t) ≡ escape_html s ++ escape_html t
unfolding escape_html
escape_html-append s t =
    rw
      (
        replace_byte-append 38 (codes "&amp;") s t,
        replace_byte-append 60 (codes "&lt;"),
        replace_byte-append 62 (codes "&gt;"),
        replace_byte-append 34 (codes "&#34;"),
        replace_byte-append 39 (codes "&#39;"),
      )
      refl

escape_html-byte : (c : ℕ) → escape_html (c ∷ []) ≡ escape_byte c
unfolding escape_html escape_byte replace_byte
escape_html-byte c = elim (Bool-cases (c == 38)) [
  | inl e ↦ rw ((==_iff c 38).0 e) refl
  | inr n ↦ elim (Bool-cases (c == 60)) [
    | inl e ↦ rw ((==_iff c 60).0 e) refl
    | inr o ↦ elim (Bool-cases (c == 62)) [
      | inl e ↦ rw ((==_iff c 62).0 e) refl
      | inr p ↦ elim (Bool-cases (c == 34)) [
        | inl e ↦ rw ((==_iff c 34).0 e) refl
        | inr q ↦ elim (Bool-cases (c == 39)) [
          | inl e ↦ rw ((==_iff c 39).0 e) refl
          | inr r ↦ rw (n, o, p, q, r) refl
        ]
      ]
    ]
  ]
]

pub escape_html-empty : escape_html [] ≡ []
unfolding escape_html replace_byte
escape_html-empty = refl

-- The five replacements, one after the other, replace each byte of the text once.
escape_html-each : (s : Text) → escape_html s ≡ escape_each s
unfolding escape_each
escape_html-each [] = escape_html-empty
escape_html-each (c ∷ s) =
    rw (escape_html-append (c ∷ []) s, escape_html-byte c, escape_html-each s)

-- Nothing opens or closes a tag or an attribute.
abbrev pub IsInert : Text → Type 0
IsInert = All (λ c. (c ≢ 60) × (c ≢ 62) × (c ≢ 34) × (c ≢ 39))

escape_byte-IsInert : (c : ℕ) → IsInert (escape_byte c)
unfolding escape_byte
escape_byte-IsInert c = ground arith

escape_each-IsInert : (s : Text) → IsInert (escape_each s)
unfolding escape_each
escape_each-IsInert [] = tt
escape_each-IsInert (c ∷ s) =
    All-append _ (escape_byte c) (escape_each s) (escape_byte-IsInert c) (escape_each-IsInert s)

-- The reference that follows an `&`: its byte, and how many bytes it has.
unfoldable reference_at : Text → Option (ℕ × ℕ)
reference_at s =
    if is_present (after_prefix (codes "amp;") s)
    then some (38, 4)
    else if is_present (after_prefix (codes "lt;") s)
    then some (60, 3)
    else if is_present (after_prefix (codes "gt;") s)
    then some (62, 3)
    else if is_present (after_prefix (codes "#34;") s)
    then some (34, 4)
    else if is_present (after_prefix (codes "#39;") s)
    then some (39, 4)
    else none

-- What a browser reads, the first argument being how many bytes of a reference are left.
pub read_references : ℕ → Text → Text
read_references _ [] = []
read_references (suc k) (c ∷ s) = read_references k s
read_references zero (c ∷ s) = elim (c == 38) [
  | false ↦ c ∷ read_references zero s
  | true ↦ elim (reference_at s) [
    | none ↦ c ∷ read_references zero s
    | some (b, k) ↦ b ∷ read_references k s
  ]
]

read-plain :
    (c : ℕ) (s : Text) → (c == 38) ≡ false → read_references 0 (c ∷ s) ≡ c ∷ read_references 0 s
unfolding read_references
read-plain c s n = ground arith

read-escape_byte :
    (c : ℕ) (s : Text) → read_references 0 (escape_byte c ++ s) ≡ c ∷ read_references 0 s
unfolding escape_byte read_references reference_at after_prefix
read-escape_byte c s = elim (Bool-cases (c == 38)) [
  | inl e ↦ rw ((==_iff c 38).0 e) refl
  | inr n ↦ elim (Bool-cases (c == 60)) [
    | inl e ↦ rw ((==_iff c 60).0 e) refl
    | inr o ↦ elim (Bool-cases (c == 62)) [
      | inl e ↦ rw ((==_iff c 62).0 e) refl
      | inr p ↦ elim (Bool-cases (c == 34)) [
        | inl e ↦ rw ((==_iff c 34).0 e) refl
        | inr q ↦ elim (Bool-cases (c == 39)) [
          | inl e ↦ rw ((==_iff c 39).0 e) refl
          | inr r ↦ rw (n, o, p, q, r) (read-plain c s n)
        ]
      ]
    ]
  ]
]

read-escape_each : (s : Text) → read_references 0 (escape_each s) ≡ s
unfolding escape_each read_references
read-escape_each [] = refl
read-escape_each (c ∷ s) = rw (read-escape_byte c (escape_each s), read-escape_each s) refl

-- escapeHTML leaves no byte that opens or closes a tag or an attribute, and a browser reads the text
-- that was escaped.
pub escape_html-read :
    (s : Text) → IsInert (escape_html s) × (read_references 0 (escape_html s) ≡ s)
escape_html-read s = rw (escape_html-each s) (escape_each-IsInert s, read-escape_each s)
