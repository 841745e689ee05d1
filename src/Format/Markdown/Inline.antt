-- ===== src/Format/Markdown/Inline.antt =====
-- `inlineMarkdown` of internal/format/markdown.go. A round writes a fragment and goes on with what is
-- left of the text, which is shorter: the length of the text is fuel enough.
use rdw.Common.{
  ◌==◌, if◌then◌else◌, ltb, length, true, false, Text, codes, ℕ, zero, suc, ◌+◌, ◌/◌, ◌%◌, ◌||◌,
  Option, none, some, [], ◌∷◌, ◌++◌,
}
use rdw.Control.{cut_at}
use rdw.Format.{escape_html}

-- `string(c)` of a byte: the UTF-8 encoding of the code point with that number.
unfoldable pub string_of_byte : ℕ → Text
string_of_byte c = if ltb c 128 then c ∷ [] else (192 + c / 64) ∷ (128 + c % 64) ∷ []

-- What one round writes, and the text from its new index on.
unfoldable pub plain : ℕ → Text → Text × Text
plain c s = (escape_html (string_of_byte c), s)

-- `s[:i]` and `s[i+2:]` at the first place where `d` stands twice.
unfoldable pub cut_pair : ℕ → Text → Option (Text × Text)
cut_pair d [] = none
cut_pair d (a ∷ []) = none
cut_pair d (a ∷ b ∷ s) =
    let rest = cut_pair d (b ∷ s) in
    if a == d then if b == d then some ([], s) else cons_pair a rest else cons_pair a rest
  where
    cons_pair : ℕ → Option (Text × Text) → Option (Text × Text)
    cons_pair a none = none
    cons_pair a (some (t, u)) = some (a ∷ t, u)

unfoldable pub enclosed : Text → Text → ℕ → Text → Option (Text × Text) → Text × Text
enclosed start close c s none = plain c s
enclosed start close c s (some (inside, rest)) = (start ++ escape_html inside ++ close, rest)

unfoldable pub emphasis : ℕ → Text → Text × Text
emphasis c [] = enclosed (codes "<em>") (codes "</em>") c [] (cut_at c [])
emphasis c (d ∷ s) =
    if d == c
    then enclosed (codes "<strong>") (codes "</strong>") c (d ∷ s) (cut_pair c s)
    else enclosed (codes "<em>") (codes "</em>") c (d ∷ s) (cut_at c (d ∷ s))

-- Behind `[text]`.
unfoldable pub link_target : ℕ → Text → Text → Text → Text × Text
link_target c s text [] = plain c s
link_target c s text (p ∷ t) = elim (p == 40) [
  | false ↦ plain c s
  | true ↦ elim (cut_at 41 t) [
    | none ↦ plain c s
    | some (url, rest) ↦ (
      codes "<a href=\""
          ++ escape_html url
          ++ codes "\" target=\"_blank\">"
          ++ escape_html text
          ++ codes "</a>",
      rest,
    )
  ]
]

unfoldable pub link : ℕ → Text → Option (Text × Text) → Text × Text
link c s none = plain c s
link c s (some (text, after)) = link_target c s text after

unfoldable pub fragment : ℕ → Text → Text × Text
fragment c s =
    if c == 96
    then enclosed (codes "<code class=\"rdw-md-ic\">") (codes "</code>") c s (cut_at 96 s)
    else if c == 42 || c == 95
    then emphasis c s
    else if c == 91
    then link c s (cut_at 93 s)
    else plain c s

unfoldable pub inline_from : ℕ → Text → Option Text
inline_from _ [] = some []
inline_from zero (c ∷ s) = none
inline_from (suc fuel) (c ∷ s) =
    let f = fragment c s in elim (inline_from fuel f.1) [ none ↦ none | some t ↦ some (f.0 ++ t) ]

unfoldable pub inline_markdown : Text → Text
inline_markdown s = elim (inline_from (length s) s) [ none ↦ [] | some t ↦ t ]
