-- ===== src/Format/Markdown.antt =====
-- internal/format/markdown.go. A cursor is what is written, the index `i` of the line that is next and
-- the lines from there on; the outer loop runs on fuel, a round per line.
pub mod Fragments
pub mod Inline
pub mod Terminates
use rdw.Common.{
  ◌==◌, if◌then◌else◌, is_present, is_empty, ltb, leb, length, Text, codes, text_eq, after_prefix,
  drop, ℕ, zero, suc, ◌+◌, Bool, true, false, not, ◌&&◌, ◌||◌, Option, none, some, List, [], ◌∷◌,
  ◌++◌,
}
use rdw.Control.{trim_space}
use rdw.Format.{escape_html}
use rdw.Format.Markdown.Inline.{inline_markdown}

pub record Cursor : Type 0 where
  pub html : Text
  pub i : ℕ
  pub left : List Text

-- `strings.HasPrefix(line, p)`
abbrev pub begins : Text → Text → Bool
begins p line = is_present (after_prefix p line)

-- The leading `#` of a line.
unfoldable pub heading_level : Text → ℕ
heading_level [] = 0
heading_level (c ∷ s) = let rest = heading_level s in if c == 35 then suc rest else 0

-- `len(line) == level || line[level] == ' '`, of what stands behind the `#`.
unfoldable pub ends_marker : Text → Bool
ends_marker [] = true
ends_marker (c ∷ s) = c == 32

unfoldable pub is_heading : Text → Bool
is_heading line =
    begins (codes "#") line
    && leb (heading_level line) 6
    && ends_marker (drop (heading_level line) line)

unfoldable heading : Text → Text
heading line =
    let level = heading_level line in
    codes "<h"
    ++ (48 + level) ∷ codes " class=\"rdw-md-h\">"
    ++ inline_markdown (trim_space (drop level line))
    ++ codes "</h"
    ++ (48 + level) ∷ codes ">"

unfoldable fence_open : Text → Text
fence_open [] = codes "<pre class=\"rdw-md-code\"><code" ++ codes ">"
fence_open (c ∷ lang) =
    codes "<pre class=\"rdw-md-code\"><code"
    ++ codes " class=\"language-"
    ++ escape_html (c ∷ lang)
    ++ codes "\""
    ++ codes ">"

-- The lines of a fence, with the closing line; `i` counts that one also when it is missing.
pub fence_lines : Text → ℕ → List Text → Cursor
fence_lines b i [] = record { html = b ++ codes "</code></pre>"; i = suc i; left = [] }
fence_lines b i (l ∷ ls) =
    let rest = fence_lines (b ++ escape_html l ++ 10 ∷ []) (suc i) ls in
    if begins (codes "```") l
    then record { html = b ++ codes "</code></pre>"; i = suc i; left = ls }
    else rest

pub is_rule : Text → Bool
is_rule l = text_eq l (codes "---") || text_eq l (codes "***") || text_eq l (codes "___")

pub is_bullet : Text → Bool
is_bullet l = begins (codes "- ") l || begins (codes "* ") l

pub is_quote : Text → Bool
is_quote l = begins (codes "> ") l

-- The condition that opens an ordered list, and the weaker one that goes on with it.
pub opens_ordered : Text → Bool
opens_ordered (a ∷ b ∷ c ∷ s) = leb 49 a && leb a 57 && b == 46 && c == 32
opens_ordered _ = false

pub is_ordered : Text → Bool
is_ordered (a ∷ b ∷ c ∷ s) = leb 48 a && leb a 57 && b == 46
is_ordered _ = false

-- The second part of `strings.SplitN(line, ". ", 2)`, `none` if there is one part.
unfoldable pub split_dot : Text → Option Text
split_dot [] = none
split_dot (c ∷ s) =
    let rest = split_dot s in
    elim (after_prefix (codes ". ") (c ∷ s)) [ none ↦ rest | some t ↦ some t ]

unfoldable pub ordered_item : Option Text → Text
ordered_item none = []
ordered_item (some t) = codes "<li>" ++ inline_markdown t ++ codes "</li>"

-- An inner loop: it writes `item l` for each line while `goes_on l`, and `close` behind them.
module _ (goes_on : Text → Bool) (item : ℕ → Text → Text) (close : Text) where
  pub items : Text → ℕ → List Text → Cursor
  items b i [] = record { html = b ++ close; i = i; left = [] }
  items b i (l ∷ ls) =
      let rest = items (b ++ item i l) (suc i) ls in
      if goes_on l then rest else record { html = b ++ close; i = i; left = l ∷ ls }

unfoldable pub quote_item : ℕ → Text → Text
quote_item i l = codes "<p>" ++ inline_markdown (drop 2 l) ++ codes "</p>"

unfoldable pub bullet_item : ℕ → Text → Text
bullet_item i l = codes "<li>" ++ inline_markdown (drop 2 l) ++ codes "</li>"

unfoldable pub numbered_item : ℕ → Text → Text
numbered_item i l = ordered_item (split_dot l)

pub is_paragraph : Text → Bool
is_paragraph l =
    not (is_empty (trim_space l))
    && not (begins (codes "#") l)
    && not (begins (codes "```") l)
    && not (begins (codes "> ") l)
    && not (begins (codes "- ") l)
    && not (begins (codes "* ") l)

-- `if i > 0 { b.WriteString(" ") }`
unfoldable pub paragraph_item : ℕ → Text → Text
paragraph_item i l = (if ltb 0 i then codes " " else []) ++ inline_markdown l

-- One round of the outer loop, at a line `l` that the lines `ls` follow.
pub block : Text → ℕ → Text → List Text → Cursor
block b i l ls = elim (after_prefix (codes "```") l) [
  | some lang ↦ fence_lines (b ++ fence_open lang) (suc i) ls
  | none ↦
      if is_heading l
      then record { html = b ++ heading l; i = suc i; left = ls }
      else if is_rule l
      then record { html = b ++ codes "<hr class=\"rdw-md-hr\">"; i = suc i; left = ls }
      else if is_quote l
      then items is_quote quote_item (codes "</blockquote>")
          (b ++ codes "<blockquote class=\"rdw-md-bq\">") i (l ∷ ls)
      else if is_bullet l
      then items is_bullet bullet_item (codes "</ul>") (b ++ codes "<ul class=\"rdw-md-ul\">") i
          (l ∷ ls)
      else if opens_ordered l
      then items is_ordered numbered_item (codes "</ol>") (b ++ codes "<ol class=\"rdw-md-ol\">") i
          (l ∷ ls)
      else if is_empty (trim_space l)
      then record { html = b; i = suc i; left = ls }
      else items is_paragraph paragraph_item (codes "</p>") (b ++ codes "<p class=\"rdw-md-p\">") i
          (l ∷ ls)
]

-- The outer loop; `none` is a loop that has not ended after as many rounds.
pub render_from : ℕ → Text → ℕ → List Text → Option Text
render_from _ b i [] = some b
render_from zero b i (l ∷ ls) = none
render_from (suc fuel) b i (l ∷ ls) = let c = block b i l ls in render_from fuel c.html c.i c.left

pub render_markdown : ℕ → List Text → Option Text
render_markdown fuel lines = render_from fuel [] 0 lines

unfoldable format_markdown : ℕ → List Text → Option Text
format_markdown fuel lines = elim (render_markdown fuel lines) [
  | none ↦ none
  | some b ↦ some (codes "<div class=\"rdw-markdown\">" ++ b ++ codes "</div>")
]
