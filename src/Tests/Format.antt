-- ===== src/Tests/Format.antt =====
-- Runs on internal/format.
use rdw.Common.{
  All, lookup, length, codes, Text, ℕ, ◌≡◌, ◌≢◌, refl, true, false, none, some, List, [], ◌≤◌, ◌∷◌,
  ◌++◌, arith,
}
use rdw.Format.{escape_html}
use rdw.Format.Escape.{IsInert, read_references, escape_html-read}
use rdw.Format.Markdown.{render_markdown}
use rdw.Format.Markdown.Inline.{inline_from, inline_markdown}
use rdw.Format.Markdown.Fragments.{IsCopied, code_points, inline_from-ends, inline_markdown-copied}
use rdw.Format.Markdown.Terminates.{is_stuck, render_markdown-terminates, render_markdown-diverges}

abbrev markup : Text
markup = codes "<a href='x'>1 & 2</a>"

escape_html-read_example :
    IsInert (escape_html markup) × (read_references 0 (escape_html markup) ≡ markup)
escape_html-read_example = escape_html-read markup

abbrev document : List Text
document = codes "# Title" ∷ codes "" ∷ codes "- one" ∷ codes "- two" ∷ codes "text" ∷ []

render_markdown-terminates_example :
    (t : Text) × (render_markdown (length document) document ≡ some t)
unfolding is_stuck rdw.Common.after_prefix rdw.Format.Markdown.is_heading
    rdw.Format.Markdown.heading_level rdw.Format.Markdown.ends_marker rdw.Control.trim_space
    rdw.Control.trim_by rdw.Control.leading_space rdw.Control.trailing_space
render_markdown-terminates_example =
    render_markdown-terminates document (refl, (refl, (refl, (refl, (refl, tt)))))

render_markdown-diverges_example : render_markdown 1000 (codes "#tag" ∷ codes "text" ∷ []) ≡ none
unfolding is_stuck rdw.Common.after_prefix rdw.Format.Markdown.is_heading
    rdw.Format.Markdown.heading_level rdw.Format.Markdown.ends_marker rdw.Control.trim_space
    rdw.Control.trim_by rdw.Control.leading_space rdw.Control.trailing_space
render_markdown-diverges_example =
    render_markdown-diverges 1000 (codes "#tag") (codes "text" ∷ []) refl

plain_byte : (c : ℕ) → 128 ≤ c → IsCopied c
plain_byte c h = omega arith

inline_from-ends_example :
    (t : Text) × (inline_from (length (codes "**a** b")) (codes "**a** b") ≡ some t)
inline_from-ends_example = inline_from-ends (codes "**a** b")

-- The two bytes of U+00E9.
abbrev accent : Text
accent = 0xC3 ∷ 0xA9 ∷ []

inline_markdown-copied_example : inline_markdown accent ≡ escape_html (code_points accent)
inline_markdown-copied_example =
    inline_markdown-copied accent
      (plain_byte 0xC3 (omega arith), (plain_byte 0xA9 (omega arith), tt))
