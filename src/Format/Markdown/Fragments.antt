-- ===== src/Format/Markdown/Fragments.antt =====
-- The loop of `inlineMarkdown` (internal/format/markdown.go): it ends, and what it does with text that
-- has no mark-up.
use mathlib.Core.Path.{subst}
use rdw.Common.{
  ◌==◌, All, Bool-cases, Option-cases, length, Text, ℕ, zero, suc, ◌≤◌, ◌≡◌, refl, sym, ap, ◌∙◌,
  ◌≢◌, codes, ◌||◌, Option, none, some, inl, inr, [], ◌∷◌, ◌++◌, arith,
}
use rdw.Control.{cut_at}
use rdw.Format.{escape_html}
use rdw.Format.Escape.{escape_html-append, escape_html-empty}
use rdw.Format.Markdown.Inline.{
  string_of_byte, plain, cut_pair, enclosed, emphasis, link_target, link, fragment, inline_from,
  inline_markdown,
}

cut_at-length : (d : ℕ) (s : Text) (t u : Text) → cut_at d s ≡ some (t, u) → length u ≤ length s
unfolding cut_at
cut_at-length d [] t u h = ground arith
cut_at-length d (c ∷ s) t u h = elim (Option-cases (cut_at d s)) [
  | inl e ↦ ground arith
  | inr ((x, y), e) ↦ let rest = cut_at-length d s x y e in ground arith
]

cut_pair-length : (d : ℕ) (s : Text) (t u : Text) → cut_pair d s ≡ some (t, u) → length u ≤ length s
unfolding cut_pair
cut_pair-length d [] t u h = ground arith
cut_pair-length d (a ∷ []) t u h = ground arith
cut_pair-length d (a ∷ b ∷ s) t u h = elim (Option-cases (cut_pair d (b ∷ s))) [
  | inl e ↦ ground arith
  | inr ((x, y), e) ↦ let rest = cut_pair-length d (b ∷ s) x y e in ground arith
]

-- A round that closes what it opened goes on behind it.
enclosed-length :
    (start close : Text) (c : ℕ) (s : Text) (found : Option (Text × Text))
    → ((t u : Text) → found ≡ some (t, u) → length u ≤ length s)
    → length (enclosed start close c s found).1 ≤ length s
unfolding enclosed plain
enclosed-length start close c s none h = omega arith
enclosed-length start close c s (some (t, u)) h = h t u refl

emphasis-length : (c : ℕ) (s : Text) → length (emphasis c s).1 ≤ length s
unfolding emphasis
emphasis-length c [] = enclosed-length _ _ c [] _ (cut_at-length c [])
emphasis-length c (d ∷ s) = elim (Bool-cases (d == c)) [
  | inl e ↦ rw e (
      enclosed-length (codes "<strong>") (codes "</strong>") c (d ∷ s) (cut_pair c s)
        (λ t u h. omega (arith, cut_pair-length c s t u h)))
  | inr e ↦ rw e (enclosed-length _ _ c (d ∷ s) _ (cut_at-length c (d ∷ s)))
]

link_target-length :
    (c : ℕ) (s text t : Text) → length t ≤ length s → length (link_target c s text t).1 ≤ length s
unfolding link_target plain
link_target-length c s text [] h = omega arith
link_target-length c s text (p ∷ u) h = elim (Bool-cases (p == 40)) [
  | inr n ↦ ground arith
  | inl o ↦ elim (Option-cases (cut_at 41 u)) [
    | inl n ↦ ground arith
    | inr ((v, rest), f) ↦ let shorter = cut_at-length 41 u v rest f in ground arith
  ]
]

link-length : (c : ℕ) (s : Text) → length (link c s (cut_at 93 s)).1 ≤ length s
unfolding link plain
link-length c s = elim (Option-cases (cut_at 93 s)) [
  | inl e ↦ rw e (omega arith)
  | inr ((t, u), e) ↦ rw e (link_target-length c s t u (cut_at-length 93 s t u e))
]

fragment-length : (c : ℕ) (s : Text) → length (fragment c s).1 ≤ length s
unfolding fragment plain
fragment-length c s = elim (Bool-cases (c == 96)) [
  | inl e ↦ rw e (enclosed-length _ _ c s _ (cut_at-length 96 s))
  | inr n ↦ elim (Bool-cases (c == 42 || c == 95)) [
    | inl e ↦ rw (n, e) (emphasis-length c s)
    | inr o ↦ elim (Bool-cases (c == 91)) [
      | inl e ↦ rw (n, o, e) (link-length c s)
      | inr e ↦ rw (n, o, e) (omega arith)
    ]
  ]
]

inline-next :
    (fuel c : ℕ) (s : Text) {t : Text}
    → inline_from fuel (fragment c s).1 ≡ some t
    → inline_from (suc fuel) (c ∷ s) ≡ some ((fragment c s).0 ++ t)
unfolding inline_from
inline-next fuel c s e = ground arith

inline-ends : (fuel : ℕ) (s : Text) → length s ≤ fuel → (t : Text) × (inline_from fuel s ≡ some t)
unfolding inline_from
inline-ends fuel [] h = ([], refl)
inline-ends zero (c ∷ s) h = ground arith
inline-ends (suc fuel) (c ∷ s) h =
    let (t, e) = inline-ends fuel (fragment c s).1 (omega (arith, fragment-length c s)) in
    ((fragment c s).0 ++ t, inline-next fuel c s e)

-- A byte that `inlineMarkdown` copies.
abbrev pub IsCopied : ℕ → Type 0
IsCopied c = (c ≢ 96) × (c ≢ 42) × (c ≢ 95) × (c ≢ 91)

pub code_points : Text → Text
code_points [] = []
code_points (c ∷ s) = string_of_byte c ++ code_points s

fragment-copied : (c : ℕ) (s : Text) → IsCopied c → fragment c s ≡ plain c s
unfolding fragment
fragment-copied c s h = ground arith

markdown_of : (s : Text) {t : Text} → inline_from (length s) s ≡ some t → inline_markdown s ≡ t
unfolding inline_markdown
markdown_of s e = ground arith

copied :
    (fuel : ℕ) (s : Text)
    → length s ≤ fuel
    → All IsCopied s
    → inline_from fuel s ≡ some (escape_html (code_points s))
unfolding inline_from code_points plain
copied fuel [] h hs = rw escape_html-empty refl
copied zero (c ∷ s) h hs = absurd (ground arith)
copied (suc fuel) (c ∷ s) h hs =
    let e = fragment-copied c s hs.0 in
    inline-next fuel c s {t = escape_html (code_points s)} (
      subst (λ f. inline_from fuel f.1 ≡ some (escape_html (code_points s))) (sym e)
        (copied fuel s (omega arith) hs.1))
    ∙ ap (λ f. some (f.0 ++ escape_html (code_points s))) e
    ∙ ap some (sym (escape_html-append (string_of_byte c) (code_points s)))

-- The loop of `inlineMarkdown` ends for every text, after as many rounds as it has bytes or sooner.
pub inline_from-ends : (s : Text) → (t : Text) × (inline_from (length s) s ≡ some t)
inline_from-ends s = inline-ends (length s) s (omega arith)

-- A text without mark-up is escaped with each of its bytes encoded as a code point of its own, also a
-- byte of a longer UTF-8 sequence.
pub inline_markdown-copied :
    (s : Text) → All IsCopied s → inline_markdown s ≡ escape_html (code_points s)
inline_markdown-copied s h = markdown_of s (copied (length s) s (omega arith) h)
