-- ===== src/Format/Markdown/Terminates.antt =====
-- When the outer loop of `renderMarkdown` ends (internal/format/markdown.go).
use rdw.Common.{
  All, Bool-cases, Option-cases, is_empty, length, Text, codes, after_prefix, ℕ, zero, suc, ◌≤◌,
  ◌≡◌, refl, sym, text_eq, Bool, true, false, not, ◌&&◌, none, some, inl, inr, List, [], ◌∷◌, ◌++◌,
  arith,
}
use mathlib.Core.Path.{subst}
use rdw.Format.{escape_html}
use rdw.Control.{trim_space}
use rdw.Format.Markdown.{
  begins, is_heading, is_rule, is_quote, is_bullet, opens_ordered, is_ordered, is_paragraph,
  fence_lines, items, quote_item, bullet_item, numbered_item, paragraph_item, block, render_from,
  render_markdown,
}

-- A line with a `#` in front that is no heading: the blocks pass it on to the paragraph, which takes no
-- line that begins so.
unfoldable pub is_stuck : Text → Bool
is_stuck l = begins (codes "#") l && not (is_heading l) && not (is_empty (trim_space l))

data Suffix {ℓ} {A : Type ℓ} : List A → List A → Type ℓ where
  whole : {xs : List A} → Suffix xs xs
  later : {x : A} {xs ys : List A} → Suffix xs ys → Suffix xs (x ∷ ys)

Suffix-length {ℓ} : {A : Type ℓ} {xs ys : List A} → Suffix xs ys → length xs ≤ length ys
Suffix-length whole = omega arith
Suffix-length (later s) = omega (arith, Suffix-length s)

Suffix-All {ℓ κ} :
    {A : Type ℓ} (P : A → Type κ) {xs ys : List A} → Suffix xs ys → All P ys → All P xs
Suffix-All P whole h = h
Suffix-All P (later s) h = Suffix-All P s h.1

fence_lines-left : (b : Text) (i : ℕ) (ls : List Text) → Suffix (fence_lines b i ls).left ls
unfolding fence_lines
fence_lines-left b i [] = whole
fence_lines-left b i (l ∷ ls) = elim (Bool-cases (begins (codes "```") l)) [
  | inl e ↦ rw e (later whole)
  | inr e ↦ rw e (later (fence_lines-left (b ++ escape_html l ++ 10 ∷ []) (suc i) ls))
]

module _ (goes_on : Text → Bool) (item : ℕ → Text → Text) (close : Text) where
  items-left :
      (b : Text) (i : ℕ) (ls : List Text) → Suffix (items goes_on item close b i ls).left ls
  unfolding items
  items-left b i [] = whole
  items-left b i (l ∷ ls) = elim (Bool-cases (goes_on l)) [
    | inl e ↦ rw e (later (items-left (b ++ item i l) (suc i) ls))
    | inr e ↦ rw e whole
  ]

  -- An inner loop that takes its first line leaves fewer.
  items-first :
      (b : Text) (i : ℕ) (l : Text) (ls : List Text)
      → goes_on l ≡ true
      → Suffix (items goes_on item close b i (l ∷ ls)).left ls
  unfolding items
  items-first b i l ls e = rw e (items-left (b ++ item i l) (suc i) ls)

opens_ordered-is_ordered : (l : Text) → opens_ordered l ≡ true → is_ordered l ≡ true
unfolding opens_ordered is_ordered
opens_ordered-is_ordered [] h = ground arith
opens_ordered-is_ordered (a ∷ []) h = ground arith
opens_ordered-is_ordered (a ∷ b ∷ []) h = ground arith
opens_ordered-is_ordered (a ∷ b ∷ c ∷ s) h = ground arith

takes_paragraph :
    (l : Text)
    → after_prefix (codes "```") l ≡ none
    → is_heading l ≡ false
    → is_quote l ≡ false
    → is_bullet l ≡ false
    → is_empty (trim_space l) ≡ false
    → is_stuck l ≡ false
    → is_paragraph l ≡ true
unfolding is_stuck is_quote is_bullet is_paragraph
takes_paragraph l f h q u e n = ground arith

-- A round takes the line that it stands at, unless it is stuck there.
block-left :
    (b : Text) (i : ℕ) (l : Text) (ls : List Text)
    → is_stuck l ≡ false
    → Suffix (block b i l ls).left ls
unfolding block after_prefix
block-left b i l ls h = elim (Option-cases (after_prefix (codes "```") l)) [
  | inr (lang, f) ↦ rw f (fence_lines-left _ _ ls)
  | inl f ↦ elim (Bool-cases (is_heading l)) [
    | inl e ↦ rw (f, e) whole
    | inr hd ↦ elim (Bool-cases (is_rule l)) [
      | inl e ↦ rw (f, hd, e) whole
      | inr r ↦ elim (Bool-cases (is_quote l)) [
        | inl q ↦ rw (f, hd, r, q) (items-first is_quote quote_item _ _ i l ls q)
        | inr q ↦ elim (Bool-cases (is_bullet l)) [
          | inl u ↦ rw (f, hd, r, q, u) (items-first is_bullet bullet_item _ _ i l ls u)
          | inr u ↦ elim (Bool-cases (opens_ordered l)) [
            | inl o ↦
                rw (f, hd, r, q, u, o)
                  (items-first is_ordered numbered_item _ _ i l ls (opens_ordered-is_ordered l o))
            | inr o ↦ elim (Bool-cases (is_empty (trim_space l))) [
              | inl e ↦ rw (f, hd, r, q, u, o, e) whole
              | inr e ↦
                  rw (f, hd, r, q, u, o, e)
                    (items-first is_paragraph paragraph_item _ _ i l ls
                      (takes_paragraph l f hd q u e h))
            ]
          ]
        ]
      ]
    ]
  ]
]

terminates :
    (fuel : ℕ) (b : Text) (i : ℕ) (ls : List Text)
    → length ls ≤ fuel
    → All (λ l. is_stuck l ≡ false) ls
    → (t : Text) × (render_from fuel b i ls ≡ some t)
unfolding render_from
terminates fuel b i [] h hs = (b, refl)
terminates zero b i (l ∷ ls) h hs = ground arith
terminates (suc fuel) b i (l ∷ ls) h hs =
    let s = block-left b i l ls hs.0 in
    terminates fuel _ _ (block b i l ls).left (omega (arith, Suffix-length s)) (Suffix-All _ s hs.1)

-- `renderMarkdown` ends if no line of its input is stuck, after as many rounds as there are lines.
pub render_markdown-terminates :
    (lines : List Text)
    → All (λ l. is_stuck l ≡ false) lines
    → (t : Text) × (render_markdown (length lines) lines ≡ some t)
unfolding render_markdown
render_markdown-terminates lines h = terminates (length lines) [] 0 lines (omega arith) h

opens_ordered-hash : (s : Text) → opens_ordered (35 ∷ s) ≡ false
unfolding opens_ordered
opens_ordered-hash [] = refl
opens_ordered-hash (b ∷ []) = refl
opens_ordered-hash (b ∷ c ∷ s) = refl

stuck_facts :
    (c : ℕ) (s : Text)
    → is_stuck (c ∷ s) ≡ true
    → (c ≡ 35) × (is_heading (c ∷ s) ≡ false) × (is_empty (trim_space (c ∷ s)) ≡ false)
unfolding is_stuck after_prefix
stuck_facts c s h = ground arith

hash-block :
    (b : Text) (i : ℕ) (s : Text) (ls : List Text)
    → is_heading (35 ∷ s) ≡ false
    → is_empty (trim_space (35 ∷ s)) ≡ false
    → (block b i (35 ∷ s) ls).left ≡ (35 ∷ s) ∷ ls
unfolding block after_prefix is_rule text_eq is_quote is_bullet items is_paragraph
hash-block b i s ls h e = rw (h, opens_ordered-hash s, e) refl

-- A stuck line is left where it stands.
stuck-block :
    (b : Text) (i : ℕ) (l : Text) (ls : List Text)
    → is_stuck l ≡ true
    → (block b i l ls).left ≡ l ∷ ls
unfolding is_stuck after_prefix
stuck-block b i [] ls h = absurd (ground arith)
stuck-block b i (c ∷ s) ls h =
    let f = stuck_facts c s h in
    subst
      (λ d.
        is_heading (d ∷ s) ≡ false
        → is_empty (trim_space (d ∷ s)) ≡ false
        → (block b i (d ∷ s) ls).left ≡ (d ∷ s) ∷ ls)
      (sym f.0) (hash-block b i s ls) f.1 f.2

stuck :
    (fuel : ℕ) (b : Text) (i : ℕ) (l : Text) (ls : List Text)
    → is_stuck l ≡ true
    → render_from fuel b i (l ∷ ls) ≡ none
unfolding render_from block after_prefix
stuck zero b i l ls h = refl
stuck (suc fuel) b i l ls h = rw (stuck-block b i l ls h) (stuck fuel _ _ l ls h)

-- A document whose first line is stuck keeps `renderMarkdown` busy for ever: no number of rounds ends
-- its loop.
pub render_markdown-diverges :
    (fuel : ℕ) (l : Text) (ls : List Text)
    → is_stuck l ≡ true
    → render_markdown fuel (l ∷ ls) ≡ none
unfolding render_markdown
render_markdown-diverges fuel l ls h = stuck fuel [] 0 l ls h
