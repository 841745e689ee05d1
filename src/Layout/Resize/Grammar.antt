-- ===== src/Layout/Resize/Grammar.antt =====
-- Which texts `ParseResizeArg` of internal/layout/layout.go takes.
use mathlib.Core.Path.{subst}
use mathlib.Core.Option
use rdw.Common.{
  ltb, if◌then◌else◌, lt→ltb, Bool-cases, Option-cases, length, length-append, ltb_ℤ, to_int64, All,
  ℤ, pos, ok, Text, codes, text_eq, text_eq→eq, ℕ, ◌+◌, ◌-◌, ◌*◌, ◌%◌, ◌^◌, ◌<◌, ◌≡◌, refl, sym, ap,
  ◌∙◌, ◌≢◌, ◌↔◌, inl, inr, true, false, Option, none, some, [], ◌∷◌, ◌++◌, arith,
}
use rdw.Layout.Resize.{
  ResizeUnit, columns, pixels, percent, is_digit, whole_int_from, parse_whole_int, before_suffix,
  as_pixels, as_percent, as_columns, percent_or_columns, resize_switch, parse_resize_arg,
}
use rdw.Layout.Resize.Decimal.{before_suffix-append, before_suffix-none, resize_cases}

-- The number that a decimal numeral stands for.
unfoldable pub number_from : ℕ → Text → ℕ
number_from n [] = n
number_from n (c ∷ s) = number_from (n * 10 + (c - b'0')) s

-- One digit or more.
pub record IsNumeral (s : Text) : Type 0 where
  pub digits : All (λ c. is_digit c ≡ true) s
  pub nonempty : s ≢ []

-- A number of 64 bits with its sign is from 1 to 100.
abbrev IsPercentage : Text → Type 0
IsPercentage s =
    (ltb_ℤ (to_int64 (number_from 0 s % 2 ^ 64)) (pos 1) ≡ false)
    × (ltb_ℤ (pos 100) (to_int64 (number_from 0 s % 2 ^ 64)) ≡ false)

-- A numeral of columns, of pixels with `px`, or of per cent with `%`; the last one is from 1 to 100
-- modulo 2^64.
pub data IsSizeText : Text → Type 0 where
  in_columns : {s : Text} → IsNumeral s → IsSizeText s
  in_pixels : {s : Text} → IsNumeral s → IsSizeText (s ++ codes "px")
  in_percent : {s : Text} → IsNumeral s → IsPercentage s → IsSizeText (s ++ codes "%")

digit_step :
    (c m : ℕ) (s : Text)
    → is_digit c ≡ true
    → whole_int_from m (c ∷ s) ≡ whole_int_from ((m * 10 + (c - b'0')) % 2 ^ 64) s
unfolding whole_int_from
digit_step c m s h = ground (arith, h)

other_stop : (c m : ℕ) (s : Text) → is_digit c ≡ false → whole_int_from m (c ∷ s) ≡ none
unfolding whole_int_from
other_stop c m s h = ground (arith, h)

whole_int_from-number :
    (s : Text) (n : ℕ)
    → All (λ c. is_digit c ≡ true) s
    → whole_int_from (n % 2 ^ 64) s ≡ some (number_from n s % 2 ^ 64)
unfolding number_from
whole_int_from-number [] n h = unfold whole_int_from in refl
whole_int_from-number (c ∷ s) n h =
    let wrapped : (n % 2 ^ 64 * 10 + (c - b'0')) % 2 ^ 64 ≡ (n * 10 + (c - b'0')) % 2 ^ 64 =
      omega arith in
    digit_step c (n % 2 ^ 64) s h.0
    ∙ ap (λ k. whole_int_from k s) wrapped
    ∙ whole_int_from-number s (n * 10 + (c - b'0')) h.1

whole_int_from-digits :
    (s : Text) (n : ℕ) {m : ℕ} → whole_int_from n s ≡ some m → All (λ c. is_digit c ≡ true) s
whole_int_from-digits [] n h = tt
whole_int_from-digits (c ∷ s) n {m} h = elim (Bool-cases (is_digit c)) [
  | inl e ↦ (
    e,
    whole_int_from-digits s ((n * 10 + (c - b'0')) % 2 ^ 64) {m = m} (sym (digit_step c n s e) ∙ h),
  )
  | inr e ↦ absurd (ground (arith, other_stop c n s e, h))
]

IsNumeral-parse :
    (s : Text) → IsNumeral s → parse_whole_int s ≡ some (to_int64 (number_from 0 s % 2 ^ 64))
unfolding parse_whole_int
IsNumeral-parse [] h = absurd (h.nonempty refl)
IsNumeral-parse (c ∷ s) h = ap (Option.map to_int64) (whole_int_from-number (c ∷ s) 0 h.digits)

parse-IsNumeral : (s : Text) {n : ℤ} → parse_whole_int s ≡ some n → IsNumeral s
unfolding parse_whole_int
parse-IsNumeral [] h = absurd (ground arith)
parse-IsNumeral (c ∷ s) {n} h = elim (Option-cases (whole_int_from 0 (c ∷ s))) [
  | inl e ↦ absurd (ground (arith, e, h))
  | inr (m, e) ↦ record {
    digits = whole_int_from-digits (c ∷ s) 0 e;
    nonempty = λ q. ground (arith, q);
  }
]

before_suffix_sound : (suf s : Text) {r : Text} → before_suffix suf s ≡ some r → s ≡ r ++ suf
unfolding before_suffix
before_suffix_sound suf [] h = ground (arith, text_eq→eq [] suf)
before_suffix_sound suf (c ∷ s) {r} h = elim (Bool-cases (text_eq (c ∷ s) suf)) [
  | inl e ↦
      let none_left : r ≡ [] = ground (arith, e, h) in
      text_eq→eq (c ∷ s) suf e ∙ ap (λ t. t ++ suf) (sym none_left)
  | inr e ↦ elim (Option-cases (before_suffix suf s)) [
    | inl f ↦ absurd (ground (arith, e, f, h))
    | inr (t, f) ↦
        let cut : r ≡ c ∷ t = ground (arith, e, f, h) in
        ap (λ u. c ∷ u) (before_suffix_sound suf s f) ∙ ap (λ u. u ++ suf) (sym cut)
  ]
]

-- A numeral ends in a digit.
last_of : (s : Text) → IsNumeral s → (t : Text) × (c : ℕ) × (s ≡ t ++ c ∷ []) × (is_digit c ≡ true)
last_of [] h = absurd (h.nonempty refl)
last_of (c ∷ []) h = ([], c, refl, h.digits.0)
last_of (c ∷ d ∷ s) h =
    let (t, e, q, k) =
      last_of (d ∷ s) (record { digits = h.digits.1; nonempty = λ q. ground (arith, q) }) in
    (c ∷ t, e, ap (λ u. c ∷ u) q, k)

-- A text that ends in another byte than the `x` of `px`.
not_pixels :
    (t : Text) (c : ℕ)
    → c ≢ b'x'
    → parse_resize_arg (t ++ c ∷ [])
      ≡ percent_or_columns (t ++ c ∷ []) (before_suffix (codes "%") (t ++ c ∷ []))
not_pixels t c h =
    resize_cases (t ++ c ∷ []) (omega (arith, length-append t (c ∷ [])))
    ∙ rw (before_suffix-none (codes "p") t c b'x' h) (ground arith)

nonempty_length : (s : Text) → s ≢ [] → 0 < length s
nonempty_length [] h = absurd (h refl)
nonempty_length (c ∷ s) h = omega arith

size_complete : (s : Text) → IsSizeText s → (r : ℤ × ResizeUnit) × (parse_resize_arg s ≡ ok r)
size_complete _ (in_columns {s} h) =
    let (t, c, q, k) = last_of s h in
    (
      (to_int64 (number_from 0 s % 2 ^ 64), columns),
      rw q (
            not_pixels t c (ground (arith, k))
            ∙ rw (before_suffix-none [] t c b'%' (ground (arith, k))) refl)
          ∙ ap as_columns (ap parse_whole_int (sym q) ∙ IsNumeral-parse s h),
    )
size_complete _ (in_pixels {s} h) =
    let long = length-append s (codes "px") in
    let positive : 0 < length s = nonempty_length s h.nonempty in
    (
      (to_int64 (number_from 0 s % 2 ^ 64), pixels),
      resize_cases (s ++ codes "px") (omega arith)
          ∙ rw
              (
                lt→ltb 2 (length (s ++ codes "px")) (omega arith),
                before_suffix-append (codes "px") s,
              )
              (ap as_pixels (IsNumeral-parse s h)),
    )
size_complete _ (in_percent {s} h p) = (
  (to_int64 (number_from 0 s % 2 ^ 64), percent),
  not_pixels s b'%' (omega arith)
      ∙ rw (before_suffix-append (codes "%") s) (rw (IsNumeral-parse s h, p.0, p.1) refl),
)

columns_sound :
    (s : Text) {r : ℤ × ResizeUnit} (n : Option ℤ)
    → parse_whole_int s ≡ n
    → as_columns n ≡ ok r
    → IsSizeText s
columns_sound s none e h = absurd (ground (arith, h))
columns_sound s (some n) e h = in_columns (parse-IsNumeral s e)

pixels_sound :
    (s : Text) {r : ℤ × ResizeUnit} (n : Option ℤ)
    → parse_whole_int s ≡ n
    → as_pixels n ≡ ok r
    → IsSizeText (s ++ codes "px")
pixels_sound s none e h = absurd (ground (arith, h))
pixels_sound s (some n) e h = in_pixels (parse-IsNumeral s e)

percent_sound :
    (s : Text) {r : ℤ × ResizeUnit} (n : Option ℤ)
    → parse_whole_int s ≡ n
    → as_percent n ≡ ok r
    → IsSizeText (s ++ codes "%")
percent_sound s none e h = absurd (ground (arith, h))
percent_sound s (some n) e h =
    let numeral = parse-IsNumeral s e in
    let value : n ≡ to_int64 (number_from 0 s % 2 ^ 64) =
      ground (arith, IsNumeral-parse s numeral, e) in
    in_percent numeral (
      ap (λ k. ltb_ℤ k (pos 1)) (sym value) ∙ ground (arith, h),
      ap (ltb_ℤ (pos 100)) (sym value) ∙ ground (arith, h),
    )

unit_sound :
    (s : Text) {r : ℤ × ResizeUnit} (o : Option Text)
    → before_suffix (codes "%") s ≡ o
    → percent_or_columns s o ≡ ok r
    → IsSizeText s
unit_sound s none e h = columns_sound s (parse_whole_int s) refl h
unit_sound s (some t) e h =
    subst IsSizeText (sym (before_suffix_sound (codes "%") s e))
      (percent_sound t (parse_whole_int t) refl h)

switch_sound :
    (s : Text) {r : ℤ × ResizeUnit} (o : Option Text)
    → (if ltb 2 (length s) then before_suffix (codes "px") s else none) ≡ o
    → resize_switch s o ≡ ok r
    → IsSizeText s
switch_sound s none e h = unit_sound s (before_suffix (codes "%") s) refl h
switch_sound s (some t) e h =
    let found : before_suffix (codes "px") s ≡ some t = ground (arith, e) in
    subst IsSizeText (sym (before_suffix_sound (codes "px") s found))
      (pixels_sound t (parse_whole_int t) refl h)

size_sound : (s : Text) {r : ℤ × ResizeUnit} → parse_resize_arg s ≡ ok r → IsSizeText s
unfolding parse_resize_arg
size_sound [] h = absurd (ground (arith, h))
size_sound (c ∷ s) h =
    switch_sound (c ∷ s)
      (if ltb 2 (length (c ∷ s)) then before_suffix (codes "px") (c ∷ s) else none) refl h

-- `ParseResizeArg` takes exactly the sizes of the grammar.
pub parse_resize_arg-IsSizeText :
    (s : Text) → ((r : ℤ × ResizeUnit) × (parse_resize_arg s ≡ ok r)) ↔ IsSizeText s
parse_resize_arg-IsSizeText s = (λ (r, e). size_sound s e, size_complete s)
