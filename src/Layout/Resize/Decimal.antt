-- ===== src/Layout/Resize/Decimal.antt =====
-- What `parseWholeInt` and `ParseResizeArg` read of a decimal number with or without a unit.
use native.Mathlib.Nat.{pow-suc}
use mathlib.Core.Option
use rdw.Common.{
  ltb, if◌then◌else◌, ltb→lt, lt→ltb, Bool-cases, length, length-append, ltb_ℤ, to_int64, pos, ok,
  err, Text, codes, text_eq, text_eq→eq, text_eq_refl, ℕ, zero, suc, ◌+◌, ◌-◌, ◌*◌, ◌/◌, ◌%◌, ◌^◌,
  ◌<◌, ◌≡◌, refl, sym, ap, ◌∙◌, ◌≢◌, inl, inr, true, false, ◌||◌, none, some, [], ◌∷◌, ◌++◌, arith,
}
use rdw.Layout.Resize.{
  columns, pixels, percent, percentage_out_of_range, is_digit, whole_int_from, parse_whole_int,
  before_suffix, as_columns, percent_or_columns, resize_switch, parse_resize_arg,
}

-- The decimal digits of a number below 10 ^ fuel, most significant first.
pub digits_of : ℕ → ℕ → Text
digits_of zero n = []
digits_of (suc f) n =
    let rest = digits_of f (n / 10) in
    if ltb n 10 then (n + b'0') ∷ [] else rest ++ (n % 10 + b'0') ∷ []

whole_int_from-append :
    (s : Text) (t : Text) (n : ℕ) {m : ℕ}
    → whole_int_from n s ≡ some m
    → whole_int_from n (s ++ t) ≡ whole_int_from m t
unfolding whole_int_from
whole_int_from-append [] t n h = ground arith
whole_int_from-append (c ∷ s) t n {m} h =
    ground (arith, whole_int_from-append s t ((n * 10 + (c - b'0')) % 2 ^ 64) {m = m})

whole_int_from-digit :
    (m d : ℕ) → d < 10 → whole_int_from m ((d + b'0') ∷ []) ≡ some ((m * 10 + d) % 2 ^ 64)
unfolding whole_int_from
whole_int_from-digit m d h = ground arith

whole_int_from-digits_of :
    (f n : ℕ) → n < 10 ^ f → whole_int_from 0 (digits_of f n) ≡ some (n % 2 ^ 64)
unfolding whole_int_from digits_of
whole_int_from-digits_of zero n h = ground arith
whole_int_from-digits_of (suc f) n h =
    let fits : n / 10 < 10 ^ f = omega (arith, pow-suc 10 f) in
    elim (Bool-cases (ltb n 10)) [
      | inl e ↦
          rw e
            (whole_int_from-digit 0 n (ltb→lt n 10 e) ∙ ap (λ k. some (k % 2 ^ 64)) (omega arith))
      | inr e ↦ rw e (
          whole_int_from-append (digits_of f (n / 10)) ((n % 10 + b'0') ∷ []) 0
            (whole_int_from-digits_of f (n / 10) fits)
          ∙ whole_int_from-digit (n / 10 % 2 ^ 64) (n % 10) (omega arith)
          ∙ ap some (omega arith))
    ]

length-digits_of : (f n : ℕ) → 0 < length (digits_of (suc f) n)
unfolding digits_of
length-digits_of f n = ground (arith, length-append (digits_of f (n / 10)) ((n % 10 + b'0') ∷ []))

parse_whole_int_of :
    (s : Text) {m : ℕ}
    → 0 < length s
    → whole_int_from 0 s ≡ some m
    → parse_whole_int s ≡ some (to_int64 m)
unfolding parse_whole_int
parse_whole_int_of [] h e = absurd (omega arith)
parse_whole_int_of (c ∷ s) h e = ap (Option.map to_int64) e

-- `parseWholeInt` on a decimal numeral of any length gives the number modulo 2^64, read as a
-- signed 64-bit integer.
parse_whole_int-digits_of :
    (f n : ℕ)
    → n < 10 ^ suc f
    → parse_whole_int (digits_of (suc f) n) ≡ some (to_int64 (n % 2 ^ 64))
parse_whole_int-digits_of f n h =
    parse_whole_int_of (digits_of (suc f) n) (length-digits_of f n)
      (whole_int_from-digits_of (suc f) n h)

text_eq_of_length-ne : (s t : Text) → length s ≢ length t → text_eq s t ≡ false
text_eq_of_length-ne s t h = elim (Bool-cases (text_eq s t)) [
  | inl e ↦ absurd (h (ap length (text_eq→eq s t e)))
  | inr e ↦ e
]

pub before_suffix-append : (suf s : Text) → before_suffix suf (s ++ suf) ≡ some s
unfolding before_suffix
before_suffix-append [] [] = unfold text_eq in refl
before_suffix-append (d ∷ suf) [] = rw (text_eq_refl (d ∷ suf))
before_suffix-append suf (c ∷ s) = rw (
  text_eq_of_length-ne (c ∷ (s ++ suf)) suf (omega (arith, length-append s suf)),
  before_suffix-append suf s,
)

-- A text that does not end in the suffix's last byte.
snoc_last : (s t : Text) {c d : ℕ} → s ++ c ∷ [] ≡ t ++ d ∷ [] → c ≡ d
snoc_last [] [] e = cc
snoc_last [] (y ∷ t) {d = d} e = absurd (omega (arith, ap length e, length-append t (d ∷ [])))
snoc_last (x ∷ s) [] {c = c} e = absurd (omega (arith, ap length e, length-append s (c ∷ [])))
snoc_last (x ∷ s) (y ∷ t) e = snoc_last s t (cc)

text_eq-snoc_ne : (s t : Text) (c d : ℕ) → c ≢ d → text_eq (s ++ c ∷ []) (t ++ d ∷ []) ≡ false
text_eq-snoc_ne s t c d h = elim (Bool-cases (text_eq (s ++ c ∷ []) (t ++ d ∷ []))) [
  | inl e ↦ absurd (h (snoc_last s t (text_eq→eq _ _ e)))
  | inr e ↦ e
]

pub before_suffix-none :
    (suf : Text) (s : Text) (c d : ℕ) → c ≢ d → before_suffix (suf ++ d ∷ []) (s ++ c ∷ []) ≡ none
unfolding before_suffix
before_suffix-none suf [] c d h = ground (
  arith,
  text_eq-snoc_ne [] suf c d h,
  text_eq_of_length-ne [] (suf ++ d ∷ []) (omega (arith, length-append suf (d ∷ []))),
)
before_suffix-none suf (x ∷ s) c d h =
    rw (text_eq-snoc_ne (x ∷ s) suf c d h, before_suffix-none suf s c d h)

last_digit :
    (f n : ℕ) → (s : Text) × (c : ℕ) × (digits_of (suc f) n ≡ s ++ c ∷ []) × (is_digit c ≡ true)
unfolding digits_of
last_digit f n = elim (Bool-cases (ltb n 10)) [
  | inl e ↦ ([], n + b'0', rw e, ground arith)
  | inr e ↦ (digits_of f (n / 10), n % 10 + b'0', rw e, ground arith)
]

pub resize_cases :
    (s : Text)
    → 0 < length s
    → parse_resize_arg s
      ≡ resize_switch s (if ltb 2 (length s) then before_suffix (codes "px") s else none)
unfolding parse_resize_arg
resize_cases [] h = absurd (omega arith)
resize_cases (c ∷ s) h = refl

-- A number as it stands before its unit.
module _ (f n : ℕ) (fits : n < 10 ^ suc f) where
  parse_pixels :
      parse_resize_arg (digits_of (suc f) n ++ codes "px") ≡ ok (to_int64 (n % 2 ^ 64), pixels)
  parse_pixels =
      let positive = length-digits_of f n in
      let long = length-append (digits_of (suc f) n) (codes "px") in
      resize_cases (digits_of (suc f) n ++ codes "px") (omega arith)
      ∙ rw
          (
            lt→ltb 2 (length (digits_of (suc f) n ++ codes "px")) (omega arith),
            before_suffix-append (codes "px") (digits_of (suc f) n),
          )
          (rw (parse_whole_int-digits_of f n fits))

  no_pixels :
      (c : ℕ)
      → c ≢ b'x'
      → (s : Text)
      → resize_switch
          (s ++ c ∷ [])
          (if ltb 2 (length (s ++ c ∷ [])) then before_suffix (codes "px") (s ++ c ∷ []) else none)
        ≡ percent_or_columns (s ++ c ∷ []) (before_suffix (codes "%") (s ++ c ∷ []))
  no_pixels c h s = rw (before_suffix-none (codes "p") s c b'x' h) (ground arith)

  -- A numeral with `%` is the number modulo 2^64, read as a signed 64-bit integer, if that is from 1 to
  -- 100, and out of range otherwise.
  pub parse_percent : parse_resize_arg (digits_of (suc f) n ++ codes "%") ≡ (
      if ltb_ℤ (to_int64 (n % 2 ^ 64)) (pos 1) || ltb_ℤ (pos 100) (to_int64 (n % 2 ^ 64))
      then err percentage_out_of_range
      else ok (to_int64 (n % 2 ^ 64), percent))
  parse_percent =
      resize_cases (digits_of (suc f) n ++ codes "%")
        (omega (arith, length-append (digits_of (suc f) n) (codes "%")))
      ∙ no_pixels b'%' (omega arith) (digits_of (suc f) n)
      ∙ rw (before_suffix-append (codes "%") (digits_of (suc f) n))
          (rw (parse_whole_int-digits_of f n fits))

  parse_columns : parse_resize_arg (digits_of (suc f) n) ≡ ok (to_int64 (n % 2 ^ 64), columns)
  parse_columns =
      let (s, c, e, d) = last_digit f n in
      resize_cases (digits_of (suc f) n) (length-digits_of f n)
      ∙ rw e (
          no_pixels c (ground arith) s
          ∙ rw (before_suffix-none [] s c b'%' (ground arith))
              (ap as_columns (ap parse_whole_int (sym e) ∙ parse_whole_int-digits_of f n fits)))
