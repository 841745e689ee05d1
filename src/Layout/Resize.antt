-- ===== src/Layout/Resize.antt =====
-- `ParseResizeArg` and `parseWholeInt` of internal/layout/layout.go. Go's `int` has 64 bits: the
-- accumulator is the bit pattern, and its sign is read off where a value is compared or returned.
pub mod Decimal
pub mod Grammar
use mathlib.Core.Option
use rdw.Common.{
  ltb, leb, if◌then◌else◌, length, ltb_ℤ, to_int64, ℤ, pos, Result, ok, err, Text, codes, text_eq,
  ℕ, ◌+◌, ◌-◌, ◌*◌, ◌%◌, ◌^◌, Bool, true, false, ◌&&◌, ◌||◌, Option, none, some, [], ◌∷◌,
}

pub data ResizeUnit : Type 0 where
  columns pixels percent : ResizeUnit

pub data ResizeError : Type 0 where
  empty_arg invalid_pixel invalid_percentage percentage_out_of_range invalid_column : ResizeError

abbrev pub is_digit : ℕ → Bool
is_digit c = leb b'0' c && leb c b'9'

-- The loop over the characters; none is a digit that is not ASCII, so bytes serve.
pub whole_int_from : ℕ → Text → Option ℕ
whole_int_from n [] = some n
whole_int_from n (c ∷ s) = elim (is_digit c) [
  | true ↦ whole_int_from ((n * 10 + (c - b'0')) % 2 ^ 64) s
  | false ↦ none
]

pub parse_whole_int : Text → Option ℤ
parse_whole_int [] = none
parse_whole_int (c ∷ s) = Option.map to_int64 (whole_int_from 0 (c ∷ s))

-- `s[:len(s)-len(suffix)]` if `s` ends so, found from the front.
pub before_suffix : Text → Text → Option Text
before_suffix suf [] = if text_eq [] suf then some [] else none
before_suffix suf (c ∷ s) =
    let rest = before_suffix suf s in
    if text_eq (c ∷ s) suf then some [] else elim rest [ none ↦ none | some r ↦ some (c ∷ r) ]

-- What each case of the `switch` makes of the number before the unit.
abbrev pub as_pixels : Option ℤ → Result ResizeError (ℤ × ResizeUnit)
as_pixels none = err invalid_pixel
as_pixels (some n) = ok (n, pixels)

abbrev pub as_percent : Option ℤ → Result ResizeError (ℤ × ResizeUnit)
as_percent none = err invalid_percentage
as_percent (some n) =
    if ltb_ℤ n (pos 1) || ltb_ℤ (pos 100) n then err percentage_out_of_range else ok (n, percent)

abbrev pub as_columns : Option ℤ → Result ResizeError (ℤ × ResizeUnit)
as_columns none = err invalid_column
as_columns (some n) = ok (n, columns)

-- `case s[len(s)-1] == '%'` and `default`: the text before a percent sign, if there is one.
abbrev pub percent_or_columns : Text → Option Text → Result ResizeError (ℤ × ResizeUnit)
percent_or_columns s (some r) = as_percent (parse_whole_int r)
percent_or_columns s none = as_columns (parse_whole_int s)

abbrev pub resize_switch : Text → Option Text → Result ResizeError (ℤ × ResizeUnit)
resize_switch s (some r) = as_pixels (parse_whole_int r)
resize_switch s none = percent_or_columns s (before_suffix (codes "%") s)

pub parse_resize_arg : Text → Result ResizeError (ℤ × ResizeUnit)
parse_resize_arg [] = err empty_arg
parse_resize_arg (c ∷ s) =
    resize_switch (c ∷ s)
      (if ltb 2 (length (c ∷ s)) then before_suffix (codes "px") (c ∷ s) else none)
