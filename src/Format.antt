-- ===== src/Format.antt =====
-- internal/format: format.go (the escaping and the registry of formatters), text.go and csv.go, with
-- the reader of encoding/csv as an argument.
pub mod Escape
pub mod Markdown
pub mod Registry
use rdw.Common.{
  ◌==◌, if◌then◌else◌, is_empty, ltb, Result, ok, err, Text, codes, text_eq, Dict, lookup, insert,
  remove, is_present, ℕ, suc, ◌+◌, ◌%◌, Bool, true, false, ◌||◌, Option, none, some, List, [], ◌∷◌,
  ◌++◌,
}
use rdw.Control.{trim_space}

-- `strings.ReplaceAll(s, old, new)` for an `old` of one byte.
pub replace_byte : ℕ → Text → Text → Text
replace_byte old new [] = []
replace_byte old new (c ∷ s) =
    let rest = replace_byte old new s in if c == old then new ++ rest else c ∷ rest

pub escape_html : Text → Text
escape_html s =
    let amp = replace_byte 38 (codes "&amp;") s in
    let lt = replace_byte 60 (codes "&lt;") amp in
    let gt = replace_byte 62 (codes "&gt;") lt in
    let quot = replace_byte 34 (codes "&#34;") gt in replace_byte 39 (codes "&#39;") quot

-- The rounds of TextFormatter.Format.
unfoldable text_lines : List Text → Text
text_lines [] = []
text_lines (l ∷ ls) = escape_html l ++ 10 ∷ text_lines ls

unfoldable format_text : List Text → Text
format_text ls = codes "<pre class=\"rdw-text\">" ++ text_lines ls ++ codes "</pre>"

unfoldable count_byte : ℕ → Text → ℕ
count_byte b [] = 0
count_byte b (c ∷ s) = let rest = count_byte b s in if c == b then suc rest else rest

-- A registered formatter is its name and a number for the rest of it.
abbrev pub Formatters : Type 0
Formatters = Dict ℕ

pub data FormatError : Type 0 where
  unknown_formatter : Text → FormatError
  overrides_builtin : Text → FormatError
  is_builtin : Text → FormatError
  formatter_not_found : Text → FormatError

unfoldable pub is_builtin_name : Text → Bool
is_builtin_name n =
    text_eq n (codes "text")
    || text_eq n (codes "json")
    || text_eq n (codes "yaml")
    || text_eq n (codes "markdown")
    || text_eq n (codes "csv")
    || text_eq n (codes "image")

unfoldable pub names : Formatters → List Text
names [] = []
names ((n, f) ∷ fs) = n ∷ names fs

module _ (to_lower : Text → Text) where
  unfoldable get_formatter : Text → Formatters → Result FormatError ℕ
  get_formatter name fs = elim (lookup (to_lower name) fs) [
    | none ↦ err (unknown_formatter name)
    | some f ↦ ok f
  ]

  pub register_formatter : Text → ℕ → Formatters → Formatters × Result FormatError Unit
  register_formatter name f fs =
      let n = to_lower name in
      if is_builtin_name n then (fs, err (overrides_builtin n)) else (insert n f fs, ok tt)

  pub unregister_formatter : Text → Formatters → Formatters × Result FormatError Unit
  unregister_formatter name fs =
      let n = to_lower name in
      if is_builtin_name n
      then (fs, err (is_builtin n))
      else if is_present (lookup n fs)
      then (remove n fs, ok tt)
      else (fs, err (formatter_not_found n))

unfoldable delimiter : Text → ℕ
delimiter l = if ltb (count_byte 44 l) (count_byte 9 l) then 9 else 44

-- `read_record` is `csv.NewReader` with a delimiter, on one line: the fields of its first record, `none`
-- for an error.
module _ (read_record : ℕ → Text → Option (List Text)) where
  unfoldable csv_rows : ℕ → List Text → List (List Text)
  csv_rows delim [] = []
  csv_rows delim (l ∷ ls) =
      let rest = csv_rows delim ls in
      if is_empty (trim_space l)
      then rest
      else elim (read_record delim l) [ none ↦ (l ∷ []) ∷ rest | some fields ↦ fields ∷ rest ]

unfoldable header_cells : ℕ → List Text → Text
header_cells i [] = []
header_cells i (cell ∷ cells) =
    codes "<th data-col=\""
    ++ escape_html ((48 + i % 10) ∷ [])
    ++ codes "\">"
    ++ escape_html cell
    ++ codes "</th>"
    ++ header_cells (suc i) cells

unfoldable data_cells : List Text → Text
data_cells [] = []
data_cells (cell ∷ cells) = codes "<td>" ++ escape_html cell ++ codes "</td>" ++ data_cells cells

unfoldable data_rows : List (List Text) → Text
data_rows [] = []
data_rows (row ∷ rows) = codes "<tr>" ++ data_cells row ++ codes "</tr>" ++ data_rows rows

unfoldable csv_body : List (List Text) → Text
csv_body [] = []
csv_body (row ∷ rows) = codes "<tbody>" ++ data_rows (row ∷ rows) ++ codes "</tbody>"

unfoldable csv_table : List (List Text) → Text
csv_table [] = codes "<div class=\"rdw-csv\"></div>"
csv_table (head ∷ rows) =
    codes "<div class=\"rdw-csv\"><table class=\"rdw-csv-table\">"
    ++ codes "<thead><tr>"
    ++ header_cells 0 head
    ++ codes "</tr></thead>"
    ++ csv_body rows
    ++ codes "</table></div>"

module _ (read_record : ℕ → Text → Option (List Text)) where
  unfoldable format_csv : List Text → Text
  format_csv [] = codes "<div class=\"rdw-csv\"></div>"
  format_csv (l ∷ ls) = csv_table (csv_rows read_record (delimiter l) (l ∷ ls))
