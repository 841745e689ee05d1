-- ===== src/Layout.antt =====
-- internal/layout/layout.go: the layout document and its validation; resize arguments are in a
-- child. Reading the YAML is the library's: a document is a value here.
pub mod Resize
pub mod Valid
use rdw.Common.{
  ltb, ◌==◌, length, ltb_ℤ, leb_ℤ, ℤ, pos, ◌>>=◌, ◌>>◌, fail_if, Result, ok, err, Text, codes,
  text_eq, is_empty, ℕ, suc, Bool, not, ◌&&◌, List, [], ◌∷◌,
}
use rdw.Layout.Resize.{ResizeError, parse_resize_arg}

abbrev current_schema_version : ℤ
current_schema_version = pos 1

pub record PaneSpec : Type 0 where
  pub target_id : Text
  pub group : Text
  pub split : Text
  pub size : Text
  pub private : Bool
  pub scrollback_cap : ℤ

pub record WindowSpec : Type 0 where
  pub name : Text
  pub panes : List PaneSpec

pub record Layout : Type 0 where
  pub schema_version : ℤ
  pub name : Text
  pub windows : List WindowSpec

pub data PaneError : Type 0 where
  no_target_id negative_cap bad_split : PaneError
  bad_size : ResizeError → PaneError

pub data WindowError : Type 0 where
  no_name no_panes too_many_panes : WindowError
  bad_pane : ℕ → PaneError → WindowError

pub data LayoutError : Type 0 where
  unsupported_version : ℤ → LayoutError
  no_windows : LayoutError
  bad_window : ℕ → WindowError → LayoutError

-- `if p.Size != "" { ParseResizeArg ... }`
pub check_size : Text → Result PaneError Unit
check_size [] = ok tt
check_size (c ∷ s) = elim (parse_resize_arg (c ∷ s)) [ ok r ↦ ok tt | err e ↦ err (bad_size e) ]

-- `p.Split != "" && p.Split != "h" && p.Split != "v"`
abbrev pub is_bad_split : Text → Bool
is_bad_split s = not (text_eq s []) && not (text_eq s (codes "h")) && not (text_eq s (codes "v"))

-- The body of the inner loop.
pub validate_pane : PaneSpec → Result PaneError Unit
validate_pane p = do
  fail_if (is_empty p.target_id) no_target_id
  fail_if (ltb_ℤ p.scrollback_cap (pos 0)) negative_cap
  check_size p.size
  fail_if (is_bad_split p.split) bad_split

pub validate_panes : ℕ → List PaneSpec → Result WindowError Unit
validate_panes j [] = ok tt
validate_panes j (p ∷ ps) =
    let rest = validate_panes (suc j) ps in
    elim (validate_pane p) [ ok _ ↦ rest | err e ↦ err (bad_pane j e) ]

-- The body of the outer loop.
pub validate_window : WindowSpec → Result WindowError Unit
validate_window w = do
  fail_if (is_empty w.name) no_name
  fail_if (length w.panes == 0) no_panes
  fail_if (ltb 64 (length w.panes)) too_many_panes
  validate_panes 0 w.panes

pub validate_windows : ℕ → List WindowSpec → Result LayoutError Unit
validate_windows i [] = ok tt
validate_windows i (w ∷ ws) =
    let rest = validate_windows (suc i) ws in
    elim (validate_window w) [ ok _ ↦ rest | err e ↦ err (bad_window i e) ]

is_current : ℤ → Bool
is_current v = leb_ℤ v current_schema_version && leb_ℤ current_schema_version v

pub validate : Layout → Result LayoutError Unit
unfolding is_current
validate l = do
  fail_if (not (is_current l.schema_version)) (unsupported_version l.schema_version)
  fail_if (length l.windows == 0) no_windows
  validate_windows 0 l.windows
