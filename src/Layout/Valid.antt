-- ===== src/Layout/Valid.antt =====
-- What `Validate` of internal/layout/layout.go accepts.
use rdw.Common.{
  length, All, ◌≤ℤ◌, pos, Result-cases, ok, Text, codes, text_eq_iff, is_empty, ℕ, suc, ◌≤◌, ◌<◌,
  ◌≡◌, refl, ◌≢◌, ◌↔◌, ◌⊎◌, inl, inr, false, List, [], ◌∷◌, arith,
}
use rdw.Layout.Resize.{parse_resize_arg}
use rdw.Layout.Resize.Grammar.{IsSizeText, parse_resize_arg-IsSizeText}
use rdw.Layout.{
  PaneSpec, WindowSpec, Layout, check_size, is_bad_split, validate_pane, validate_panes,
  validate_window, validate_windows, validate,
}

-- A pane's size: absent, or a numeral of columns, pixels or per cent.
abbrev IsSize : Text → Type 0
IsSize [] = Unit
IsSize (c ∷ s) = IsSizeText (c ∷ s)

pub record IsPane (p : PaneSpec) : Type 0 where
  pub has_id : p.target_id ≢ []
  pub cap_nonneg : pos 0 ≤ℤ p.scrollback_cap
  pub size_parses : IsSize p.size
  pub split_known : (p.split ≡ []) ⊎ (p.split ≡ codes "h") ⊎ (p.split ≡ codes "v")

pub record IsWindow (w : WindowSpec) : Type 0 where
  pub has_name : w.name ≢ []
  pub has_panes : 0 < length w.panes
  pub panes_fit : length w.panes ≤ 64
  pub all_panes : All IsPane w.panes

pub record IsLayout (l : Layout) : Type 0 where
  pub version : l.schema_version ≡ pos 1
  pub has_windows : l.windows ≢ []
  pub all_windows : All IsWindow l.windows

IsSize-of_check : (s : Text) → check_size s ≡ ok tt → IsSize s
unfolding check_size
IsSize-of_check [] h = tt
IsSize-of_check (c ∷ s) h = elim (Result-cases (parse_resize_arg (c ∷ s))) [
  | inl (r, e) ↦ (parse_resize_arg-IsSizeText (c ∷ s)).0 (r, e)
  | inr (x, e) ↦ absurd (ground arith)
]

check_of_IsSize : (s : Text) → IsSize s → check_size s ≡ ok tt
unfolding check_size
check_of_IsSize [] h = refl
check_of_IsSize (c ∷ s) h =
    let (r, e) = (parse_resize_arg-IsSizeText (c ∷ s)).1 h in ground (arith, e)

split_known_of : (s : Text) → is_bad_split s ≡ false → (s ≡ []) ⊎ (s ≡ codes "h") ⊎ (s ≡ codes "v")
split_known_of s h =
    ground (arith, text_eq_iff s [], text_eq_iff s (codes "h"), text_eq_iff s (codes "v"))

not_bad_of : (s : Text) → (s ≡ []) ⊎ (s ≡ codes "h") ⊎ (s ≡ codes "v") → is_bad_split s ≡ false
not_bad_of s h =
    ground (arith, text_eq_iff s [], text_eq_iff s (codes "h"), text_eq_iff s (codes "v"))

is_empty_iff : (s : Text) → (is_empty s ≡ false) ↔ (s ≢ [])
is_empty_iff s = ground arith

validate_pane-IsPane : (p : PaneSpec) → validate_pane p ≡ ok tt → IsPane p
unfolding validate_pane
validate_pane-IsPane p h = record {
  has_id = ground arith;
  cap_nonneg = ground arith;
  size_parses = IsSize-of_check p.size (ground arith);
  split_known = split_known_of p.split (ground arith);
}

IsPane-validate_pane : (p : PaneSpec) → IsPane p → validate_pane p ≡ ok tt
unfolding validate_pane
IsPane-validate_pane p h =
    rw (check_of_IsSize p.size h.size_parses, not_bad_of p.split h.split_known)
      (ground (arith, is_empty_iff p.target_id))

panes_sound : (j : ℕ) (ps : List PaneSpec) → validate_panes j ps ≡ ok tt → All IsPane ps
unfolding validate_panes
panes_sound j [] h = tt
panes_sound j (p ∷ ps) h = elim (Result-cases (validate_pane p)) [
  | inl (tt, e) ↦ (validate_pane-IsPane p e, panes_sound (suc j) ps (ground arith))
  | inr (x, e) ↦ absurd (ground arith)
]

panes_complete : (j : ℕ) (ps : List PaneSpec) → All IsPane ps → validate_panes j ps ≡ ok tt
unfolding validate_panes
panes_complete j [] h = refl
panes_complete j (p ∷ ps) h =
    ground (arith, IsPane-validate_pane p h.0, panes_complete (suc j) ps h.1)

IsWindow-sound : (w : WindowSpec) → validate_window w ≡ ok tt → IsWindow w
unfolding validate_window
IsWindow-sound w h = record {
  has_name = ground arith;
  has_panes = ground arith;
  panes_fit = ground arith;
  all_panes = panes_sound 0 w.panes (ground arith);
}

window_complete : (w : WindowSpec) → IsWindow w → validate_window w ≡ ok tt
unfolding validate_window
window_complete w h = ground (arith, is_empty_iff w.name, panes_complete 0 w.panes h.all_panes)

windows_sound : (i : ℕ) (ws : List WindowSpec) → validate_windows i ws ≡ ok tt → All IsWindow ws
unfolding validate_windows
windows_sound i [] h = tt
windows_sound i (w ∷ ws) h = elim (Result-cases (validate_window w)) [
  | inl (tt, e) ↦ (IsWindow-sound w e, windows_sound (suc i) ws (ground arith))
  | inr (x, e) ↦ absurd (ground arith)
]

windows_complete : (i : ℕ) (ws : List WindowSpec) → All IsWindow ws → validate_windows i ws ≡ ok tt
unfolding validate_windows
windows_complete i [] h = refl
windows_complete i (w ∷ ws) h =
    ground (arith, window_complete w h.0, windows_complete (suc i) ws h.1)

-- `Validate` accepts a document exactly when it carries schema version 1, has a window, and each
-- window has a name and 1 to 64 panes, each with an identifier, a scrollback cap of at least 0, a
-- split that is absent, `h` or `v`, and a size that is absent or a numeral, of columns, of pixels with
-- `px`, or of per cent with `%` and from 1 to 100 modulo 2^64. No pattern is asked of identifiers, the cap
-- has no upper limit, and two windows may have one name.
pub validate-IsLayout : (l : Layout) → (validate l ≡ ok tt) ↔ IsLayout l
unfolding validate
validate-IsLayout l = (
  λ h. record {
    version = ground arith;
    has_windows = ground arith;
    all_windows = windows_sound 0 l.windows (ground arith);
  },
  λ h. ground (arith, windows_complete 0 l.windows h.all_windows),
)
