-- ===== src/Bindings.antt =====
-- internal/bindings/bindings.go: the actions of the browser's keyboard and the keys bound to them.
-- The order in which a Go map is walked is the order of the entries.
pub mod Keys
use rdw.Common.{
  if◌then◌else◌, Dict, lookup, insert, remove, Text, codes, text_eq, ◌/◌, Bool, true, false, Option,
  none, some, List, [], ◌∷◌, ◌++◌,
}
use rdw.Control.{trim_space}

abbrev pub Action : Type 0
Action = Text

-- A binding is its list of keys.
abbrev pub Bindings : Type 0
Bindings = Dict (List Text)

abbrev pub action_window_next : Action
action_window_next = codes "window.next"

abbrev action_window_prev : Action
action_window_prev = codes "window.prev"

abbrev action_window_first : Action
action_window_first = codes "window.first"

abbrev action_window_last : Action
action_window_last = codes "window.last"

abbrev action_window_new : Action
action_window_new = codes "window.new"

abbrev action_window_close : Action
action_window_close = codes "window.close"

abbrev action_window_rename : Action
action_window_rename = codes "window.rename"

abbrev action_pane_focus_left : Action
action_pane_focus_left = codes "pane.focus.left"

abbrev action_pane_focus_down : Action
action_pane_focus_down = codes "pane.focus.down"

abbrev action_pane_focus_up : Action
action_pane_focus_up = codes "pane.focus.up"

abbrev action_pane_focus_right : Action
action_pane_focus_right = codes "pane.focus.right"

abbrev action_pane_split_h : Action
action_pane_split_h = codes "pane.split.h"

abbrev action_pane_split_v : Action
action_pane_split_v = codes "pane.split.v"

abbrev action_pane_resize_left : Action
action_pane_resize_left = codes "pane.resize.left"

abbrev action_pane_resize_down : Action
action_pane_resize_down = codes "pane.resize.down"

abbrev action_pane_resize_up : Action
action_pane_resize_up = codes "pane.resize.up"

abbrev action_pane_resize_right : Action
action_pane_resize_right = codes "pane.resize.right"

abbrev action_pane_close : Action
action_pane_close = codes "pane.close"

abbrev action_pane_zoom : Action
action_pane_zoom = codes "pane.zoom"

abbrev action_pane_rename : Action
action_pane_rename = codes "pane.rename"

abbrev action_pane_swap : Action
action_pane_swap = codes "pane.swap"

abbrev action_scroll_up : Action
action_scroll_up = codes "scroll.up"

abbrev action_scroll_down : Action
action_scroll_down = codes "scroll.down"

abbrev action_scroll_top : Action
action_scroll_top = codes "scroll.top"

abbrev action_scroll_bottom : Action
action_scroll_bottom = codes "scroll.bottom"

abbrev action_scroll_clear : Action
action_scroll_clear = codes "scroll.clear"

abbrev action_search_open : Action
action_search_open = codes "search.open"

abbrev action_search_next : Action
action_search_next = codes "search.next"

abbrev action_search_prev : Action
action_search_prev = codes "search.prev"

abbrev action_layout_save : Action
action_layout_save = codes "layout.save"

abbrev action_layout_reload : Action
action_layout_reload = codes "layout.reload"

abbrev pub action_escape : Action
action_escape = codes "mode.escape"

unfoldable pub default_bindings : Bindings
default_bindings =
    (action_window_next, codes "g t" ∷ [])
    ∷ (action_window_prev, codes "g T" ∷ [])
    ∷ (action_window_first, codes "g 0" ∷ [])
    ∷ (action_window_last, codes "g $" ∷ [])
    ∷ (action_window_new, codes "g n" ∷ [])
    ∷ (action_window_close, codes "g x" ∷ [])
    ∷ (action_window_rename, codes "g r" ∷ [])
    ∷ (action_pane_focus_left, codes "h" ∷ [])
    ∷ (action_pane_focus_down, codes "j" ∷ [])
    ∷ (action_pane_focus_up, codes "k" ∷ [])
    ∷ (action_pane_focus_right, codes "l" ∷ [])
    ∷ (action_pane_split_h, codes "s" ∷ [])
    ∷ (action_pane_split_v, codes "v" ∷ [])
    ∷ (action_pane_resize_left, codes "H" ∷ [])
    ∷ (action_pane_resize_down, codes "J" ∷ [])
    ∷ (action_pane_resize_up, codes "K" ∷ [])
    ∷ (action_pane_resize_right, codes "L" ∷ [])
    ∷ (action_pane_close, codes "q" ∷ [])
    ∷ (action_pane_zoom, codes "z" ∷ [])
    ∷ (action_pane_rename, codes "R" ∷ [])
    ∷ (action_pane_swap, codes "x" ∷ [])
    ∷ (action_scroll_up, codes "Control+u" ∷ [])
    ∷ (action_scroll_down, codes "Control+d" ∷ [])
    ∷ (action_scroll_top, codes "g g" ∷ [])
    ∷ (action_scroll_bottom, codes "G" ∷ [])
    ∷ (action_scroll_clear, codes "Control+l" ∷ [])
    ∷ (action_search_open, codes "/" ∷ [])
    ∷ (action_search_next, codes "n" ∷ [])
    ∷ (action_search_prev, codes "N" ∷ [])
    ∷ (action_layout_save, codes "Control+w s" ∷ [])
    ∷ (action_layout_reload, codes "Control+w r" ∷ [])
    ∷ (action_escape, codes "Escape" ∷ codes "Control+c" ∷ [])
    ∷ []

-- The loop of `Merge` over the overrides.
abbrev merge_one : Action → List Text → Bindings → Bindings
merge_one action [] result = remove action result
merge_one action (key ∷ keys) result = insert action (key ∷ keys) result

pub merge : Bindings → Bindings → Bindings
merge base [] = base
merge base ((action, keys) ∷ overrides) = merge (merge_one action keys base) overrides

abbrev pub normalise_key : Text → Text
normalise_key k = trim_space k

-- A conflict: the key and the two actions.
pub record Conflict : Type 0 where
  pub key : Text
  pub first : Action
  pub second : Action

abbrev conflict_of : Text → Action → Option Action → List Conflict
conflict_of key action none = []
conflict_of key action (some first) = record { key = key; first = first; second = action } ∷ []

abbrev pub seen_after : Text → Action → Option Action → Dict Action → Dict Action
seen_after key action none seen = insert key action seen
seen_after key action (some first) seen = seen

-- The inner loop of `Validate`: the keys of one action.
unfoldable pub validate_keys : Action → List Text → Dict Action → List Conflict × Dict Action
validate_keys action [] seen = ([], seen)
validate_keys action (k ∷ ks) seen =
    let found = lookup (normalise_key k) seen in
    let (conflicts, seen') =
      validate_keys action ks (seen_after (normalise_key k) action found seen) in
    (conflict_of (normalise_key k) action found ++ conflicts, seen')

unfoldable pub validate_all : Bindings → Dict Action → List Conflict
validate_all [] seen = []
validate_all ((action, keys) ∷ b) seen =
    let (conflicts, seen') = validate_keys action keys seen in conflicts ++ validate_all b seen'

unfoldable pub validate_bindings : Bindings → List Conflict
validate_bindings b = validate_all b []

unfoldable pub has_key : Text → List Text → Bool
has_key key [] = false
has_key key (k ∷ ks) = if text_eq (normalise_key k) key then true else has_key key ks

pub lookup_action : Bindings → Text → Option Action
lookup_action [] key = none
lookup_action ((action, keys) ∷ b) key =
    if has_key (normalise_key key) keys then some action else lookup_action b key
