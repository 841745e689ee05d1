-- ===== src/Tests/Session.antt =====
-- Runs on internal/session and internal/layout.

use rdw.Common.{
  if◌then◌else◌, ltb_ℤ, to_int64, pos, negsuc, ok, err, codes, text_eq, ℕ, ◌%◌, ◌^◌, String, ◌≡◌,
  refl, ◌↔◌, false, ◌||◌, some, List, [], ◌∷◌, ◌++◌, arith,
}
use rdw.Session.TargetId.{parse_target_id}
use rdw.Session.TargetId.Accepts.{IsTargetId, parse_target_id-IsTargetId}
use rdw.Session.Scrollback.{new_scrollback_buffer, lines}
use rdw.Session.Scrollback.Ring as Ring
use rdw.Session.Scrollback.Refine.{Call, append_line, clear_all, run, run_lines, run-refines}
use rdw.Session.Bookmark.{Bookmark, BookmarkStore}
use rdw.Session.Manager.{
  PaneState, WindowState, Manager, new_manager, find_window, active_window, Snapshot,
}
use rdw.Session.Manager.Invariant.{serve_all, IsSafeFetch, reachable_active_window}
use rdw.Session.Manager.Invariant as Sessions
use rdw.Layout.{Layout, validate}
use rdw.Layout.Valid.{IsLayout, validate-IsLayout}
use rdw.Layout.Resize.{percent, percentage_out_of_range, parse_resize_arg}
use rdw.Layout.Resize.Decimal.{digits_of, parse_percent}

abbrev calls : List Call
calls =
    append_line (codes "a")
    ∷ append_line (codes "b")
    ∷ clear_all
    ∷ append_line (codes "c")
    ∷ append_line (codes "d")
    ∷ append_line (codes "e")
    ∷ []

run-refines_example :
    Ring.IsValid (run calls (new_scrollback_buffer (pos 2)))
    × (lines (run calls (new_scrollback_buffer (pos 2)))
        ≡ run_lines
            (new_scrollback_buffer (pos 2)).cap
            calls
            (lines (new_scrollback_buffer (pos 2))))
run-refines_example =
    run-refines calls (new_scrollback_buffer (pos 2)) (Ring.new_scrollback_buffer-IsValid (pos 2))

parse_target_id-IsTargetId_example :
    (parse_target_id (codes "build log") ≡ ok (codes "build log"))
    ↔ (IsTargetId (codes "build log") × (codes "build log" ≡ codes "build log"))
parse_target_id-IsTargetId_example =
    parse_target_id-IsTargetId (codes "build log") (codes "build log")

abbrev mark : String → ℕ → Bookmark
mark n i = record { name = codes n; line_index = pos i; created_at = 0 }

abbrev two_marks : BookmarkStore
two_marks = record { marks = (codes "end", mark "end" 9) ∷ (codes "top", mark "top" 0) ∷ [] }

abbrev requests : List Sessions.Request
requests =
    Sessions.create (codes "a")
    ∷ Sessions.create (codes "b")
    ∷ Sessions.focus (codes "b")
    ∷ Sessions.close (codes "a")
    ∷ []

reachable_active_window_example :
    IsSafeFetch (serve_all requests new_manager) (active_window (serve_all requests new_manager))
reachable_active_window_example = reachable_active_window requests

abbrev pane : String → PaneState
pane id = record {
  target_id = codes id;
  label = [];
  group = [];
  private = false;
  scrollback_cap = pos 0;
  split = [];
  size = [];
  formatter = [];
  saved_formatter = [];
}

abbrev window_of : String → List PaneState → WindowState
window_of n ps = record { name = codes n; panes = ps }

abbrev three_windows : Manager
three_windows = record {
  windows =
      window_of "a" (pane "x" ∷ [])
      ∷ window_of "b" (pane "y" ∷ pane "x" ∷ [])
      ∷ window_of "c" []
      ∷ [];
  active = pos 1;
}

three_windows-IsValid : Sessions.IsValid three_windows
three_windows-IsValid = record {
  names = unfold find_window in unfold text_eq in (refl, (refl, (refl, tt)));
  active_nonneg = refl;
  active_in = omega arith;
}

abbrev negative : Snapshot
negative = record { windows = some three_windows.windows; active = negsuc 0 }

abbrev layout_of : String → Layout
layout_of size = record {
  schema_version = pos 1;
  name = [];
  windows =
      record {
        name = codes "build";
        panes =
            record {
              target_id = codes "log";
              group = [];
              split = codes "h";
              size = codes size;
              private = false;
              scrollback_cap = pos 0;
            }
            ∷ [];
      }
      ∷ [];
}

validate-IsLayout_example : (validate (layout_of "40%") ≡ ok tt) ↔ IsLayout (layout_of "40%")
validate-IsLayout_example = validate-IsLayout (layout_of "40%")

parse_percent_example : parse_resize_arg (digits_of 20 18446744073709551617 ++ codes "%") ≡ (
    if ltb_ℤ (to_int64 (18446744073709551617 % 2 ^ 64)) (pos 1)
      || ltb_ℤ (pos 100) (to_int64 (18446744073709551617 % 2 ^ 64))
    then err percentage_out_of_range
    else ok (to_int64 (18446744073709551617 % 2 ^ 64), percent))
parse_percent_example = parse_percent 19 18446744073709551617 (omega arith)
