-- ===== src/Server/Control.antt =====
-- The control handler that `New` of internal/server/server.go sets, and what becomes of the events
-- of a routed line.
use rdw.Common.{
  if◌then◌else◌, ℤ, pos, Dict, lookup, insert, Result, Text, codes, text_eq, is_empty, ℕ, Bool,
  true, false, not, ◌&&◌, Option, none, some, List, [], ◌∷◌,
}
use rdw.Control.{Kind, bookmark, highlight, scrollback, image, scale, svg_data, title}
use rdw.Session.TargetId.{TargetId}
use rdw.Session.Manager.{PaneState, WindowState, is_found, find_pane}
use rdw.Session.Bookmark as Marks
use rdw.Session.Scrollback as Ring
use rdw.Pipeline.{Pipeline, Event, rendered, controlled}
use rdw.Router as Routes
use rdw.Router.{RouterError}
use rdw.Highlight.{Profile, get_profile}
use rdw.Hub.{line_message, highlight_set, scrollback_ctl, pane_scale, render, formatter_set}
use rdw.Server.{Server, Env, send_all, broadcast_layout_update, update_pane, with_windows}

abbrev pub labelled : Text → PaneState → PaneState
labelled t p = record p { label = t }

abbrev pub formatted : Text → Text → PaneState → PaneState
formatted f saved p = record p { formatter = f; saved_formatter = saved }

unfoldable pub set_label : TargetId → Text → Server → Server
set_label id t s = with_windows (update_pane id (labelled t)) s

-- `title:`
unfoldable pub control_title : TargetId → Text → Server → Server
control_title id t s =
    if not (is_empty t) && is_found (find_pane id s.manager)
    then broadcast_layout_update (set_label id t s)
    else s

-- The line index of a bookmark: the current length of the scrollback.
abbrev pub line_index_of : Option Pipeline → ℤ
line_index_of none = pos 0
line_index_of (some p) = pos (Ring.len p.scrollback)

abbrev pub with_bookmarks : (Dict Marks.BookmarkStore → Dict Marks.BookmarkStore) → Server → Server
with_bookmarks f s = record s { router = record s.router { bookmarks = f s.router.bookmarks } }

-- `bm:`
abbrev pub mark_line : ℕ → TargetId → Text → Option Marks.BookmarkStore → Server → Server
mark_line now id n none s = s
mark_line now id n (some bs) s =
    if is_empty n
    then s
    else let line = line_index_of (Routes.get id s.router) in
      with_bookmarks (insert id (Marks.add now n line bs).0) s

abbrev pub send_profile : TargetId → Option Profile → Server → Server
send_profile id none s = s
send_profile id (some p) s = send_all (highlight_set id p) s

-- `hl:`
abbrev control_highlight : TargetId → Text → Server → Server
control_highlight id n s = if is_empty n then s else send_profile id (get_profile n s.highlights) s

-- `pl.Scrollback().Clear()`
abbrev pub clear_pipe : TargetId → Option Pipeline → Server → Server
clear_pipe id none s = s
clear_pipe id (some p) s = record s {
  router = record s.router {
    pipes = insert id (record p { scrollback = Ring.clear p.scrollback }) s.router.pipes;
  };
}

-- `sc:`
unfoldable pub control_scrollback : TargetId → Text → Server → Server
control_scrollback id a s =
    if is_empty a
    then s
    else let cleared =
        if text_eq a (codes "clear") then clear_pipe id (Routes.get id s.router) s else s in
      send_all (scrollback_ctl id a) cleared

-- `scale:`
abbrev control_scale : TargetId → Text → Server → Server
control_scale id a s = if is_empty a then s else send_all (pane_scale id a) s

-- `image:` and `svg-data:`: the formatter is set, the frame sent, and the formatter restored.
abbrev pub render_pane : Bool → TargetId → Text → Option (WindowState × PaneState) → Server → Server
render_pane is_image id payload none s = s
render_pane is_image id payload (some (w, p)) s =
    let target = if is_image then codes "image" else codes "svg" in
    let shown = with_windows (update_pane id (formatted target p.formatter)) s in
    let sent = send_all (render is_image id payload) shown in
    let restored = with_windows (update_pane id (formatted p.formatter [])) sent in
    send_all (formatter_set id p.formatter) restored

-- The `switch` of the control handler.
unfoldable pub control_switch : ℕ → TargetId → Text → Kind → Server → Server
control_switch now id payload title s = control_title id payload s
control_switch now id payload bookmark s = mark_line now id payload (lookup id s.router.bookmarks) s
control_switch now id payload highlight s = control_highlight id payload s
control_switch now id payload scrollback s = control_scrollback id payload s
control_switch now id payload scale s = control_scale id payload s
control_switch now id payload image s = render_pane true id payload (find_pane id s.manager) s
control_switch now id payload svg_data s = render_pane false id payload (find_pane id s.manager) s
control_switch now id payload other s = s

-- The sink and the handler that `New` gives the router. A call on the router comes back with its
-- events, which are acted on in order.
abbrev pub on_event : ℕ → Event → Server → Server
on_event now (rendered k id line) s = send_all (line_message id line) s
on_event now (controlled k id seq) s = control_switch now id seq.payload seq.kind s

unfoldable pub on_events : ℕ → List Event → Server → Server
on_events now [] s = s
on_events now (e ∷ es) s = on_events now es (on_event now e s)

-- `s.router.Route`
unfoldable pub route_line : Env → TargetId → Text → Server → Server × Result RouterError Unit
route_line env id line s =
    let (r, reply) = Routes.route env.clock id line s.router in
    (on_events env.now reply.events (record s { router = r }), reply.result)
