-- ===== src/Server/Status.antt =====
-- The introspection routes of internal/server/routes.go.
use rdw.Common.{Dict, insert, Text, codes, ℕ, Option, none, some, List, [], ◌∷◌, map}
use rdw.Session.TargetId.{TargetId, parse_target_id}
use rdw.Session.Manager.{PaneState, WindowState, find_pane, all_pane_ids, snapshot}
use rdw.Session.Scrollback as Ring
use rdw.Session.Bookmark as Marks
use rdw.Pipeline.{Pipeline}
use rdw.Router as Routes
use rdw.Auth.{list}
use rdw.Kv as Store
use rdw.Hub.{conn_count}
use rdw.Server.{
  Server, Env, said, PaneView, PaneStats, pane_body, status_body, count_body, Answer, api_error,
  json_response, with_target,
}
use rdw.Server.CycleRoutes.{cycle_view}

unfoldable pub handle_admin_connections : Server → Answer
handle_admin_connections s = json_response (count_body (conn_count s.hub)) s

abbrev label_of : Option (WindowState × PaneState) → Text
label_of none = []
label_of (some (w, p)) = p.label

abbrev formatter_of : Option (WindowState × PaneState) → Text
formatter_of none = []
formatter_of (some (w, p)) = p.formatter

abbrev saved_formatter_of : Option (WindowState × PaneState) → Text
saved_formatter_of none = []
saved_formatter_of (some (w, p)) = p.saved_formatter

abbrev marks_len : Option Marks.BookmarkStore → ℕ
marks_len none = 0
marks_len (some bs) = Marks.len bs

abbrev stats_of : TargetId → Pipeline → Server → PaneStats
stats_of id pl s = record {
  title = label_of (find_pane id s.manager);
  formatter = formatter_of (find_pane id s.manager);
  scrollback_len = Ring.len pl.scrollback;
  bookmarks = marks_len (Routes.bookmarks_of id s.router);
}

abbrev with_stats : TargetId → Option Pipeline → Server → Dict PaneStats → Dict PaneStats
with_stats id none s m = m
with_stats id (some pl) s m = insert id (stats_of id pl s) m

-- The loop over the panes: one without a pipeline is passed over.
unfoldable pub pane_stats : List TargetId → Server → Dict PaneStats → Dict PaneStats
pane_stats [] s m = m
pane_stats (id ∷ ids) s m = pane_stats ids s (with_stats id (Routes.get id s.router) s m)

unfoldable pub handle_status : Env → Server → Answer
handle_status env s =
    json_response
      (status_body (record {
        port = s.config.server.port;
        session = snapshot s.manager;
        panes = pane_stats (all_pane_ids s.manager) s [];
        layouts = map (λ e. e.0) s.layouts;
        highlights = map (λ e. e.1.name) s.highlights;
        tokens = list env.now s.token_store;
        connections = conn_count s.hub;
        cycle = cycle_view s;
        kv_len = Store.len s.router.store;
      }))
      s

abbrev marks_list : Option Marks.BookmarkStore → List Marks.Bookmark
marks_list none = []
marks_list (some bs) = Marks.all bs

-- The last line, or the empty text.
abbrev last_of : List Text → Text
last_of [] = []
last_of (l ∷ []) = l
last_of (l ∷ m ∷ ls) = last_of (m ∷ ls)

abbrev pane_view : Text → TargetId → Pipeline → Server → PaneView
pane_view text id pl s = record {
  target_id = text;
  title = label_of (find_pane id s.manager);
  formatter = formatter_of (find_pane id s.manager);
  saved_formatter = saved_formatter_of (find_pane id s.manager);
  scrollback_len = Ring.len pl.scrollback;
  scrollback_cap = pl.scrollback.cap;
  last_line = last_of (Ring.lines pl.scrollback);
  bookmarks = marks_list (Routes.bookmarks_of id s.router);
}

abbrev pub found_pane : Text → TargetId → Option Pipeline → Server → Answer
found_pane text id none s = api_error 404 (said (codes "pane not found")) s
found_pane text id (some pl) s = json_response (pane_body (pane_view text id pl s)) s

unfoldable pub handle_status_pane : Text → Server → Answer
handle_status_pane text =
    with_target (parse_target_id text) (λ id s. found_pane text id (Routes.get id s.router) s)
