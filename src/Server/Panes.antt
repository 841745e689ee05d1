-- ===== src/Server/Panes.antt =====
-- The pane routes of internal/server/routes.go, but for the swap.
use rdw.Common.{
  if◌then◌else◌, ℤ, pos, insert, Result, ok, err, Text, codes, text_eq, is_empty, Bool, not, ◌||◌,
  Option, none, some, [],
}
use rdw.Session.TargetId.{TargetId, parse_target_id}
use rdw.Session.Manager.{PaneState, WindowState, is_found, add_pane, remove_pane, find_pane}
use rdw.Layout.Resize.{ResizeUnit, ResizeError, parse_resize_arg}
use rdw.Pipeline.{Filter, Pipeline, PipelineError, add_filter}
use rdw.Router as Routes
use rdw.Router.{Router, RouterError, register, deregister}
use rdw.Hub.{pane_zoom, pane_resize}
use rdw.Server.{
  Server, Env, said, by_router, by_pipeline, by_resize, Answer, api_error, write_header, send_all,
  broadcast_layout_update, with_body, with_target,
}
use rdw.Server.Control.{set_label, route_line}
use rdw.Server.Windows.{set_manager, with_manager}

abbrev pub set_router : Router → Server → Server
set_router r s = record s { router = r }

abbrev pub posted : Result RouterError Unit → Server → Answer
posted (err e) s = api_error 404 (by_router e) s
posted (ok tt) s = write_header 204 s

-- `handleStreamPost`
unfoldable pub post_line : Env → TargetId → Text → Server → Answer
post_line env id line s = let (s', r) = route_line env id line s in posted r s'

unfoldable pub handle_stream_post : Env → Text → Option Text → Server → Answer
handle_stream_post env target body =
    with_target (parse_target_id target) (λ id. with_body body (post_line env id))

pub record SplitBody : Type 0 where
  pub direction : Text
  pub new_id : Text
  pub group : Text
  pub private : Bool
  pub size : Text

abbrev pub is_direction : Text → Bool
is_direction d = text_eq d (codes "h") || text_eq d (codes "v")

unfoldable pub split_pane : TargetId → SplitBody → PaneState
split_pane id b = record {
  target_id = id;
  label = [];
  group = b.group;
  private = b.private;
  scrollback_cap = pos 0;
  split = b.direction;
  size = b.size;
  formatter = [];
  saved_formatter = [];
}

-- The end of `handlePaneSplit`: the pipeline of the new pane, or the undoing of the pane.
abbrev pub register_split : TargetId → Router × Result RouterError Unit → Server → Answer
register_split id (r, ok tt) s = write_header 201 (broadcast_layout_update (set_router r s))
register_split id (r, err e) s =
    api_error 409 (by_router e) (set_manager (remove_pane id s.manager).0 (set_router r s))

abbrev pub split_at : TargetId → SplitBody → Option (WindowState × PaneState) → Server → Answer
split_at id b none s = api_error 404 (said (codes "parent pane not found")) s
split_at id b (some (w, p)) s =
    with_manager 409 (add_pane w.name (split_pane id b) s.manager)
      (λ s'. register_split id (register id (pos 0) s'.router) s') s

unfoldable pub split_body : Text → SplitBody → Server → Answer
split_body parent b s =
    if not (is_direction b.direction)
    then api_error 400 (said (codes "direction must be \"h\" or \"v\"")) s
    else with_target (parse_target_id b.new_id)
        (λ id.
          with_target (parse_target_id parent)
            (λ parent_id s'. split_at id b (find_pane parent_id s'.manager) s'))
        s

unfoldable pub handle_pane_split : Text → Option SplitBody → Server → Answer
handle_pane_split parent body = with_body body (split_body parent)

unfoldable pub handle_pane_zoom : Text → Server → Answer
handle_pane_zoom text = with_target (parse_target_id text) (λ id s.
    if not (is_found (find_pane id s.manager))
    then api_error 404 (said (codes "pane not found")) s
    else write_header 204 (send_all (pane_zoom text) s))

unfoldable pub close_target : TargetId → Server → Answer
close_target id s =
    with_manager 404 (remove_pane id s.manager)
      (λ s'. write_header 204 (broadcast_layout_update (set_router (deregister id s'.router) s'))) s

unfoldable pub handle_pane_close : Text → Server → Answer
handle_pane_close text = with_target (parse_target_id text) close_target

pub record ResizeBody : Type 0 where
  pub direction : Text
  pub size : Text

abbrev pub resized : Text → ResizeBody → Result ResizeError (ℤ × ResizeUnit) → Server → Answer
resized text b (err e) s = api_error 400 (by_resize e) s
resized text b (ok r) s = write_header 204 (send_all (pane_resize text b.direction b.size) s)

-- The identifier is not checked, and no pane's size changes.
unfoldable pub handle_pane_resize : Text → Option ResizeBody → Server → Answer
handle_pane_resize text body = with_body body (λ b. resized text b (parse_resize_arg b.size))

pub record RenameBody : Type 0 where
  pub title : Text
  pub label : Text

abbrev pub title_of : RenameBody → Text
title_of b = if is_empty b.title then b.label else b.title

unfoldable pub retitle : Text → TargetId → Server → Answer
retitle t id s =
    if not (is_found (find_pane id s.manager))
    then api_error 404 (said (codes "pane not found")) s
    else write_header 204 (broadcast_layout_update (set_label id t s))

unfoldable pub handle_pane_rename : Text → Option RenameBody → Server → Answer
handle_pane_rename text body = with_body body (λ b s.
    if is_empty (title_of b)
    then api_error 400 (said (codes "title is required")) s
    else with_target (parse_target_id text) (retitle (title_of b)) s)

abbrev pub filtered : TargetId → Pipeline × Result PipelineError Unit → Server → Answer
filtered id (p, err e) s = api_error 409 (by_pipeline e) s
filtered id (p, ok tt) s =
    write_header 204 (set_router (record s.router { pipes = insert id p s.router.pipes }) s)

abbrev pub attach : TargetId → Option Filter → Pipeline → Server → Answer
attach id none p s = api_error 500 (said (codes "filter")) s
attach id (some f) p s = filtered id (add_filter f p) s

abbrev pub attach_to : Env → TargetId → Text → Option Pipeline → Server → Answer
attach_to env id cmd none s = api_error 404 (said (codes "pane not found")) s
attach_to env id cmd (some p) s = attach id (env.start_filter cmd) p s

unfoldable pub handle_pane_filter_add : Env → Text → Option Text → Server → Answer
handle_pane_filter_add env text body = with_body body (λ cmd s.
    if is_empty cmd
    then api_error 400 (said (codes "cmd is required")) s
    else with_target (parse_target_id text)
        (λ id s'. attach_to env id cmd (Routes.get id s'.router) s') s)
