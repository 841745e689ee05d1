-- ===== src/Server/Requests.antt =====
-- `routes` of internal/server/routes.go: the requests of the HTTP interface with their guards and
-- handlers, and the runs of a server. The routes that register formatters, format a pane, start
-- terminals, export or give a page are left out.
use rdw.Common.{ℤ, Text, ℕ, Bool, Option, List, [], ◌∷◌}
use rdw.Highlight.{Rule}
use rdw.Hub.{Conn, deregister}
use rdw.Server.{Server, Env, no_body, Answer, json_response}
use rdw.Server.Open.{handle_bindings, handle_formatters}
use rdw.Server.Windows.{
  handle_session, handle_window_list, handle_window_create, handle_window_close,
  handle_window_rename, handle_window_focus,
}
use rdw.Server.Panes.{
  handle_stream_post, SplitBody, handle_pane_split, handle_pane_zoom, handle_pane_close, ResizeBody,
  handle_pane_resize, RenameBody, handle_pane_rename, handle_pane_filter_add,
}
use rdw.Server.Swap.{handle_pane_swap}
use rdw.Server.Layouts.{handle_layout_list, handle_layout_save, handle_layout_apply}
use rdw.Server.Keys.{handle_kv_list, handle_kv_get, handle_kv_set, handle_kv_delete}
use rdw.Server.Tokens.{
  handle_token_list, TokenBody, handle_token_create, handle_token_revoke, handle_ws,
}
use rdw.Server.Marks.{
  handle_bookmark_list, handle_bookmark_add, handle_bookmark_delete, handle_highlight_list,
  handle_highlight_add, handle_highlight_delete,
}
use rdw.Server.Groups.{GroupAction, handle_group_action}
use rdw.Server.CycleRoutes.{
  CycleBody, handle_cycle_start, handle_cycle_stop, handle_cycle_status, cycle_event,
}
use rdw.Server.Status.{handle_admin_connections, handle_status, handle_status_pane}
use rdw.Server.Guards.{Caller, Guard, authed, admin, unauth, guard}
use rdw.Server.Unix.{UnixCommand, handle_unix_command}

pub data Request : Type 0 where
  get_session get_windows get_layouts get_tokens get_highlights get_cycle get_status : Request
  get_connections get_ping get_bindings get_formatters post_cycle_stop : Request
  post_stream post_filter : Text → Option Text → Request
  post_window post_layout : Option Text → Request
  delete_window post_window_focus post_layout_apply : Text → Request
  patch_window : Text → Option Text → Request
  post_split : Text → Option SplitBody → Request
  post_zoom delete_pane get_bookmarks get_status_pane : Text → Request
  post_resize : Text → Option ResizeBody → Request
  post_swap : Text → Option Text → Request
  patch_pane : Text → Option RenameBody → Request
  get_keys get_key delete_key delete_token delete_highlight : Text → Request
  put_key : Text → Option Text → Request
  post_token : Option TokenBody → Request
  post_group : GroupAction → Text → Request
  put_bookmark : Text → Text → Option ℤ → Request
  delete_bookmark : Text → Text → Request
  put_highlight : Text → Option (List Rule) → Request
  post_cycle_start : Option CycleBody → Request

-- The route of each request, as `routes` registers it.
unfoldable pub guard_of : Request → Guard
guard_of get_session = authed
guard_of get_windows = authed
guard_of get_layouts = authed
guard_of get_tokens = authed
guard_of get_highlights = authed
guard_of get_cycle = authed
guard_of get_status = authed
guard_of get_connections = admin
guard_of get_ping = unauth
guard_of get_bindings = unauth
guard_of get_formatters = unauth
guard_of post_cycle_stop = authed
guard_of (post_stream _ _) = authed
guard_of (post_filter _ _) = authed
guard_of (post_window _) = authed
guard_of (post_layout _) = authed
guard_of (delete_window _) = authed
guard_of (post_window_focus _) = authed
guard_of (post_layout_apply _) = authed
guard_of (patch_window _ _) = authed
guard_of (post_split _ _) = authed
guard_of (post_zoom _) = authed
guard_of (delete_pane _) = authed
guard_of (get_bookmarks _) = authed
guard_of (get_status_pane _) = authed
guard_of (post_resize _ _) = authed
guard_of (post_swap _ _) = authed
guard_of (patch_pane _ _) = authed
guard_of (get_keys _) = authed
guard_of (get_key _) = authed
guard_of (delete_key _) = authed
guard_of (delete_token _) = authed
guard_of (delete_highlight _) = authed
guard_of (put_key _ _) = authed
guard_of (post_token _) = authed
guard_of (post_group _ _) = authed
guard_of (put_bookmark _ _ _) = authed
guard_of (delete_bookmark _ _) = authed
guard_of (put_highlight _ _) = authed
guard_of (post_cycle_start _) = authed

unfoldable pub handle : Env → Request → Server → Answer
handle env get_session s = handle_session s
handle env get_windows s = handle_window_list s
handle env get_layouts s = handle_layout_list s
handle env get_tokens s = handle_token_list env s
handle env get_highlights s = handle_highlight_list s
handle env get_cycle s = handle_cycle_status s
handle env get_status s = handle_status env s
handle env get_connections s = handle_admin_connections s
handle env get_ping s = json_response no_body s
handle env get_bindings s = handle_bindings s
handle env get_formatters s = handle_formatters env s
handle env post_cycle_stop s = handle_cycle_stop s
handle env (post_stream id body) s = handle_stream_post env id body s
handle env (post_filter id body) s = handle_pane_filter_add env id body s
handle env (post_window body) s = handle_window_create body s
handle env (post_layout body) s = handle_layout_save body s
handle env (delete_window n) s = handle_window_close n s
handle env (post_window_focus n) s = handle_window_focus n s
handle env (post_layout_apply n) s = handle_layout_apply n s
handle env (patch_window n body) s = handle_window_rename n body s
handle env (post_split id body) s = handle_pane_split id body s
handle env (post_zoom id) s = handle_pane_zoom id s
handle env (delete_pane id) s = handle_pane_close id s
handle env (get_bookmarks id) s = handle_bookmark_list id s
handle env (get_status_pane id) s = handle_status_pane id s
handle env (post_resize id body) s = handle_pane_resize id body s
handle env (post_swap id body) s = handle_pane_swap id body s
handle env (patch_pane id body) s = handle_pane_rename id body s
handle env (get_keys prefix) s = handle_kv_list prefix s
handle env (get_key k) s = handle_kv_get k s
handle env (delete_key k) s = handle_kv_delete env k s
handle env (delete_token id) s = handle_token_revoke id s
handle env (delete_highlight n) s = handle_highlight_delete n s
handle env (put_key k body) s = handle_kv_set env k body s
handle env (post_token body) s = handle_token_create env body s
handle env (post_group a g) s = handle_group_action a g s
handle env (put_bookmark id n body) s = handle_bookmark_add env id n body s
handle env (delete_bookmark id n) s = handle_bookmark_delete id n s
handle env (put_highlight n body) s = handle_highlight_add env n body s
handle env (post_cycle_start body) s = handle_cycle_start body s

unfoldable pub serve : Env → Caller → Request → Server → Answer
serve env c q s = guard env c (guard_of q) (handle env q) s

-- What happens to a server: a request, a command of the Unix socket, an event of a focus cycle, a
-- WebSocket that opens, with its header and its number, and one that closes.
pub data Input : Type 0 where
  http : Env → Caller → Request → Input
  unix : Env → UnixCommand → Input
  cycled : Text → Input
  ws_open : Env → Text → Bool → Bool → ℕ → Input
  ws_close : Conn → Input

unfoldable pub step : Input → Server → Server
step (http env c q) s = (serve env c q s).0
step (unix env cmd) s = (handle_unix_command env cmd s).0
step (cycled w) s = cycle_event w s
step (ws_open env header offers upgrades n) s = (handle_ws env header offers upgrades n s).0
step (ws_close c) s = record s { hub = deregister c s.hub }

unfoldable pub run : List Input → Server → Server
run [] s = s
run (e ∷ es) s = run es (step e s)
