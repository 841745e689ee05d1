-- ===== src/Server/History.antt =====
-- The runs of a server keep what the calls of `Runs.KeptCalls` keep.
use rdw.Common.{Text, Option, none, some, List, [], ◌∷◌}
use rdw.Session.TargetId.{TargetId, parse_target_id}
use rdw.Router as Routes
use rdw.Pipeline.{Pipeline}
use rdw.Kv as Store
use rdw.Kv.{parse_key, Store}
use rdw.Server.{Env}
use rdw.Server.Open.{handle_bindings, handle_formatters}
use rdw.Server.Windows.{handle_session, handle_window_list}
use rdw.Server.Layouts.{handle_layout_list}
use rdw.Server.Keys.{handle_kv_list, found_value, handle_kv_get}
use rdw.Server.Tokens.{handle_token_list}
use rdw.Server.Marks.{handle_highlight_list}
use rdw.Server.CycleRoutes.{handle_cycle_status}
use rdw.Server.Status.{handle_admin_connections, handle_status, found_pane, handle_status_pane}
use rdw.Server.Guards.{}
use rdw.Server.Requests.{
  Request, get_session, get_windows, get_layouts, get_tokens, get_highlights, get_cycle, get_status,
  get_connections, get_ping, get_bindings, get_formatters, post_cycle_stop, post_stream,
  post_filter, post_window, post_layout, delete_window, post_window_focus, post_layout_apply,
  patch_window, post_split, post_zoom, delete_pane, get_bookmarks, get_status_pane, post_resize,
  post_swap, patch_pane, get_keys, get_key, delete_key, delete_token, delete_highlight, put_key,
  post_token, post_group, put_bookmark, delete_bookmark, put_highlight, post_cycle_start, guard_of,
  handle, serve, Input, http, unix, cycled, ws_open, ws_close, step, run,
}
use rdw.Server.Keeps.{
  CoreProperty, with_target-keeps, handle_pane_zoom-keeps, handle_pane_resize-keeps,
  handle_token_create-keeps, handle_token_revoke-keeps, handle_highlight_add-keeps,
  handle_highlight_delete-keeps, handle_cycle_start-keeps, handle_cycle_stop-keeps, handle_ws-keeps,
  guard-keeps,
}
use rdw.Server.Runs.{
  Keeping, KeptCalls, create-keeps, close-keeps, rename-keeps, focus-keeps, split-keeps,
  close_pane-keeps, swap-keeps, rename_pane-keeps, filter-keeps, stream-keeps, save-keeps,
  apply-keeps, with_key-keeps, put_key-keeps, delete_key-keeps,
}
use rdw.Server.Steps.{
  marks-keep, add_mark-keeps, drop_mark-keeps, group-keeps, cycle_event-keeps, unix-keeps,
}

module _ (Q : CoreProperty) (k : KeptCalls Q) where
  found_pane-keeps :
      (text : Text) (id : TargetId) (o : Option Pipeline)
      → Keeping Q (λ s. (found_pane text id o s).0)
  found_pane-keeps text id none s h = h
  found_pane-keeps text id (some pl) s h = h

  status_pane-keeps : (text : Text) → Keeping Q (λ s. (handle_status_pane text s).0)
  unfolding handle_status_pane
  status_pane-keeps text s h =
      with_target-keeps Q (parse_target_id text) _ s h
        (λ id. found_pane-keeps text id (Routes.get id s.router) s h)

  found_value-keeps : (text : Text) (o : Option Text) → Keeping Q (λ s. (found_value text o s).0)
  found_value-keeps text none s h = h
  found_value-keeps text (some v) s h = h

  get_key-keeps : (text : Text) → Keeping Q (λ s. (handle_kv_get text s).0)
  unfolding handle_kv_get
  get_key-keeps text s h =
      with_key-keeps Q k (parse_key text) _ s h
        (λ key. found_value-keeps text (Store.get key s.router.store) s h)

  handle-keeps : (env : Env) (q : Request) → Keeping Q (λ s. (handle env q s).0)
  unfolding handle handle_session handle_window_list handle_layout_list handle_token_list
      handle_highlight_list handle_cycle_status handle_status handle_admin_connections
      handle_kv_list handle_bindings handle_formatters
  handle-keeps env get_session s h = h
  handle-keeps env get_windows s h = h
  handle-keeps env get_layouts s h = h
  handle-keeps env get_tokens s h = h
  handle-keeps env get_highlights s h = h
  handle-keeps env get_cycle s h = h
  handle-keeps env get_status s h = h
  handle-keeps env get_connections s h = h
  handle-keeps env get_ping s h = h
  handle-keeps env get_bindings s h = h
  handle-keeps env get_formatters s h = h
  handle-keeps env post_cycle_stop s h = handle_cycle_stop-keeps Q s h
  handle-keeps env (post_stream id body) s h = stream-keeps Q k env id body s h
  handle-keeps env (post_filter id body) s h = filter-keeps Q k env id body s h
  handle-keeps env (post_window body) s h = create-keeps Q k body s h
  handle-keeps env (post_layout body) s h = save-keeps Q k body s h
  handle-keeps env (delete_window n) s h = close-keeps Q k n s h
  handle-keeps env (post_window_focus n) s h = focus-keeps Q k n s h
  handle-keeps env (post_layout_apply n) s h = apply-keeps Q k n s h
  handle-keeps env (patch_window n body) s h = rename-keeps Q k n body s h
  handle-keeps env (post_split id body) s h = split-keeps Q k id body s h
  handle-keeps env (post_zoom id) s h = handle_pane_zoom-keeps Q id s h
  handle-keeps env (delete_pane id) s h = close_pane-keeps Q k id s h
  handle-keeps env (get_bookmarks id) s h = marks-keep Q k id s h
  handle-keeps env (get_status_pane id) s h = status_pane-keeps id s h
  handle-keeps env (post_resize id body) s h = handle_pane_resize-keeps Q id body s h
  handle-keeps env (post_swap id body) s h = swap-keeps Q k id body s h
  handle-keeps env (patch_pane id body) s h = rename_pane-keeps Q k id body s h
  handle-keeps env (get_keys prefix) s h = h
  handle-keeps env (get_key key) s h = get_key-keeps key s h
  handle-keeps env (delete_key key) s h = delete_key-keeps Q k env key s h
  handle-keeps env (delete_token id) s h = handle_token_revoke-keeps Q id s h
  handle-keeps env (delete_highlight n) s h = handle_highlight_delete-keeps Q n s h
  handle-keeps env (put_key key body) s h = put_key-keeps Q k env key body s h
  handle-keeps env (post_token body) s h = handle_token_create-keeps Q env body s h
  handle-keeps env (post_group a g) s h = group-keeps Q k a g s h
  handle-keeps env (put_bookmark id n body) s h = add_mark-keeps Q k env id n body s h
  handle-keeps env (delete_bookmark id n) s h = drop_mark-keeps Q k id n s h
  handle-keeps env (put_highlight n body) s h = handle_highlight_add-keeps Q env n body s h
  handle-keeps env (post_cycle_start body) s h = handle_cycle_start-keeps Q body s h

  step-keeps : (e : Input) → Keeping Q (step e)
  unfolding step serve
  step-keeps (http env c q) s h =
      guard-keeps Q env c (guard_of q) (handle env q) s (handle-keeps env q) h
  step-keeps (unix env cmd) s h = unix-keeps Q k env cmd s h
  step-keeps (cycled w) s h = cycle_event-keeps Q k w s h
  step-keeps (ws_open env header a b n) s h = handle_ws-keeps Q env header a b n s h
  step-keeps (ws_close c) s h = h

  pub run-keeps : (es : List Input) → Keeping Q (run es)
  unfolding run
  run-keeps [] s h = h
  run-keeps (e ∷ es) s h = run-keeps es (step e s) (step-keeps e s h)
