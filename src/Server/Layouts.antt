-- ===== src/Server/Layouts.antt =====
-- The layout routes of internal/server/routes.go. A saved layout is a snapshot.
use rdw.Common.{
  if◌then◌else◌, ℤ, lookup, insert, Text, codes, is_empty, Option, none, some, List, [], ◌∷◌, map,
}
use rdw.Session.TargetId.{TargetId}
use rdw.Session.Manager.{is_found, all_pane_ids, Snapshot, snapshot, restore_snapshot}
use rdw.Session.Manager.Panes.{contains}
use rdw.Router.{Router, register, deregister}
use rdw.Router as Routes
use rdw.Server.{
  Server, said, layouts_body, Answer, api_error, write_header, json_response,
  broadcast_layout_update,
}
use rdw.Server.Windows.{set_manager}
use rdw.Server.Panes.{set_router}

unfoldable pub handle_layout_list : Server → Answer
handle_layout_list s = json_response (layouts_body (map (λ e. e.0) s.layouts)) s

unfoldable pub handle_layout_save : Option Text → Server → Answer
handle_layout_save none s = api_error 400 (said (codes "name required")) s
handle_layout_save (some n) s =
    if is_empty n
    then api_error 400 (said (codes "name required")) s
    else write_header 201 (record s { layouts = insert n (snapshot s.manager) s.layouts })

-- `s.router.Deregister` of the panes that are gone.
unfoldable pub deregister_gone : List TargetId → List TargetId → Router → Router
deregister_gone after [] r = r
deregister_gone after (id ∷ ids) r =
    deregister_gone after ids (if contains id after then r else deregister id r)

-- `s.router.Register` of the panes that have no pipeline. Their order is the map's in Go, and only
-- decides the order of the router's own entries.
unfoldable pub register_new : ℤ → List TargetId → Router → Router
register_new cap [] r = r
register_new cap (id ∷ ids) r =
    register_new cap ids (if is_found (Routes.get id r) then r else (register id cap r).0)

unfoldable pub apply_saved : Snapshot → Server → Server
apply_saved snap s =
    let m = restore_snapshot snap s.manager in
    let after = all_pane_ids m in
    let kept = deregister_gone after (all_pane_ids s.manager) s.router in
    set_router (register_new s.config.server.scrollback_cap after kept) (set_manager m s)

abbrev pub apply_found : Option Snapshot → Server → Answer
apply_found none s = api_error 404 (said (codes "layout not found")) s
apply_found (some snap) s = write_header 204 (broadcast_layout_update (apply_saved snap s))

unfoldable pub handle_layout_apply : Text → Server → Answer
handle_layout_apply n s = apply_found (lookup n s.layouts) s
