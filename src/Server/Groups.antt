-- ===== src/Server/Groups.antt =====
-- `handleGroupAction` of internal/server/routes.go.
use rdw.Common.{if◌then◌else◌, keep_if, Text, codes, text_eq, is_empty, List, [], ◌∷◌, ◌++◌}
use rdw.Session.TargetId.{TargetId}
use rdw.Session.Manager.{WindowState, remove_pane, pane_ids}
use rdw.Router.{deregister}
use rdw.Hub.{pane_focus, group_toggle}
use rdw.Server.{Server, said, Answer, api_error, write_header, send_all, broadcast_layout_update}
use rdw.Server.Windows.{set_manager}
use rdw.Server.Panes.{set_router}

-- The panes of a group, in the order of the session.
unfoldable pub group_panes : Text → List WindowState → List TargetId
group_panes g [] = []
group_panes g (w ∷ ws) = pane_ids (keep_if (λ p. text_eq p.group g) w.panes) ++ group_panes g ws

pub data GroupAction : Type 0 where
  hide show focus kill : GroupAction

-- The loop of `kill`.
unfoldable pub kill_panes : List TargetId → Server → Server
kill_panes [] s = s
kill_panes (id ∷ ids) s =
    kill_panes ids
      (set_router (deregister id s.router) (set_manager (remove_pane id s.manager).0 s))

-- The `switch` on the action, for a group whose first pane is given.
unfoldable pub act_on : GroupAction → Text → TargetId → List TargetId → Server → Server
act_on kill g id ids s = broadcast_layout_update (kill_panes (id ∷ ids) s)
act_on hide g id ids s = send_all (group_toggle (codes "group_hide") g) s
act_on show g id ids s = send_all (group_toggle (codes "group_show") g) s
act_on focus g id ids s = send_all (pane_focus id) s

abbrev pub act_on_group : GroupAction → Text → List TargetId → Server → Answer
act_on_group a g [] s = api_error 404 (said (codes "no panes found in group")) s
act_on_group a g (id ∷ ids) s = write_header 204 (act_on a g id ids s)

unfoldable pub handle_group_action : GroupAction → Text → Server → Answer
handle_group_action a g s =
    if is_empty g
    then api_error 400 (said (codes "group name required")) s
    else act_on_group a g (group_panes g s.manager.windows) s
