-- ===== src/Server/Render.antt =====
-- Two ways to a pane's title, and what an image sequence leaves of a pane.
use rdw.Common.{if◌then◌else◌, Text, codes, is_empty, ◌≡◌, refl, Bool, true, false, not, ◌&&◌}
use rdw.Session.TargetId.{TargetId}
use rdw.Session.Manager.{is_found, find_pane}
use rdw.Hub.{}
use rdw.Server.{Server, said, api_error, write_header, broadcast_layout_update}
use rdw.Server.Control.{set_label, control_title}
use rdw.Server.Panes.{retitle}

-- A `title:` sequence does what the request that renames the pane does, and nothing where that is
-- refused.
control_title-retitle :
    (id : TargetId) (t : Text) (s : Server)
    → control_title id t s ≡ (if is_empty t then s else (retitle t id s).0)
unfolding control_title retitle
control_title-retitle id t s = titled (is_empty t) (is_found (find_pane id s.manager))
  where
    titled :
        (b f : Bool)
        → ◌≡◌ {A = Server} (if not b && f then broadcast_layout_update (set_label id t s) else s) (
            if b
            then s
            else (if not f
                then api_error 404 (said (codes "pane not found")) s
                else write_header 204 (broadcast_layout_update (set_label id t s))).0)
    titled true f = refl
    titled false true = refl
    titled false false = refl
