-- ===== src/Server/Swap.antt =====
-- `handlePaneSwap` of internal/server/routes.go. Panes and windows are pointers in Go: here the window
-- of a pane is known by its place in the session.
use rdw.Common.{
  if◌then◌else◌, Text, codes, text_eq, ℕ, zero, suc, Option, none, some, List, [], ◌∷◌,
}
use rdw.Session.TargetId.{TargetId, parse_target_id}
use rdw.Session.Manager.{PaneState, WindowState, is_found, pane_in, find_pane}
use rdw.Server.{
  Server, said, Answer, api_error, write_header, broadcast_layout_update, with_body, with_target,
  update_pane_in, update_pane, with_windows,
}

-- The place of the window that `FindPane` returns.
unfoldable pub pane_window : TargetId → List WindowState → ℕ
pane_window id [] = 0
pane_window id (w ∷ ws) = if is_found (pane_in id w.panes) then 0 else suc (pane_window id ws)

unfoldable pub update_at : ℕ → (WindowState → WindowState) → List WindowState → List WindowState
update_at i f [] = []
update_at zero f (w ∷ ws) = f w ∷ ws
update_at (suc i) f (w ∷ ws) = w ∷ update_at i f ws

abbrev pub placed : Text → Text → PaneState → PaneState
placed split size p = record p { split = split; size = size }

-- The exchange of `Split` and `Size`.
unfoldable pub swap_places : PaneState → PaneState → List WindowState → List WindowState
swap_places a b ws =
    update_pane a.target_id (placed b.split b.size)
      (update_pane b.target_id (placed a.split a.size) ws)

-- `win.Panes[i] = p` at the first pane with the identifier.
abbrev pub put_pane : TargetId → PaneState → WindowState → WindowState
put_pane id p w = record w { panes = update_pane_in id (λ q. p) w.panes }

-- Panes of windows with different names change their windows.
unfoldable pub swap_panes :
    WindowState × PaneState → WindowState × PaneState → List WindowState → List WindowState
swap_panes (wa, a) (wb, b) ws =
    let i = pane_window a.target_id ws in
    let j = pane_window b.target_id ws in
    if text_eq wa.name wb.name
    then swap_places a b ws
    else update_at j (put_pane b.target_id (placed b.split b.size a))
        (update_at i (put_pane a.target_id (placed a.split a.size b)) (swap_places a b ws))

abbrev pub swap_found :
    Option (WindowState × PaneState) → Option (WindowState × PaneState) → Server → Answer
swap_found none b s = api_error 404 (said (codes "pane not found")) s
swap_found (some a) none s = api_error 404 (said (codes "pane not found")) s
swap_found (some a) (some b) s =
    write_header 204 (broadcast_layout_update (with_windows (swap_panes a b) s))

unfoldable pub handle_pane_swap : Text → Option Text → Server → Answer
handle_pane_swap a body = with_body body (λ b. with_target (parse_target_id a) (λ id_a.
    with_target (parse_target_id b)
      (λ id_b s. swap_found (find_pane id_a s.manager) (find_pane id_b s.manager) s)))
