-- ===== src/Server/Wired/Handler.antt =====
-- What the control handler and a routed line keep.

use rdw.Common.{
  if◌then◌else◌, Bool-cases, Dict, lookup, insert, Text, codes, text_eq, is_empty, ℕ, ◌≤◌, ◌≡◌,
  refl, inl, inr, Bool, true, false, not, ◌&&◌, Option, none, some, List, [], ◌∷◌, arith,
}
use rdw.Session.TargetId.{TargetId}
use rdw.Session.Manager.{PaneState, WindowState, is_found, find_pane, window_pane_ids}
use rdw.Session.Manager.Counts.{count}
use rdw.Session.Bookmark as Marks
use rdw.Highlight.{Profile, get_profile}
use rdw.Session.Bookmark.{BookmarkStore}
use rdw.Session.Scrollback as Ring
use rdw.Control.{
  Kind, verbatim, quit, semaphore, clear, timestamp, formatter, relay, kv, base64, bookmark,
  highlight, scrollback, image, svg, scale, svg_data, title,
}
use rdw.Router.{route}
use rdw.Router as Routes
use rdw.Pipeline.{Pipeline, Event, rendered, controlled}
use rdw.Hub.{scrollback_ctl, pane_scale, render, formatter_set}
use rdw.Server.{Server, Env, send_all, update_pane, with_windows}
use rdw.Server.Control.{
  labelled, formatted, set_label, control_title, line_index_of, with_bookmarks, mark_line,
  send_profile, clear_pipe, control_scrollback, render_pane, control_switch, on_event, on_events,
  route_line,
}
use rdw.Server.Panes.{set_router}
use rdw.Server.Keeps.{send_all-keeps, broadcast_layout_update-keeps}
use rdw.Server.Wider.{insert-IsWider, route-IsWider}
use rdw.Server.SwapLaws.{ids-update_pane}
use rdw.Server.Wired.{IsWiredCore, IsWired, shrunk, same_ids}

labelled-IsWired :
    (id : TargetId) (f : PaneState → PaneState) (s : Server)
    → ((p : PaneState) → (f p).target_id ≡ p.target_id)
    → IsWired s
    → IsWired (with_windows (update_pane id f) s)
labelled-IsWired id f s h v =
    shrunk
      (same_ids s.manager.windows (update_pane id f s.manager.windows)
        (ids-update_pane id f s.manager.windows h))
      (λ x k. k) v

pub set_label-IsWired :
    (id : TargetId) (t : Text) (s : Server) → IsWired s → IsWired (set_label id t s)
unfolding set_label
set_label-IsWired id t s v = labelled-IsWired id (labelled t) s (λ p. refl) v

same_windows :
    (x : TargetId) (s : Server)
    → count x (window_pane_ids s.manager.windows) ≤ count x (window_pane_ids s.manager.windows)
same_windows x s = omega arith

-- A pipeline more, or another under its key.
pub pipe-IsWired :
    (id : TargetId) (p : Pipeline) (s : Server)
    → IsWired s
    → IsWired (set_router (record s.router { pipes = insert id p s.router.pipes }) s)
pipe-IsWired id p s v = shrunk (λ x. same_windows x s) (insert-IsWider id p s.router.pipes) v

title-IsWired : (id : TargetId) (t : Text) (s : Server) → IsWired s → IsWired (control_title id t s)
unfolding control_title
title-IsWired id t s v = elim (Bool-cases (not (is_empty t) && is_found (find_pane id s.manager))) [
  | inl e ↦ rw e (broadcast_layout_update-keeps IsWiredCore _ (set_label-IsWired id t s v))
  | inr e ↦ rw e v
]

marks-IsWired :
    (f : Dict BookmarkStore → Dict BookmarkStore) (s : Server)
    → IsWired s
    → IsWired (with_bookmarks f s)
marks-IsWired f s v = record {
  distinct = v.distinct;
  piped = v.piped;
  saved_distinct = v.saved_distinct;
}

if-IsWired : (b : Bool) (s t : Server) → IsWired s → IsWired t → IsWired (if b then s else t)
if-IsWired true s t v w = v
if-IsWired false s t v w = w

mark_line-IsWired :
    (now : ℕ) (id : TargetId) (n : Text) (o : Option BookmarkStore) (s : Server)
    → IsWired s
    → IsWired (mark_line now id n o s)
mark_line-IsWired now id n none s v = v
mark_line-IsWired now id n (some bs) s v =
    if-IsWired (is_empty n) s
      (with_bookmarks (insert id (Marks.add now n (line_index_of (Routes.get id s.router)) bs).0) s)
      v
      (marks-IsWired (insert id (Marks.add now n (line_index_of (Routes.get id s.router)) bs).0) s
        v)

send_profile-IsWired :
    (id : TargetId) (o : Option Profile) (s : Server) → IsWired s → IsWired (send_profile id o s)
send_profile-IsWired id none s v = v
send_profile-IsWired id (some p) s v = send_all-keeps IsWiredCore _ s v

clear_pipe-IsWired :
    (id : TargetId) (o : Option Pipeline) (s : Server) → IsWired s → IsWired (clear_pipe id o s)
clear_pipe-IsWired id none s v = v
clear_pipe-IsWired id (some p) s v =
    pipe-IsWired id (record p { scrollback = Ring.clear p.scrollback }) s v

scrollback-IsWired :
    (id : TargetId) (a : Text) (s : Server) → IsWired s → IsWired (control_scrollback id a s)
unfolding control_scrollback
scrollback-IsWired id a s v =
    let emptied = clear_pipe id (Routes.get id s.router) s in
    let cleared = if text_eq a (codes "clear") then emptied else s in
    if-IsWired (is_empty a) s (send_all (scrollback_ctl id a) cleared) v (
      send_all-keeps IsWiredCore (scrollback_ctl id a) cleared (
        if-IsWired (text_eq a (codes "clear")) emptied s
          (clear_pipe-IsWired id (Routes.get id s.router) s v) v))

render-IsWired :
    (b : Bool) (id : TargetId) (t : Text) (o : Option (WindowState × PaneState)) (s : Server)
    → IsWired s
    → IsWired (render_pane b id t o s)
render-IsWired b id t none s v = v
render-IsWired b id t (some (w, p)) s v =
    let shown =
      with_windows
        (update_pane id (formatted (if b then codes "image" else codes "svg") p.formatter)) s in
    let sent = send_all (render b id t) shown in
    let restored = with_windows (update_pane id (formatted p.formatter [])) sent in
    send_all-keeps IsWiredCore (formatter_set id p.formatter) restored (
      labelled-IsWired id (formatted p.formatter []) sent (λ q. refl)
        (send_all-keeps IsWiredCore (render b id t) shown (labelled-IsWired id _ s (λ q. refl) v)))

control-IsWired :
    (now : ℕ) (id : TargetId) (t : Text) (k : Kind) (s : Server)
    → IsWired s
    → IsWired (control_switch now id t k s)
unfolding control_switch
control-IsWired now id t title s v = title-IsWired id t s v
control-IsWired now id t bookmark s v =
    mark_line-IsWired now id t (lookup id s.router.bookmarks) s v
control-IsWired now id t highlight s v =
    if-IsWired (is_empty t) s (send_profile id (get_profile t s.highlights) s) v
      (send_profile-IsWired id (get_profile t s.highlights) s v)
control-IsWired now id t scrollback s v = scrollback-IsWired id t s v
control-IsWired now id t scale s v =
    if-IsWired (is_empty t) s (send_all (pane_scale id t) s) v
      (send_all-keeps IsWiredCore (pane_scale id t) s v)
control-IsWired now id t image s v = render-IsWired true id t (find_pane id s.manager) s v
control-IsWired now id t svg_data s v = render-IsWired false id t (find_pane id s.manager) s v
control-IsWired now id t verbatim s v = v
control-IsWired now id t quit s v = v
control-IsWired now id t semaphore s v = v
control-IsWired now id t clear s v = v
control-IsWired now id t timestamp s v = v
control-IsWired now id t formatter s v = v
control-IsWired now id t relay s v = v
control-IsWired now id t kv s v = v
control-IsWired now id t base64 s v = v
control-IsWired now id t svg s v = v

event-IsWired : (now : ℕ) (e : Event) (s : Server) → IsWired s → IsWired (on_event now e s)
event-IsWired now (rendered k id line) s v = send_all-keeps IsWiredCore _ s v
event-IsWired now (controlled k id seq) s v = control-IsWired now id seq.payload seq.kind s v

events-IsWired : (now : ℕ) (es : List Event) (s : Server) → IsWired s → IsWired (on_events now es s)
unfolding on_events
events-IsWired now [] s v = v
events-IsWired now (e ∷ es) s v = events-IsWired now es (on_event now e s) (event-IsWired now e s v)

pub route_line-IsWired :
    (env : Env) (id : TargetId) (line : Text) (s : Server)
    → IsWired s
    → IsWired (route_line env id line s).0
unfolding route_line
route_line-IsWired env id line s v =
    let q = route env.clock id line s.router in
    events-IsWired env.now q.1.events (set_router q.0 s)
      (shrunk (λ x. same_windows x s) (route-IsWider env.clock id line s.router) v)
