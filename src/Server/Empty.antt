-- ===== src/Server/Empty.antt =====
-- A new server has no pane, and none of its requests makes the first one.
use mathlib.Core.Path.{subst}
use rdw.Common.{
  All, Dict, lookup, insert, remove, insert-AllEntries, lookup-AllEntries, err, Text, codes, ℕ, ◌≡◌,
  refl, sym, ap, ◌∙◌, false, not, Option, none, some, List, [], ◌∷◌, ◌++◌, arith,
}
use rdw.Session.TargetId.{TargetId, parse_target_id}
use rdw.Session.Manager.{
  PaneState, WindowState, Manager, pane_not_found, remove_pane, pane_in, find_pane, all_pane_ids,
  Snapshot, snapshot, or_empty, restore_snapshot,
}
use rdw.Session.Bookmark.{}
use rdw.Router.{
  Router, no_pane, deregister, run_pipe, find_or_register, rounds_from, scan_result, stream, route,
}
use rdw.Pipeline.Scanner.{scan}
use rdw.Pipeline.{Pipeline}
use rdw.Config.{Config}
use rdw.Server.{Server, new_server, Env, write_header, broadcast_layout_update, update_pane}
use rdw.Server.Control.{labelled, set_label, on_events, route_line}
use rdw.Server.Windows.{set_manager, with_manager}
use rdw.Server.Panes.{
  set_router, SplitBody, is_direction, split_at, split_body, close_target, attach_to,
}
use rdw.Server.Swap.{}
use rdw.Server.Layouts.{deregister_gone, register_new, apply_saved}
use rdw.Server.Marks.{}
use rdw.Server.Groups.{kill_panes}
use rdw.Server.Requests.{Input, run}
use rdw.Server.Keeps.{with_target-keeps, if-keeps}
use rdw.Server.Runs.{KeptCalls}
use rdw.Server.History.{run-keeps}
use rdw.Server.Bare.{
  HasNoPane, IsSavedBare, IsBareCore, IsBare, new_server-IsBare, rewindowed, find_pane_in-bare,
  windows_without-bare, window_pane_ids-bare, create-bare, close-bare, rename-bare, focus-bare,
}

update_pane-bare :
    (id : TargetId) (f : PaneState → PaneState) (ws : List WindowState)
    → All HasNoPane ws
    → All HasNoPane (update_pane id f ws)
unfolding update_pane pane_in
update_pane-bare id f [] a = tt
update_pane-bare id f (w ∷ ws) a = let e = a.0 in ground (arith, update_pane-bare id f ws a.1)

-- No pane is found, so what needs one is refused.
split_at-IsBare :
    (id : TargetId) (b : SplitBody) (o : Option (WindowState × PaneState)) (s : Server)
    → o ≡ none
    → IsBare s
    → IsBare (split_at id b o s).0
split_at-IsBare id b none s e v = v
split_at-IsBare id b (some x) s e v = absurd (ground arith)

split-IsBare :
    (parent : Text) (b : SplitBody) (s : Server) → IsBare s → IsBare (split_body parent b s).0
unfolding split_body
split-IsBare parent b s v = if-keeps IsBareCore (not (is_direction b.direction)) _ _ v (
    with_target-keeps IsBareCore (parse_target_id b.new_id) _ s v (λ id.
      with_target-keeps IsBareCore (parse_target_id parent) _ s v (λ parent_id.
        split_at-IsBare id b (find_pane parent_id s.manager) s
          (find_pane_in-bare parent_id s.manager.windows v.no_panes) v)))

remove_pane-bare :
    (id : TargetId) (m : Manager)
    → All HasNoPane m.windows
    → remove_pane id m ≡ (m, err pane_not_found)
unfolding remove_pane
remove_pane-bare id m a = let e = windows_without-bare id m.windows a in ground arith

remove-bare : (id : TargetId) (s : Server) → IsBare s → (close_target id s).0 ≡ s
unfolding close_target
remove-bare id s v =
    ap
      (λ q.
        (with_manager 404 q
          (λ s'.
            write_header 204 (broadcast_layout_update (set_router (deregister id s'.router) s')))
          s).0)
      (remove_pane-bare id s.manager v.no_panes)

-- A line for a target that is not registered is refused, and the router stays as it is.
route-unassigned :
    (clock : ℕ → Text) (id : TargetId) (line : Text) (r : Router)
    → lookup id r.pipes ≡ none
    → r.opts.allow_unassigned ≡ false
    → route clock id line r ≡ (r, record { events = []; result = err no_pane })
unfolding route stream find_or_register
route-unassigned clock id line r e a =
    let unknown : find_or_register id r ≡ (r, none) = unfold find_or_register in ground arith in
    let (ls, long) = scan (line ++ codes "\n") in
    ap (λ q. run_pipe id (scan_result long) (rounds_from clock none 0 ls) q.1 q.0) unknown
    ∙ (unfold run_pipe in refl)

route_line-unassigned :
    (env : Env) (id : TargetId) (line : Text) (s : Server)
    → lookup id s.router.pipes ≡ none
    → s.router.opts.allow_unassigned ≡ false
    → route_line env id line s ≡ (s, err no_pane)
unfolding route_line on_events
route_line-unassigned env id line s e a =
    ap (λ q. (on_events env.now q.1.events (record s { router = q.0 }), q.1.result))
      (route-unassigned env.clock id line s.router e a)

route_line-bare :
    (env : Env) (id : TargetId) (line : Text) (s : Server)
    → IsBare s
    → route_line env id line s ≡ (s, err no_pane)
route_line-bare env id line s v =
    route_line-unassigned env id line s (ap (lookup id) v.no_pipes ∙ (unfold lookup in refl))
      v.assigned_only

remove-nil {ℓ} : {V : Type ℓ} (k : Text) (m : Dict V) → m ≡ [] → remove k m ≡ []
remove-nil k m e = ap (remove k) e ∙ (unfold remove in refl)

deregistered :
    (id : TargetId) (s : Server) → IsBare s → IsBare (set_router (deregister id s.router) s)
unfolding deregister
deregistered id s v = record {
  no_panes = v.no_panes;
  no_pipes = remove-nil id s.router.pipes v.no_pipes;
  no_marks = remove-nil id s.router.bookmarks v.no_marks;
  assigned_only = v.assigned_only;
  saved_bare = v.saved_bare;
}

kill-IsBare : (ids : List TargetId) (s : Server) → IsBare s → IsBare (kill_panes ids s)
unfolding kill_panes
kill-IsBare [] s v = v
kill-IsBare (id ∷ ids) s v =
    let s1 = set_manager (remove_pane id s.manager).0 s in
    let same : s1 ≡ s = ap (λ q. set_manager q.0 s) (remove_pane-bare id s.manager v.no_panes) in
    kill-IsBare ids (set_router (deregister id s1.router) s1)
      (deregistered id s1 (subst IsBare (sym same) v))

apply-IsBare :
    (snap : Snapshot) (s : Server)
    → All HasNoPane (or_empty snap.windows)
    → IsBare s
    → IsBare (apply_saved snap s)
unfolding apply_saved restore_snapshot
apply-IsBare snap s a v =
    let m = restore_snapshot snap s.manager in
    let none_after = window_pane_ids-bare (or_empty snap.windows) a in
    let none_before = window_pane_ids-bare s.manager.windows v.no_panes in
    let same : register_new s.config.server.scrollback_cap (all_pane_ids m)
          (deregister_gone (all_pane_ids m) (all_pane_ids s.manager) s.router)
        ≡ s.router =
      rw (none_after, none_before) (unfold register_new in unfold deregister_gone in refl) in
    subst (λ r. IsBareCore (or_empty snap.windows) r.pipes r.bookmarks r.opts s.layouts) (sym same)
      (record {
        no_panes = a;
        no_pipes = v.no_pipes;
        no_marks = v.no_marks;
        assigned_only = v.assigned_only;
        saved_bare = v.saved_bare;
      })

saved-IsBare :
    (n : Text) (s : Server)
    → IsBare s
    → IsBare (record s { layouts = insert n (snapshot s.manager) s.layouts })
unfolding snapshot
saved-IsBare n s v = record {
  no_panes = v.no_panes;
  no_pipes = v.no_pipes;
  no_marks = v.no_marks;
  assigned_only = v.assigned_only;
  saved_bare =
      insert-AllEntries IsSavedBare n (snapshot s.manager) s.layouts v.no_panes v.saved_bare;
}

none-not-some {ℓ} : {A : Type ℓ} {a : A} → ¬ (none ≡ some a)
none-not-some e = absurd (ground arith)

attach_to-IsBare :
    (env : Env) (id : TargetId) (cmd : Text) (o : Option Pipeline) (s : Server)
    → o ≡ none
    → IsBare s
    → IsBare (attach_to env id cmd o s).0
attach_to-IsBare env id cmd none s e v = v
attach_to-IsBare env id cmd (some p) s e v = absurd (ground arith)

lookup-nil {ℓ} : {V : Type ℓ} (k : Text) (m : Dict V) → m ≡ [] → lookup k m ≡ none
lookup-nil k m e = ap (lookup k) e ∙ (unfold lookup in refl)

bare_calls : KeptCalls IsBareCore
bare_calls = record {
  creating = λ n s v. rewindowed _ s (create-bare n s.manager v.no_panes) v;
  closing = λ n s v. rewindowed _ s (close-bare n s.manager v.no_panes) v;
  focusing = λ n s v. rewindowed _ s (focus-bare n s.manager v.no_panes) v;
  renaming = λ m n s v. rewindowed _ s (rename-bare m n s.manager v.no_panes) v;
  splitting = split-IsBare;
  removing = λ id s v. subst IsBare (sym (remove-bare id s v)) v;
  swapping = λ a b s i j e e' v.
      absurd (none-not-some (sym (find_pane_in-bare i s.manager.windows v.no_panes) ∙ e));
  labelling = λ id t s v.
      unfold set_label in
      rewindowed _ s (update_pane-bare id (labelled t) s.manager.windows v.no_panes) v;
  filtering =
      λ env id cmd s v. attach_to-IsBare env id cmd _ s (lookup-nil id s.router.pipes v.no_pipes) v;
  routing =
      λ env id line s v. subst IsBare (sym (ap (λ q. q.0) (route_line-bare env id line s v))) v;
  saving = saved-IsBare;
  applying = λ n snap s e v.
      apply-IsBare snap s (lookup-AllEntries IsSavedBare n s.layouts v.saved_bare e) v;
  marking = λ id bs bs' s e v.
      absurd (none-not-some (sym (lookup-nil id s.router.bookmarks v.no_marks) ∙ e));
  killing = kill-IsBare;
}

run-IsBare : (cfg : Config) (es : List Input) → IsBare (run es (new_server cfg))
run-IsBare cfg es = run-keeps IsBareCore bare_calls es (new_server cfg) (new_server-IsBare cfg)

-- Whatever the requests to a new server, the commands of its Unix socket, the events of its cycles
-- and its WebSocket connections: its session has no pane and its router no pipeline, so that a line
-- is refused for every identifier and changes nothing.
pub run-paneless :
    (cfg : Config) (es : List Input) (env : Env) (id : TargetId) (line : Text)
    → (all_pane_ids (run es (new_server cfg)).manager ≡ [])
      × ((run es (new_server cfg)).router.pipes ≡ [])
      × (route_line env id line (run es (new_server cfg)) ≡ (run es (new_server cfg), err no_pane))
run-paneless cfg es env id line =
    let v = run-IsBare cfg es in
    (window_pane_ids-bare _ v.no_panes, v.no_pipes, route_line-bare env id line _ v)
