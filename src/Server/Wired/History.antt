-- ===== src/Server/Wired/History.antt =====
-- A wired session stays wired, whatever happens to its server.

use rdw.Common.{
  lookup, insert, insert-AllEntries, lookup-AllEntries, Result, ok, err, Text, ◌≡◌, ap, Option,
  none, some, List, arith,
}
use rdw.Session.TargetId.{TargetId}
use rdw.Session.Manager.{
  focus_window, window_pane_ids, all_pane_ids, Snapshot, snapshot, restore_snapshot,
}
use rdw.Pipeline.{Filter, Pipeline, PipelineError, add_filter}
use rdw.Server.{Server, Env}
use rdw.Server.Windows.{set_manager}
use rdw.Server.Panes.{filtered, attach, attach_to}
use rdw.Server.Layouts.{deregister_gone, apply_saved}
use rdw.Server.Requests.{Input, run}
use rdw.Server.Runs.{KeptCalls}
use rdw.Server.History.{run-keeps}
use rdw.Server.Wider.{register_new-present}
use rdw.Server.SwapLaws.{count-swap_panes}
use rdw.Server.Wired.{
  IsSavedDistinct, IsWiredCore, IsWired, shrunk, same_ids, create-le, close-le, rename-le,
  focus-windows, close-IsWired, kill-IsWired,
}
use rdw.Server.Wired.Split.{split-IsWired}
use rdw.Server.Wired.Handler.{set_label-IsWired, pipe-IsWired, route_line-IsWired}

filter-IsWired :
    (env : Env) (id : TargetId) (cmd : Text) (o : Option Pipeline) (s : Server)
    → IsWired s
    → IsWired (attach_to env id cmd o s).0
filter-IsWired env id cmd none s v = v
filter-IsWired env id cmd (some p) s v = attached (env.start_filter cmd)
  where
    filtered-IsWired : (q : Pipeline × Result PipelineError Unit) → IsWired (filtered id q s).0
    filtered-IsWired (p', err e) = v
    filtered-IsWired (p', ok tt) = pipe-IsWired id p' s v

    attached : (f : Option Filter) → IsWired (attach id f p s).0
    attached none = v
    attached (some f) = filtered-IsWired (add_filter f p)

apply-IsWired :
    (n : Text) (snap : Snapshot) (s : Server)
    → lookup n s.layouts ≡ some snap
    → IsWired s
    → IsWired (apply_saved snap s)
unfolding apply_saved restore_snapshot
apply-IsWired n snap s e v =
    let m = restore_snapshot snap s.manager in
    let kept = deregister_gone (all_pane_ids m) (all_pane_ids s.manager) s.router in
    record {
      distinct = lookup-AllEntries IsSavedDistinct n s.layouts v.saved_distinct e;
      piped = λ x h. register_new-present s.config.server.scrollback_cap (all_pane_ids m) kept x h;
      saved_distinct = v.saved_distinct;
    }

saved-IsWired :
    (n : Text) (s : Server)
    → IsWired s
    → IsWired (record s { layouts = insert n (snapshot s.manager) s.layouts })
unfolding snapshot
saved-IsWired n s v = record {
  distinct = v.distinct;
  piped = v.piped;
  saved_distinct =
      insert-AllEntries IsSavedDistinct n (snapshot s.manager) s.layouts v.distinct
        v.saved_distinct;
}

focus-IsWired :
    (n : Text) (s : Server) → IsWired s → IsWired (set_manager (focus_window n s.manager).0 s)
focus-IsWired n s v =
    shrunk
      (same_ids s.manager.windows (focus_window n s.manager).0.windows
        (ap window_pane_ids (focus-windows n s.manager)))
      (λ x h. h) v

wired_calls : KeptCalls IsWiredCore
wired_calls = record {
  creating = λ n s v. shrunk (λ x. create-le x n s.manager) (λ x h. h) v;
  closing = λ n s v. shrunk (λ x. close-le x n s.manager) (λ x h. h) v;
  focusing = focus-IsWired;
  renaming = λ m n s v. shrunk (λ x. rename-le x m n s.manager) (λ x h. h) v;
  splitting = split-IsWired;
  removing = close-IsWired;
  swapping = λ a b s i j e e' v.
      shrunk (λ x. omega (arith, count-swap_panes x i j s.manager.windows a b e e')) (λ x h. h) v;
  labelling = set_label-IsWired;
  filtering = λ env id cmd s v. filter-IsWired env id cmd (lookup id s.router.pipes) s v;
  routing = route_line-IsWired;
  saving = saved-IsWired;
  applying = apply-IsWired;
  marking = λ id bs bs' s e v. record {
    distinct = v.distinct;
    piped = v.piped;
    saved_distinct = v.saved_distinct;
  };
  killing = kill-IsWired;
}

-- In a session where no identifier is the pane of two, nor in a saved layout, and every pane has a
-- pipeline, this stays so whatever the requests, refused ones included, the commands of the Unix
-- socket, the events of the cycles and the connections.
pub run-IsWired : (es : List Input) (s : Server) → IsWired s → IsWired (run es s)
run-IsWired es s v = run-keeps IsWiredCore wired_calls es s v
