-- ===== src/Server/Wired.antt =====
-- Panes and pipelines: no identifier is the pane of two, and every pane has a pipeline.
pub mod Split
pub mod Undo
pub mod Handler
pub mod History
use mathlib.Core.Path.{subst}
use rdw.Common.{
  leb, is_present, Bool-cases, Option-cases, length, Dict, lookup, remove, lookup-remove,
  AllEntries, Text, text_eq, text_eq_iff, ◌≤◌, ◌<◌, ◌≡◌, refl, ap, inl, inr, true, List, [], ◌∷◌,
  arith,
}
use rdw.Session.TargetId.{TargetId}
use rdw.Session.Manager.{
  WindowState, Manager, window_index, create_window, close_at, close_window, rename_window,
  focus_at, focus_window, remove_pane, window_pane_ids, Snapshot, or_empty,
}
use rdw.Session.Manager.Panes.{}
use rdw.Session.Manager.Counts.{
  count, count-snoc, count-remove_at, ids-rename, count-remove_pane, count-removed,
}
use rdw.Session.Bookmark.{BookmarkStore}
use rdw.Session.Scrollback as Ring
use rdw.Control.{}
use rdw.Router.{Options, deregister}
use rdw.Router as Routes
use rdw.Pipeline.{Pipeline}
use rdw.Hub.{}
use rdw.Server.{Server}
use rdw.Server.Control.{}
use rdw.Server.Windows.{set_manager}
use rdw.Server.Panes.{set_router, close_target}
use rdw.Server.Swap.{}
use rdw.Server.Layouts.{}
use rdw.Server.Marks.{}
use rdw.Server.Groups.{kill_panes}
use rdw.Server.Requests.{}
use rdw.Server.Keeps.{Holds, with_manager-keeps, broadcast_layout_update-keeps}
use rdw.Server.Runs.{}
use rdw.Server.History.{}
use rdw.Server.Wider.{IsWider}
use rdw.Server.SwapLaws.{}

abbrev pub HasDistinctPanes : List WindowState → Type 0
HasDistinctPanes ws = (x : TargetId) → count x (window_pane_ids ws) ≤ 1

abbrev pub IsPiped : List WindowState → Dict Pipeline → Type 0
IsPiped ws pipes =
    (x : TargetId) → 0 < count x (window_pane_ids ws) → is_present (lookup x pipes) ≡ true

abbrev pub IsSavedDistinct : Text → Snapshot → Type 0
IsSavedDistinct n snap = HasDistinctPanes (or_empty snap.windows)

pub record IsWiredCore (ws : List WindowState) (pipes : Dict Pipeline) (marks : Dict BookmarkStore)
    (opts : Options) (saved : Dict Snapshot) : Type 0 where
  pub distinct : HasDistinctPanes ws
  pub piped : IsPiped ws pipes
  pub saved_distinct : AllEntries IsSavedDistinct saved

abbrev pub IsWired : Server → Type 0
IsWired s = Holds IsWiredCore s

-- Other windows with no identifier more often, and no pipeline less.
pub shrunk :
    {ws vs : List WindowState} {m n : Dict Pipeline} {marks marks' : Dict BookmarkStore}
    {opts opts' : Options} {saved : Dict Snapshot}
    → ((x : TargetId) → count x (window_pane_ids vs) ≤ count x (window_pane_ids ws))
    → IsWider m n
    → IsWiredCore ws m marks opts saved
    → IsWiredCore vs n marks' opts' saved
shrunk le wide v = record {
  distinct = λ x. omega (arith, le x, v.distinct x);
  piped = λ x h. wide x (v.piped x (omega (arith, le x)));
  saved_distinct = v.saved_distinct;
}

pub same_ids :
    (ws vs : List WindowState)
    → window_pane_ids vs ≡ window_pane_ids ws
    → (x : TargetId) → count x (window_pane_ids vs) ≤ count x (window_pane_ids ws)
same_ids ws vs e x = omega (arith, ap (count x) e)

pub create-le :
    (x : TargetId) (n : Text) (m : Manager)
    → count x (window_pane_ids (create_window n m).0.windows) ≤ count x (window_pane_ids m.windows)
unfolding create_window count
create-le x n m = ground (arith, count-snoc x m.windows (record { name = n; panes = [] }))

pub close-le :
    (x : TargetId) (n : Text) (m : Manager)
    → count x (window_pane_ids (close_window n m).0.windows) ≤ count x (window_pane_ids m.windows)
unfolding close_window close_at
close-le x n m = elim (Bool-cases (leb (length m.windows) 1)) [
  | inl e ↦ rw e (omega arith)
  | inr e ↦ elim (Option-cases (window_index n m.windows)) [
    | inl k ↦ rw e (rw k (omega arith))
    | inr (i, k) ↦ rw e (rw k (count-remove_at x i m.windows))
  ]
]

pub rename-le :
    (x : TargetId) (o n : Text) (m : Manager)
    → count x (window_pane_ids (rename_window o n m).0.windows)
      ≤ count x (window_pane_ids m.windows)
unfolding rename_window
rename-le x o n m = let e = ap (count x) (ids-rename o n m.windows) in ground arith

pub focus-windows : (n : Text) (m : Manager) → (focus_window n m).0.windows ≡ m.windows
unfolding focus_window focus_at
focus-windows n m = elim (Option-cases (window_index n m.windows)) [
  | inl k ↦ rw k refl
  | inr (i, k) ↦ rw k refl
]

-- A pane that is taken away, with its pipeline.
pub removed :
    (id : TargetId) (s : Server)
    → IsWired s
    → IsWired (set_router (deregister id s.router) (set_manager (remove_pane id s.manager).0 s))
unfolding deregister
removed id s v = record {
  distinct = λ x. omega (arith, count-remove_pane x id s.manager, v.distinct x);
  piped = still;
  saved_distinct = v.saved_distinct;
}
  where
    still : IsPiped (remove_pane id s.manager).0.windows (remove id s.router.pipes)
    still x h = elim (Bool-cases (text_eq id x)) [
      | inl e ↦
          let k : id ≡ x = (text_eq_iff id x).0 e in
          let gone = count-removed id s.manager (v.distinct id) in
          let same_count =
            ap (λ t. count t (window_pane_ids (remove_pane id s.manager).0.windows)) k in
          absurd (omega arith)
      | inr e ↦
          let kept = lookup-remove id x s.router.pipes in
          let had = v.piped x (omega (arith, count-remove_pane x id s.manager)) in ground arith
    ]

pub close-IsWired : (id : TargetId) (s : Server) → IsWired s → IsWired (close_target id s).0
unfolding close_target
close-IsWired id s v =
    with_manager-keeps IsWiredCore 404 (remove_pane id s.manager) _ s
      (shrunk (λ x. count-remove_pane x id s.manager) (λ x h. h) v)
      (λ w. broadcast_layout_update-keeps IsWiredCore _ (removed id s v))

pub kill-IsWired : (ids : List TargetId) (s : Server) → IsWired s → IsWired (kill_panes ids s)
unfolding kill_panes
kill-IsWired [] s v = v
kill-IsWired (id ∷ ids) s v =
    kill-IsWired ids
      (set_router (deregister id s.router) (set_manager (remove_pane id s.manager).0 s))
      (removed id s v)
