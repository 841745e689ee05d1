-- ===== src/Server/Bare.antt =====
-- What the requests of a server can make of a session that has no pane: nothing but windows. A pane
-- comes only from the split of another, or from a layout that was saved from the session.
use rdw.Common.{
  leb, Bool-cases, Option-cases, length, All, All-append, Dict, AllEntries, Text, text_eq, ℕ, zero,
  suc, ◌≡◌, refl, inl, inr, false, none, List, [], ◌∷◌, arith,
}
use rdw.Session.TargetId.{TargetId}
use rdw.Session.Manager.{
  WindowState, Manager, window_index, update_window, remove_at, create_window, close_at,
  close_window, rename_to, rename_window, focus_at, focus_window, without_pane, windows_without,
  pane_in, find_pane_in, window_pane_ids, Snapshot, or_empty,
}
use rdw.Session.Bookmark.{BookmarkStore}
use rdw.Router.{Options, new_router, map_values, set_control_handler}
use rdw.Pipeline.{Pipeline}
use rdw.Config.{Config}
use rdw.Server.{Server, new_server, with_windows}
use rdw.Server.Control.{}
use rdw.Server.Windows.{}
use rdw.Server.Panes.{}
use rdw.Server.Swap.{}
use rdw.Server.Layouts.{}
use rdw.Server.Marks.{}
use rdw.Server.Groups.{}
use rdw.Server.Requests.{}
use rdw.Server.Keeps.{Holds}
use rdw.Server.Runs.{}
use rdw.Server.History.{}

abbrev pub HasNoPane : WindowState → Type 0
HasNoPane w = w.panes ≡ []

abbrev pub IsSavedBare : Text → Snapshot → Type 0
IsSavedBare n snap = All HasNoPane (or_empty snap.windows)

-- No pane, no pipeline, no bookmark store, no layout with a pane.
pub record IsBareCore (ws : List WindowState) (pipes : Dict Pipeline) (marks : Dict BookmarkStore)
    (opts : Options) (saved : Dict Snapshot) : Type 0 where
  pub no_panes : All HasNoPane ws
  pub no_pipes : pipes ≡ []
  pub no_marks : marks ≡ []
  pub assigned_only : opts.allow_unassigned ≡ false
  pub saved_bare : AllEntries IsSavedBare saved

abbrev pub IsBare : Server → Type 0
IsBare s = Holds IsBareCore s

pub new_server-IsBare : (cfg : Config) → IsBare (new_server cfg)
unfolding new_server new_router set_control_handler map_values
new_server-IsBare cfg = record {
  no_panes = tt;
  no_pipes = refl;
  no_marks = refl;
  assigned_only = refl;
  saved_bare = tt;
}

-- Another list of windows without panes.
pub rewindowed :
    (ws : List WindowState) (s : Server)
    → All HasNoPane ws
    → IsBare s
    → IsBare (with_windows (λ x. ws) s)
rewindowed ws s a v = record {
  no_panes = a;
  no_pipes = v.no_pipes;
  no_marks = v.no_marks;
  assigned_only = v.assigned_only;
  saved_bare = v.saved_bare;
}

update_window-bare :
    (n m : Text) (ws : List WindowState)
    → All HasNoPane ws
    → All HasNoPane (update_window n (rename_to m) ws)
unfolding update_window
update_window-bare n m [] a = tt
update_window-bare n m (w ∷ ws) a = elim (Bool-cases (text_eq w.name n)) [
  | inl e ↦ rw e a
  | inr e ↦ rw e (a.0, update_window-bare n m ws a.1)
]

remove_at-bare : (i : ℕ) (ws : List WindowState) → All HasNoPane ws → All HasNoPane (remove_at i ws)
unfolding remove_at
remove_at-bare i [] a = tt
remove_at-bare zero (w ∷ ws) a = a.1
remove_at-bare (suc i) (w ∷ ws) a = (a.0, remove_at-bare i ws a.1)

pub find_pane_in-bare :
    (id : TargetId) (ws : List WindowState) → All HasNoPane ws → find_pane_in id ws ≡ none
unfolding find_pane_in pane_in
find_pane_in-bare id [] a = refl
find_pane_in-bare id (w ∷ ws) a = let e = a.0 in ground (arith, find_pane_in-bare id ws a.1)

pub windows_without-bare :
    (id : TargetId) (ws : List WindowState) → All HasNoPane ws → windows_without id ws ≡ none
unfolding windows_without without_pane
windows_without-bare id [] a = refl
windows_without-bare id (w ∷ ws) a = let e = a.0 in ground (arith, windows_without-bare id ws a.1)

pub window_pane_ids-bare : (ws : List WindowState) → All HasNoPane ws → window_pane_ids ws ≡ []
unfolding window_pane_ids
window_pane_ids-bare [] a = refl
window_pane_ids-bare (w ∷ ws) a = let e = a.0 in ground (arith, window_pane_ids-bare ws a.1)

pub create-bare :
    (n : Text) (m : Manager) → All HasNoPane m.windows → All HasNoPane (create_window n m).0.windows
unfolding create_window
create-bare n m a =
    ground
      (arith, All-append HasNoPane m.windows (record { name = n; panes = [] } ∷ []) a (refl, tt))

pub close-bare :
    (n : Text) (m : Manager) → All HasNoPane m.windows → All HasNoPane (close_window n m).0.windows
unfolding close_window close_at
close-bare n m a = elim (Bool-cases (leb (length m.windows) 1)) [
  | inl e ↦ rw e a
  | inr e ↦ elim (Option-cases (window_index n m.windows)) [
    | inl k ↦ rw e (rw k a)
    | inr (i, k) ↦ rw e (rw k (remove_at-bare i m.windows a))
  ]
]

pub rename-bare :
    (o n : Text) (m : Manager)
    → All HasNoPane m.windows
    → All HasNoPane (rename_window o n m).0.windows
unfolding rename_window
rename-bare o n m a = ground (arith, update_window-bare o n m.windows a)

pub focus-bare :
    (n : Text) (m : Manager) → All HasNoPane m.windows → All HasNoPane (focus_window n m).0.windows
unfolding focus_window focus_at
focus-bare n m a = elim (Option-cases (window_index n m.windows)) [
  | inl k ↦ rw k a
  | inr (i, k) ↦ rw k a
]
