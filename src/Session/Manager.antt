-- ===== src/Session/Manager.antt =====
-- internal/session/manager.go: the windows and panes of a session. The manager's mutex makes each
-- method one step. Windows are shared by pointer in Go: here a method that writes through one
-- rewrites it in its place in the list.
pub mod Windows
pub mod Invariant
pub mod Focus
pub mod Panes
pub mod Counts
use mathlib.Core.Option
use rdw.Common.{
  leb, ◌==◌, if◌then◌else◌, length, get_elem?, sub_ℕ, leb_ℤ, ℤ, pos, negsuc, ◌>>=◌, ◌>>◌, Result,
  ok, err, Text, text_eq, is_empty, ℕ, zero, suc, Bool, true, false, not, Option, none, some, List,
  [], ◌∷◌, ◌++◌, map,
}
use rdw.Layout.{PaneSpec, WindowSpec, Layout}
use rdw.Session.TargetId.{TargetId, IdError, parse_target_id}

abbrev max_panes_per_window : ℕ
max_panes_per_window = 64

pub record PaneState : Type 0 where
  pub target_id : TargetId
  pub label : Text
  pub group : Text
  pub private : Bool
  pub scrollback_cap : ℤ
  pub split : Text
  pub size : Text
  pub formatter : Text
  pub saved_formatter : Text

pub record WindowState : Type 0 where
  pub name : Text
  pub panes : List PaneState

-- `kv` is the session's store, which no method of the manager reads or writes.
pub record Manager : Type 0 where
  pub windows : List WindowState
  pub active : ℤ

pub data SessionError : Type 0 where
  empty_name already_exists not_found last_window window_full pane_not_found : SessionError
  bad_pane : Text → Text → IdError → SessionError

abbrev pub new_manager : Manager
new_manager = record { windows = []; active = pos 0 }

-- `findWindow`
unfoldable pub find_window : Text → List WindowState → Option WindowState
find_window n [] = none
find_window n (w ∷ ws) = if text_eq w.name n then some w else find_window n ws

-- `windowIndex`; `none` is its -1.
pub window_index : Text → List WindowState → Option ℕ
window_index n [] = none
window_index n (w ∷ ws) = if text_eq w.name n then some 0 else Option.map suc (window_index n ws)

abbrev pub is_found {ℓ} : {A : Type ℓ} → Option A → Bool
is_found none = false
is_found (some a) = true

-- A write through the pointer that `findWindow` returns.
unfoldable pub update_window :
    Text → (WindowState → WindowState) → List WindowState → List WindowState
update_window n f [] = []
update_window n f (w ∷ ws) = if text_eq w.name n then f w ∷ ws else w ∷ update_window n f ws

-- `append(s[:i], s[i+1:]...)`
unfoldable pub remove_at {ℓ} : {A : Type ℓ} → ℕ → List A → List A
remove_at i [] = []
remove_at zero (x ∷ xs) = xs
remove_at (suc i) (x ∷ xs) = x ∷ remove_at i xs

-- The pane that `ApplyLayout` makes of a specification.
unfoldable pub pane_of_spec : PaneSpec → Result IdError PaneState
pane_of_spec ps = do
  id ← parse_target_id ps.target_id
  ok (record {
    target_id = id;
    label = [];
    group = ps.group;
    private = ps.private;
    scrollback_cap = ps.scrollback_cap;
    split = ps.split;
    size = ps.size;
    formatter = [];
    saved_formatter = [];
  })

unfoldable pub panes_of_specs : Text → List PaneSpec → Result SessionError (List PaneState)
panes_of_specs n [] = ok []
panes_of_specs n (ps ∷ rest) =
    let later = panes_of_specs n rest in
    elim (pane_of_spec ps) [
      | ok p ↦ later >>= (λ l. ok (p ∷ l))
      | err e ↦ err (bad_pane n ps.target_id e)
    ]

-- The body of the loop of `ApplyLayout`: a window whose name is taken is passed over.
pub apply_window : WindowSpec → List WindowState → Result SessionError (List WindowState)
apply_window s ws =
    if is_found (find_window s.name ws)
    then ok ws
    else do ps ← panes_of_specs s.name s.panes; ok (ws ++ record { name = s.name; panes = ps } ∷ [])

-- A failing window ends the loop, and the windows added before it stay.
pub apply_windows : List WindowSpec → List WindowState → List WindowState × Result SessionError Unit
apply_windows [] ws = (ws, ok tt)
apply_windows (s ∷ rest) ws = elim (apply_window s ws) [
  | ok ws' ↦ apply_windows rest ws'
  | err e ↦ (ws, err e)
]

pub apply_layout : Layout → Manager → Manager × Result SessionError Unit
apply_layout l m = let (ws, r) = apply_windows l.windows m.windows in (record m { windows = ws }, r)

unfoldable pub create_window : Text → Manager → Manager × Result SessionError Unit
create_window n m =
    if is_empty n
    then (m, err empty_name)
    else if is_found (find_window n m.windows)
    then (m, err already_exists)
    else (record m { windows = m.windows ++ record { name = n; panes = [] } ∷ [] }, ok tt)

-- The index of the active window once `n` windows are left.
abbrev pub clamp_active : ℕ → ℤ → ℤ
clamp_active n a = if leb_ℤ (pos n) a then sub_ℕ n 1 else a

unfoldable pub close_at : Manager → Option ℕ → Manager × Result SessionError Unit
close_at m none = (m, err not_found)
close_at m (some i) =
    let ws = remove_at i m.windows in
    (record m { windows = ws; active = clamp_active (length ws) m.active }, ok tt)

unfoldable pub close_window : Text → Manager → Manager × Result SessionError Unit
unfolding close_at
close_window n m =
    if leb (length m.windows) 1 then (m, err last_window) else close_at m (window_index n m.windows)

abbrev pub rename_to : Text → WindowState → WindowState
rename_to n w = record w { name = n }

unfoldable pub rename_window : Text → Text → Manager → Manager × Result SessionError Unit
rename_window old new m =
    if is_empty new
    then (m, err empty_name)
    else if is_found (find_window new m.windows)
    then (m, err already_exists)
    else if not (is_found (find_window old m.windows))
    then (m, err not_found)
    else (record m { windows = update_window old (rename_to new) m.windows }, ok tt)

unfoldable pub focus_at : Manager → Option ℕ → Manager × Result SessionError Unit
focus_at m none = (m, err not_found)
focus_at m (some i) = (record m { active = pos i }, ok tt)

unfoldable pub focus_window : Text → Manager → Manager × Result SessionError Unit
focus_window n m = focus_at m (window_index n m.windows)

-- `m.windows[m.active]` faults outside the slice.
pub data Fetch : Type 0 where
  nil index_panic : Fetch
  window : WindowState → Fetch

abbrev pub fetch_of : Option WindowState → Fetch
fetch_of none = index_panic
fetch_of (some w) = window w

pub index_windows : List WindowState → ℤ → Fetch
index_windows ws (negsuc i) = index_panic
index_windows ws (pos i) = fetch_of (get_elem? ws i)

pub active_window : Manager → Fetch
unfolding index_windows
active_window m = if length m.windows == 0 then nil else index_windows m.windows m.active

abbrev pub push_pane : PaneState → WindowState → WindowState
push_pane p w = record w { panes = w.panes ++ p ∷ [] }

unfoldable pub add_pane : Text → PaneState → Manager → Manager × Result SessionError Unit
add_pane n p m = elim (find_window n m.windows) [
  | none ↦ (m, err not_found)
  | some w ↦
      if leb max_panes_per_window (length w.panes)
      then (m, err window_full)
      else (record m { windows = update_window n (push_pane p) m.windows }, ok tt)
]

-- The inner loop of `RemovePane`: the panes without the first that has the identifier.
unfoldable pub without_pane : TargetId → List PaneState → Option (List PaneState)
without_pane id [] = none
without_pane id (p ∷ ps) =
    if text_eq p.target_id id then some ps else Option.map (◌∷◌ p) (without_pane id ps)

unfoldable pub windows_without : TargetId → List WindowState → Option (List WindowState)
windows_without id [] = none
windows_without id (w ∷ ws) =
    let later = Option.map (◌∷◌ w) (windows_without id ws) in
    elim (without_pane id w.panes) [ some ps ↦ some (record w { panes = ps } ∷ ws) | none ↦ later ]

unfoldable pub remove_pane : TargetId → Manager → Manager × Result SessionError Unit
remove_pane id m = elim (windows_without id m.windows) [
  | none ↦ (m, err pane_not_found)
  | some ws ↦ (record m { windows = ws }, ok tt)
]

unfoldable pub pane_in : TargetId → List PaneState → Option PaneState
pane_in id [] = none
pane_in id (p ∷ ps) = if text_eq p.target_id id then some p else pane_in id ps

unfoldable pub find_pane_in : TargetId → List WindowState → Option (WindowState × PaneState)
find_pane_in id [] = none
find_pane_in id (w ∷ ws) =
    let later = find_pane_in id ws in
    elim (pane_in id w.panes) [ some p ↦ some (w, p) | none ↦ later ]

abbrev pub find_pane : TargetId → Manager → Option (WindowState × PaneState)
find_pane id m = find_pane_in id m.windows

abbrev pub pane_ids : List PaneState → List TargetId
pane_ids = map (λ p. p.target_id)

unfoldable pub window_pane_ids : List WindowState → List TargetId
window_pane_ids [] = []
window_pane_ids (w ∷ ws) = pane_ids w.panes ++ window_pane_ids ws

abbrev pub all_pane_ids : Manager → List TargetId
all_pane_ids m = window_pane_ids m.windows

-- What `Snapshot` encodes and `RestoreSnapshot` decodes; `none` is an absent or null `windows`.
pub record Snapshot : Type 0 where
  pub windows : Option (List WindowState)
  pub active : ℤ

unfoldable pub snapshot : Manager → Snapshot
snapshot m = record { windows = some m.windows; active = m.active }

abbrev pub or_empty : Option (List WindowState) → List WindowState
or_empty none = []
or_empty (some ws) = ws

-- `RestoreSnapshot` of a document that decodes.
unfoldable pub restore_snapshot : Snapshot → Manager → Manager
restore_snapshot s m =
    let ws = or_empty s.windows in
    record m { windows = ws; active = if leb_ℤ (pos (length ws)) s.active then pos 0 else s.active }
