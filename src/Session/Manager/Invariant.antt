-- ===== src/Session/Manager/Invariant.antt =====
-- The manager's invariant: window names are distinct and the active index is in range.
use rdw.Common.{
  leb, Bool-cases, Option-cases, length, get_elem?, length-append, pos_part, neg_part, ℤ, pos,
  negsuc, Result-cases, Result, ok, err, Text, ℕ, zero, suc, ◌-◌, ◌≤◌, ◌<◌, ◌≡◌, refl, ap, ◌∙◌, inl,
  inr, some, List, [], ◌∷◌, ◌++◌, arith,
}
use rdw.Layout.{WindowSpec, Layout}
use rdw.Session.Manager.{
  PaneState, WindowState, Manager, SessionError, new_manager, find_window, window_index, is_found,
  panes_of_specs, apply_window, apply_windows, apply_layout, create_window, close_at, close_window,
  rename_to, rename_window, focus_at, focus_window, Fetch, nil, index_panic, window, fetch_of,
  index_windows, active_window, push_pane, add_pane, windows_without, remove_pane,
}
use rdw.Session.Manager.Windows.{
  HasDistinctNames, snoc-HasDistinctNames, remove_at-HasDistinctNames, length-remove_at,
  rename-HasDistinctNames, update-HasDistinctNames, length-update, window_index-get,
  without-HasDistinctNames,
}

-- `active` is not negative, and below the number of windows unless there is none.
pub record IsValid (m : Manager) : Type 0 where
  pub names : HasDistinctNames m.windows
  pub active_nonneg : neg_part m.active ≡ 0
  pub active_in : pos_part m.active ≤ length m.windows - 1

-- The requests that change a manager, other than `RestoreSnapshot`.
pub data Request : Type 0 where
  apply : Layout → Request
  create close focus : Text → Request
  rename : Text → Text → Request
  add : Text → PaneState → Request
  drop_pane : Text → Request

unfoldable pub serve : Request → Manager → Manager × Result SessionError Unit
serve (apply l) m = apply_layout l m
serve (create n) m = create_window n m
serve (close n) m = close_window n m
serve (focus n) m = focus_window n m
serve (rename old new) m = rename_window old new m
serve (add n p) m = add_pane n p m
serve (drop_pane id) m = remove_pane id m

unfoldable pub serve_all : List Request → Manager → Manager
serve_all [] m = m
serve_all (r ∷ rs) m = serve_all rs (serve r m).0

pub new-IsValid : IsValid new_manager
new-IsValid = record { names = tt; active_nonneg = refl; active_in = omega arith }

apply_window-names :
    (s : WindowSpec) (ws : List WindowState) {ws' : List WindowState}
    → HasDistinctNames ws
    → apply_window s ws ≡ ok ws'
    → HasDistinctNames ws' × (length ws ≤ length ws')
unfolding apply_window
apply_window-names s ws {ws'} d h = elim (Bool-cases (is_found (find_window s.name ws))) [
  | inl e ↦ let same : ws ≡ ws' = ground arith in rw (← same) (d, omega arith)
  | inr e ↦ elim (Result-cases (panes_of_specs s.name s.panes)) [
    | inl (ps, k) ↦
        let w : WindowState = record { name = s.name; panes = ps } in
        let longer : (ws ++ w ∷ []) ≡ ws' = ground arith in
        rw (← longer)
          (snoc-HasDistinctNames ws w d (ground arith), omega (arith, length-append ws (w ∷ [])))
    | inr (x, k) ↦ absurd (ground arith)
  ]
]

apply_windows-names :
    (ss : List WindowSpec) (ws : List WindowState)
    → HasDistinctNames ws
    → HasDistinctNames (apply_windows ss ws).0 × (length ws ≤ length (apply_windows ss ws).0)
unfolding apply_windows
apply_windows-names [] ws d = (d, omega arith)
apply_windows-names (s ∷ ss) ws d = elim (Result-cases (apply_window s ws)) [
  | inl (ws', e) ↦
      let (d', le) = apply_window-names s ws d e in
      let (names, longer) = apply_windows-names ss ws' d' in
      let step : apply_windows (s ∷ ss) ws ≡ apply_windows ss ws' = ground arith in
      rw step (names, omega arith)
  | inr (x, e) ↦
      let step : apply_windows (s ∷ ss) ws ≡ (ws, err x) = ground arith in rw step (d, omega arith)
]

apply-IsValid : (l : Layout) (m : Manager) → IsValid m → IsValid (apply_layout l m).0
unfolding apply_layout
apply-IsValid l m v =
    let (names, longer) = apply_windows-names l.windows m.windows v.names in
    record {
      names = names;
      active_nonneg = v.active_nonneg;
      active_in = omega (arith, longer, v.active_in);
    }

create-IsValid : (n : Text) (m : Manager) → IsValid m → IsValid (create_window n m).0
unfolding create_window
create-IsValid n m v =
    let w : WindowState = record { name = n; panes = [] } in
    ground (arith, snoc-HasDistinctNames m.windows w v.names, length-append m.windows (w ∷ []))

close_at-IsValid :
    (m : Manager) (i : ℕ)
    → IsValid m
    → 1 < length m.windows
    → i < length m.windows
    → IsValid (close_at m (some i)).0
unfolding close_at
close_at-IsValid m i v two h =
    ground (arith, remove_at-HasDistinctNames i m.windows v.names, length-remove_at i m.windows h)

close-IsValid : (n : Text) (m : Manager) → IsValid m → IsValid (close_window n m).0
unfolding close_window
close-IsValid n m v = elim (Bool-cases (leb (length m.windows) 1)) [
  | inl e ↦ rw e v
  | inr e ↦ rw e (elim (Option-cases (window_index n m.windows)) [
    | inl k ↦ rw k (unfold close_at in v)
    | inr (i, k) ↦
        let (w, got, named, lt) = window_index-get n m.windows i k in
        rw k (close_at-IsValid m i v (ground arith) lt)
  ])
]

rename-IsValid : (old new : Text) (m : Manager) → IsValid m → IsValid (rename_window old new m).0
unfolding rename_window
rename-IsValid old new m v =
    ground (
      arith,
      rename-HasDistinctNames old new m.windows,
      length-update old (rename_to new) m.windows,
    )

focus-IsValid : (n : Text) (m : Manager) → IsValid m → IsValid (focus_window n m).0
unfolding focus_window focus_at
focus-IsValid n m v = elim (Option-cases (window_index n m.windows)) [
  | inl e ↦ rw e v
  | inr (i, e) ↦
      let (w, got, named, lt) = window_index-get n m.windows i e in
      rw e (record { names = v.names; active_nonneg = refl; active_in = omega arith })
]

add-IsValid : (n : Text) (p : PaneState) (m : Manager) → IsValid m → IsValid (add_pane n p m).0
unfolding add_pane
add-IsValid n p m v = ground (
  arith,
  update-HasDistinctNames n (push_pane p) m.windows (λ w. refl) v.names,
  length-update n (push_pane p) m.windows,
)

drop_pane-IsValid : (id : Text) (m : Manager) → IsValid m → IsValid (remove_pane id m).0
unfolding remove_pane
drop_pane-IsValid id m v = elim (Option-cases (windows_without id m.windows)) [
  | inl e ↦ ground arith
  | inr (ws, e) ↦ ground (arith, without-HasDistinctNames id m.windows e v.names)
]

-- Every request keeps the invariant, whether it succeeds or is refused.
serve-IsValid : (r : Request) (m : Manager) → IsValid m → IsValid (serve r m).0
unfolding serve
serve-IsValid (apply l) m v = apply-IsValid l m v
serve-IsValid (create n) m v = create-IsValid n m v
serve-IsValid (close n) m v = close-IsValid n m v
serve-IsValid (focus n) m v = focus-IsValid n m v
serve-IsValid (rename old new) m v = rename-IsValid old new m v
serve-IsValid (add n p) m v = add-IsValid n p m v
serve-IsValid (drop_pane id) m v = drop_pane-IsValid id m v

pub serve_all-IsValid : (rs : List Request) (m : Manager) → IsValid m → IsValid (serve_all rs m)
unfolding serve_all
serve_all-IsValid [] m v = v
serve_all-IsValid (r ∷ rs) m v = serve_all-IsValid rs (serve r m).0 (serve-IsValid r m v)

get_elem?-in {ℓ} :
    {A : Type ℓ} (xs : List A) (i : ℕ) → i < length xs → (x : A) × (get_elem? xs i ≡ some x)
get_elem?-in [] i h = absurd (omega arith)
get_elem?-in (x ∷ xs) zero h = (x, refl)
get_elem?-in (x ∷ xs) (suc i) h = get_elem?-in xs i (omega arith)

-- What `ActiveWindow` promises: no fault, and a window of the session whenever there is one.
abbrev pub IsSafeFetch : Manager → Fetch → Type 0
IsSafeFetch m nil = m.windows ≡ []
IsSafeFetch m index_panic = ⊥
IsSafeFetch m (window w) = (i : ℕ) × (m.active ≡ pos i) × (get_elem? m.windows i ≡ some w)

pub index-nonempty :
    (ws : List WindowState) (a : ℤ)
    → 0 < length ws
    → active_window (record { windows = ws; active = a }) ≡ index_windows ws a
unfolding active_window
index-nonempty [] a h = absurd (omega arith)
index-nonempty (w ∷ ws) a h = ground arith

pub index_in :
    (ws : List WindowState) (i : ℕ)
    → i < length ws
    → (w : WindowState) × (get_elem? ws i ≡ some w) × (index_windows ws (pos i) ≡ window w)
unfolding index_windows
index_in ws i h = let (w, e) = get_elem?-in ws i h in (w, e, ap fetch_of e)

safe :
    (ws : List WindowState) (a : ℤ)
    → neg_part a ≡ 0
    → pos_part a ≤ length ws - 1
    → IsSafeFetch
        (record { windows = ws; active = a })
        (active_window (record { windows = ws; active = a }))
safe [] a h k = unfold active_window in refl
safe (w ∷ ws) (negsuc i) h k = absurd (omega arith)
safe (w ∷ ws) (pos i) h k =
    let (x, e, at) = index_in (w ∷ ws) i (omega arith) in
    rw (index-nonempty (w ∷ ws) (pos i) (omega arith) ∙ at) (i, refl, e)

active_window-safe : (m : Manager) → IsValid m → IsSafeFetch m (active_window m)
active_window-safe m v = safe m.windows m.active v.active_nonneg v.active_in

-- After any requests to a new manager other than `RestoreSnapshot`, in any order and whether they
-- succeed or not,
-- `ActiveWindow` does not index outside the slice: it returns nil only if there is no window, and
-- otherwise the window at the active index.
pub reachable_active_window :
    (rs : List Request)
    → IsSafeFetch (serve_all rs new_manager) (active_window (serve_all rs new_manager))
reachable_active_window rs =
    active_window-safe (serve_all rs new_manager) (serve_all-IsValid rs new_manager new-IsValid)
