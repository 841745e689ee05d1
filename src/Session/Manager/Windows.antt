-- ===== src/Session/Manager/Windows.antt =====
-- The list operations of internal/session/manager.go on windows with distinct names.
use rdw.Common.{
  if◌then◌else◌, Bool-cases, Option-cases, length, get_elem?, Text, text_eq, text_eq→eq,
  text_eq_iff, ℕ, zero, suc, ◌+◌, ◌<◌, ◌≡◌, refl, ap, ◌≢◌, ◌⊎◌, inl, inr, none, some, List, [], ◌∷◌,
  ◌++◌, arith,
}
use rdw.Session.Manager.{
  PaneState, WindowState, find_window, window_index, update_window, remove_at, rename_to,
  without_pane, windows_without,
}

-- No name stands twice in the header bar.
abbrev pub HasDistinctNames : List WindowState → Type 0
HasDistinctNames [] = Unit
HasDistinctNames (w ∷ ws) = (find_window w.name ws ≡ none) × HasDistinctNames ws

find_window-snoc :
    (n : Text) (ws : List WindowState) (w : WindowState)
    → find_window n ws ≡ none
    → find_window n (ws ++ w ∷ []) ≡ (if text_eq w.name n then some w else none)
unfolding find_window
find_window-snoc n [] w h = refl
find_window-snoc n (x ∷ ws) w h = ground (arith, find_window-snoc n ws w)

pub snoc-HasDistinctNames :
    (ws : List WindowState) (w : WindowState)
    → HasDistinctNames ws
    → find_window w.name ws ≡ none
    → HasDistinctNames (ws ++ w ∷ [])
unfolding find_window
snoc-HasDistinctNames [] w d h = (refl, tt)
snoc-HasDistinctNames (x ∷ ws) w d h = ground (
  arith,
  find_window-snoc x.name ws w d.0,
  snoc-HasDistinctNames ws w d.1,
  text_eq_iff w.name x.name,
  text_eq_iff x.name w.name,
)

find_window-remove_at :
    (n : Text) (i : ℕ) (ws : List WindowState)
    → find_window n ws ≡ none
    → find_window n (remove_at i ws) ≡ none
unfolding find_window remove_at
find_window-remove_at n i [] h = refl
find_window-remove_at n zero (x ∷ ws) h = ground arith
find_window-remove_at n (suc i) (x ∷ ws) h = ground (arith, find_window-remove_at n i ws)

pub remove_at-HasDistinctNames :
    (i : ℕ) (ws : List WindowState) → HasDistinctNames ws → HasDistinctNames (remove_at i ws)
unfolding remove_at
remove_at-HasDistinctNames i [] d = tt
remove_at-HasDistinctNames zero (x ∷ ws) d = d.1
remove_at-HasDistinctNames (suc i) (x ∷ ws) d =
    (find_window-remove_at x.name i ws d.0, remove_at-HasDistinctNames i ws d.1)

pub length-remove_at {ℓ} :
    {A : Type ℓ} (i : ℕ) (xs : List A) → i < length xs → length (remove_at i xs) + 1 ≡ length xs
unfolding remove_at
length-remove_at i [] h = absurd (omega arith)
length-remove_at zero (x ∷ xs) h = omega arith
length-remove_at (suc i) (x ∷ xs) h = omega (arith, length-remove_at i xs (omega arith))

find_window-rename :
    (n old new : Text) (ws : List WindowState)
    → find_window n ws ≡ none
    → n ≢ new
    → find_window n (update_window old (rename_to new) ws) ≡ none
unfolding find_window update_window
find_window-rename n old new [] h ne = refl
find_window-rename n old new (x ∷ ws) h ne =
    ground (arith, find_window-rename n old new ws, text_eq_iff new n)

pub rename-HasDistinctNames :
    (old new : Text) (ws : List WindowState)
    → find_window new ws ≡ none
    → HasDistinctNames ws
    → HasDistinctNames (update_window old (rename_to new) ws)
unfolding find_window update_window
rename-HasDistinctNames old new [] h d = tt
rename-HasDistinctNames old new (x ∷ ws) h d = ground (
  arith,
  rename-HasDistinctNames old new ws,
  find_window-rename x.name old new ws d.0,
  text_eq_iff x.name new,
)

-- A write that leaves the name alone.
find_window-update :
    (n m : Text) (f : WindowState → WindowState) (ws : List WindowState)
    → ((w : WindowState) → (f w).name ≡ w.name)
    → find_window n ws ≡ none
    → find_window n (update_window m f ws) ≡ none
unfolding find_window update_window
find_window-update n m f [] k h = refl
find_window-update n m f (x ∷ ws) k h = ground (arith, find_window-update n m f ws k, k x)

pub update-HasDistinctNames :
    (m : Text) (f : WindowState → WindowState) (ws : List WindowState)
    → ((w : WindowState) → (f w).name ≡ w.name)
    → HasDistinctNames ws
    → HasDistinctNames (update_window m f ws)
unfolding update_window
update-HasDistinctNames m f [] k d = tt
update-HasDistinctNames m f (x ∷ ws) k d =
    ground
      (arith, update-HasDistinctNames m f ws k d.1, find_window-update x.name m f ws k d.0, k x)

pub length-update :
    (m : Text) (f : WindowState → WindowState) (ws : List WindowState)
    → length (update_window m f ws) ≡ length ws
unfolding update_window
length-update m f [] = refl
length-update m f (x ∷ ws) = ground (arith, length-update m f ws)

-- An index that `windowIndex` returns is in the slice, and the window there has the name.
pub window_index-get :
    (n : Text) (ws : List WindowState) (i : ℕ)
    → window_index n ws ≡ some i
    → (w : WindowState) × (get_elem? ws i ≡ some w) × (w.name ≡ n) × (i < length ws)
unfolding window_index
window_index-get n [] i h = absurd (ground arith)
window_index-get n (x ∷ ws) i h = elim (Bool-cases (text_eq x.name n)) [
  | inl e ↦ (x, ground arith, text_eq→eq x.name n e, ground arith)
  | inr e ↦ elim (Option-cases (window_index n ws)) [
    | inl z ↦ absurd (ground arith)
    | inr (j, z) ↦
        let (w, got, named, lt) = window_index-get n ws j z in
        let at : i ≡ suc j = ground arith in (w, rw at got, named, omega arith)
  ]
]

-- `RemovePane` rewrites one window, the first that has the pane.
windows_without-cons :
    (id : Text) (w : WindowState) (ws : List WindowState) {ws' : List WindowState}
    → windows_without id (w ∷ ws) ≡ some ws'
    → ((ps : List PaneState) × (without_pane id w.panes ≡ some ps)
        × (ws' ≡ record w { panes = ps } ∷ ws))
      ⊎ ((rest : List WindowState) × (without_pane id w.panes ≡ none)
          × (windows_without id ws ≡ some rest)
          × (ws' ≡ w ∷ rest))
unfolding windows_without
windows_without-cons id w ws {ws'} h = elim (Option-cases (without_pane id w.panes)) [
  | inl e ↦ elim (Option-cases (windows_without id ws)) [
    | inl k ↦ absurd (ground arith)
    | inr (rest, k) ↦ inr (rest, e, k, ground arith)
  ]
  | inr (ps, e) ↦ inl (ps, e, ground arith)
]

find_window-without :
    (id n : Text) (ws : List WindowState) {ws' : List WindowState}
    → windows_without id ws ≡ some ws'
    → find_window n ws ≡ none
    → find_window n ws' ≡ none
unfolding find_window
find_window-without id n [] h k = absurd (unfold windows_without in ground arith)
find_window-without id n (w ∷ ws) h k = elim (windows_without-cons id w ws h) [
  | inl (ps, e, at) ↦ rw at (ground arith)
  | inr (rest, e, z, at) ↦ rw at (ground (arith, find_window-without id n ws z))
]

pub without-HasDistinctNames :
    (id : Text) (ws : List WindowState) {ws' : List WindowState}
    → windows_without id ws ≡ some ws'
    → HasDistinctNames ws
    → HasDistinctNames ws' × (length ws' ≡ length ws)
without-HasDistinctNames id [] h d = absurd (unfold windows_without in ground arith)
without-HasDistinctNames id (w ∷ ws) h d = elim (windows_without-cons id w ws h) [
  | inl (ps, e, at) ↦ rw at (d, refl)
  | inr (rest, e, z, at) ↦
      let (names, same) = without-HasDistinctNames id ws z d.1 in
      rw at ((find_window-without id w.name ws z d.0, names), ap suc same)
]
