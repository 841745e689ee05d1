-- ===== src/Session/Manager/Panes.antt =====
-- The panes of a session as one list of identifiers, in display order.
use rdw.Common.{
  if◌then◌else◌, Option-cases, ok, err, text_eq, ◌≡◌, refl, inl, inr, Bool, false, ◌||◌, Option,
  none, some, List, [], ◌∷◌, ◌++◌, arith,
}
use rdw.Session.TargetId.{TargetId}
use rdw.Session.Manager.{
  PaneState, WindowState, Manager, pane_not_found, is_found, without_pane, windows_without,
  remove_pane, pane_in, find_pane_in, find_pane, pane_ids, window_pane_ids, all_pane_ids,
}

-- Whether an identifier is in a list, and the list without its first occurrence.
unfoldable pub contains : TargetId → List TargetId → Bool
contains id [] = false
contains id (x ∷ xs) = text_eq x id || contains id xs

unfoldable pub erase_first : TargetId → List TargetId → List TargetId
erase_first id [] = []
erase_first id (x ∷ xs) = if text_eq x id then xs else x ∷ erase_first id xs

contains-append :
    (id : TargetId) (xs ys : List TargetId)
    → contains id (xs ++ ys) ≡ (contains id xs || contains id ys)
unfolding contains
contains-append id [] ys = refl
contains-append id (x ∷ xs) ys = ground (arith, contains-append id xs ys)

erase_first-append :
    (id : TargetId) (xs ys : List TargetId)
    → erase_first id (xs ++ ys)
      ≡ (if contains id xs then erase_first id xs ++ ys else xs ++ erase_first id ys)
unfolding contains erase_first
erase_first-append id [] ys = refl
erase_first-append id (x ∷ xs) ys = ground (arith, erase_first-append id xs ys)

is_found-pane_in :
    (id : TargetId) (ps : List PaneState) → is_found (pane_in id ps) ≡ contains id (pane_ids ps)
unfolding pane_in contains
is_found-pane_in id [] = refl
is_found-pane_in id (p ∷ ps) = ground (arith, is_found-pane_in id ps)

is_found-find_pane_in :
    (id : TargetId) (ws : List WindowState)
    → is_found (find_pane_in id ws) ≡ contains id (window_pane_ids ws)
unfolding find_pane_in window_pane_ids
is_found-find_pane_in id [] = unfold contains in refl
is_found-find_pane_in id (w ∷ ws) = ground (
  arith,
  is_found-find_pane_in id ws,
  is_found-pane_in id w.panes,
  contains-append id (pane_ids w.panes) (window_pane_ids ws),
)

-- What `RemovePane` leaves of a list of panes, and whether it finds one.
abbrev ids_or : List TargetId → Option (List PaneState) → List TargetId
ids_or ids none = ids
ids_or ids (some ps) = pane_ids ps

without_pane-ids :
    (id : TargetId) (ps : List PaneState)
    → (is_found (without_pane id ps) ≡ contains id (pane_ids ps))
      × (ids_or (pane_ids ps) (without_pane id ps) ≡ erase_first id (pane_ids ps))
unfolding without_pane contains erase_first
without_pane-ids id [] = (refl, refl)
without_pane-ids id (p ∷ ps) = ground (arith, without_pane-ids id ps)

abbrev window_ids_or : List TargetId → Option (List WindowState) → List TargetId
window_ids_or ids none = ids
window_ids_or ids (some ws) = window_pane_ids ws

windows_without-ids :
    (id : TargetId) (ws : List WindowState)
    → (is_found (windows_without id ws) ≡ contains id (window_pane_ids ws))
      × (window_ids_or (window_pane_ids ws) (windows_without id ws)
          ≡ erase_first id (window_pane_ids ws))
unfolding windows_without window_pane_ids
windows_without-ids id [] = (unfold contains in refl, unfold erase_first in refl)
windows_without-ids id (w ∷ ws) =
    let here = without_pane-ids id w.panes in
    let later = windows_without-ids id ws in
    let both = contains-append id (pane_ids w.panes) (window_pane_ids ws) in
    let erased = erase_first-append id (pane_ids w.panes) (window_pane_ids ws) in
    elim (Option-cases (without_pane id w.panes)) [
      | inl e ↦ elim (Option-cases (windows_without id ws)) [
        | inl k ↦ (ground arith, ground arith)
        | inr (rest, k) ↦ (ground arith, ground arith)
      ]
      | inr (ps, e) ↦ (ground arith, ground arith)
    ]

-- `RemovePane` takes the first pane with the identifier out of the display order and succeeds; if
-- there is none it changes nothing and reports it. `FindPane` finds a pane in the same cases.
pub remove_pane-all_pane_ids :
    (id : TargetId) (m : Manager)
    → (all_pane_ids (remove_pane id m).0 ≡ erase_first id (all_pane_ids m))
      × ((remove_pane id m).1
          ≡ (if contains id (all_pane_ids m) then ok tt else err pane_not_found))
      × (is_found (find_pane id m) ≡ contains id (all_pane_ids m))
unfolding remove_pane
remove_pane-all_pane_ids id m =
    let (found, ids) = windows_without-ids id m.windows in
    (ground arith, ground arith, is_found-find_pane_in id m.windows)
