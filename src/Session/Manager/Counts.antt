-- ===== src/Session/Manager/Counts.antt =====
-- How often an identifier is among the panes of a session, and what the manager's calls make of it.
use rdw.Common.{
  ltb, if◌then◌else◌, Bool-cases, Text, text_eq, text_eq_refl, text_eq_iff, ℕ, zero, suc, ◌+◌, ◌≤◌,
  ◌<◌, ◌≡◌, refl, ap, inl, inr, true, false, List, [], ◌∷◌, ◌++◌, arith,
}
use rdw.Session.TargetId.{TargetId}
use rdw.Session.Manager.{
  PaneState, WindowState, Manager, find_window, is_found, update_window, remove_at, rename_to,
  push_pane, remove_pane, pane_ids, window_pane_ids, all_pane_ids,
}
use rdw.Session.Manager.Panes.{contains, erase_first, remove_pane-all_pane_ids}

-- 1 where the two are the same.
unfoldable pub same : TargetId → TargetId → ℕ
same a b = if text_eq a b then 1 else 0

unfoldable pub count : TargetId → List TargetId → ℕ
count x [] = 0
count x (y ∷ ys) = same y x + count x ys

pub count-append :
    (x : TargetId) (ys zs : List TargetId) → count x (ys ++ zs) ≡ count x ys + count x zs
unfolding count
count-append x [] zs = omega arith
count-append x (y ∷ ys) zs = omega (arith, count-append x ys zs)

pub count-contains : (x : TargetId) (ys : List TargetId) → contains x ys ≡ true → 0 < count x ys
unfolding count contains same
count-contains x [] h = absurd (ground arith)
count-contains x (y ∷ ys) h = ground (arith, count-contains x ys)

pub count-erase_first :
    (x y : TargetId) (ys : List TargetId)
    → count x (erase_first y ys) + (if contains y ys then same y x else 0) ≡ count x ys
unfolding count contains erase_first
count-erase_first x y [] = omega arith
count-erase_first x y (z ∷ zs) = elim (Bool-cases (text_eq z y)) [
  | inl e ↦ let k : z ≡ y = (text_eq_iff z y).0 e in rw e (rw (ap (λ t. same t x) k) (omega arith))
  | inr e ↦ rw e (ground (arith, count-erase_first x y zs))
]

pub count-snoc :
    (x : TargetId) (ws : List WindowState) (w : WindowState)
    → count x (window_pane_ids (ws ++ w ∷ []))
      ≡ count x (window_pane_ids ws) + count x (pane_ids w.panes)
unfolding window_pane_ids count
count-snoc x [] w = omega (arith, count-append x (pane_ids w.panes) [])
count-snoc x (v ∷ ws) w = omega (
  arith,
  count-snoc x ws w,
  count-append x (pane_ids v.panes) (window_pane_ids (ws ++ w ∷ [])),
  count-append x (pane_ids v.panes) (window_pane_ids ws),
)

pub count-remove_at :
    (x : TargetId) (i : ℕ) (ws : List WindowState)
    → count x (window_pane_ids (remove_at i ws)) ≤ count x (window_pane_ids ws)
unfolding window_pane_ids remove_at
count-remove_at x i [] = omega arith
count-remove_at x zero (w ∷ ws) =
    omega (arith, count-append x (pane_ids w.panes) (window_pane_ids ws))
count-remove_at x (suc i) (w ∷ ws) = omega (
  arith,
  count-remove_at x i ws,
  count-append x (pane_ids w.panes) (window_pane_ids (remove_at i ws)),
  count-append x (pane_ids w.panes) (window_pane_ids ws),
)

pub ids-rename :
    (n m : Text) (ws : List WindowState)
    → window_pane_ids (update_window n (rename_to m) ws) ≡ window_pane_ids ws
unfolding window_pane_ids update_window
ids-rename n m [] = refl
ids-rename n m (w ∷ ws) = ground (arith, ids-rename n m ws)

pane_ids-append : (ps qs : List PaneState) → pane_ids (ps ++ qs) ≡ pane_ids ps ++ pane_ids qs
pane_ids-append [] qs = refl
pane_ids-append (p ∷ ps) qs = ap (◌∷◌ p.target_id) (pane_ids-append ps qs)

pub count-push :
    (x : TargetId) (n : Text) (p : PaneState) (ws : List WindowState)
    → is_found (find_window n ws) ≡ true
    → count x (window_pane_ids (update_window n (push_pane p) ws))
      ≡ count x (window_pane_ids ws) + same p.target_id x
unfolding window_pane_ids update_window find_window count
count-push x n p [] h = absurd (ground arith)
count-push x n p (w ∷ ws) h =
    let split = count-append x (pane_ids w.panes) (window_pane_ids ws) in
    let later =
      count-append x (pane_ids w.panes) (window_pane_ids (update_window n (push_pane p) ws)) in
    let pushed = count-append x (pane_ids (w.panes ++ p ∷ [])) (window_pane_ids ws) in
    let one = count-append x (pane_ids w.panes) (p.target_id ∷ []) in
    let ids = ap (count x) (pane_ids-append w.panes (p ∷ [])) in
    elim (Bool-cases (text_eq w.name n)) [
      | inl e ↦ rw e (omega arith)
      | inr e ↦ rw e (omega (arith, count-push x n p ws (ground arith)))
    ]

pub count-not_contains :
    (x : TargetId) (ys : List TargetId) → contains x ys ≡ false → count x ys ≡ 0
unfolding count contains same
count-not_contains x [] h = refl
count-not_contains x (y ∷ ys) h = ground (arith, count-not_contains x ys)

-- What `RemovePane` leaves.
pub count-remove_pane :
    (x id : TargetId) (m : Manager)
    → count x (all_pane_ids (remove_pane id m).0) ≤ count x (all_pane_ids m)
count-remove_pane x id m =
    let ids = ap (count x) (remove_pane-all_pane_ids id m).0 in
    omega (arith, count-erase_first x id (all_pane_ids m))

pub count-removed :
    (id : TargetId) (m : Manager)
    → count id (all_pane_ids m) ≤ 1
    → count id (all_pane_ids (remove_pane id m).0) ≡ 0
count-removed id m h =
    let ids = ap (count id) (remove_pane-all_pane_ids id m).0 in
    let rest = count-erase_first id id (all_pane_ids m) in
    elim (Bool-cases (contains id (all_pane_ids m))) [
      | inl e ↦
          let one : same id id ≡ 1 = unfold same in (rw (text_eq_refl id) refl) in ground arith
      | inr e ↦ let none_in = count-not_contains id (all_pane_ids m) e in ground arith
    ]

pub contains-count : (x : TargetId) (ys : List TargetId) → contains x ys ≡ ltb 0 (count x ys)
contains-count x ys = elim (Bool-cases (contains x ys)) [
  | inl e ↦ let some_in = count-contains x ys e in ground arith
  | inr e ↦ let none_in = count-not_contains x ys e in ground arith
]
