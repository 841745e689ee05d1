-- ===== src/Session/Manager/Focus.antt =====
-- Which window is active after `CloseWindow`, `FocusWindow` and `RestoreSnapshot`.
use rdw.Common.{
  ltb, leb, if◌then◌else◌, ltb→lt, Bool-cases, length, get_elem?, pos_part, neg_part, leb_ℤ, ℤ, pos,
  negsuc, Text, ℕ, zero, suc, ◌+◌, ◌-◌, ◌<◌, ◌≡◌, refl, ap, ◌∙◌, ◌↔◌, inl, inr, false, some, List,
  [], ◌∷◌, arith,
}
use rdw.Session.Manager.{
  WindowState, Manager, window_index, remove_at, clamp_active, close_at, close_window, index_panic,
  fetch_of, index_windows, active_window, Snapshot, snapshot, or_empty, restore_snapshot,
}
use rdw.Session.Manager.Windows.{length-remove_at, window_index-get}
use rdw.Session.Manager.Invariant.{IsValid, index-nonempty, index_in}

get_elem?-remove_at {ℓ} :
    {A : Type ℓ} (i j : ℕ) (xs : List A)
    → get_elem? (remove_at i xs) j ≡ (if ltb j i then get_elem? xs j else get_elem? xs (suc j))
unfolding remove_at
get_elem?-remove_at i j [] = ground arith
get_elem?-remove_at zero zero (x ∷ xs) = refl
get_elem?-remove_at zero (suc j) (x ∷ xs) = ground arith
get_elem?-remove_at (suc i) zero (x ∷ xs) = ground arith
get_elem?-remove_at (suc i) (suc j) (x ∷ xs) = get_elem?-remove_at i j xs ∙ ground arith

-- Where the window that is active after closing index `i` stood before.
abbrev focus_after : ℕ → ℕ → ℕ → ℕ
focus_after n i a =
    if ltb a i then a else if ltb (a + 1) n then a + 1 else if ltb i a then a else a - 1

get_elem?-shift {ℓ} :
    {A : Type ℓ} (i j : ℕ) (xs : List A)
    → get_elem? (remove_at i xs) j ≡ get_elem? xs (if ltb j i then j else suc j)
get_elem?-shift i j xs = elim (Bool-cases (ltb j i)) [
  | inl e ↦ get_elem?-remove_at i j xs ∙ rw e
  | inr e ↦ get_elem?-remove_at i j xs ∙ rw e
]

clamp_active-pos : (n a : ℕ) → 0 < n → clamp_active n (pos a) ≡ pos (if ltb a n then a else n - 1)
clamp_active-pos n a h = ground arith

focus_after_lem :
    (n i a : ℕ)
    → 0 < n
    → a < suc n
    → i < suc n
    → (if ltb (if ltb a n then a else n - 1) i
        then (if ltb a n then a else n - 1)
        else suc (if ltb a n then a else n - 1))
      ≡ focus_after (suc n) i a
focus_after_lem n i a h k l = ground arith

-- On a valid session of at least two windows with window `a` active, closing the window at index
-- `i` makes active: the same window if it stood before `i`, or if it was the last and another is
-- closed; otherwise the window that stood behind it; and the one before it if the last window
-- is closed while it is active.
close_window-focus :
    (n : Text) (m : Manager) (i a : ℕ)
    → IsValid m
    → 1 < length m.windows
    → window_index n m.windows ≡ some i
    → m.active ≡ pos a
    → active_window (close_window n m).0
      ≡ index_windows m.windows (pos (focus_after (length m.windows) i a))
unfolding close_window close_at index_windows
close_window-focus n m i a v two found act =
    let (w, got, named, lt) = window_index-get n m.windows i found in
    let kept = length-remove_at i m.windows lt in
    let open_still : leb (length m.windows) 1 ≡ false = ground arith in
    rw (open_still, found, close_at)
      (index-nonempty (remove_at i m.windows)
          (clamp_active (length (remove_at i m.windows)) m.active) (omega arith)
        ∙ ap (index_windows (remove_at i m.windows)) (
            ap (clamp_active (length (remove_at i m.windows))) act
            ∙ clamp_active-pos (length (remove_at i m.windows)) a (omega arith))
        ∙ ap fetch_of (get_elem?-shift i _ m.windows)
        ∙ ap (λ k. index_windows m.windows (pos k))
            (focus_after_lem (length (remove_at i m.windows)) i a (omega arith)
                (omega (arith, v.active_in, ap pos_part act)) (omega arith)
              ∙ ap (λ k. focus_after k i a) (omega arith)))

index_panic_iff :
    (ws : List WindowState) (a : ℤ)
    → 0 < length ws
    → (index_windows ws (if leb_ℤ (pos (length ws)) a then pos 0 else a) ≡ index_panic)
      ↔ (0 < neg_part a)
index_panic_iff ws (negsuc k) h = (λ p. omega arith, λ p. unfold index_windows in ground arith)
index_panic_iff ws (pos k) h = (
  λ p. elim (Bool-cases (ltb k (length ws))) [
    | inl e ↦ let (w, got, at) = index_in ws k (ltb→lt k (length ws) e) in absurd (ground arith)
    | inr e ↦ let (w, got, at) = index_in ws 0 h in absurd (ground arith)
  ],
  λ p. absurd (omega arith),
)

-- `RestoreSnapshot` checks the active index against the number of windows and not against 0: of a
-- document with a window, `ActiveWindow` faults afterwards exactly when its index is negative.
restore_snapshot-panics :
    (s : Snapshot) (m : Manager)
    → 0 < length (or_empty s.windows)
    → (active_window (restore_snapshot s m) ≡ index_panic) ↔ (0 < neg_part s.active)
unfolding restore_snapshot
restore_snapshot-panics s m h =
    rw
      (index-nonempty (or_empty s.windows)
        (if leb_ℤ (pos (length (or_empty s.windows))) s.active then pos 0 else s.active) h)
      (index_panic_iff (or_empty s.windows) s.active h)

-- Restoring a snapshot of a valid session gives that session back, whatever ran in between.
restore_snapshot-snapshot : (m m' : Manager) → IsValid m → restore_snapshot (snapshot m) m' ≡ m
unfolding restore_snapshot snapshot
restore_snapshot-snapshot m m' v = ground arith
