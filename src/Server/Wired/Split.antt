-- ===== src/Server/Wired/Split.antt =====
-- A split adds a pane with its pipeline, or nothing.
use mathlib.Core.Path.{subst}
use rdw.Common.{
  leb, is_present, Bool-cases, Option-cases, length, pos, lookup, ok, err, Text, text_eq,
  text_eq_refl, text_eq_iff, ◌+◌, ◌≤◌, ◌≡◌, refl, sym, ap, ◌⊎◌, inl, inr, true, false, not, Option,
  none, some, arith,
}
use rdw.Session.TargetId.{TargetId, parse_target_id}
use rdw.Session.Manager.{
  PaneState, WindowState, Manager, SessionError, not_found, window_full, find_window, is_found,
  update_window, push_pane, add_pane, remove_pane, find_pane, window_pane_ids,
}
use rdw.Session.Manager.Panes.{contains, remove_pane-all_pane_ids}
use rdw.Session.Manager.Counts.{same, count, count-erase_first, count-push, count-not_contains}
use rdw.Session.Bookmark.{}
use rdw.Control.{}
use rdw.Router.{already_registered, register}
use rdw.Pipeline.{}
use rdw.Hub.{}
use rdw.Server.{Server, Answer}
use rdw.Server.Control.{}
use rdw.Server.Windows.{set_manager, with_manager}
use rdw.Server.Panes.{
  set_router, SplitBody, is_direction, split_pane, register_split, split_at, split_body,
}
use rdw.Server.Swap.{}
use rdw.Server.Layouts.{}
use rdw.Server.Marks.{}
use rdw.Server.Groups.{}
use rdw.Server.Requests.{}
use rdw.Server.Keeps.{with_target-keeps, broadcast_layout_update-keeps, if-keeps}
use rdw.Server.Runs.{}
use rdw.Server.History.{}
use rdw.Server.Wider.{register-IsWider, register-present}
use rdw.Server.SwapLaws.{}
use rdw.Server.Wired.{HasDistinctPanes, IsPiped, IsWiredCore, IsWired, shrunk}

-- The calls of `AddPane`: refused, or the pane stands at the end of a window.
abbrev added : Text → PaneState → Manager → Manager
added n p m = record m { windows = update_window n (push_pane p) m.windows }

add_pane-cases :
    (n : Text) (p : PaneState) (m : Manager)
    → ((e : SessionError) × (add_pane n p m ≡ (m, err e)))
      ⊎ ((is_found (find_window n m.windows) ≡ true) × (add_pane n p m ≡ (added n p m, ok tt)))
unfolding add_pane
add_pane-cases n p m = elim (Option-cases (find_window n m.windows)) [
  | inl e ↦ inl (not_found, ground arith)
  | inr (w, e) ↦ elim (Bool-cases (leb 64 (length w.panes))) [
    | inl k ↦ inl (window_full, ground arith)
    | inr k ↦ inr (ground arith, ground arith)
  ]
]

unpiped :
    (x : TargetId) (s : Server)
    → IsWired s
    → is_present (lookup x s.router.pipes) ≡ false
    → count x (window_pane_ids s.manager.windows) ≡ 0
unpiped x s v e = let has = v.piped x in ground arith

count-added :
    (x : TargetId) (n : Text) (p : PaneState) (m : Manager)
    → is_found (find_window n m.windows) ≡ true
    → count x (window_pane_ids (added n p m).windows)
      ≡ count x (window_pane_ids m.windows) + same p.target_id x
count-added x n p m f = count-push x n p m.windows f

-- The new pane has a pipeline now, and had none, so no pane had its identifier.
split-fresh :
    (n : Text) (p : PaneState) (s : Server)
    → is_found (find_window n s.manager.windows) ≡ true
    → is_present (lookup p.target_id s.router.pipes) ≡ false
    → IsWired s
    → IsWired
        (set_router (register p.target_id (pos 0) s.router).0 (set_manager (added n p s.manager) s))
unfolding same
split-fresh n p s f e v = record { distinct = one; piped = both; saved_distinct = v.saved_distinct }
  where
    one : HasDistinctPanes (added n p s.manager).windows
    one x = elim (Bool-cases (text_eq p.target_id x)) [
      | inl k ↦
          let i : p.target_id ≡ x = (text_eq_iff p.target_id x).0 k in
          let before = unpiped p.target_id s v e in
          let here = ap (λ t. count t (window_pane_ids s.manager.windows)) i in
          let now = count-added x n p s.manager f in ground arith
      | inr k ↦ let before = v.distinct x in let now = count-added x n p s.manager f in ground arith
    ]

    both : IsPiped (added n p s.manager).windows (register p.target_id (pos 0) s.router).0.pipes
    both x h = elim (Bool-cases (text_eq p.target_id x)) [
      | inl k ↦
          let i : p.target_id ≡ x = (text_eq_iff p.target_id x).0 k in
          subst (λ t. is_present (lookup t (register p.target_id (pos 0) s.router).0.pipes) ≡ true)
            i (register-present p.target_id (pos 0) s.router)
      | inr k ↦
          let now = count-added x n p s.manager f in
          register-IsWider p.target_id (pos 0) s.router x (v.piped x (ground arith))
    ]

-- The pane is taken out again: each identifier is in the session as often as before.
split-undone :
    (n : Text) (p : PaneState) (s : Server)
    → is_found (find_window n s.manager.windows) ≡ true
    → IsWired s
    → IsWired (set_manager (remove_pane p.target_id (added n p s.manager)).0 s)
split-undone n p s f v = shrunk le (λ x h. h) v
  where
    le :
        (x : TargetId)
        → count x (window_pane_ids (remove_pane p.target_id (added n p s.manager)).0.windows)
          ≤ count x (window_pane_ids s.manager.windows)
    le x =
        let ids = window_pane_ids (added n p s.manager).windows in
        let left = ap (count x) (remove_pane-all_pane_ids p.target_id (added n p s.manager)).0 in
        let erased = count-erase_first x p.target_id ids in
        let now = count-added x n p s.manager f in
        elim (Bool-cases (contains p.target_id ids)) [
          | inl e ↦ ground arith
          | inr e ↦
              let none_in = count-not_contains p.target_id ids e in
              let own = count-added p.target_id n p s.manager f in
              let one : same p.target_id p.target_id ≡ 1 =
                unfold same in (rw (text_eq_refl p.target_id) refl) in
              absurd (omega arith)
        ]

register_split-IsWired :
    (n : Text) (p : PaneState) (s : Server)
    → is_found (find_window n s.manager.windows) ≡ true
    → IsWired s
    → IsWired
        (register_split p.target_id
          (register p.target_id (pos 0) s.router)
          (set_manager (added n p s.manager) s)).0
register_split-IsWired n p s f v =
    elim (Bool-cases (is_present (lookup p.target_id s.router.pipes))) [
      | inl e ↦
          let r : register p.target_id (pos 0) s.router ≡ (s.router, err already_registered) =
            unfold register in (rw e refl) in
          subst
            (λ q. IsWired (register_split p.target_id q (set_manager (added n p s.manager) s)).0)
            (sym r) (split-undone n p s f v)
      | inr e ↦
          let r : register p.target_id (pos 0) s.router
              ≡ ((register p.target_id (pos 0) s.router).0, ok tt) =
            unfold register in (rw e refl) in
          subst
            (λ q. IsWired (register_split p.target_id q (set_manager (added n p s.manager) s)).0)
            (sym r) (broadcast_layout_update-keeps IsWiredCore _ (split-fresh n p s f e v))
    ]

split_at-IsWired :
    (id : TargetId) (b : SplitBody) (o : Option (WindowState × PaneState)) (s : Server)
    → IsWired s
    → IsWired (split_at id b o s).0
unfolding split_pane
split_at-IsWired id b none s v = v
split_at-IsWired id b (some (w, p)) s v = elim (add_pane-cases w.name (split_pane id b) s.manager) [
  | inl (x, e) ↦ subst (λ q. IsWired (with_manager 409 q next s).0) (sym e) v
  | inr (f, e) ↦
      subst (λ q. IsWired (with_manager 409 q next s).0) (sym e)
        (register_split-IsWired w.name (split_pane id b) s f v)
]
  where
    next : Server → Answer
    next s' = register_split id (register id (pos 0) s'.router) s'

pub split-IsWired :
    (parent : Text) (b : SplitBody) (s : Server) → IsWired s → IsWired (split_body parent b s).0
unfolding split_body
split-IsWired parent b s v = if-keeps IsWiredCore (not (is_direction b.direction)) _ _ v (
    with_target-keeps IsWiredCore (parse_target_id b.new_id) _ s v (λ id.
      with_target-keeps IsWiredCore (parse_target_id parent) _ s v
        (λ parent_id. split_at-IsWired id b (find_pane parent_id s.manager) s v)))
