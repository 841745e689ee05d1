-- ===== src/Server/Wired/Undo.antt =====
-- `handlePaneSplit` with the identifier of a pane that is there already.

use mathlib.Core.Option
use rdw.Common.{
  is_present, Bool-cases, Option-cases, length, ℤ, pos, lookup, ok, err, Text, text_eq,
  text_eq_refl, ◌<◌, ◌≡◌, refl, ap, ◌∙◌, inl, inr, true, some, List, [], ◌∷◌, ◌++◌, arith,
}
use rdw.Session.TargetId.{TargetId, parse_target_id}
use rdw.Session.Manager.{
  PaneState, WindowState, Manager, find_window, update_window, push_pane, add_pane, without_pane,
  windows_without, remove_pane, pane_in, find_pane_in, find_pane,
}
use rdw.Router.{already_registered, register}
use rdw.Server.{Server, by_router, failure}
use rdw.Server.Windows.{set_manager, with_manager}
use rdw.Server.Panes.{SplitBody, is_direction, split_pane, register_split, split_at, split_body}

without_pane-append :
    (id : TargetId) (ps qs : List PaneState) {rest : List PaneState}
    → without_pane id ps ≡ some rest
    → without_pane id (ps ++ qs) ≡ some (rest ++ qs)
unfolding without_pane
without_pane-append id [] qs h = absurd (ground arith)
without_pane-append id (p ∷ ps) qs {rest} h = elim (Bool-cases (text_eq p.target_id id)) [
  | inl e ↦ let k : ps ≡ rest = ground arith in rw e (ap (λ l. some (l ++ qs)) k)
  | inr e ↦ elim (Option-cases (without_pane id ps)) [
    | inl n ↦ absurd (ground arith)
    | inr (l, n) ↦
        let later = without_pane-append id ps qs n in
        let k : p ∷ l ≡ rest = ground arith in
        rw e (ap (Option.map (◌∷◌ p)) later ∙ ap (λ m. some (m ++ qs)) k)
  ]
]

module _ (w : WindowState) (ws : List WindowState) (a : ℤ) where
  abbrev pub here : Manager
  here = record { windows = w ∷ ws; active = a }

  add_pane-first :
      (p : PaneState)
      → length w.panes < 64
      → add_pane w.name p here ≡ (record { windows = push_pane p w ∷ ws; active = a }, ok tt)
  unfolding add_pane find_window update_window
  add_pane-first p h = let own = text_eq_refl w.name in ground arith

  remove_pane-first :
      (p : PaneState) {rest : List PaneState}
      → without_pane p.target_id w.panes ≡ some rest
      → (remove_pane p.target_id (record { windows = push_pane p w ∷ ws; active = a })).0.windows
        ≡ record w { panes = rest ++ p ∷ [] } ∷ ws
  unfolding remove_pane windows_without
  remove_pane-first p h =
      let found = without_pane-append p.target_id w.panes (p ∷ []) h in ground arith

  -- A split that names a pane which has its pipeline, in the first window, where its parent is: the
  -- answer is a conflict, but what is undone is the pane that was there before. It is gone from the
  -- session, and the new pane stands at the end of the window under its identifier.
  pub split_body-takes_original :
      (s : Server) (parent : Text) (b : SplitBody) (id parent_id : TargetId) (p : PaneState)
      (rest : List PaneState)
      → is_direction b.direction ≡ true
      → parse_target_id b.new_id ≡ ok id
      → parse_target_id parent ≡ ok parent_id
      → pane_in parent_id w.panes ≡ some p
      → without_pane id w.panes ≡ some rest
      → length w.panes < 64
      → is_present (lookup id s.router.pipes) ≡ true
      → ((split_body parent b (set_manager here s)).1
          ≡ record { status = 409; body = failure (by_router already_registered) })
        × ((split_body parent b (set_manager here s)).0.manager.windows
            ≡ record w { panes = rest ++ split_pane id b ∷ [] } ∷ ws)
  unfolding split_body split_pane
  split_body-takes_original s parent b id parent_id p rest d e1 e2 f g l r =
      let q = split_pane id b in
      let now = set_manager here s in
      let to_parent : split_body parent b now ≡ split_at id b (find_pane parent_id here) now =
        rw (d, e1, e2) refl in
      let found : find_pane parent_id here ≡ some (w, p) = unfold find_pane_in in ground arith in
      let next = λ (s' : Server). register_split id (register id (pos 0) s'.router) s' in
      let more : Manager = record { windows = push_pane q w ∷ ws; active = a } in
      let conflict : register id (pos 0) s.router ≡ (s.router, err already_registered) =
        unfold register in (rw r refl) in
      let whole =
        to_parent
        ∙ ap (λ o. split_at id b o now) found
        ∙ ap (λ x. with_manager 409 x next now) (add_pane-first q l)
        ∙ ap (λ x. register_split id x (set_manager more s)) conflict in
      (ap (λ x. x.1) whole, ap (λ x. x.0.manager.windows) whole ∙ remove_pane-first q g)
