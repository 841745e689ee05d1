-- ===== src/Server/Kill.antt =====
-- Which panes `kill` takes out of a session.
use mathlib.Core.Path.{subst}
use rdw.Common.{
  if◌then◌else◌, Bool-cases, lookup, lookup-remove, text_eq, text_eq_iff, ◌≡◌, refl, ap, ◌∙◌, inl,
  inr, not, ◌&&◌, none, List, [], ◌∷◌, arith,
}
use rdw.Session.TargetId.{TargetId}
use rdw.Session.Manager.{remove_pane, all_pane_ids}
use rdw.Session.Manager.Panes.{contains, remove_pane-all_pane_ids}
use rdw.Session.Manager.Counts.{same, count, count-erase_first, count-removed, contains-count}
use rdw.Router.{deregister}
use rdw.Server.{Server}
use rdw.Server.Windows.{set_manager}
use rdw.Server.Panes.{set_router}
use rdw.Server.Groups.{kill_panes}
use rdw.Server.Wired.{IsWired, removed}

abbrev killed : TargetId → Server → Server
killed id s = set_router (deregister id s.router) (set_manager (remove_pane id s.manager).0 s)

killed-contains :
    (x id : TargetId) (s : Server)
    → IsWired s
    → contains x (all_pane_ids (killed id s).manager)
      ≡ (not (text_eq id x) && contains x (all_pane_ids s.manager))
killed-contains x id s v =
    let ids = all_pane_ids s.manager in
    let left = all_pane_ids (remove_pane id s.manager).0 in
    let counted = contains-count x left in
    let counted' = contains-count x ids in
    let erased = count-erase_first x id ids in
    let after = ap (count x) (remove_pane-all_pane_ids id s.manager).0 in
    elim (Bool-cases (text_eq id x)) [
      | inl e ↦
          let k : id ≡ x = (text_eq_iff id x).0 e in
          let gone : count x left ≡ 0 =
            subst (λ t. count t left ≡ 0) k (count-removed id s.manager (v.distinct id)) in
          ground arith
      | inr e ↦ let apart : same id x ≡ 0 = unfold same in ground arith in ground arith
    ]

killed-pipes :
    (x id : TargetId) (s : Server)
    → lookup x (killed id s).router.pipes ≡ (if text_eq id x then none else lookup x s.router.pipes)
unfolding deregister
killed-pipes x id s = lookup-remove id x s.router.pipes

-- In a wired session the loop of `kill` takes exactly the panes of its list out of the session, with
-- their pipelines, and every other pane and pipeline stays.
pub kill_panes-exact :
    (ids : List TargetId) (s : Server) (x : TargetId)
    → IsWired s
    → (contains x (all_pane_ids (kill_panes ids s).manager)
        ≡ (not (contains x ids) && contains x (all_pane_ids s.manager)))
      × (lookup x (kill_panes ids s).router.pipes
          ≡ (if contains x ids then none else lookup x s.router.pipes))
unfolding kill_panes contains
kill_panes-exact [] s x v = (refl, refl)
kill_panes-exact (id ∷ ids) s x v =
    let (panes, pipes) = kill_panes-exact ids (killed id s) x (removed id s v) in
    (
      panes ∙ (rw (killed-contains x id s v) (ground arith)),
      pipes ∙ (rw (killed-pipes x id s) (ground arith)),
    )
