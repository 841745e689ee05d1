-- ===== src/Server/Restore.antt =====
-- What `handleLayoutApply` makes of the pipelines.
use rdw.Common.{
  if◌then◌else◌, is_present, Bool-cases, ℤ, lookup, lookup-insert, lookup-remove, text_eq,
  text_eq_iff, ◌≡◌, refl, ap, ◌∙◌, inl, inr, Bool, true, false, not, ◌&&◌, ◌||◌, Option, none, List,
  [], ◌∷◌, arith,
}
use rdw.Session.TargetId.{TargetId}
use rdw.Session.Manager.{
  is_found, window_pane_ids, all_pane_ids, Snapshot, or_empty, restore_snapshot,
}
use rdw.Session.Manager.Panes.{contains}
use rdw.Session.Manager.Counts.{count-contains}
use rdw.Router as Routes
use rdw.Router.{Router, make_pipeline, register, deregister}
use rdw.Server.{Server}
use rdw.Server.Layouts.{deregister_gone, register_new, apply_saved}
use rdw.Server.Wider.{register_new-present}

abbrev dropped : TargetId → List TargetId → Router → Router
dropped id after r = if contains id after then r else deregister id r

dropped-lookup :
    (x id : TargetId) (after : List TargetId) (r : Router)
    → lookup x (dropped id after r).pipes
      ≡ (if text_eq id x && not (contains x after) then none else lookup x r.pipes)
unfolding deregister
dropped-lookup x id after r = elim (Bool-cases (text_eq id x)) [
  | inl e ↦
      let k : id ≡ x = (text_eq_iff id x).0 e in
      let same = ap (λ t. contains t after) k in
      let gone = lookup-remove id x r.pipes in ground arith
  | inr e ↦ let gone = lookup-remove id x r.pipes in ground arith
]

deregister_gone-lookup :
    (x : TargetId) (after ids : List TargetId) (r : Router)
    → lookup x (deregister_gone after ids r).pipes
      ≡ (if contains x ids && not (contains x after) then none else lookup x r.pipes)
unfolding deregister_gone contains
deregister_gone-lookup x after [] r = refl
deregister_gone-lookup x after (id ∷ ids) r =
    let here = dropped-lookup x id after r in
    let later = deregister_gone-lookup x after ids (dropped id after r) in later ∙ ground arith

abbrev fresh : ℤ → TargetId → Router → Router
fresh cap id r = if is_found (Routes.get id r) then r else (register id cap r).0

fresh-lookup :
    (x id : TargetId) (cap : ℤ) (r : Router)
    → text_eq id x && not (is_present (lookup x r.pipes)) ≡ false
    → lookup x (fresh cap id r).pipes ≡ lookup x r.pipes
unfolding register Routes.get
fresh-lookup x id cap r h =
    let added = lookup-insert id x (make_pipeline id cap r) r.pipes in
    let k = text_eq_iff id x in ground arith

-- A target that is not restored, or has a pipeline, keeps what it has.
register_new-lookup :
    (x : TargetId) (cap : ℤ) (ids : List TargetId) (r : Router)
    → contains x ids && not (is_present (lookup x r.pipes)) ≡ false
    → lookup x (register_new cap ids r).pipes ≡ lookup x r.pipes
unfolding register_new contains
register_new-lookup x cap [] r h = refl
register_new-lookup x cap (id ∷ ids) r h =
    let here = fresh-lookup x id cap r (ground arith) in
    register_new-lookup x cap ids (fresh cap id r) (rw here (ground arith)) ∙ here

register_new-has :
    (x : TargetId) (cap : ℤ) (ids : List TargetId) (r : Router)
    → is_present (lookup x (register_new cap ids r).pipes)
      ≡ (contains x ids || is_present (lookup x r.pipes))
register_new-has x cap ids r = elim (Bool-cases (contains x ids)) [
  | inl e ↦ register_new-present cap ids r x (count-contains x ids e) ∙ ground arith
  | inr e ↦ let kept = register_new-lookup x cap ids r (ground arith) in ground arith
]

register_new-old :
    (x : TargetId) (cap : ℤ) (ids : List TargetId) (r : Router)
    → (if is_present (lookup x r.pipes) then lookup x (register_new cap ids r).pipes else none)
      ≡ lookup x r.pipes
register_new-old x cap ids r = elim (Bool-cases (is_present (lookup x r.pipes))) [
  | inl e ↦ let kept = register_new-lookup x cap ids r (ground arith) in ground arith
  | inr e ↦ ground arith
]

has_joined {ℓ} :
    {A : Type ℓ} (a b : Bool) (k r : Option A)
    → k ≡ (if b && not a then none else r)
    → (a || is_present k) ≡ (a || is_present r && not b)
has_joined true b k r e = refl
has_joined false true k r e = ground arith
has_joined false false k r e = ground arith

old_joined {ℓ} :
    {A : Type ℓ} (q : Bool) (k r r' : Option A)
    → k ≡ (if q then none else r)
    → (if is_present k then r' else none) ≡ k
    → (if is_present r && not q then r' else none) ≡ (if q then none else r)
old_joined true k r r' e h = ground arith
old_joined false k r r' e h = ground arith

-- After a saved layout is applied, a target has a pipeline exactly if it is a pane of the layout, or
-- had one and was no pane before; and a pipeline that was there is the same one, but is gone if it
-- was that of a pane which the layout does not have.
pub apply_saved-pipes :
    (snap : Snapshot) (s : Server) (x : TargetId)
    → (is_present (lookup x (apply_saved snap s).router.pipes) ≡ (
        contains x (window_pane_ids (or_empty snap.windows))
        || is_present (lookup x s.router.pipes) && not (contains x (all_pane_ids s.manager))))
      × ((if is_present (lookup x s.router.pipes)
              && not (
                  contains x (all_pane_ids s.manager)
                  && not (contains x (window_pane_ids (or_empty snap.windows))))
            then lookup x (apply_saved snap s).router.pipes
            else none)
          ≡ (if contains x (all_pane_ids s.manager)
                && not (contains x (window_pane_ids (or_empty snap.windows)))
              then none
              else lookup x s.router.pipes))
unfolding apply_saved restore_snapshot
apply_saved-pipes snap s x =
    let after = window_pane_ids (or_empty snap.windows) in
    let before = all_pane_ids s.manager in
    let kept = deregister_gone after before s.router in
    let gone = deregister_gone-lookup x after before s.router in
    let has = register_new-has x s.config.server.scrollback_cap after kept in
    let old = register_new-old x s.config.server.scrollback_cap after kept in
    (
      has
          ∙ has_joined (contains x after) (contains x before) (lookup x kept.pipes)
              (lookup x s.router.pipes) gone,
      old_joined (contains x before && not (contains x after)) (lookup x kept.pipes)
          (lookup x s.router.pipes) _ gone old,
    )
