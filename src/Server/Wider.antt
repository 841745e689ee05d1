-- ===== src/Server/Wider.antt =====
-- Which steps take no pipeline away.
use rdw.Common.{
  if◌then◌else◌, is_present, Bool-cases, ℤ, Dict, lookup, insert, lookup-insert, Result, Text,
  text_eq, text_eq_refl, text_eq_iff, ℕ, ◌<◌, ◌≡◌, refl, sym, ◌∙◌, inl, inr, true, Option, none,
  some, List, [], ◌∷◌, arith,
}
use rdw.Session.TargetId.{TargetId}
use rdw.Session.Manager.{is_found}
use rdw.Session.Manager.Counts.{same, count}
use rdw.Router.{Router, make_pipeline, register, get, run_pipe, find_or_register, stream, route}
use rdw.Pipeline.{Pipeline, PipelineError, Round}
use rdw.Server.{}
use rdw.Server.Control.{}
use rdw.Server.Layouts.{register_new}

-- Every key of the one is a key of the other.
abbrev pub IsWider : Dict Pipeline → Dict Pipeline → Type 0
IsWider m n = (x : Text) → is_present (lookup x m) ≡ true → is_present (lookup x n) ≡ true

pub insert-IsWider : (k : Text) (p : Pipeline) (m : Dict Pipeline) → IsWider m (insert k p m)
insert-IsWider k p m x h = ground (arith, lookup-insert k x p m)

pub register-IsWider :
    (id : TargetId) (cap : ℤ) (r : Router) → IsWider r.pipes (register id cap r).0.pipes
unfolding register
register-IsWider id cap r x h = elim (Bool-cases (is_present (lookup id r.pipes))) [
  | inl e ↦ rw e h
  | inr e ↦ rw e (insert-IsWider id (make_pipeline id cap r) r.pipes x h)
]

pub register-present :
    (id : TargetId) (cap : ℤ) (r : Router)
    → is_present (lookup id (register id cap r).0.pipes) ≡ true
unfolding register
register-present id cap r = elim (Bool-cases (is_present (lookup id r.pipes))) [
  | inl e ↦ rw e e
  | inr e ↦
      rw e (ground (arith, lookup-insert id id (make_pipeline id cap r) r.pipes, text_eq_refl id))
]

find_or_register-IsWider :
    (id : TargetId) (r : Router) → IsWider r.pipes (find_or_register id r).0.pipes
unfolding find_or_register
find_or_register-IsWider id r x h =
    ground (arith, register-IsWider id r.opts.default_scrollback_cap r x h)

run_pipe-IsWider :
    (id : TargetId) (last : Result PipelineError Unit) (rs : List Round) (o : Option Pipeline)
    (r : Router)
    → IsWider r.pipes (run_pipe id last rs o r).0.pipes
unfolding run_pipe
run_pipe-IsWider id last rs none r x h = h
run_pipe-IsWider id last rs (some p) r x h = insert-IsWider id _ r.pipes x h

pub route-IsWider :
    (clock : ℕ → Text) (id : TargetId) (line : Text) (r : Router)
    → IsWider r.pipes (route clock id line r).0.pipes
unfolding route stream
route-IsWider clock id line r x h =
    run_pipe-IsWider id _ _ (find_or_register id r).1 (find_or_register id r).0 x
      (find_or_register-IsWider id r x h)

is_found_present {ℓ} : {A : Type ℓ} (o : Option A) → is_found o ≡ is_present o
is_found_present none = refl
is_found_present (some a) = refl

next-present :
    (cap : ℤ) (id : TargetId) (r : Router)
    → is_present (lookup id (if is_found (get id r) then r else (register id cap r).0).pipes) ≡ true
unfolding get
next-present cap id r = elim (Bool-cases (is_found (lookup id r.pipes))) [
  | inl e ↦ rw e (sym (is_found_present (lookup id r.pipes)) ∙ e)
  | inr e ↦ rw e (register-present id cap r)
]

next-IsWider :
    (cap : ℤ) (id : TargetId) (r : Router)
    → IsWider r.pipes (if is_found (get id r) then r else (register id cap r).0).pipes
next-IsWider cap id r x h = elim (Bool-cases (is_found (get id r))) [
  | inl e ↦ rw e h
  | inr e ↦ rw e (register-IsWider id cap r x h)
]

register_new-IsWider :
    (cap : ℤ) (ids : List TargetId) (r : Router) → IsWider r.pipes (register_new cap ids r).pipes
unfolding register_new
register_new-IsWider cap [] r x h = h
register_new-IsWider cap (id ∷ ids) r x h =
    register_new-IsWider cap ids _ x (next-IsWider cap id r x h)

-- After `register_new`, all the identifiers have a pipeline.
pub register_new-present :
    (cap : ℤ) (ids : List TargetId) (r : Router) (x : TargetId)
    → 0 < count x ids
    → is_present (lookup x (register_new cap ids r).pipes) ≡ true
unfolding register_new count same
register_new-present cap [] r x h = absurd (omega arith)
register_new-present cap (id ∷ ids) r x h =
    let next : Router = if is_found (get id r) then r else (register id cap r).0 in
    elim (Bool-cases (text_eq id x)) [
      | inl e ↦
          register_new-IsWider cap ids next x
            (rw (← (text_eq_iff id x).0 e) (next-present cap id r))
      | inr e ↦ register_new-present cap ids next x (ground arith)
    ]
