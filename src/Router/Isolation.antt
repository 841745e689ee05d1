-- ===== src/Router/Isolation.antt =====
-- What the calls of internal/router/router.go do to other targets, and to an unknown one.
use mathlib.Core.Path.{subst}
use rdw.Common.{
  is_present, Bool-cases, All, All-imp, ℤ, Dict, lookup, insert, remove, lookup-insert,
  lookup-remove, lookup-AllEntries, Result, err, Text, text_eq_refl, text_eq_iff, ℕ, ◌≡◌, refl, sym,
  ap, ◌∙◌, ◌≢◌, ◌↔◌, inl, inr, false, ◌||◌, Option, none, some, List, [], arith,
}
use rdw.Router.{
  Router, no_pane, make_pipeline, register, deregister, Reply, run_pipe, find_or_register, stream,
  route,
}
use rdw.Router.Invariant.{
  IsKept, IsValid, Request, register_call, deregister_call, route_call, stream_call, handler_call,
  serve, find_or_register-IsValid, find_or_register-lookup,
}
use rdw.Session.TargetId.{TargetId}
use rdw.Pipeline.{Pipeline, Event, rendered, controlled, PipelineError, Round, run_rounds}
use rdw.Pipeline.Handler.{IsTo, run_rounds-IsQuiet}

-- A request about one target, which is not `j`.
abbrev IsElsewhere : TargetId → Request → Type 0
IsElsewhere j (register_call id cap) = id ≢ j
IsElsewhere j (deregister_call id) = id ≢ j
IsElsewhere j (route_call id line) = id ≢ j
IsElsewhere j (stream_call stop id text) = id ≢ j
IsElsewhere j (handler_call h) = ⊥

-- What a call leaves to the target `j`: its pipeline, its bookmarks, and no event is about it.
pub record IsUntouched (j : TargetId) (r : Router) (t : Router × Reply) : Type 0 where
  pub same_pipe : lookup j t.0.pipes ≡ lookup j r.pipes
  pub same_bookmarks : lookup j t.0.bookmarks ≡ lookup j r.bookmarks
  pub no_events : All (λ e. ¬ IsTo j e) t.1.events

other_key :
    {A : Type 0} (id j : Text) (v : A) (m : Dict A) → id ≢ j → lookup j (insert id v m) ≡ lookup j m
other_key id j v m d = ground (arith, lookup-insert id j v m, text_eq_iff id j)

other_removed :
    {A : Type 0} (id j : Text) (m : Dict A) → id ≢ j → lookup j (remove id m) ≡ lookup j m
other_removed id j m d = ground (arith, lookup-remove id j m, text_eq_iff id j)

register-elsewhere :
    (id j : TargetId) (cap : ℤ) (r : Router)
    → id ≢ j
    → (lookup j (register id cap r).0.pipes ≡ lookup j r.pipes)
      × (lookup j (register id cap r).0.bookmarks ≡ lookup j r.bookmarks)
unfolding register
register-elsewhere id j cap r d = elim (Bool-cases (is_present (lookup id r.pipes))) [
  | inl e ↦ rw e (refl, refl)
  | inr e ↦ rw e (other_key id j _ r.pipes d, other_key id j _ r.bookmarks d)
]

find_or_register-elsewhere :
    (id j : TargetId) (r : Router)
    → id ≢ j
    → (lookup j (find_or_register id r).0.pipes ≡ lookup j r.pipes)
      × (lookup j (find_or_register id r).0.bookmarks ≡ lookup j r.bookmarks)
unfolding find_or_register
find_or_register-elsewhere id j r d =
    ground (arith, register-elsewhere id j r.opts.default_scrollback_cap r d)

not-IsTo : (id j : TargetId) (e : Event) → id ≢ j → IsTo id e → ¬ IsTo j e
not-IsTo id j (rendered k i l) d h g = d (sym h ∙ g)
not-IsTo id j (controlled k i q) d h g = d (sym h ∙ g)

run_pipe-elsewhere :
    (id j : TargetId) (last : Result PipelineError Unit) (rs : List Round) (o : Option Pipeline)
    (r : Router)
    → o ≡ lookup id r.pipes
    → IsValid r
    → id ≢ j
    → IsUntouched j r (run_pipe id last rs o r)
unfolding run_pipe
run_pipe-elsewhere id j last rs none r h v d = record {
  same_pipe = refl;
  same_bookmarks = refl;
  no_events = tt;
}
run_pipe-elsewhere id j last rs (some p) r h v d =
    let q = run_rounds-IsQuiet last rs p r.store in
    let own = (lookup-AllEntries IsKept id r.pipes v.pipes_kept (sym h)).own_target in
    record {
      same_pipe = other_key id j _ r.pipes d;
      same_bookmarks = refl;
      no_events = All-imp (λ e t. not-IsTo p.target_id j e (λ g. d (sym own ∙ g)) t) _ q.own_events;
    }

stream-elsewhere :
    (clock : ℕ → Text) (stop : Option ℕ) (id j : TargetId) (text : Text) (r : Router)
    → IsValid r
    → id ≢ j
    → IsUntouched j r (stream clock stop id text r)
unfolding stream
stream-elsewhere clock stop id j text r v d =
    let (p, b) = find_or_register-elsewhere id j r d in
    let u =
      run_pipe-elsewhere id j _ _ _ _ (find_or_register-lookup id r)
        (find_or_register-IsValid id r v) d in
    record {
      same_pipe = u.same_pipe ∙ p;
      same_bookmarks = u.same_bookmarks ∙ b;
      no_events = u.no_events;
    }

-- A call about another target of a valid router leaves the pipeline and the bookmarks of a target
-- as they were, and sends nothing under its identifier.
pub serve-elsewhere :
    (clock : ℕ → Text) (j : TargetId) (q : Request) (r : Router)
    → IsValid r
    → IsElsewhere j q
    → IsUntouched j r (serve clock q r)
unfolding serve
serve-elsewhere clock j (register_call id cap) r v d =
    let (p, b) = register-elsewhere id j cap r d in
    record { same_pipe = p; same_bookmarks = b; no_events = tt }
serve-elsewhere clock j (deregister_call id) r v d =
    unfold deregister in
    record {
      same_pipe = other_removed id j r.pipes d;
      same_bookmarks = other_removed id j r.bookmarks d;
      no_events = tt;
    }
serve-elsewhere clock j (route_call id line) r v d =
    unfold route in stream-elsewhere clock none id j _ r v d
serve-elsewhere clock j (stream_call stop id text) r v d =
    stream-elsewhere clock stop id j text r v d
serve-elsewhere clock j (handler_call h) r v d = absurd d

found_after :
    (id : TargetId) (r : Router)
    → is_present (find_or_register id r).1
      ≡ (is_present (lookup id r.pipes) || r.opts.allow_unassigned)
unfolding find_or_register register
found_after id r = ground (
  arith,
  lookup-insert id id (make_pipeline id r.opts.default_scrollback_cap r) r.pipes,
  text_eq_iff id id,
)

run_pipe-present :
    (id : TargetId) (last : Result PipelineError Unit) (rs : List Round) (o : Option Pipeline)
    (r : Router)
    → o ≡ lookup id r.pipes
    → (((run_pipe id last rs o r).1.result ≡ err no_pane) ↔ (is_present o ≡ false))
      × (is_present (lookup id (run_pipe id last rs o r).0.pipes) ≡ is_present o)
unfolding run_pipe
run_pipe-present id last rs none r h = ((λ g. refl, λ g. refl), ap is_present (sym h))
run_pipe-present id last rs (some p) r h = (
  ground arith,
  ground
      (arith, lookup-insert id id (run_rounds last rs p r.store).pipeline r.pipes, text_eq_refl id),
)

-- A text that is streamed to a target is refused exactly when the target is not registered and
-- unassigned targets are not allowed; in every other case the target is registered afterwards.
stream-refused :
    (clock : ℕ → Text) (stop : Option ℕ) (id : TargetId) (text : Text) (r : Router)
    → (((stream clock stop id text r).1.result ≡ err no_pane)
        ↔ ((is_present (lookup id r.pipes) || r.opts.allow_unassigned) ≡ false))
      × (is_present (lookup id (stream clock stop id text r).0.pipes)
          ≡ (is_present (lookup id r.pipes) || r.opts.allow_unassigned))
unfolding stream
stream-refused clock stop id text r =
    subst
      (λ b.
        (((stream clock stop id text r).1.result ≡ err no_pane) ↔ (b ≡ false))
        × (is_present (lookup id (stream clock stop id text r).0.pipes) ≡ b))
      (found_after id r) (run_pipe-present id _ _ _ _ (find_or_register-lookup id r))

-- A refused text sends nothing and leaves the router as it is.
stream-unknown :
    (clock : ℕ → Text) (stop : Option ℕ) (id : TargetId) (text : Text) (r : Router)
    → lookup id r.pipes ≡ none
    → r.opts.allow_unassigned ≡ false
    → stream clock stop id text r ≡ (r, record { events = []; result = err no_pane })
unfolding stream run_pipe find_or_register
stream-unknown clock stop id text r absent refused = rw (absent, refused) refl
