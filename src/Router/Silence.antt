-- ===== src/Router/Silence.antt =====
-- `SetControlHandler` of internal/router/router.go as internal/server/server.go calls it: right after
-- `New`, when the router has no pipeline, and never again.
use rdw.Common.{
  is_present, Bool-cases, All, All-append, ℤ, lookup, AllEntries, insert-AllEntries,
  remove-AllEntries, lookup-AllEntries, Result, Text, ℕ, ◌≡◌, refl, sym, ◌∙◌, inl, inr, Option,
  none, some, List, [], ◌∷◌, ◌++◌, arith,
}
use rdw.Router.{
  Options, Router, new_router, with_sink, make_pipeline, register, deregister, run_pipe,
  find_or_register, stream, route, map_values, set_control_handler,
}
use rdw.Router.Invariant.{
  Request, register_call, deregister_call, route_call, stream_call, handler_call, serve,
  find_or_register-lookup,
}
use rdw.Kv.{Store}
use rdw.Session.TargetId.{TargetId}
use rdw.Pipeline.{Pipeline, Event, PipelineError, new_pipeline, add_sink, Round}
use rdw.Pipeline.Handler.{IsRendered, run_rounds-IsQuiet}

abbrev IsUnhandled : Text → Pipeline → Type 0
IsUnhandled id p = p.control_handler ≡ none

abbrev IsSilent : Router → Type 0
IsSilent r = AllEntries IsUnhandled r.pipes

-- A request other than `SetControlHandler`.
abbrev IsOrdinary : Request → Type 0
IsOrdinary (handler_call h) = ⊥
IsOrdinary _ = Unit

with_sink-IsUnhandled :
    (id : Text) (o : Option ℕ) (p : Pipeline) → IsUnhandled id p → IsUnhandled id (with_sink o p)
unfolding add_sink
with_sink-IsUnhandled id none p h = h
with_sink-IsUnhandled id (some f) p h = h

register-IsSilent :
    (id : TargetId) (cap : ℤ) (r : Router) → IsSilent r → IsSilent (register id cap r).0
unfolding register make_pipeline new_pipeline
register-IsSilent id cap r v = elim (Bool-cases (is_present (lookup id r.pipes))) [
  | inl e ↦ rw e v
  | inr e ↦
      rw e (insert-AllEntries IsUnhandled id _ r.pipes (with_sink-IsUnhandled id r.sink _ refl) v)
]

find_or_register-IsSilent :
    (id : TargetId) (r : Router) → IsSilent r → IsSilent (find_or_register id r).0
unfolding find_or_register
find_or_register-IsSilent id r v =
    ground (arith, register-IsSilent id r.opts.default_scrollback_cap r v)

run_pipe-IsSilent :
    (id : TargetId) (last : Result PipelineError Unit) (rs : List Round) (o : Option Pipeline)
    (r : Router)
    → o ≡ lookup id r.pipes
    → IsSilent r
    → IsSilent (run_pipe id last rs o r).0 × All IsRendered (run_pipe id last rs o r).1.events
unfolding run_pipe
run_pipe-IsSilent id last rs none r h v = (v, tt)
run_pipe-IsSilent id last rs (some p) r h v =
    let q = run_rounds-IsQuiet last rs p r.store in
    let k = lookup-AllEntries IsUnhandled id r.pipes v (sym h) in
    (insert-AllEntries IsUnhandled id _ r.pipes (q.same_handler ∙ k) v, q.only_content k)

stream-IsSilent :
    (clock : ℕ → Text) (stop : Option ℕ) (id : TargetId) (text : Text) (r : Router)
    → IsSilent r
    → IsSilent (stream clock stop id text r).0
      × All IsRendered (stream clock stop id text r).1.events
unfolding stream
stream-IsSilent clock stop id text r v =
    run_pipe-IsSilent id _ _ _ _ (find_or_register-lookup id r) (find_or_register-IsSilent id r v)

serve-IsSilent :
    (clock : ℕ → Text) (q : Request) (r : Router)
    → IsOrdinary q
    → IsSilent r
    → IsSilent (serve clock q r).0 × All IsRendered (serve clock q r).1.events
unfolding serve
serve-IsSilent clock (register_call id cap) r o v = (register-IsSilent id cap r v, tt)
serve-IsSilent clock (deregister_call id) r o v =
    (unfold deregister in remove-AllEntries IsUnhandled id r.pipes v, tt)
serve-IsSilent clock (route_call id line) r o v =
    unfold route in stream-IsSilent clock none id _ r v
serve-IsSilent clock (stream_call stop id text) r o v = stream-IsSilent clock stop id text r v
serve-IsSilent clock (handler_call h) r o v = absurd o

-- What the calls of a list send, in order.
pub events_of : (ℕ → Text) → List Request → Router → List Event
events_of clock [] r = []
events_of clock (q ∷ qs) r = (serve clock q r).1.events ++ events_of clock qs (serve clock q r).0

events_of-IsSilent :
    (clock : ℕ → Text) (qs : List Request) (r : Router)
    → All IsOrdinary qs
    → IsSilent r
    → All IsRendered (events_of clock qs r)
unfolding events_of
events_of-IsSilent clock [] r o v = tt
events_of-IsSilent clock (q ∷ qs) r o v =
    let (v', now) = serve-IsSilent clock q r o.0 v in
    All-append IsRendered _ _ now (events_of-IsSilent clock qs (serve clock q r).0 o.1 v')

-- A handler that is set on a new router reaches no pipeline: whatever is registered, routed or
-- streamed after that, no control sequence is handed to any handler.
pub set_control_handler-lost :
    (clock : ℕ → Text) (h : ℕ) (s : Store) (sink : Option ℕ) (opts : Options) (qs : List Request)
    → All IsOrdinary qs
    → All IsRendered (events_of clock qs (set_control_handler h (new_router s sink opts)))
set_control_handler-lost clock h s sink opts qs o =
    events_of-IsSilent clock qs _ o
      (unfold set_control_handler in unfold new_router in unfold map_values in tt)
