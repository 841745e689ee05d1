-- ===== src/Tests/Stream.antt =====
-- Runs on internal/pipeline and internal/router.
use rdw.Common.{
  All, pos, lookup, ok, Text, codes, text_eq, after_prefix, ℕ, refl, inr, Bool, true, false, none,
  some, List, [], ◌∷◌, ◌++◌, arith,
}
use rdw.Base64.{encode}
use rdw.Router.{Options, Router, new_router, set_control_handler}
use rdw.Control.{title, Sequence, parse_multi, parse_single, parse_in, parse}
use rdw.Kv.{new_store}
use rdw.Kv.Limits as Limits
use rdw.Session.Scrollback.{new_scrollback_buffer}
use rdw.Session.Scrollback.Ring as Ring
use rdw.Pipeline.{Filter, Pipeline, new_pipeline, apply_filters, process_line}
use rdw.Pipeline.Relay.{Handles, process_line-plain, process_line-base64}
use rdw.Pipeline.Invariant as Pipelines
use rdw.Pipeline.Handler.{IsRendered}
use rdw.Router.Invariant.{
  Request, register_call, deregister_call, route_call, stream_call, serve, new_router-IsValid,
  serve_all, serve_all-IsValid,
}
use rdw.Router.Invariant as Routers
use rdw.Router.Isolation.{IsUntouched, serve-elsewhere}
use rdw.Router.Silence.{events_of, set_control_handler-lost}

abbrev hide_empty : Filter
hide_empty [] = none
hide_empty (c ∷ s) = some (c ∷ s)

abbrev pane : Pipeline
pane =
    record (new_pipeline (codes "log")
      (record { timestamp_enabled = true; max_filter_stages = pos 2 })
      (new_scrollback_buffer (pos 3))) { sinks = 1 ∷ []; filters = hide_empty ∷ [] }

pane_scrollback-IsValid : Ring.IsValid pane.scrollback
pane_scrollback-IsValid = unfold new_pipeline in Ring.new_scrollback_buffer-IsValid (pos 3)

pane-IsValid : Pipelines.IsValid pane
pane-IsValid = record {
  scrollback_valid = pane_scrollback-IsValid;
  chain_fits = inr (unfold new_pipeline in omega arith);
}

process_line-plain_example :
    Handles
      (codes "12:00")
      pane
      new_store
      (apply_filters pane.filters (codes "ok"))
      (process_line (codes "12:00") (codes "ok") pane new_store)
process_line-plain_example =
    process_line-plain (codes "12:00") pane new_store pane_scrollback-IsValid (codes "ok") (
      unfold parse in
      unfold parse_in in
      unfold parse_multi in
      unfold parse_single in unfold lookup in unfold text_eq in unfold after_prefix in refl)

process_line-base64_example :
    Handles
      (codes "12:00")
      pane
      new_store
      (apply_filters pane.filters (codes "hi"))
      (process_line (codes "12:00") (codes "b64:" ++ encode (codes "hi")) pane new_store)
    × Handles
        (codes "12:00")
        pane
        new_store
        (apply_filters pane.filters (codes "hi"))
        (process_line (codes "12:00") (codes "v:b64:" ++ encode (codes "hi")) pane new_store)
process_line-base64_example =
    process_line-base64 (codes "12:00") pane new_store pane_scrollback-IsValid (codes "hi")
      (omega arith, (omega arith, tt))

abbrev titled : Sequence
titled = record { kind = title; payload = codes "x" }

abbrev pipe_calls : List Pipelines.Call
pipe_calls =
    Pipelines.filter_call hide_empty
    ∷ Pipelines.run_call (ok tt)
        (record { line = codes "=:a=1"; is_cancelled = false; stamp = [] } ∷ [])
    ∷ []

calls-IsValid_example :
    Pipelines.IsValid (Pipelines.calls pipe_calls (pane, new_store)).0
    × Limits.IsValid (Pipelines.calls pipe_calls (pane, new_store)).1
calls-IsValid_example =
    Pipelines.calls-IsValid pipe_calls pane new_store pane-IsValid Limits.new-IsValid

abbrev noon : ℕ → Text
noon n = codes "12:00"

abbrev options : Bool → Options
options b = record {
  allow_unassigned = b;
  filter_chain_max = pos 0;
  default_scrollback_cap = pos 0;
}

abbrev router : Bool → Router
router b = new_router new_store (some 1) (options b)

router-IsValid : (b : Bool) → Routers.IsValid (router b)
router-IsValid b = new_router-IsValid new_store (some 1) (options b) Limits.new-IsValid

abbrev requests : List Request
requests =
    register_call (codes "log") (pos 5)
    ∷ route_call (codes "log") (codes "title:x")
    ∷ stream_call none (codes "new") (codes "a\nb\n")
    ∷ deregister_call (codes "log")
    ∷ []

serve_all-IsValid_example : Routers.IsValid (serve_all noon requests (router true))
serve_all-IsValid_example = serve_all-IsValid noon requests (router true) (router-IsValid true)

serve-elsewhere_example :
    IsUntouched
      (codes "log")
      (serve_all noon requests (router true))
      (serve noon (route_call (codes "new") (codes "a")) (serve_all noon requests (router true)))
serve-elsewhere_example =
    serve-elsewhere noon (codes "log") (route_call (codes "new") (codes "a"))
      (serve_all noon requests (router true))
      (serve_all-IsValid noon requests (router true) (router-IsValid true)) (λ e. ground (arith, e))

set_control_handler-lost_example :
    All IsRendered (
      events_of noon requests
        (set_control_handler 7 (new_router new_store (some 1) (options true))))
set_control_handler-lost_example =
    set_control_handler-lost noon 7 new_store (some 1) (options true) requests
      (tt, (tt, (tt, (tt, tt))))
