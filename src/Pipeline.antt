-- ===== src/Pipeline.antt =====
-- internal/pipeline/pipeline.go: the relay of one pane. A line goes through the control parser, the
-- base64 decoding, the filters and the timestamp into the scrollback and to the sinks. Sinks and the
-- control handler are callbacks: the calls made of them are the events of a step. The key-value
-- store is shared between pipelines, so a step takes it and returns it. A filter is a function of
-- the line, and the clock's text is an argument.
pub mod Scanner
pub mod Relay
pub mod Invariant
pub mod Handler
use rdw.Common.{
  if◌then◌else◌, length, ltb_ℤ, leb_ℤ, ℤ, pos, Result, ok, err, Text, codes, after_prefix, ℕ, Bool,
  true, false, ◌&&◌, Option, none, some, List, [], ◌∷◌, ◌++◌, map,
}
use rdw.Base64.{decode}
use rdw.Control.{Kind, verbatim, kv, base64, Sequence, parse, PairsError, kv_pairs}
use rdw.Kv.{KvError, parse_key, Store, put}
use rdw.Session.TargetId.{TargetId}
use rdw.Session.Scrollback.{ScrollbackBuffer, append}

abbrev pub Filter : Type 0
Filter = Text → Option Text

pub record Options : Type 0 where
  pub timestamp_enabled : Bool
  pub max_filter_stages : ℤ

-- Sinks and the handler are known by number.
pub record Pipeline : Type 0 where
  pub target_id : TargetId
  pub opts : Options
  pub sinks : List ℕ
  pub control_handler : Option ℕ
  pub scrollback : ScrollbackBuffer
  pub filters : List Filter

pub data Event : Type 0 where
  rendered : ℕ → TargetId → Text → Event
  controlled : ℕ → TargetId → Sequence → Event

pub data PipelineError : Type 0 where
  filter_chain_full line_too_long cancelled : PipelineError
  bad_pairs : PairsError → PipelineError
  bad_key bad_value : Text → KvError → PipelineError

-- What one call leaves behind.
pub record Step : Type 0 where
  pub pipeline : Pipeline
  pub store : Store
  pub events : List Event
  pub result : Result PipelineError Unit

unfoldable pub new_pipeline : TargetId → Options → ScrollbackBuffer → Pipeline
new_pipeline id opts sb = record {
  target_id = id;
  opts = opts;
  sinks = [];
  control_handler = none;
  scrollback = sb;
  filters = [];
}

unfoldable pub add_sink : ℕ → Pipeline → Pipeline
add_sink s p = record p { sinks = p.sinks ++ s ∷ [] }

unfoldable pub set_control_handler : ℕ → Pipeline → Pipeline
set_control_handler h p = record p { control_handler = some h }

pub add_filter : Filter → Pipeline → Pipeline × Result PipelineError Unit
add_filter f p =
    if ltb_ℤ (pos 0) p.opts.max_filter_stages
      && leb_ℤ p.opts.max_filter_stages (pos (length p.filters))
    then (p, err filter_chain_full)
    else (record p { filters = p.filters ++ f ∷ [] }, ok tt)

pub set_timestamp : Bool → Pipeline → Pipeline
set_timestamp b p = record p {
  opts = record { timestamp_enabled = b; max_filter_stages = p.opts.max_filter_stages };
}

abbrev text_or : Text → Option Text → Text
text_or line none = line
text_or line (some t) = t

abbrev decoded : Text → Option Text → Text
decoded line none = line
decoded line (some payload) = text_or line (decode payload)

pub maybe_decode_base64 : Text → Text
maybe_decode_base64 line = decoded line (after_prefix (codes "b64:") line)

-- The loop over the filters; `none` is a dropped line.
unfoldable pub apply_filters : List Filter → Text → Option Text
apply_filters [] line = some line
apply_filters (f ∷ fs) line = elim (f line) [ none ↦ none | some l ↦ apply_filters fs l ]

abbrev pub stamped : Bool → Text → Text → Text
stamped true stamp line = stamp ++ codes " " ++ line
stamped false stamp line = line

-- Scrollback and sinks, for a line that the filters kept.
pub emit : Text → Pipeline → Store → Option Text → Step
emit stamp p s none = record { pipeline = p; store = s; events = []; result = ok tt }
emit stamp p s (some line) =
    let l = stamped p.opts.timestamp_enabled stamp line in
    record {
      pipeline = record p { scrollback = append l p.scrollback };
      store = s;
      events = map (λ k. rendered k p.target_id l) p.sinks;
      result = ok tt;
    }

pub dispatch_content : Text → Text → Pipeline → Store → Step
dispatch_content stamp line p s =
    emit stamp p s (apply_filters p.filters (maybe_decode_base64 line))

-- The loop of `applyKVSequence`: what was set before an error stays set.
pub apply_pairs : List (Text × Text) → Store → Store × Result PipelineError Unit
apply_pairs [] s = (s, ok tt)
apply_pairs ((key, value) ∷ rest) s = elim (parse_key key) [
  | err e ↦ (s, err (bad_key key e))
  | ok k ↦
      let (s', r) = put k value s in
      elim r [ err e ↦ (s', err (bad_value key e)) | ok _ ↦ apply_pairs rest s' ]
]

abbrev apply_kv_result :
    Result PairsError (List (Text × Text)) → Store → Store × Result PipelineError Unit
apply_kv_result (err e) s = (s, err (bad_pairs e))
apply_kv_result (ok ps) s = apply_pairs ps s

pub apply_kv_sequence : Sequence → Store → Store × Result PipelineError Unit
apply_kv_sequence seq s = apply_kv_result (kv_pairs seq) s

abbrev pub handled : Option ℕ → TargetId → Sequence → List Event
handled none id seq = []
handled (some h) id seq = controlled h id seq ∷ []

-- The `if` ladder on the kind of a control sequence.
pub process_sequence : Text → Sequence → Kind → Pipeline → Store → Step
process_sequence stamp seq verbatim p s = dispatch_content stamp seq.payload p s
process_sequence stamp seq base64 p s = dispatch_content stamp (codes "b64:" ++ seq.payload) p s
process_sequence stamp seq kv p s =
    let (s', r) = apply_kv_sequence seq s in
    record { pipeline = p; store = s'; events = []; result = r }
process_sequence stamp seq other p s = record {
  pipeline = p;
  store = s;
  events = handled p.control_handler p.target_id seq;
  result = ok tt;
}

abbrev process_parsed : Text → Text → Option Sequence → Pipeline → Store → Step
process_parsed stamp raw none p s = dispatch_content stamp raw p s
process_parsed stamp raw (some seq) p s = process_sequence stamp seq seq.kind p s

pub process_line : Text → Text → Pipeline → Store → Step
process_line stamp raw p s = process_parsed stamp raw (parse raw) p s

-- One round of the loop of `Run`: the line, whether the context is cancelled by then, and the clock.
pub record Round : Type 0 where
  pub line : Text
  pub is_cancelled : Bool
  pub stamp : Text

abbrev pub is_ok : {E A : Type 0} → Result E A → Bool
is_ok (ok a) = true
is_ok (err e) = false

abbrev before : List Event → Step → Step
before es t = record t { events = es ++ t.events }

-- The loop of `Run`. `last` is what the scanner reports when it stops.
pub run_rounds : Result PipelineError Unit → List Round → Pipeline → Store → Step
run_rounds last [] p s = record { pipeline = p; store = s; events = []; result = last }
run_rounds last (r ∷ rs) p s =
    let t = process_line r.stamp r.line p s in
    let rest = run_rounds last rs t.pipeline t.store in
    if r.is_cancelled
    then record { pipeline = p; store = s; events = []; result = err cancelled }
    else if is_ok t.result
    then before t.events rest
    else t
