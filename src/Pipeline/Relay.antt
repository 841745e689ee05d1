-- ===== src/Pipeline/Relay.antt =====
-- What one line does to a pane: content, verbatim and base64 lines, and control sequences.
use mathlib.Core.List.{append-nil}
use rdw.Common.{
  ap, Result, lookup, ok, Text, codes, text_eq, after_prefix, after_prefix-append, ◌≡◌, refl, Bool,
  true, false, Option, none, some, [], ◌∷◌, ◌++◌, map,
}
use rdw.Base64.{encode}
use rdw.Base64.RoundTrip.{IsBytes, decode-encode}
use rdw.Control.{Kind, verbatim, kv, base64, Sequence, known_kinds, multi_kinds, parse}
use rdw.Control.Prefix.{HasNoColon, parse-prefixed, b64_plain, b64_known, not_base64_of_none}
use rdw.Kv.{Store}
use rdw.Session.Scrollback.{lines}
use rdw.Session.Scrollback.Ring.{IsValid}
use rdw.Session.Scrollback.Refine.{keep_last, lines-append}
use rdw.Pipeline.{
  PipelineError, run_rounds, Pipeline, rendered, Step, maybe_decode_base64, apply_filters, stamped,
  emit, dispatch_content, handled, process_sequence, process_line,
}

v_plain : HasNoColon (codes "v")
v_plain = (refl, tt)

verbatim_known : lookup (codes "v") (multi_kinds ++ known_kinds) ≡ some verbatim
unfolding lookup text_eq
verbatim_known = refl

-- The line has been shown: it is the newest of the scrollback, each sink got it once and in
-- registration order, and the store is as before.
pub record Delivers (p : Pipeline) (s : Store) (line : Text) (t : Step) : Type 0 where
  pub shown :
      lines t.pipeline.scrollback ≡ keep_last p.scrollback.cap (lines p.scrollback ++ line ∷ [])
  pub sent : t.events ≡ map (λ k. rendered k p.target_id line) p.sinks
  pub store_kept : t.store ≡ s
  pub succeeds : t.result ≡ ok tt

-- What becomes of content: the filters drop it and nothing happens, or they make `l` of it, and that
-- is delivered with the timestamp that is switched on.
abbrev pub Handles : Text → Pipeline → Store → Option Text → Step → Type 0
Handles stamp p s none t = t ≡ record { pipeline = p; store = s; events = []; result = ok tt }
Handles stamp p s (some l) t = Delivers p s (stamped p.opts.timestamp_enabled stamp l) t

emit-Handles :
    (stamp : Text) (p : Pipeline) (s : Store) (o : Option Text)
    → IsValid p.scrollback
    → Handles stamp p s o (emit stamp p s o)
unfolding emit
emit-Handles stamp p s none v = refl
emit-Handles stamp p s (some l) v = record {
  shown = lines-append (stamped p.opts.timestamp_enabled stamp l) p.scrollback v;
  sent = refl;
  store_kept = refl;
  succeeds = refl;
}

module _ (stamp : Text) (p : Pipeline) (s : Store) (v : IsValid p.scrollback) where
  content_plain :
      (text : Text)
      → after_prefix (codes "b64:") text ≡ none
      → Handles stamp p s (apply_filters p.filters text) (dispatch_content stamp text p s)
  unfolding dispatch_content maybe_decode_base64
  content_plain text h = rw h (emit-Handles stamp p s (apply_filters p.filters text) v)

  content_base64 :
      (bytes : Text)
      → IsBytes bytes
      → Handles stamp p s
          (apply_filters p.filters bytes)
          (dispatch_content stamp (codes "b64:" ++ encode bytes) p s)
  unfolding dispatch_content maybe_decode_base64
  content_base64 bytes h =
      rw (after_prefix-append (codes "b64:") (encode bytes), decode-encode bytes h)
        (emit-Handles stamp p s (apply_filters p.filters bytes) v)

  -- A line that is no control sequence goes through the filters as it is and is delivered.
  pub process_line-plain :
      (raw : Text)
      → parse raw ≡ none
      → Handles stamp p s (apply_filters p.filters raw) (process_line stamp raw p s)
  unfolding process_line
  process_line-plain raw h = rw h (content_plain raw (not_base64_of_none raw h))

  -- Behind `v:` any text that does not itself begin with `b64:` is delivered as it is, also one
  -- that would be a control sequence.
  process_line-verbatim :
      (text : Text)
      → after_prefix (codes "b64:") text ≡ none
      → Handles stamp p s
          (apply_filters p.filters text)
          (process_line stamp (codes "v:" ++ text) p s)
  unfolding process_line
  process_line-verbatim text h =
      rw (parse-prefixed (codes "v") text v_plain, verbatim_known)
        (unfold process_sequence in content_plain text h)

  -- A `b64:` line delivers the bytes that were encoded, with a `v:` in front of it too.
  pub process_line-base64 :
      (bytes : Text)
      → IsBytes bytes
      → Handles stamp p s
          (apply_filters p.filters bytes)
          (process_line stamp (codes "b64:" ++ encode bytes) p s)
        × Handles stamp p s
            (apply_filters p.filters bytes)
            (process_line stamp (codes "v:b64:" ++ encode bytes) p s)
  unfolding process_line
  process_line-base64 bytes h = (
    rw (parse-prefixed (codes "b64") (encode bytes) b64_plain, b64_known)
        (unfold process_sequence in content_base64 bytes h),
    rw (parse-prefixed (codes "v") (codes "b64:" ++ encode bytes) v_plain, verbatim_known)
        (unfold process_sequence in content_base64 bytes h),
  )

pub Handles-succeeds :
    (stamp : Text) (p : Pipeline) (s : Store) (o : Option Text) (t : Step)
    → Handles stamp p s o t
    → t.result ≡ ok tt
Handles-succeeds stamp p s none t h = ap (λ x. x.result) h
Handles-succeeds stamp p s (some l) t h = h.succeeds

-- What `Run` makes of one line.
pub one_round :
    (last : Result PipelineError Unit) (stamp line : Text) (p : Pipeline) (s : Store)
    → last ≡ ok tt
    → (process_line stamp line p s).result ≡ ok tt
    → run_rounds last (record { line = line; is_cancelled = false; stamp = stamp } ∷ []) p s
      ≡ process_line stamp line p s
unfolding run_rounds
one_round last stamp line p s e f = rw f (λ i. record {
  pipeline = (process_line stamp line p s).pipeline;
  store = (process_line stamp line p s).store;
  events = append-nil (process_line stamp line p s).events i;
  result = e i;
})

pub no_rounds :
    (last : Result PipelineError Unit) (p : Pipeline) (s : Store)
    → run_rounds last [] p s ≡ record { pipeline = p; store = s; events = []; result = last }
unfolding run_rounds
no_rounds last p s = refl

-- The kinds that the pipeline itself acts on.
abbrev is_own_kind : Kind → Bool
is_own_kind verbatim = true
is_own_kind base64 = true
is_own_kind kv = true
is_own_kind _ = false

process_other :
    (kind : Kind) (stamp : Text) (seq : Sequence) (p : Pipeline) (s : Store)
    → is_own_kind kind ≡ false
    → process_sequence stamp seq kind p s ≡ record {
      pipeline = p;
      store = s;
      events = handled p.control_handler p.target_id seq;
      result = ok tt;
    }
unfolding process_sequence
process_other verbatim stamp seq p s h = cc
process_other base64 stamp seq p s h = cc
process_other kv stamp seq p s h = cc
process_other _ stamp seq p s h = refl

-- Every other control sequence changes neither pane nor store and shows nothing; it goes to the
-- control handler, if one is set, and is lost otherwise.
process_line-control :
    (stamp raw : Text) (seq : Sequence) (p : Pipeline) (s : Store)
    → parse raw ≡ some seq
    → is_own_kind seq.kind ≡ false
    → process_line stamp raw p s ≡ record {
      pipeline = p;
      store = s;
      events = handled p.control_handler p.target_id seq;
      result = ok tt;
    }
unfolding process_line
process_line-control stamp raw seq p s h k = rw h (process_other seq.kind stamp seq p s k)
