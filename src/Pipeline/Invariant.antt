-- ===== src/Pipeline/Invariant.antt =====
-- What every call of internal/pipeline/pipeline.go keeps: a valid scrollback, a filter chain within
-- its maximum, and the limits of the shared store.
use rdw.Common.{
  Bool-cases, Option-cases, length, length-append, pos_part, ◌≤ℤ◌, ltb_ℤ, leb_ℤ, ℤ, pos,
  Result-cases, Result, err, Text, codes, ℕ, ◌+◌, ◌≤◌, ◌≡◌, ◌⊎◌, inl, inr, Bool, false, ◌&&◌,
  Option, none, some, List, [], ◌∷◌, ◌++◌, arith,
}
use rdw.Control.{Kind, verbatim, kv, base64, Sequence, parse, kv_pairs}
use rdw.Kv.{parse_key, Store, put}
use rdw.Kv.Limits as Limits
use rdw.Kv.Limits.{put-IsValid}
use rdw.Session.Scrollback.Ring.{IsValid as IsValidBuffer, append-IsValid}
use rdw.Pipeline.{
  Filter, Pipeline, PipelineError, bad_key, bad_value, Step, add_sink, set_control_handler,
  add_filter, set_timestamp, maybe_decode_base64, apply_filters, stamped, emit, dispatch_content,
  apply_pairs, apply_kv_sequence, process_sequence, process_line, Round, is_ok, run_rounds,
}

-- No more filters than `max_filter_stages`, where that is positive.
pub record IsValid (p : Pipeline) : Type 0 where
  pub scrollback_valid : IsValidBuffer p.scrollback
  pub chain_fits :
      (p.opts.max_filter_stages ≤ℤ pos 0) ⊎ (length p.filters ≤ pos_part p.opts.max_filter_stages)

apply_pairs-IsValid :
    (ps : List (Text × Text)) (s : Store) → Limits.IsValid s → Limits.IsValid (apply_pairs ps s).0
unfolding apply_pairs
apply_pairs-IsValid [] s v = v
apply_pairs-IsValid ((key, value) ∷ rest) s v = elim (Result-cases (parse_key key)) [
  | inr (x, e) ↦
      let stop : apply_pairs ((key, value) ∷ rest) s ≡ (s, err (bad_key key x)) = ground arith in
      rw stop v
  | inl (k, e) ↦ elim (Result-cases (put k value s).1) [
    | inr (x, z) ↦
        let stop : apply_pairs ((key, value) ∷ rest) s
            ≡ ((put k value s).0, err (bad_value key x)) =
          ground arith in
        rw stop (put-IsValid k value s v)
    | inl (tt, z) ↦
        let next : apply_pairs ((key, value) ∷ rest) s ≡ apply_pairs rest (put k value s).0 =
          ground arith in
        rw next (apply_pairs-IsValid rest (put k value s).0 (put-IsValid k value s v))
  ]
]

apply_kv-IsValid :
    (seq : Sequence) (s : Store) → Limits.IsValid s → Limits.IsValid (apply_kv_sequence seq s).0
unfolding apply_kv_sequence
apply_kv-IsValid seq s v = elim (Result-cases (kv_pairs seq)) [
  | inl (ps, e) ↦ rw e (apply_pairs-IsValid ps s v)
  | inr (x, e) ↦ rw e v
]

emit-IsValid :
    (stamp : Text) (p : Pipeline) (s : Store) (o : Option Text)
    → IsValid p
    → IsValid (emit stamp p s o).pipeline
unfolding emit
emit-IsValid stamp p s none v = v
emit-IsValid stamp p s (some l) v = record {
  scrollback_valid = append-IsValid (stamped p.opts.timestamp_enabled stamp l) v.scrollback_valid;
  chain_fits = v.chain_fits;
}

-- What a step keeps.
abbrev KeepsValid : Step → Type 0
KeepsValid t = IsValid t.pipeline × Limits.IsValid t.store

content-KeepsValid :
    (stamp line : Text) (p : Pipeline) (s : Store)
    → IsValid p
    → Limits.IsValid s
    → KeepsValid (dispatch_content stamp line p s)
unfolding dispatch_content
content-KeepsValid stamp line p s v w =
    (emit-IsValid stamp p s _ v, store_kept (apply_filters p.filters (maybe_decode_base64 line)))
  where
    store_kept : (o : Option Text) → Limits.IsValid (emit stamp p s o).store
    store_kept none = unfold emit in w
    store_kept (some l) = unfold emit in w

sequence-KeepsValid :
    (kind : Kind) (stamp : Text) (seq : Sequence) (p : Pipeline) (s : Store)
    → IsValid p
    → Limits.IsValid s
    → KeepsValid (process_sequence stamp seq kind p s)
unfolding process_sequence
sequence-KeepsValid verbatim stamp seq p s v w = content-KeepsValid stamp seq.payload p s v w
sequence-KeepsValid base64 stamp seq p s v w =
    content-KeepsValid stamp (codes "b64:" ++ seq.payload) p s v w
sequence-KeepsValid kv stamp seq p s v w = (v, apply_kv-IsValid seq s w)
sequence-KeepsValid _ stamp seq p s v w = (v, w)

process_line-KeepsValid :
    (stamp raw : Text) (p : Pipeline) (s : Store)
    → IsValid p
    → Limits.IsValid s
    → IsValid (process_line stamp raw p s).pipeline
      × Limits.IsValid (process_line stamp raw p s).store
unfolding process_line
process_line-KeepsValid stamp raw p s v w = elim (Option-cases (parse raw)) [
  | inl e ↦ rw e (content-KeepsValid stamp raw p s v w)
  | inr (seq, e) ↦ rw e (sequence-KeepsValid seq.kind stamp seq p s v w)
]

pub run_rounds-KeepsValid :
    (last : Result PipelineError Unit) (rs : List Round) (p : Pipeline) (s : Store)
    → IsValid p
    → Limits.IsValid s
    → IsValid (run_rounds last rs p s).pipeline × Limits.IsValid (run_rounds last rs p s).store
unfolding run_rounds
run_rounds-KeepsValid last [] p s v w = (v, w)
run_rounds-KeepsValid last (r ∷ rs) p s v w =
    let t = process_line r.stamp r.line p s in
    let (v', w') = process_line-KeepsValid r.stamp r.line p s v w in
    elim (Bool-cases r.is_cancelled) [
      | inl e ↦ rw e (v, w)
      | inr e ↦ elim (Bool-cases (is_ok t.result)) [
        | inl k ↦ rw (e, k) (run_rounds-KeepsValid last rs t.pipeline t.store v' w')
        | inr k ↦ rw (e, k) (v', w')
      ]
    ]

-- A client's calls on one pipeline.
pub data Call : Type 0 where
  sink_call handler_call : ℕ → Call
  filter_call : Filter → Call
  timestamp_call : Bool → Call
  run_call : Result PipelineError Unit → List Round → Call

unfoldable pub call : Call → Pipeline × Store → Pipeline × Store
call (sink_call k) (p, s) = (add_sink k p, s)
call (handler_call h) (p, s) = (set_control_handler h p, s)
call (filter_call f) (p, s) = ((add_filter f p).0, s)
call (timestamp_call b) (p, s) = (set_timestamp b p, s)
call (run_call last rs) (p, s) = let t = run_rounds last rs p s in (t.pipeline, t.store)

unfoldable pub calls : List Call → Pipeline × Store → Pipeline × Store
calls [] st = st
calls (c ∷ cs) st = calls cs (call c st)

add_filter-IsValid : (f : Filter) (p : Pipeline) → IsValid p → IsValid (add_filter f p).0
unfolding add_filter
add_filter-IsValid f p v =
    elim (Bool-cases (
      ltb_ℤ (pos 0) p.opts.max_filter_stages
      && leb_ℤ p.opts.max_filter_stages (pos (length p.filters)))) [
        | inl e ↦ rw e v
        | inr e ↦ rw e (record {
          scrollback_valid = v.scrollback_valid;
          chain_fits =
              fits_more p.opts.max_filter_stages (length p.filters) (length (p.filters ++ f ∷ [])) e
                (length-append p.filters (f ∷ []));
        })
      ]
  where
    fits_more :
        (m : ℤ) (n k : ℕ)
        → (ltb_ℤ (pos 0) m && leb_ℤ m (pos n)) ≡ false
        → k ≡ n + 1
        → (m ≤ℤ pos 0) ⊎ (k ≤ pos_part m)
    fits_more m n k e g = ground arith

call-IsValid :
    (c : Call) (p : Pipeline) (s : Store)
    → IsValid p
    → Limits.IsValid s
    → IsValid (call c (p, s)).0 × Limits.IsValid (call c (p, s)).1
unfolding call
call-IsValid (sink_call k) p s v w = (
  unfold add_sink in record { scrollback_valid = v.scrollback_valid; chain_fits = v.chain_fits },
  w,
)
call-IsValid (handler_call h) p s v w = (
  unfold set_control_handler in
      record { scrollback_valid = v.scrollback_valid; chain_fits = v.chain_fits },
  w,
)
call-IsValid (filter_call f) p s v w = (add_filter-IsValid f p v, w)
call-IsValid (timestamp_call b) p s v w = (
  unfold set_timestamp in
      record { scrollback_valid = v.scrollback_valid; chain_fits = v.chain_fits },
  w,
)
call-IsValid (run_call last rs) p s v w = run_rounds-KeepsValid last rs p s v w

-- Whatever is called on a pipeline, and whatever lines run through it, its scrollback stays valid,
-- its filters stay within a positive maximum, and the shared store stays within its limits.
pub calls-IsValid :
    (cs : List Call) (p : Pipeline) (s : Store)
    → IsValid p
    → Limits.IsValid s
    → IsValid (calls cs (p, s)).0 × Limits.IsValid (calls cs (p, s)).1
unfolding calls
calls-IsValid [] p s v w = (v, w)
calls-IsValid (c ∷ cs) p s v w =
    let (v', w') = call-IsValid c p s v w in
    calls-IsValid cs (call c (p, s)).0 (call c (p, s)).1 v' w'
