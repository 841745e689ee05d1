-- ===== src/Pipeline/Handler.antt =====
-- Running lines through a pipeline never sets its handler, and with none set nothing is handed on.
use rdw.Common.{
  Bool-cases, Option-cases, All, All-append, Result, Text, ℕ, ◌≡◌, refl, ◌∙◌, inl, inr, Option,
  none, some, List, [], ◌∷◌, map, arith,
}
use mathlib.Core.Path.{subst}
use rdw.Control.{Kind, verbatim, kv, base64, Sequence, parse}
use rdw.Kv.{Store}
use rdw.Session.TargetId.{TargetId}
use rdw.Pipeline.{
  Pipeline, Event, rendered, controlled, PipelineError, Step, emit, dispatch_content, handled,
  process_sequence, process_line, Round, is_ok, run_rounds,
}

abbrev pub IsRendered : Event → Type 0
IsRendered (rendered k id l) = Unit
IsRendered (controlled h id q) = ⊥

abbrev pub IsTo : TargetId → Event → Type 0
IsTo id (rendered k i l) = i ≡ id
IsTo id (controlled h i q) = i ≡ id

-- The pipeline is the same one, what was sent is its own, and it is content if no handler is set.
pub record IsQuiet (p : Pipeline) (t : Step) : Type 0 where
  pub same_target : t.pipeline.target_id ≡ p.target_id
  pub same_handler : t.pipeline.control_handler ≡ p.control_handler
  pub own_events : All (IsTo p.target_id) t.events
  pub only_content : p.control_handler ≡ none → All IsRendered t.events

All-rendered :
    (id : TargetId) (l : Text) (ks : List ℕ) → All IsRendered (map (λ k. rendered k id l) ks)
All-rendered id l [] = tt
All-rendered id l (k ∷ ks) = (tt, All-rendered id l ks)

All-IsTo : (id : TargetId) (l : Text) (ks : List ℕ) → All (IsTo id) (map (λ k. rendered k id l) ks)
All-IsTo id l [] = tt
All-IsTo id l (k ∷ ks) = (refl, All-IsTo id l ks)

emit-IsQuiet :
    (stamp : Text) (p : Pipeline) (s : Store) (o : Option Text) → IsQuiet p (emit stamp p s o)
unfolding emit
emit-IsQuiet stamp p s none = record {
  same_target = refl;
  same_handler = refl;
  own_events = tt;
  only_content = λ h. tt;
}
emit-IsQuiet stamp p s (some l) = record {
  same_target = refl;
  same_handler = refl;
  own_events = All-IsTo p.target_id _ p.sinks;
  only_content = λ h. All-rendered p.target_id _ p.sinks;
}

none-handled :
    (o : Option ℕ) (id : TargetId) (q : Sequence) → o ≡ none → All IsRendered (handled o id q)
none-handled none id q h = tt
none-handled (some k) id q h = absurd (ground arith)

handled-IsTo : (o : Option ℕ) (id : TargetId) (q : Sequence) → All (IsTo id) (handled o id q)
handled-IsTo none id q = tt
handled-IsTo (some k) id q = (refl, tt)

sequence-IsQuiet :
    (kind : Kind) (stamp : Text) (seq : Sequence) (p : Pipeline) (s : Store)
    → IsQuiet p (process_sequence stamp seq kind p s)
unfolding process_sequence dispatch_content
sequence-IsQuiet verbatim stamp seq p s = emit-IsQuiet stamp p s _
sequence-IsQuiet base64 stamp seq p s = emit-IsQuiet stamp p s _
sequence-IsQuiet kv stamp seq p s = record {
  same_target = refl;
  same_handler = refl;
  own_events = tt;
  only_content = λ h. tt;
}
sequence-IsQuiet _ stamp seq p s = record {
  same_target = refl;
  same_handler = refl;
  own_events = handled-IsTo p.control_handler p.target_id seq;
  only_content = none-handled p.control_handler p.target_id seq;
}

process_line-IsQuiet :
    (stamp raw : Text) (p : Pipeline) (s : Store) → IsQuiet p (process_line stamp raw p s)
unfolding process_line
process_line-IsQuiet stamp raw p s = elim (Option-cases (parse raw)) [
  | inl e ↦ rw e (unfold dispatch_content in emit-IsQuiet stamp p s _)
  | inr (seq, e) ↦ rw e (sequence-IsQuiet seq.kind stamp seq p s)
]

pub run_rounds-IsQuiet :
    (last : Result PipelineError Unit) (rs : List Round) (p : Pipeline) (s : Store)
    → IsQuiet p (run_rounds last rs p s)
unfolding run_rounds
run_rounds-IsQuiet last [] p s = record {
  same_target = refl;
  same_handler = refl;
  own_events = tt;
  only_content = λ h. tt;
}
run_rounds-IsQuiet last (r ∷ rs) p s =
    let t = process_line r.stamp r.line p s in
    let q = process_line-IsQuiet r.stamp r.line p s in
    let rest = run_rounds-IsQuiet last rs t.pipeline t.store in
    elim (Bool-cases r.is_cancelled) [
      | inl e ↦ rw e (record {
        same_target = refl;
        same_handler = refl;
        own_events = tt;
        only_content = λ h. tt;
      })
      | inr e ↦ elim (Bool-cases (is_ok t.result)) [
        | inl k ↦
            rw (e, k)
              (record {
                same_target = rest.same_target ∙ q.same_target;
                same_handler = rest.same_handler ∙ q.same_handler;
                own_events = All-append (IsTo p.target_id) _ _ q.own_events (
                    subst (λ i. All (IsTo i) (run_rounds last rs t.pipeline t.store).events)
                      q.same_target rest.own_events);
                only_content = λ h.
                    All-append IsRendered _ _ (q.only_content h)
                      (rest.only_content (q.same_handler ∙ h));
              })
        | inr k ↦ rw (e, k) q
      ]
    ]
