-- ===== src/Router/Content.antt =====
-- A line that `Route` of internal/router/router.go passes to a registered pipeline.
use rdw.Common.{
  if◌then◌else◌, All-append, lookup, insert, leb, length, ok, err, Text, codes, ℕ, ◌<◌, ◌≤◌, ◌≡◌,
  refl, ap, ◌∙◌, Bool, true, false, Option, some, [], ◌∷◌, ◌++◌, arith,
}
use rdw.Session.TargetId.{TargetId}
use rdw.Session.Scrollback.Ring.{IsValid}
use rdw.Base64.{is_line_end, encode}
use rdw.Base64.RoundTrip.{IsBytes, encode-HasNoLineEnd}
use rdw.Pipeline.{line_too_long, Pipeline, Step, apply_filters, process_line}
use rdw.Pipeline.Relay.{Handles, Handles-succeeds, one_round, no_rounds, process_line-base64}
use rdw.Pipeline.Scanner.{scan}
use rdw.Pipeline.Scanner.Line.{HasNoLineEnd, scan-line}
use rdw.Router.{Router, Reply, relay, route, stream, find_or_register, run_pipe, rounds_from}

-- The base64 line of a frame is one line.
frame_line-HasNoLineEnd :
    (bytes : Text) → IsBytes bytes → HasNoLineEnd (codes "b64:" ++ encode bytes)
frame_line-HasNoLineEnd bytes b =
    All-append (λ c. is_line_end c ≡ false) (codes "b64:") (encode bytes)
      (refl, (refl, (refl, (refl, tt)))) (encode-HasNoLineEnd bytes b)

-- What `Handles` says of the state in which a call of the router leaves a pipeline: it is that of a step
-- which handles the content, and the call returns no error.
abbrev pub IsHandledBy : Text → TargetId → Pipeline → Router → Option Text → Router × Reply → Type 0
IsHandledBy stamp id p r content a =
    (t : Step) × (a ≡ (
      record r { pipes = insert id t.pipeline r.pipes; store = t.store },
      record { events = t.events; result = ok tt },
    ))
    × Handles stamp p r.store content t

-- A base64 line below the scanner's limit, sent to a registered identifier, shows its bytes.
pub route-base64 :
    (clock : ℕ → Text) (id : TargetId) (bytes : Text) (p : Pipeline) (r : Router)
    → lookup id r.pipes ≡ some p
    → IsValid p.scrollback
    → IsBytes bytes
    → length (codes "b64:" ++ encode bytes) < 65536
    → IsHandledBy
        (clock 0)
        id
        p
        r
        (apply_filters p.filters bytes)
        (route clock id (codes "b64:" ++ encode bytes) r)
unfolding route stream find_or_register run_pipe rounds_from
route-base64 clock id bytes p r f v b small =
    let line = codes "b64:" ++ encode bytes in
    let handled = (process_line-base64 (clock 0) p r.store v bytes b).0 in
    let fine = Handles-succeeds (clock 0) p r.store (apply_filters p.filters bytes) _ handled in
    let fits : leb 65536 (length line) ≡ false = ground (arith, small) in
    let scanned : scan (line ++ codes "\n") ≡ (line ∷ [], false) =
      scan-line line (frame_line-HasNoLineEnd bytes b)
      ∙ ap (λ (t : Bool). if t then ([], true) else (line ∷ [], false)) fits in
    (
      process_line (clock 0) line p r.store,
      rw (scanned, f, one_round (ok tt) (clock 0) line p r.store refl fine, fine) refl,
      handled,
    )

-- A base64 line at the scanner's limit or above it is refused, and shows nothing.
pub route-too_long :
    (clock : ℕ → Text) (id : TargetId) (bytes : Text) (p : Pipeline) (r : Router)
    → lookup id r.pipes ≡ some p
    → IsBytes bytes
    → 65536 ≤ length (codes "b64:" ++ encode bytes)
    → route clock id (codes "b64:" ++ encode bytes) r ≡ (
      record r { pipes = insert id p r.pipes },
      record { events = []; result = err (relay line_too_long) },
    )
unfolding route stream find_or_register run_pipe rounds_from
route-too_long clock id bytes p r f b large =
    let line = codes "b64:" ++ encode bytes in
    let long : leb 65536 (length line) ≡ true = ground (arith, large) in
    let scanned : scan (line ++ codes "\n") ≡ ([], true) =
      scan-line line (frame_line-HasNoLineEnd bytes b)
      ∙ ap (λ (t : Bool). if t then ([], true) else (line ∷ [], false)) long in
    rw (scanned, f, no_rounds (err line_too_long) p r.store) refl
