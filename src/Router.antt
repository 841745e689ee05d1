-- ===== src/Router.antt =====
-- internal/router/router.go: the pipelines of a session by target identifier, with a bookmark store
-- each. Pipelines are shared by pointer in Go: here a call on one writes it back under its key. The
-- router's calls are one after the other, so `Route` meets no other goroutine between its lookup and
-- its registration.
pub mod Content
pub mod Invariant
pub mod Isolation
pub mod Silence
use rdw.Common.{
  leb, if◌then◌else◌, is_present, length, leb_ℤ, ℤ, pos, Dict, lookup, insert, remove, Result, ok,
  err, Text, codes, ℕ, suc, Bool, true, false, not, ◌&&◌, Option, none, some, List, [], ◌∷◌, ◌++◌,
  map,
}
use rdw.Kv.{Store}
use rdw.Session.TargetId.{TargetId}
use rdw.Session.Scrollback.{new_scrollback_buffer}
use rdw.Session.Bookmark.{BookmarkStore, new_bookmark_store}
use rdw.Pipeline.{
  Pipeline, Event, PipelineError, line_too_long, new_pipeline, add_sink, Round, run_rounds,
}
use rdw.Pipeline as Pipe
use rdw.Pipeline.Scanner.{scan}

pub record Options : Type 0 where
  pub allow_unassigned : Bool
  pub filter_chain_max : ℤ
  pub default_scrollback_cap : ℤ

pub record Router : Type 0 where
  pub pipes : Dict Pipeline
  pub bookmarks : Dict BookmarkStore
  pub store : Store
  pub sink : Option ℕ
  pub opts : Options

pub data RouterError : Type 0 where
  already_registered no_pane : RouterError
  relay : PipelineError → RouterError

abbrev or_default : ℤ → ℤ → ℤ
or_default z d = if leb_ℤ z (pos 0) && leb_ℤ (pos 0) z then d else z

unfoldable pub new_router : Store → Option ℕ → Options → Router
new_router kv sink opts = record {
  pipes = [];
  bookmarks = [];
  store = kv;
  sink = sink;
  opts = record {
    allow_unassigned = opts.allow_unassigned;
    filter_chain_max = or_default opts.filter_chain_max (pos 8);
    default_scrollback_cap = or_default opts.default_scrollback_cap (pos 10000);
  };
}

abbrev pub with_sink : Option ℕ → Pipeline → Pipeline
with_sink none p = p
with_sink (some k) p = add_sink k p

-- `newPipeline`
pub make_pipeline : TargetId → ℤ → Router → Pipeline
make_pipeline id cap r =
    let c = if leb_ℤ cap (pos 0) then r.opts.default_scrollback_cap else cap in
    with_sink r.sink (
      new_pipeline id
        (record { timestamp_enabled = false; max_filter_stages = r.opts.filter_chain_max })
        (new_scrollback_buffer c))

unfoldable pub register : TargetId → ℤ → Router → Router × Result RouterError Unit
register id cap r = if is_present (lookup id r.pipes) then (r, err already_registered) else (
  record r {
    pipes = insert id (make_pipeline id cap r) r.pipes;
    bookmarks = insert id new_bookmark_store r.bookmarks;
  },
  ok tt,
)

unfoldable pub get : TargetId → Router → Option Pipeline
get id r = lookup id r.pipes

unfoldable pub deregister : TargetId → Router → Router
deregister id r = record r { pipes = remove id r.pipes; bookmarks = remove id r.bookmarks }

-- What a call on the router sends and returns.
pub record Reply : Type 0 where
  pub events : List Event
  pub result : Result RouterError Unit

abbrev relayed : Result PipelineError Unit → Result RouterError Unit
relayed (ok tt) = ok tt
relayed (err e) = err (relay e)

-- `p.Run` on the registered pipeline, whose state and whose store it changes.
unfoldable pub run_pipe :
    TargetId → Result PipelineError Unit → List Round → Option Pipeline → Router → Router × Reply
run_pipe id last rs none r = (r, record { events = []; result = err no_pane })
run_pipe id last rs (some p) r =
    let t = run_rounds last rs p r.store in
    (
      record r { pipes = insert id t.pipeline r.pipes; store = t.store },
      record { events = t.events; result = relayed t.result },
    )

-- The lookup of `Route` and `Stream`, which registers an unknown identifier if that is allowed.
unfoldable pub find_or_register : TargetId → Router → Router × Option Pipeline
find_or_register id r =
    if is_present (lookup id r.pipes)
    then (r, lookup id r.pipes)
    else if not r.opts.allow_unassigned
    then (r, none)
    else let r' = (register id r.opts.default_scrollback_cap r).0 in (r', lookup id r'.pipes)

-- The rounds of lines read at clock texts `clock n`, `clock (n + 1)`, ...; the context is cancelled
-- from line number `stop` on, if there is one.
pub rounds_from : (ℕ → Text) → Option ℕ → ℕ → List Text → List Round
rounds_from clock stop n [] = []
rounds_from clock stop n (l ∷ ls) =
    record {
      line = l;
      is_cancelled = elim stop [ none ↦ false | some k ↦ leb k n ];
      stamp = clock n;
    }
    ∷ rounds_from clock stop (suc n) ls

abbrev pub scan_result : Bool → Result PipelineError Unit
scan_result true = err line_too_long
scan_result false = ok tt

-- `Stream`: the reader's whole text.
unfoldable pub stream : (ℕ → Text) → Option ℕ → TargetId → Text → Router → Router × Reply
stream clock stop id text r =
    let (ls, long) = scan text in
    let (r', p) = find_or_register id r in
    run_pipe id (scan_result long) (rounds_from clock stop 0 ls) p r'

-- `Route`: one line, under a context that is never cancelled.
unfoldable pub route : (ℕ → Text) → TargetId → Text → Router → Router × Reply
route clock id line r = stream clock none id (line ++ codes "\n") r

unfoldable pub map_values {ℓ} : {V : Type ℓ} → (V → V) → Dict V → Dict V
map_values f [] = []
map_values f ((k, v) ∷ m) = (k, f v) ∷ map_values f m

unfoldable pub set_control_handler : ℕ → Router → Router
set_control_handler h r = record r { pipes = map_values (Pipe.set_control_handler h) r.pipes }

unfoldable targets : Router → List TargetId
targets r = map (λ e. e.0) r.pipes

unfoldable pub bookmarks_of : TargetId → Router → Option BookmarkStore
bookmarks_of id r = lookup id r.bookmarks

unfoldable pub len : Router → ℕ
len r = length r.pipes
