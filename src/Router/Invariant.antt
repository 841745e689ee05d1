-- ===== src/Router/Invariant.antt =====
-- What every call of internal/router/router.go keeps, and what it leaves to the other targets.
use rdw.Common.{
  is_present, Bool-cases, pos_part, ◌≤ℤ◌, ℤ, pos, Dict, lookup, lookup-insert, lookup-remove,
  AllEntries, insert-AllEntries, remove-AllEntries, lookup-AllEntries, Result, ok, Text,
  text_eq_iff, ℕ, ◌≤◌, ◌≡◌, refl, sym, ◌∙◌, ◌⊎◌, inl, inr, Option, none, some, List, [], ◌∷◌, arith,
}
use rdw.Router.{
  Options, Router, RouterError, new_router, with_sink, make_pipeline, register, deregister, Reply,
  run_pipe, find_or_register, stream, route, map_values, set_control_handler,
}
use rdw.Kv.{Store}
use rdw.Kv.Limits as Limits
use rdw.Session.TargetId.{TargetId}
use rdw.Session.Bookmark.{new_bookmark_store}
use rdw.Session.Scrollback.Ring.{new_scrollback_buffer-IsValid}
use rdw.Pipeline.{Pipeline, PipelineError, new_pipeline, add_sink, Round, run_rounds}
use rdw.Pipeline as Pipe
use rdw.Pipeline.Invariant as Inv
use rdw.Pipeline.Invariant.{run_rounds-KeepsValid}
use rdw.Pipeline.Handler.{run_rounds-IsQuiet}

-- A pipeline is registered under its own identifier, and is valid.
pub record IsKept (id : Text) (p : Pipeline) : Type 0 where
  pub own_target : p.target_id ≡ id
  pub valid : Inv.IsValid p

-- Each target has a valid pipeline of its own and a bookmark store, and the shared store is valid.
pub record IsValid (r : Router) : Type 0 where
  pub pipes_kept : AllEntries IsKept r.pipes
  pub same_targets :
      (id : Text) → is_present (lookup id r.pipes) ≡ is_present (lookup id r.bookmarks)
  pub store_valid : Limits.IsValid r.store

-- The calls of a router.
pub data Request : Type 0 where
  register_call : TargetId → ℤ → Request
  deregister_call : TargetId → Request
  route_call : TargetId → Text → Request
  stream_call : Option ℕ → TargetId → Text → Request
  handler_call : ℕ → Request

abbrev silent : Router × Result RouterError Unit → Router × Reply
silent (r, e) = (r, record { events = []; result = e })

unfoldable pub serve : (ℕ → Text) → Request → Router → Router × Reply
serve clock (register_call id cap) r = silent (register id cap r)
serve clock (deregister_call id) r = silent (deregister id r, ok tt)
serve clock (route_call id line) r = route clock id line r
serve clock (stream_call stop id text) r = stream clock stop id text r
serve clock (handler_call h) r = silent (set_control_handler h r, ok tt)

pub new_router-IsValid :
    (s : Store) (sink : Option ℕ) (opts : Options)
    → Limits.IsValid s
    → IsValid (new_router s sink opts)
unfolding new_router lookup
new_router-IsValid s sink opts v = record {
  pipes_kept = tt;
  same_targets = λ id. refl;
  store_valid = v;
}

with_sink-IsKept :
    (id : Text) (o : Option ℕ) (p : Pipeline) → IsKept id p → IsKept id (with_sink o p)
unfolding add_sink
with_sink-IsKept id none p k = k
with_sink-IsKept id (some f) p k = record {
  own_target = k.own_target;
  valid = record { scrollback_valid = k.valid.scrollback_valid; chain_fits = k.valid.chain_fits };
}

make_pipeline-IsKept : (id : TargetId) (cap : ℤ) (r : Router) → IsKept id (make_pipeline id cap r)
unfolding make_pipeline new_pipeline
make_pipeline-IsKept id cap r = with_sink-IsKept id r.sink _ (record {
  own_target = refl;
  valid = record {
    scrollback_valid = new_scrollback_buffer-IsValid _;
    chain_fits = empty_fits r.opts.filter_chain_max;
  };
})
  where
    empty_fits : (m : ℤ) → (m ≤ℤ pos 0) ⊎ (0 ≤ pos_part m)
    empty_fits m = inr (omega arith)

register-IsValid :
    (id : TargetId) (cap : ℤ) (r : Router) → IsValid r → IsValid (register id cap r).0
unfolding register
register-IsValid id cap r v = elim (Bool-cases (is_present (lookup id r.pipes))) [
  | inl e ↦ rw e v
  | inr e ↦ rw e (record {
    pipes_kept = insert-AllEntries IsKept id _ r.pipes (make_pipeline-IsKept id cap r) v.pipes_kept;
    same_targets = λ j. ground (
      arith,
      lookup-insert id j (make_pipeline id cap r) r.pipes,
      lookup-insert id j new_bookmark_store r.bookmarks,
      v.same_targets j,
    );
    store_valid = v.store_valid;
  })
]

deregister-IsValid : (id : TargetId) (r : Router) → IsValid r → IsValid (deregister id r)
unfolding deregister
deregister-IsValid id r v = record {
  pipes_kept = remove-AllEntries IsKept id r.pipes v.pipes_kept;
  same_targets = λ j.
      ground (arith, lookup-remove id j r.pipes, lookup-remove id j r.bookmarks, v.same_targets j);
  store_valid = v.store_valid;
}

pub find_or_register-IsValid :
    (id : TargetId) (r : Router) → IsValid r → IsValid (find_or_register id r).0
unfolding find_or_register
find_or_register-IsValid id r v =
    ground (arith, register-IsValid id r.opts.default_scrollback_cap r v)

-- What is looked up is what the router then holds.
pub find_or_register-lookup :
    (id : TargetId) (r : Router)
    → (find_or_register id r).1 ≡ lookup id (find_or_register id r).0.pipes
unfolding find_or_register
find_or_register-lookup id r = ground arith

run_pipe-IsValid :
    (id : TargetId) (last : Result PipelineError Unit) (rs : List Round) (o : Option Pipeline)
    (r : Router)
    → o ≡ lookup id r.pipes
    → IsValid r
    → IsValid (run_pipe id last rs o r).0
unfolding run_pipe
run_pipe-IsValid id last rs none r h v = v
run_pipe-IsValid id last rs (some p) r h v =
    let k = lookup-AllEntries IsKept id r.pipes v.pipes_kept (sym h) in
    let (p_ok, s_ok) = run_rounds-KeepsValid last rs p r.store k.valid v.store_valid in
    record {
      pipes_kept =
          insert-AllEntries IsKept id _ r.pipes
            (record {
              own_target = (run_rounds-IsQuiet last rs p r.store).same_target ∙ k.own_target;
              valid = p_ok;
            })
            v.pipes_kept;
      same_targets = λ j. ground (
        arith,
        lookup-insert id j (run_rounds last rs p r.store).pipeline r.pipes,
        text_eq_iff id j,
        v.same_targets j,
      );
      store_valid = s_ok;
    }

stream-IsValid :
    (clock : ℕ → Text) (stop : Option ℕ) (id : TargetId) (text : Text) (r : Router)
    → IsValid r
    → IsValid (stream clock stop id text r).0
unfolding stream
stream-IsValid clock stop id text r v =
    run_pipe-IsValid id _ _ _ _ (find_or_register-lookup id r) (find_or_register-IsValid id r v)

map_values-IsKept :
    (h : ℕ) (m : Dict Pipeline)
    → AllEntries IsKept m
    → AllEntries IsKept (map_values (Pipe.set_control_handler h) m)
unfolding map_values Pipe.set_control_handler
map_values-IsKept h [] ks = tt
map_values-IsKept h ((j, p) ∷ m) (k, ks) = (
  record {
    own_target = k.own_target;
    valid = record { scrollback_valid = k.valid.scrollback_valid; chain_fits = k.valid.chain_fits };
  },
  map_values-IsKept h m ks,
)

map_values-present :
    (f : Pipeline → Pipeline) (id : Text) (m : Dict Pipeline)
    → is_present (lookup id (map_values f m)) ≡ is_present (lookup id m)
unfolding map_values lookup
map_values-present f id [] = refl
map_values-present f id ((j, p) ∷ m) = ground (arith, map_values-present f id m)

-- Whatever is called on a valid router, at whatever clock, it is valid after it.
serve-keeps :
    (clock : ℕ → Text) (q : Request) (r : Router) → IsValid r → IsValid (serve clock q r).0
unfolding serve
serve-keeps clock (register_call id cap) r v = register-IsValid id cap r v
serve-keeps clock (deregister_call id) r v = deregister-IsValid id r v
serve-keeps clock (route_call id line) r v = unfold route in stream-IsValid clock none id _ r v
serve-keeps clock (stream_call stop id text) r v = stream-IsValid clock stop id text r v
serve-keeps clock (handler_call h) r v =
    unfold set_control_handler in
    record {
      pipes_kept = map_values-IsKept h r.pipes v.pipes_kept;
      same_targets =
          λ j. map_values-present (Pipe.set_control_handler h) j r.pipes ∙ v.same_targets j;
      store_valid = v.store_valid;
    }

unfoldable pub serve_all : (ℕ → Text) → List Request → Router → Router
serve_all clock [] r = r
serve_all clock (q ∷ qs) r = serve_all clock qs (serve clock q r).0

-- After any calls, refused ones included, to a router that is valid, as a new one over a valid store
-- is: each target has a valid pipeline registered under its own identifier and a bookmark store,
-- no bookmark store is without its pipeline, and the shared store is within its limits.
pub serve_all-IsValid :
    (clock : ℕ → Text) (qs : List Request) (r : Router) → IsValid r → IsValid (serve_all clock qs r)
unfolding serve_all
serve_all-IsValid clock [] r v = v
serve_all-IsValid clock (q ∷ qs) r v =
    serve_all-IsValid clock qs (serve clock q r).0 (serve-keeps clock q r v)
