-- ===== src/Tests/Server.antt =====
-- Runs on internal/server and internal/config.
use mathlib.Core.Path.{subst}
use rdw.Common.{
  if◌then◌else◌, is_present, Bool-cases, keep_if, All, pos, lookup, ok, err, Text, codes, text_eq,
  text_eq_iff, ◌≤◌, ◌≡◌, refl, ◌⊎◌, inl, inr, true, false, not, ◌&&◌, ◌||◌, none, some, [], ◌∷◌,
  ◌++◌, arith,
}
use rdw.Config.{default_config}
use rdw.Session.TargetId.{parse_target_id}
use rdw.Session.Manager.{
  PaneState, WindowState, without_pane, pane_in, window_pane_ids, all_pane_ids, Snapshot, or_empty,
}
use rdw.Session.Manager.Panes.{contains}
use rdw.Session.Manager.Counts.{same, count}
use rdw.Router as Routes
use rdw.Router.{Router, register}
use rdw.Auth.{token_id_of}
use rdw.Hub.{
  reconnect, window_focus, Conn, open_chan, closed_chan, Hub, set_chan, is_revoked, broadcast,
  revoke_token,
}
use rdw.Hub as Hubs
use rdw.Hub.Broadcast.{takes, chan_after, broadcast-delivers}
use rdw.Hub.{closed_chan, offer, add_conn, greet, deregister, without_conn}
use rdw.Hub.Revoke.{
  revoke_call, register_call, deregister_call, call, start, later, Reaches-IsValid,
}
use rdw.Hub.Revoked.{others, IsCut, revoke_token-exact}
use rdw.Hub.Race.{
  before_each, Moment, first, snapshot_step, check_step, send_step, arrive_step, greet_step,
  other_step, here, next, at_rest, revoke-panics, arrival-panics,
}
use rdw.Hub.Race.Calm.{IsCalmCall, run-calm}
use rdw.Server.{Server, new_server, Env, said, by_router, failure, token_body, api_error}
use rdw.Server.Windows.{set_manager}
use rdw.Server.Panes.{set_router, SplitBody, split_pane, split_body}
use rdw.Server.Control.{route_line}
use rdw.Server.Layouts.{apply_saved}
use rdw.Server.Tokens.{TokenBody, handle_token_create, ws_token}
use rdw.Server.Groups.{kill_panes}
use rdw.Server.Guards.{Caller, bearer}
use rdw.Server.Requests.{get_windows, delete_pane, handle, serve, http, cycled, run}
use rdw.Server.Wired.{HasDistinctPanes, IsPiped, IsWired}
use rdw.Server.Wired.Undo as Undo
use rdw.Server.Wider.{register-IsWider, register-present}
use rdw.Server.Wired.Undo.{split_body-takes_original}
use rdw.Server.Wired.History.{run-IsWired}
use rdw.Server.Empty.{run-paneless}
use rdw.Server.Access.{IsGranted, serve-guarded, ws_token-any_scheme}
use rdw.Server.Expiry.{handle_token_create-expiry}
use rdw.Server.Restore.{apply_saved-pipes}
use rdw.Server.Kill.{kill_panes-exact}

abbrev first_conn : Conn
first_conn = record { id = 1; token_id = codes "abc" }

abbrev second_conn : Conn
second_conn = record { id = 2; token_id = [] }

-- Two connections; the queue of the second is empty.
abbrev two_conns : Hub
two_conns = record {
  conns = first_conn ∷ second_conn ∷ [];
  revoked_tokens = [];
  chans = set_chan 1 (open_chan (reconnect ∷ [])) (set_chan 2 (open_chan []) (λ n. closed_chan));
  has_faulted = false;
}

two_conns-IsValid : Hubs.Broadcast.IsValid two_conns
two_conns-IsValid = record {
  distinct = ((ground arith, tt), (tt, tt));
  all_open = (refl, (refl, tt));
  no_fault = refl;
}

broadcast-delivers_example :
    Hubs.Broadcast.IsValid (broadcast (window_focus (codes "w")) two_conns)
    × ((broadcast (window_focus (codes "w")) two_conns).conns
        ≡ keep_if (takes two_conns) two_conns.conns)
    × All
        (λ c.
          (broadcast (window_focus (codes "w")) two_conns).chans c.id
          ≡ chan_after (window_focus (codes "w")) two_conns c)
        two_conns.conns
broadcast-delivers_example =
    broadcast-delivers (window_focus (codes "w")) two_conns two_conns-IsValid

Reaches-IsValid_example : Hubs.Broadcast.IsValid (call (revoke_call (codes "abc")) two_conns)
Reaches-IsValid_example =
    Reaches-IsValid two_conns (call (revoke_call (codes "abc")) two_conns) two_conns-IsValid
      (later (revoke_call (codes "abc")) start tt)

revoke_token-exact_example :
    ((revoke_token (codes "abc") two_conns).conns ≡ others (codes "abc") two_conns.conns)
    × All
        (IsCut (codes "abc") two_conns (revoke_token (codes "abc") two_conns).chans)
        two_conns.conns
revoke_token-exact_example = revoke_token-exact (codes "abc") two_conns two_conns-IsValid

revoke-panics_example :
    (m : Moment) × Hubs.Race.Run reconnect
      (λ k. k ≡ revoke_call (codes "abc"))
      (at_rest two_conns)
      m
    × (m.hub.has_faulted ≡ true)
revoke-panics_example =
    revoke-panics reconnect two_conns first_conn (second_conn ∷ []) refl (unfold is_revoked in refl)

abbrev late_conn : Conn
late_conn = record { id = 7; token_id = codes "late" }

abbrev late_hub : Hub
late_hub = record {
  conns = [];
  revoked_tokens = codes "late" ∷ [];
  chans = λ n. closed_chan;
  has_faulted = false;
}

arrival-panics_example :
    (m : Moment) × Hubs.Race.Run reconnect (λ k. k ≡ register_call late_conn) (at_rest late_hub) m
    × (m.hub.has_faulted ≡ true)
arrival-panics_example =
    arrival-panics reconnect late_hub late_conn refl (unfold is_revoked in unfold text_eq in refl)

-- A connection registers, the broadcast begins and sends to the first one, the newcomer gets its
-- first frame, and the second one leaves.
abbrev newcomer : Conn
newcomer = record { id = 9; token_id = [] }

abbrev busy : Moment
busy = record {
  hub =
      let arrived = add_conn newcomer two_conns in
      deregister second_conn
        (greet newcomer (offer reconnect first_conn (arrived.chans 1) arrived));
  phase = before_each (second_conn ∷ newcomer ∷ []);
  greeting = [];
}

busy_run : Hubs.Race.Run reconnect (IsCalmCall two_conns) (at_rest two_conns) busy
unfolding add_conn is_revoked call
busy_run =
    next
      (next
        (next
          (next
            (next
              (next here (
                arrive_step newcomer refl (record {
                  not_registered = ((λ e. omega (arith, e)), ((λ e. omega (arith, e)), tt));
                  not_todo = tt;
                  not_greeting = tt;
                })))
              snapshot_step)
            (check_step refl))
          send_step)
        (greet_step newcomer first))
      (other_step (deregister_call second_conn) tt tt)

run-calm_example : busy.hub.has_faulted ≡ false
run-calm_example = run-calm reconnect two_conns busy two_conns-IsValid busy_run

abbrev an_env : Env
an_env = record {
  digest = λ t. t;
  compiles = λ t. true;
  now = 1000;
  clock = λ n. codes "12:00";
  secret = some (codes "0123456789abcdef");
  start_filter = λ c. none;
  db_writes = true;
  formatters = [];
}

abbrev a_pane : Text → PaneState
a_pane id = record {
  target_id = id;
  label = [];
  group = codes "g";
  private = false;
  scrollback_cap = pos 0;
  split = codes "h";
  size = [];
  formatter = [];
  saved_formatter = [];
}

abbrev a_window : WindowState
a_window = record { name = codes "main"; panes = a_pane (codes "a") ∷ a_pane (codes "b") ∷ [] }

-- A server with the panes `a` and `b` and their pipelines.
abbrev a_server : Server
a_server =
    set_router
      (register (codes "b") (pos 5)
        (register (codes "a") (pos 5) (new_server default_config).router).0).0
      (set_manager (record { windows = a_window ∷ []; active = pos 0 }) (new_server default_config))

run-paneless_example :
    (all_pane_ids (run (cycled (codes "w") ∷ []) (new_server default_config)).manager ≡ [])
    × ((run (cycled (codes "w") ∷ []) (new_server default_config)).router.pipes ≡ [])
    × (route_line an_env
          (codes "a")
          (codes "hi")
          (run (cycled (codes "w") ∷ []) (new_server default_config))
        ≡ (run (cycled (codes "w") ∷ []) (new_server default_config), err Routes.no_pane))
run-paneless_example =
    run-paneless default_config (cycled (codes "w") ∷ []) an_env (codes "a") (codes "hi")

a_server-IsWired : IsWired a_server
unfolding window_pane_ids count same
a_server-IsWired = record {
  distinct = once;
  piped = both;
  saved_distinct = unfold new_server in tt;
}
  where
    first : Router
    first = (register (codes "a") (pos 5) (new_server default_config).router).0

    once : HasDistinctPanes (a_window ∷ [])
    once x = elim (Bool-cases (text_eq (codes "a") x)) [
      | inl e ↦
          let k : codes "a" ≡ x = (text_eq_iff (codes "a") x).0 e in
          subst (λ t. count t (window_pane_ids (a_window ∷ [])) ≤ 1) k
            (unfold text_eq in omega arith)
      | inr e ↦ ground arith
    ]

    both : IsPiped (a_window ∷ []) (register (codes "b") (pos 5) first).0.pipes
    both x h = elim (Bool-cases (text_eq (codes "a") x)) [
      | inl e ↦
          subst (λ t. is_present (lookup t (register (codes "b") (pos 5) first).0.pipes) ≡ true)
            ((text_eq_iff (codes "a") x).0 e)
            (register-IsWider (codes "b") (pos 5) first (codes "a")
              (register-present (codes "a") (pos 5) (new_server default_config).router))
      | inr e ↦ elim (Bool-cases (text_eq (codes "b") x)) [
        | inl f ↦
            subst (λ t. is_present (lookup t (register (codes "b") (pos 5) first).0.pipes) ≡ true)
              ((text_eq_iff (codes "b") x).0 f) (register-present (codes "b") (pos 5) first)
        | inr f ↦ absurd (ground arith)
      ]
    ]

abbrev a_split : SplitBody
a_split = record {
  direction = codes "h";
  new_id = codes "a";
  group = [];
  private = false;
  size = [];
}

run-IsWired_example : IsWired (
    run
      (http an_env
          (record { header = []; host = []; is_loopback = true; query_token = [] })
          (delete_pane (codes "a"))
        ∷ [])
      a_server)
run-IsWired_example =
    run-IsWired
      (http an_env (record { header = []; host = []; is_loopback = true; query_token = [] })
          (delete_pane (codes "a"))
        ∷ [])
      a_server a_server-IsWired

b_parses :
    (parse_target_id (codes "a") ≡ ok (codes "a")) × (parse_target_id (codes "b") ≡ ok (codes "b"))
b_parses = (unfold parse_target_id in refl, unfold parse_target_id in refl)

split_body-takes_original_example :
    ((split_body (codes "b") a_split (set_manager (Undo.here a_window [] (pos 0)) a_server)).1
      ≡ record { status = 409; body = failure (by_router Routes.already_registered) })
    × ((split_body
          (codes "b")
          a_split
          (set_manager (Undo.here a_window [] (pos 0)) a_server)).0.manager.windows
        ≡ record a_window {
          panes = (a_pane (codes "b") ∷ []) ++ split_pane (codes "a") a_split ∷ [];
        }
          ∷ [])
split_body-takes_original_example =
    split_body-takes_original a_window [] (pos 0) a_server (codes "b") a_split (codes "a")
      (codes "b") (a_pane (codes "b")) (a_pane (codes "b") ∷ []) (unfold text_eq in refl) b_parses.0
      b_parses.1 (unfold pane_in in unfold text_eq in refl)
      (unfold without_pane in unfold text_eq in refl) (omega arith)
      (a_server-IsWired.piped (codes "a")
        (unfold window_pane_ids in unfold count in unfold same in unfold text_eq in omega arith))

abbrev a_caller : Caller
a_caller = record {
  header = codes "Bearer k";
  host = codes "::1";
  is_loopback = true;
  query_token = [];
}

serve-guarded_example :
    (IsGranted an_env a_caller a_server
      × (serve an_env a_caller get_windows a_server ≡ handle an_env get_windows a_server))
    ⊎ ((¬ IsGranted an_env a_caller a_server)
        × (m : Text) × (serve an_env a_caller get_windows a_server
            ≡ api_error 401 (said m) a_server))
serve-guarded_example = serve-guarded an_env a_caller get_windows a_server tt

ws_token-any_scheme_example :
    ws_token an_env (codes "1234567" ++ codes "key") a_server
    ≡ ws_token an_env (bearer ++ codes "key") a_server
ws_token-any_scheme_example =
    ws_token-any_scheme an_env (codes "1234567") (codes "key") a_server refl

abbrev a_century : TokenBody
a_century = record { expiry_seconds = pos 9300000000; panes = []; windows = [] }

handle_token_create-expiry_example :
    (handle_token_create an_env (some a_century) a_server).1.body
    ≡ token_body (codes "0123456789abcdef") (record {
      id = token_id_of (codes "0123456789abcdef");
      hash = codes "0123456789abcdef";
      created_at = 1000;
      expires_at = none;
      panes = [];
      windows = [];
    })
handle_token_create-expiry_example =
    handle_token_create-expiry an_env a_century (codes "0123456789abcdef") a_server 9300000000 refl
      refl (omega arith) (omega arith)

abbrev a_layout : Snapshot
a_layout = record {
  windows =
      some
        (record { name = codes "main"; panes = a_pane (codes "b") ∷ a_pane (codes "c") ∷ [] } ∷ []);
  active = pos 0;
}

apply_saved-pipes_example :
    (is_present (lookup (codes "c") (apply_saved a_layout a_server).router.pipes) ≡ (
      contains (codes "c") (window_pane_ids (or_empty a_layout.windows))
      || is_present (lookup (codes "c") a_server.router.pipes)
        && not (contains (codes "c") (all_pane_ids a_server.manager))))
    × ((if is_present (lookup (codes "c") a_server.router.pipes)
            && not (
                contains (codes "c") (all_pane_ids a_server.manager)
                && not (contains (codes "c") (window_pane_ids (or_empty a_layout.windows))))
          then lookup (codes "c") (apply_saved a_layout a_server).router.pipes
          else none)
        ≡ (if contains (codes "c") (all_pane_ids a_server.manager)
              && not (contains (codes "c") (window_pane_ids (or_empty a_layout.windows)))
            then none
            else lookup (codes "c") a_server.router.pipes))
apply_saved-pipes_example = apply_saved-pipes a_layout a_server (codes "c")

kill_panes-exact_example :
    (contains (codes "b") (all_pane_ids (kill_panes (codes "a" ∷ []) a_server).manager) ≡ (
      not (contains (codes "b") (codes "a" ∷ []))
      && contains (codes "b") (all_pane_ids a_server.manager)))
    × (lookup (codes "b") (kill_panes (codes "a" ∷ []) a_server).router.pipes ≡ (
        if contains (codes "b") (codes "a" ∷ [])
        then none
        else lookup (codes "b") a_server.router.pipes))
kill_panes-exact_example = kill_panes-exact (codes "a" ∷ []) a_server (codes "b") a_server-IsWired

-- A server with a database, which holds nothing yet.
abbrev stored_server : Server
stored_server = record (new_server default_config) { kv_db = some [] }
