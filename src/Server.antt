-- ===== src/Server.antt =====
-- `Server` of internal/server/server.go and the answers of its handlers. One record holds what the
-- handlers share; the key-value store is the router's. A request's handler is one step, as is a
-- command of the Unix socket. The channel of sink number 0 is the broadcast of rendered lines.
pub mod Control
pub mod Windows
pub mod Open
pub mod Panes
pub mod Swap
pub mod Layouts
pub mod Keys
pub mod Tokens
pub mod Marks
pub mod Groups
pub mod CycleRoutes
pub mod Status
pub mod Guards
pub mod Unix
pub mod Requests
pub mod Keeps
pub mod Runs
pub mod Steps
pub mod History
pub mod Bare
pub mod Empty
pub mod Wider
pub mod SwapLaws
pub mod Wired
pub mod Access
pub mod Expiry
pub mod Restore
pub mod Kill
pub mod Render
use rdw.Common.{
  if◌then◌else◌, ℤ, pos, Dict, Result, ok, err, Text, text_eq, ℕ, Bool, false, Option, none, some,
  List, [], ◌∷◌,
}
use rdw.Config.{Config}
use rdw.Bindings.{Bindings}
use rdw.Format.{Formatters}
use rdw.Session.TargetId.{TargetId, IdError}
use rdw.Session.Manager.{
  PaneState, WindowState, Manager, SessionError, new_manager, is_found, pane_in, Snapshot, snapshot,
}
use rdw.Session.Bookmark.{Bookmark, BookmarkError}
use rdw.Kv.{KvError, new_store}
use rdw.Layout.Resize.{ResizeError}
use rdw.Pipeline.{Filter, PipelineError}
use rdw.Router as Routes
use rdw.Router.{Router, RouterError, new_router}
use rdw.Highlight.{Profile, ProfileStore, HighlightError}
use rdw.Auth.{Token, TokenStore, new_token_store}
use rdw.RateLimiter.{RateLimiter, new_rate_limiter}
use rdw.Cycle.{CycleError}
use rdw.Hub.{Message, layout_update, Hub, new_hub, broadcast}

pub record Server : Type 0 where
  pub config : Config
  pub hub : Hub
  pub token_store : TokenStore
  pub rl : RateLimiter
  -- The rows of the database, where there is one.
  pub kv_db : Option (Dict Text)
  pub highlights : ProfileStore
  -- Whether `cycleCancel` is set, and `cycleState`.
  pub is_cycling : Bool
  pub cycle_windows : List Text
  pub cycle_interval : ℤ
  pub manager : Manager
  pub router : Router
  pub layouts : Dict Snapshot

-- `New`. It keeps none of the options but the session's name, so there is no database.
unfoldable pub new_server : Config → Server
new_server cfg = record {
  config = cfg;
  hub = new_hub;
  token_store = new_token_store;
  rl = new_rate_limiter;
  kv_db = none;
  highlights = [];
  is_cycling = false;
  cycle_windows = [];
  cycle_interval = pos 0;
  manager = new_manager;
  router = Routes.set_control_handler 0 (
      new_router new_store (some 0) (record {
        allow_unassigned = false;
        filter_chain_max = cfg.server.filter_chain_max;
        default_scrollback_cap = cfg.server.scrollback_cap;
      }));
  layouts = [];
}

-- What a handler takes from libraries and from the system. The digest is `sha256Hex`.
pub record Env : Type 0 where
  pub digest : Text → Text
  pub compiles : Text → Bool
  pub now : ℕ
  pub clock : ℕ → Text
  -- The text of the random bytes, unless they cannot be read.
  pub secret : Option Text
  -- The process of a command filter, if it starts.
  pub start_filter : Text → Option Filter
  pub db_writes : Bool
  -- The registry of internal/format, which is a variable of its package.
  pub formatters : Formatters

-- The errors that answers carry.
pub data Failure : Type 0 where
  bad_json : Failure
  said : Text → Failure
  bad_target : IdError → Failure
  by_session : SessionError → Failure
  by_router : RouterError → Failure
  by_pipeline : PipelineError → Failure
  by_resize : ResizeError → Failure
  by_kv : KvError → Failure
  by_bookmark : BookmarkError → Failure
  by_highlight : HighlightError → Failure
  by_cycle : CycleError → Failure

pub record CycleView : Type 0 where
  pub running : Bool
  pub windows : List Text
  pub interval_ms : ℤ

pub record PaneView : Type 0 where
  pub target_id : Text
  pub title : Text
  pub formatter : Text
  pub saved_formatter : Text
  pub scrollback_len : ℕ
  pub scrollback_cap : ℕ
  pub last_line : Text
  pub bookmarks : List Bookmark

pub record PaneStats : Type 0 where
  pub title : Text
  pub formatter : Text
  pub scrollback_len : ℕ
  pub bookmarks : ℕ

pub record StatusView : Type 0 where
  pub port : ℤ
  pub session : Snapshot
  pub panes : Dict PaneStats
  pub layouts : List Text
  pub highlights : List Text
  pub tokens : List Token
  pub connections : ℕ
  pub cycle : CycleView
  pub kv_len : ℕ

pub data Body : Type 0 where
  no_body : Body
  failure : Failure → Body
  session_body : Snapshot → Body
  windows_body : List WindowState → Body
  layouts_body keys_body : List Text → Body
  value_body : Text → Text → Body
  tokens_body : List Token → Body
  token_body : Text → Token → Body
  bookmarks_body : List Bookmark → Body
  profiles_body : List Profile → Body
  cycle_body : CycleView → Body
  pane_body : PaneView → Body
  status_body : StatusView → Body
  count_body : ℕ → Body
  bindings_body : Bindings → Body
  formatters_body : List Text → Body

pub record Response : Type 0 where
  pub status : ℕ
  pub body : Body

abbrev pub Answer : Type 0
Answer = Server × Response

-- `apiError`, `w.WriteHeader` and `jsonResponse`, each at the end of a handler.
abbrev pub api_error : ℕ → Failure → Server → Answer
api_error code f s = (s, record { status = code; body = failure f })

abbrev pub write_header : ℕ → Server → Answer
write_header code s = (s, record { status = code; body = no_body })

abbrev pub json_response : Body → Server → Answer
json_response b s = (s, record { status = 200; body = b })

pub send_all : Message → Server → Server
send_all msg s = record s { hub = broadcast msg s.hub }

-- `broadcastLayoutUpdate`
pub broadcast_layout_update : Server → Server
broadcast_layout_update s = send_all (layout_update (snapshot s.manager)) s

-- A handler of a request whose body has to decode.
abbrev pub with_body : {B : Type 0} → Option B → (B → Server → Answer) → Server → Answer
with_body none k s = api_error 400 bad_json s
with_body (some b) k s = k b s

-- `ParseTargetID` of a part of the request, and what follows where it is one.
abbrev pub with_target : Result IdError TargetId → (TargetId → Server → Answer) → Server → Answer
with_target (err e) k s = api_error 400 (bad_target e) s
with_target (ok id) k s = k id s

-- A write through the pointer that `FindPane` returns.
pub update_pane_in : TargetId → (PaneState → PaneState) → List PaneState → List PaneState
update_pane_in id f [] = []
update_pane_in id f (p ∷ ps) =
    if text_eq p.target_id id then f p ∷ ps else p ∷ update_pane_in id f ps

pub update_pane : TargetId → (PaneState → PaneState) → List WindowState → List WindowState
update_pane id f [] = []
update_pane id f (w ∷ ws) =
    if is_found (pane_in id w.panes)
    then record w { panes = update_pane_in id f w.panes } ∷ ws
    else w ∷ update_pane id f ws

abbrev pub with_windows : (List WindowState → List WindowState) → Server → Server
with_windows f s = record s { manager = record s.manager { windows = f s.manager.windows } }
