-- ===== src/Server/Keeps.antt =====
-- Steps of a server that leave its windows, pipelines, bookmarks and layouts alone, and the parts of
-- a handler that come before its work. A property of those four is a section parameter here.
use rdw.Common.{
  if◌then◌else◌, ℤ, Dict, Result, ok, err, Text, is_empty, ℕ, Bool, true, false, not, Option, none,
  some, List,
}
use rdw.Session.TargetId.{TargetId, IdError, parse_target_id}
use rdw.Session.Manager.{
  WindowState, Manager, SessionError, is_found, find_pane, Snapshot, snapshot,
}
use rdw.Session.Bookmark.{BookmarkStore}
use rdw.Layout.Resize.{ResizeUnit, ResizeError, parse_resize_arg}
use rdw.Router.{Options}
use rdw.Pipeline.{Pipeline}
use rdw.Auth.{Token, verify}
use rdw.Hub.{Message, layout_update, pane_zoom, pane_resize}
use rdw.Highlight.{Rule, ProfileStore, HighlightError, remove_profile}
use rdw.Cycle.{Cycle, CycleError}
use rdw.RateLimiter.{RateLimiter}
use rdw.Server.{Server, Env, Answer, send_all, broadcast_layout_update, with_body, with_target}
use rdw.Server.Windows.{set_manager, with_manager}
use rdw.Server.Panes.{handle_pane_zoom, ResizeBody, resized, handle_pane_resize}
use rdw.Server.Tokens.{
  TokenBody, create_token, handle_token_create, revoke_everywhere, handle_token_revoke, ws_token,
  opened, handle_ws,
}
use rdw.Server.Marks.{highlighted, handle_highlight_add, handle_highlight_delete}
use rdw.Server.Groups.{}
use rdw.Server.CycleRoutes.{CycleBody, started, handle_cycle_start, handle_cycle_stop}
use rdw.Server.Guards.{
  Caller, Handler, checked, with_secret, auth_middleware, loopback_only, limited,
  rate_limit_middleware, Guard, authed, admin, unauth, unguarded, guard,
}
use rdw.Server.Unix.{}

-- A property of the windows, the router's maps and options, and the saved layouts.
abbrev pub CoreProperty : Type 1
CoreProperty =
    List WindowState → Dict Pipeline → Dict BookmarkStore → Options → Dict Snapshot → Type 0

module _ (Q : CoreProperty) where
  abbrev pub Holds : Server → Type 0
  Holds s = Q s.manager.windows s.router.pipes s.router.bookmarks s.router.opts s.layouts

  pub with_body-keeps :
      {B : Type 0} (body : Option B) (k : B → Server → Answer) (s : Server)
      → Holds s
      → ((b : B) → Holds (k b s).0)
      → Holds (with_body body k s).0
  with_body-keeps none k s h f = h
  with_body-keeps (some b) k s h f = f b

  pub with_target-keeps :
      (r : Result IdError TargetId) (k : TargetId → Server → Answer) (s : Server)
      → Holds s
      → ((id : TargetId) → Holds (k id s).0)
      → Holds (with_target r k s).0
  with_target-keeps (err e) k s h f = h
  with_target-keeps (ok id) k s h f = f id

  pub with_manager-keeps :
      (code : ℕ) (q : Manager × Result SessionError Unit) (k : Server → Answer) (s : Server)
      → Holds (set_manager q.0 s)
      → (Holds (set_manager q.0 s) → Holds (k (set_manager q.0 s)).0)
      → Holds (with_manager code q k s).0
  with_manager-keeps code (m, err e) k s h f = h
  with_manager-keeps code (m, ok tt) k s h f = f h

  pub send_all-keeps : (msg : Message) (s : Server) → Holds s → Holds (send_all msg s)
  unfolding send_all
  send_all-keeps msg s h = h

  pub broadcast_layout_update-keeps : (s : Server) → Holds s → Holds (broadcast_layout_update s)
  unfolding broadcast_layout_update
  broadcast_layout_update-keeps s h = send_all-keeps (layout_update (snapshot s.manager)) s h

  pub if-keeps : (b : Bool) (x y : Answer) → Holds x.0 → Holds y.0 → Holds (if b then x else y).0
  if-keeps true x y h k = h
  if-keeps false x y h k = k

  pub handle_pane_zoom-keeps :
      (text : Text) (s : Server) → Holds s → Holds (handle_pane_zoom text s).0
  unfolding handle_pane_zoom
  handle_pane_zoom-keeps text s h = with_target-keeps (parse_target_id text) _ s h (λ id.
      if-keeps (not (is_found (find_pane id s.manager))) _ _ h
        (send_all-keeps (pane_zoom text) s h))

  resized-keeps :
      (text : Text) (b : ResizeBody) (r : Result ResizeError (ℤ × ResizeUnit)) (s : Server)
      → Holds s
      → Holds (resized text b r s).0
  resized-keeps text b (err e) s h = h
  resized-keeps text b (ok r) s h = send_all-keeps (pane_resize text b.direction b.size) s h

  pub handle_pane_resize-keeps :
      (text : Text) (body : Option ResizeBody) (s : Server)
      → Holds s
      → Holds (handle_pane_resize text body s).0
  unfolding handle_pane_resize
  handle_pane_resize-keeps text body s h =
      with_body-keeps body _ s h (λ b. resized-keeps text b (parse_resize_arg b.size) s h)

  create_token-keeps :
      (env : Env) (b : TokenBody) (o : Option Text) (s : Server)
      → Holds s
      → Holds (create_token env b o s).0
  create_token-keeps env b none s h = h
  create_token-keeps env b (some secret) s h = h

  pub handle_token_create-keeps :
      (env : Env) (body : Option TokenBody) (s : Server)
      → Holds s
      → Holds (handle_token_create env body s).0
  unfolding handle_token_create
  handle_token_create-keeps env body s h =
      with_body-keeps body _ s h (λ b. create_token-keeps env b env.secret s h)

  pub revoke_everywhere-keeps :
      (id : Text) (s : Server) → Holds s → Holds (revoke_everywhere id s).0
  unfolding revoke_everywhere
  revoke_everywhere-keeps id s h = h

  pub handle_token_revoke-keeps :
      (id : Text) (s : Server) → Holds s → Holds (handle_token_revoke id s).0
  unfolding handle_token_revoke
  handle_token_revoke-keeps id s h =
      if-keeps (revoke_everywhere id s).1 _ _ (revoke_everywhere-keeps id s h)
        (revoke_everywhere-keeps id s h)

  highlighted-keeps :
      (code : ℕ) (q : ProfileStore × Result HighlightError Unit) (s : Server)
      → Holds s
      → Holds (highlighted code q s).0
  highlighted-keeps code (hs, err e) s h = h
  highlighted-keeps code (hs, ok tt) s h = h

  pub handle_highlight_add-keeps :
      (env : Env) (n : Text) (body : Option (List Rule)) (s : Server)
      → Holds s
      → Holds (handle_highlight_add env n body s).0
  unfolding handle_highlight_add
  handle_highlight_add-keeps env n body s h =
      with_body-keeps body _ s h (λ rules. highlighted-keeps 400 _ s h)

  pub handle_highlight_delete-keeps :
      (n : Text) (s : Server) → Holds s → Holds (handle_highlight_delete n s).0
  unfolding handle_highlight_delete
  handle_highlight_delete-keeps n s h = highlighted-keeps 404 (remove_profile n s.highlights) s h

  started-keeps :
      (b : CycleBody) (r : Result CycleError Cycle) (s : Server) → Holds s → Holds (started b r s).0
  started-keeps b (err e) s h = h
  started-keeps b (ok c) s h = h

  pub handle_cycle_start-keeps :
      (body : Option CycleBody) (s : Server) → Holds s → Holds (handle_cycle_start body s).0
  unfolding handle_cycle_start
  handle_cycle_start-keeps body s h = with_body-keeps body _ s h (λ b. started-keeps b _ s h)

  pub handle_cycle_stop-keeps : (s : Server) → Holds s → Holds (handle_cycle_stop s).0
  unfolding handle_cycle_stop
  handle_cycle_stop-keeps s h = if-keeps (not s.is_cycling) _ _ h h

  opened-keeps :
      (a b : Bool) (n : ℕ) (r : Result Text Text) (s : Server)
      → Holds s
      → Holds (opened a b n r s).0
  opened-keeps a b n (err m) s h = h
  opened-keeps a b n (ok id) s h = if-keeps (not a) _ _ h (if-keeps (not b) _ _ h h)

  pub handle_ws-keeps :
      (env : Env) (header : Text) (a b : Bool) (n : ℕ) (s : Server)
      → Holds s
      → Holds (handle_ws env header a b n s).0
  unfolding handle_ws
  handle_ws-keeps env header a b n s h = opened-keeps a b n (ws_token env header s) s h

  checked-keeps :
      (o : Option Token) (next : Handler) (s : Server)
      → Holds s
      → Holds (next s).0
      → Holds (checked o next s).0
  checked-keeps none next s h k = h
  checked-keeps (some tok) next s h k = k

  with_secret-keeps :
      (env : Env) (o : Option Text) (next : Handler) (s : Server)
      → Holds s
      → Holds (next s).0
      → Holds (with_secret env o next s).0
  with_secret-keeps env none next s h k = h
  with_secret-keeps env (some plain) next s h k =
      checked-keeps (verify env.digest plain env.now s.token_store) next s h k

  auth_middleware-keeps :
      (env : Env) (c : Caller) (b : Bool) (next : Handler) (s : Server)
      → Holds s
      → Holds (next s).0
      → Holds (auth_middleware env c b next s).0
  unfolding auth_middleware
  auth_middleware-keeps env c b next s h k =
      if-keeps b _ _ k (if-keeps (is_empty c.header) _ _ h (with_secret-keeps env _ next s h k))

  limited-keeps :
      (q : RateLimiter × Bool) (next : Handler) (s : Server)
      → ((s : Server) → Holds s → Holds (next s).0)
      → Holds s
      → Holds (limited q next s).0
  limited-keeps (rl, true) next s f h = f _ h
  limited-keeps (rl, false) next s f h = h

  -- A guard changes no more than the rate limiter.
  pub guard-keeps :
      (env : Env) (c : Caller) (g : Guard) (next : Handler) (s : Server)
      → ((s : Server) → Holds s → Holds (next s).0)
      → Holds s
      → Holds (guard env c g next s).0
  unfolding guard loopback_only rate_limit_middleware
  guard-keeps env c authed next s f h = auth_middleware-keeps env c _ next s h (f s h)
  guard-keeps env c admin next s f h =
      let inner = auth_middleware-keeps env c s.config.auth.no_auth next s h (f s h) in
      if-keeps s.config.auth.admin_local_only _ _ (if-keeps c.is_loopback _ _ inner h) inner
  guard-keeps env c unauth next s f h =
      if-keeps (is_empty c.header) _ _ (limited-keeps _ next s f h) (f s h)
  guard-keeps env c unguarded next s f h = f s h
