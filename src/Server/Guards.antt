-- ===== src/Server/Guards.antt =====
-- internal/server/middleware.go: what stands between a request and its handler, and the guards that
-- `routes` puts before the handlers. A guard is a function from a handler to a handler.
use rdw.Common.{
  if◌then◌else◌, Text, codes, text_eq, is_empty, after_prefix, Bool, true, false, not, ◌&&◌, Option,
  none, some, ◌++◌,
}
use rdw.Auth.{Token, verify}
use rdw.RateLimiter.{RateLimiter, allow}
use rdw.Config.{}
use rdw.Server.{Server, Env, said, Answer, api_error, write_header}

-- What the guards read of a request. `net.SplitHostPort` and `net.ParseIP` are Go's library: the
-- host is what they leave of the remote address.
pub record Caller : Type 0 where
  pub header : Text
  pub host : Text
  pub is_loopback : Bool
  pub query_token : Text

abbrev pub Handler : Type 0
Handler = Server → Answer

abbrev pub bearer : Text
bearer = codes "Bearer "

abbrev pub checked : Option Token → Handler → Handler
checked none next s = api_error 401 (said (codes "invalid or expired token")) s
checked (some tok) next s = next s

abbrev pub with_secret : Env → Option Text → Handler → Handler
with_secret env none next s = api_error 401 (said (codes "bearer token required")) s
with_secret env (some plain) next s = checked (verify env.digest plain env.now s.token_store) next s

unfoldable pub auth_middleware : Env → Caller → Bool → Handler → Handler
auth_middleware env c no_auth next s =
    if no_auth
    then next s
    else if is_empty c.header
    then api_error 401 (said (codes "authorization header required")) s
    else with_secret env (after_prefix bearer c.header) next s

unfoldable pub loopback_only : Caller → Handler → Handler
loopback_only c next s =
    if c.is_loopback
    then next s
    else api_error 403 (said (codes "admin console is restricted to loopback")) s

abbrev pub limited : RateLimiter × Bool → Handler → Handler
limited (rl, true) next s = next (record s { rl = rl })
limited (rl, false) next s =
    api_error 429 (said (codes "rate limit exceeded")) (record s { rl = rl })

unfoldable pub rate_limit_middleware : Env → Caller → Handler → Handler
rate_limit_middleware env c next s =
    if is_empty c.header then limited (allow c.host env.now s.rl) next s else next s

-- `authed`, `admin` and `unauth` of `routes`, and the routes that have no guard.
pub data Guard : Type 0 where
  authed admin unauth unguarded : Guard

unfoldable pub guard : Env → Caller → Guard → Handler → Handler
guard env c authed next s = auth_middleware env c s.config.auth.no_auth next s
guard env c admin next s =
    if s.config.auth.admin_local_only
    then loopback_only c (auth_middleware env c s.config.auth.no_auth next) s
    else auth_middleware env c s.config.auth.no_auth next s
guard env c unauth next s = rate_limit_middleware env c next s
guard env c unguarded next s = next s

-- `GET /admin`, whose page is a constant.
unfoldable handle_admin : Caller → Handler
handle_admin c s =
    let token = s.config.auth.admin_token in
    if not (is_empty token)
      && not (text_eq c.header (bearer ++ token))
      && not (text_eq c.query_token token)
    then api_error 401 (said (codes "unauthorized")) s
    else write_header 200 s
