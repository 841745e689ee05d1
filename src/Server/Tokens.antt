-- ===== src/Server/Tokens.antt =====
-- The token routes of internal/server/routes.go and the opening of a WebSocket.
use rdw.Common.{
  ltb, if◌then◌else◌, length, drop, leb_ℤ, to_int64, ℤ, pos, negsuc, Result, ok, err, Text, codes,
  ℕ, ◌-◌, ◌*◌, ◌%◌, ◌^◌, Bool, not, ◌&&◌, Option, none, some, List, [],
}
use rdw.Config.{default_token_expiry}
use rdw.Auth.{Token, TokenStore, CreateOptions, create, verify, revoke, list}
use rdw.Hub.{revoke_token, register}
use rdw.Server.{
  Server, Env, said, tokens_body, token_body, Answer, api_error, write_header, json_response,
  with_body,
}

unfoldable pub handle_token_list : Env → Server → Answer
handle_token_list env s = json_response (tokens_body (list env.now s.token_store)) s

pub record TokenBody : Type 0 where
  pub expiry_seconds : ℤ
  pub panes : List Text
  pub windows : List Text

-- The 64-bit pattern of an integer.
abbrev pattern64 : ℤ → ℕ
pattern64 (pos n) = n % 2 ^ 64
pattern64 (negsuc n) = 2 ^ 64 - 1 - n % 2 ^ 64

-- `time.Duration(n) * time.Second`, in 64 bits.
unfoldable pub duration_of : ℤ → ℤ
duration_of n = to_int64 (pattern64 n * 1000000000 % 2 ^ 64)

abbrev is_zero : ℤ → Bool
is_zero z = leb_ℤ z (pos 0) && leb_ℤ (pos 0) z

unfoldable pub expiry_of : ℤ → ℤ
expiry_of n = if is_zero n then default_token_expiry else duration_of n

abbrev pub options_of : TokenBody → CreateOptions
options_of b = record { expiry = expiry_of b.expiry_seconds; panes = b.panes; windows = b.windows }

abbrev pub created : ℕ → Text → TokenStore × Token → Server → Answer
created code secret (ts, tok) s =
    (record s { token_store = ts }, record { status = code; body = token_body secret tok })

abbrev pub create_token : Env → TokenBody → Option Text → Server → Answer
create_token env b none s = api_error 500 (said (codes "token")) s
create_token env b (some secret) s =
    created 201 secret (create env.digest secret env.now (options_of b) s.token_store) s

unfoldable pub handle_token_create : Env → Option TokenBody → Server → Answer
handle_token_create env body = with_body body (λ b. create_token env b env.secret)

-- `s.hub.RevokeToken` and `s.tokenStore.Revoke`; the second says whether there was such a token.
unfoldable pub revoke_everywhere : Text → Server → Server × Bool
revoke_everywhere id s =
    let (ts, was) = revoke id s.token_store in
    (record s { hub = revoke_token id s.hub; token_store = ts }, was)

unfoldable pub handle_token_revoke : Text → Server → Answer
handle_token_revoke id s =
    let (s', was) = revoke_everywhere id s in
    if was then write_header 204 s' else api_error 404 (said (codes "token not found")) s'

-- `handleWS`: the header is cut at its seventh byte, whatever stands before it.
abbrev token_id_found : Option Token → Result Text Text
token_id_found none = err (codes "invalid or expired token")
token_id_found (some tok) = ok tok.id

-- For a header's length and what its cut leaves.
abbrev pub ws_secret : Env → ℕ → Text → Server → Result Text Text
ws_secret env size plain s =
    if s.config.auth.no_auth
    then ok []
    else if ltb size 8
    then err (codes "authorization required")
    else token_id_found (verify env.digest plain env.now s.token_store)

unfoldable pub ws_token : Env → Text → Server → Result Text Text
ws_token env header s = ws_secret env (length header) (drop 7 header) s

-- `serveWS` up to its first frame, for a connection with a new number: the client has to offer the
-- sub-protocol `rdw-v1`, and the library answers where the upgrade fails.
abbrev pub opened : Bool → Bool → ℕ → Result Text Text → Server → Answer
opened offers upgrades n (err m) s = api_error 401 (said m) s
opened offers upgrades n (ok id) s =
    if not offers
    then api_error 400 (said (codes "WebSocket sub-protocol rdw-v1 required")) s
    else if not upgrades
    then api_error 400 (said (codes "upgrade")) s
    else write_header 101 (record s { hub = register (record { id = n; token_id = id }) s.hub })

unfoldable pub handle_ws : Env → Text → Bool → Bool → ℕ → Server → Answer
handle_ws env header offers upgrades n s = opened offers upgrades n (ws_token env header s) s
