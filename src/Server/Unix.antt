-- ===== src/Server/Unix.antt =====
-- `handleUnixCommand` of internal/server/server.go. The parameters are JSON: `none` stands for a
-- text that does not decode. Shutting the server down is I/O, so `stop` changes nothing here.
use rdw.Common.{ℤ, Result, ok, err, Text, codes, Bool, true, false, Option, none, some}
use rdw.Session.TargetId.{TargetId, IdError, parse_target_id}
use rdw.Router.{RouterError}
use rdw.Auth.{Token, TokenStore, create}
use rdw.Server.{Server, Env, Failure, bad_json, said, bad_target, by_router}
use rdw.Server.Control.{route_line}
use rdw.Server.Tokens.{TokenBody, options_of, revoke_everywhere}

pub record StreamParams : Type 0 where
  pub target_id : Text
  pub line : Text

pub data UnixCommand : Type 0 where
  ping stop : UnixCommand
  token_create : Option TokenBody → UnixCommand
  token_revoke : Option Text → UnixCommand
  stream_line : Option StreamParams → UnixCommand
  unknown : Text → UnixCommand

pub data UnixData : Type 0 where
  no_data : UnixData
  alive : ℤ → UnixData
  new_token : Text → Token → UnixData

pub data UnixResponse : Type 0 where
  done : UnixData → UnixResponse
  refused : Failure → UnixResponse

abbrev unix_created : Text → TokenStore × Token → Server → Server × UnixResponse
unix_created secret (ts, tok) s = (record s { token_store = ts }, done (new_token secret tok))

abbrev pub unix_create : Env → TokenBody → Option Text → Server → Server × UnixResponse
unix_create env b none s = (s, refused (said (codes "token")))
unix_create env b (some secret) s =
    unix_created secret (create env.digest secret env.now (options_of b) s.token_store) s

abbrev pub unix_revoked : Server × Bool → Server × UnixResponse
unix_revoked (s, true) = (s, done no_data)
unix_revoked (s, false) = (s, refused (said (codes "token not found")))

abbrev pub unix_posted : Result RouterError Unit → Server → Server × UnixResponse
unix_posted (err e) s = (s, refused (by_router e))
unix_posted (ok tt) s = (s, done no_data)

unfoldable pub unix_stream : Env → Text → TargetId → Server → Server × UnixResponse
unix_stream env line id s = let (s', r) = route_line env id line s in unix_posted r s'

abbrev pub unix_target : Env → Text → Result IdError TargetId → Server → Server × UnixResponse
unix_target env line (err e) s = (s, refused (bad_target e))
unix_target env line (ok id) s = unix_stream env line id s

unfoldable pub handle_unix_command : Env → UnixCommand → Server → Server × UnixResponse
handle_unix_command env ping s = (s, done (alive s.config.server.port))
handle_unix_command env stop s = (s, done no_data)
handle_unix_command env (token_create none) s = (s, refused bad_json)
handle_unix_command env (token_create (some b)) s = unix_create env b env.secret s
handle_unix_command env (token_revoke none) s = (s, refused bad_json)
handle_unix_command env (token_revoke (some id)) s = unix_revoked (revoke_everywhere id s)
handle_unix_command env (stream_line none) s = (s, refused bad_json)
handle_unix_command env (stream_line (some p)) s =
    unix_target env p.line (parse_target_id p.target_id) s
handle_unix_command env (unknown a) s = (s, refused (said a))
