-- ===== src/Server/Open.antt =====
-- The handlers of internal/server/routes.go that need no token and give something of the program away:
-- the key bindings and the names of the formatters.
use rdw.Common.{none, some, Dict, Option, List, Text}
use rdw.Bindings.{Bindings, default_bindings, merge}
use rdw.Format.{names}
use rdw.Server.{Server, Env, bindings_body, formatters_body, Answer, json_response}

-- The default bindings with those of the configuration over them.
unfoldable pub effective_bindings : Option (Dict (List Text)) → Bindings
effective_bindings none = default_bindings
effective_bindings (some overrides) = merge default_bindings overrides

unfoldable pub handle_bindings : Server → Answer
handle_bindings s = json_response (bindings_body (effective_bindings s.config.bindings)) s

unfoldable pub handle_formatters : Env → Server → Answer
handle_formatters env s = json_response (formatters_body (names env.formatters)) s
