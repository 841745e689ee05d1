-- ===== src/Server/Windows.antt =====
-- The session and window routes of internal/server/routes.go.
use rdw.Common.{Result, ok, err, Text, ℕ, Option}
use rdw.Session.Manager.{
  Manager, SessionError, create_window, close_window, rename_window, focus_window, snapshot,
}
use rdw.Hub.{window_focus}
use rdw.Server.{
  Server, by_session, session_body, windows_body, Answer, api_error, write_header, json_response,
  send_all, with_body,
}

unfoldable pub handle_session : Server → Answer
handle_session s = json_response (session_body (snapshot s.manager)) s

unfoldable pub handle_window_list : Server → Answer
handle_window_list s = json_response (windows_body s.manager.windows) s

abbrev pub set_manager : Manager → Server → Server
set_manager m s = record s { manager = m }

-- A call on the manager, answered with `refused` where it fails.
abbrev pub with_manager :
    ℕ → Manager × Result SessionError Unit → (Server → Answer) → Server → Answer
with_manager refused (m, err e) k s = api_error refused (by_session e) (set_manager m s)
with_manager refused (m, ok tt) k s = k (set_manager m s)

unfoldable pub handle_window_create : Option Text → Server → Answer
handle_window_create body =
    with_body body (λ n s. with_manager 409 (create_window n s.manager) (write_header 201) s)

unfoldable pub handle_window_close : Text → Server → Answer
handle_window_close n s = with_manager 404 (close_window n s.manager) (write_header 204) s

unfoldable pub handle_window_rename : Text → Option Text → Server → Answer
handle_window_rename old body =
    with_body body (λ n s. with_manager 409 (rename_window old n s.manager) (write_header 204) s)

unfoldable pub handle_window_focus : Text → Server → Answer
handle_window_focus n s =
    with_manager 404 (focus_window n s.manager)
      (λ s'. write_header 204 (send_all (window_focus n) s')) s
