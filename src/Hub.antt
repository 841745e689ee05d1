-- ===== src/Hub.antt =====
-- internal/server/hub.go and the registration of internal/server/ws.go: the WebSocket connections
-- and what is sent to them. A connection is a pointer in Go: here it has a number, and its `send`
-- channel stands in the hub under that number, so that it can be closed after the connection has
-- left the hub. A send on a closed channel panics, which `has_faulted` records.
pub mod Broadcast
pub mod Revoke
pub mod Revoked
pub mod Race
use rdw.Common.{
  ltb, ◌==◌, if◌then◌else◌, length, Text, text_eq, is_empty, ℕ, Bool, true, false, List, [], ◌∷◌,
  ◌++◌,
}
use rdw.Session.TargetId.{TargetId}
use rdw.Session.Manager.{Snapshot}
use rdw.Highlight.{Profile}

-- The frames that the server sends, before they are encoded.
pub data Message : Type 0 where
  reconnect : Message
  line_message : TargetId → Text → Message
  layout_update : Snapshot → Message
  window_focus : Text → Message
  pane_zoom pane_focus : Text → Message
  pane_resize : Text → Text → Text → Message
  group_toggle : Text → Text → Message
  highlight_set : TargetId → Profile → Message
  scrollback_ctl pane_scale : TargetId → Text → Message
  render : Bool → TargetId → Text → Message
  formatter_set : TargetId → Text → Message

abbrev pub send_buf_size : ℕ
send_buf_size = 256

pub record Conn : Type 0 where
  pub id : ℕ
  -- Empty for the owner's connections.
  pub token_id : Text

-- A buffered channel.
pub data Chan : Type 0 where
  open_chan : List Message → Chan
  closed_chan : Chan

pub record Hub : Type 0 where
  pub conns : List Conn
  pub revoked_tokens : List Text
  pub chans : ℕ → Chan
  pub has_faulted : Bool

abbrev pub new_hub : Hub
new_hub = record { conns = []; revoked_tokens = []; chans = λ n. closed_chan; has_faulted = false }

abbrev pub set_chan : ℕ → Chan → (ℕ → Chan) → ℕ → Chan
set_chan n c f k = if k == n then c else f k

abbrev pub without_conn : ℕ → List Conn → List Conn
without_conn n [] = []
without_conn n (c ∷ cs) = let rest = without_conn n cs in if c.id == n then rest else c ∷ rest

unfoldable pub deregister : Conn → Hub → Hub
deregister c h = record h { conns = without_conn c.id h.conns }

-- `c.close()`, which closes the channel once.
pub close_conn : Conn → Hub → Hub
close_conn c h = record h { chans = set_chan c.id closed_chan h.chans }

abbrev pub is_listed : Text → List Text → Bool
is_listed t [] = false
is_listed t (x ∷ xs) = if text_eq x t then true else is_listed t xs

unfoldable pub is_revoked : Text → Hub → Bool
is_revoked t h = if is_empty t then false else is_listed t h.revoked_tokens

-- The `select` with its `default`.
abbrev pub offer : Message → Conn → Chan → Hub → Hub
offer msg c closed_chan h = record h { has_faulted = true }
offer msg c (open_chan q) h =
    if ltb (length q) send_buf_size
    then record h { chans = set_chan c.id (open_chan (q ++ msg ∷ [])) h.chans }
    else close_conn c (deregister c h)

-- One round of the loop of `Broadcast`.
pub send_to : Message → Conn → Hub → Hub
send_to msg c h =
    if is_revoked c.token_id h then close_conn c (deregister c h) else offer msg c (h.chans c.id) h

-- A panic ends the loop.
pub broadcast_to : Message → List Conn → Hub → Hub
broadcast_to msg [] h = h
broadcast_to msg (c ∷ cs) h =
    let rest = broadcast_to msg cs (send_to msg c h) in
    if (send_to msg c h).has_faulted then send_to msg c h else rest

pub broadcast : Message → Hub → Hub
broadcast msg h = broadcast_to msg h.conns h

abbrev pub with_token : Text → List Conn → List Conn
with_token t [] = []
with_token t (c ∷ cs) =
    let rest = with_token t cs in if text_eq c.token_id t then c ∷ rest else rest

abbrev pub close_all : List Conn → Hub → Hub
close_all [] h = h
close_all (c ∷ cs) h = close_all cs (close_conn c h)

abbrev pub without_all : List Conn → List Conn → List Conn
without_all [] cs = cs
without_all (v ∷ vs) cs = without_all vs (without_conn v.id cs)

pub revoke_token : Text → Hub → Hub
revoke_token t h =
    let victims = with_token t h.conns in
    close_all victims
      (record h { revoked_tokens = t ∷ h.revoked_tokens; conns = without_all victims h.conns })

unfoldable pub conn_count : Hub → ℕ
conn_count h = length h.conns

-- A new connection, with the channel that `serveWS` makes for it, and `hub.register`.
unfoldable pub add_conn : Conn → Hub → Hub
add_conn c h = record h { conns = h.conns ++ c ∷ []; chans = set_chan c.id (open_chan []) h.chans }

-- The `select` of `serveWS` that sends the first frame, outside the hub's mutex.
abbrev pub greet_on : Conn → Chan → Hub → Hub
greet_on c closed_chan h = record h { has_faulted = true }
greet_on c (open_chan q) h =
    if ltb (length q) send_buf_size
    then record h { chans = set_chan c.id (open_chan (q ++ reconnect ∷ [])) h.chans }
    else h

pub greet : Conn → Hub → Hub
greet c h = greet_on c (h.chans c.id) h

-- Both, where no other call comes in between.
unfoldable pub register : Conn → Hub → Hub
register c h = greet c (add_conn c h)
