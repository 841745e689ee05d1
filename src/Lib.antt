-- ===== src/Lib.antt =====
-- rdw: a server that shows line streams in browser panes, and its clients.
--
-- A client reads lines (internal/pipe) and sends them to the server of a port that it finds
-- (internal/discovery). The server routes each line by target identifier (internal/router) to a
-- pipeline (internal/pipeline), which tells control sequences from content (internal/control), writes
-- key-value pairs into a shared store (internal/kvstore), and passes content through filters into a
-- scrollback and on to sinks. A session (internal/session) keeps the windows, panes, bookmarks and
-- scrollbacks; layouts (internal/layout) describe windows to open. Access goes by tokens
-- (internal/auth) and a rate limit (internal/server/middleware.go). The server (internal/server) answers
-- HTTP requests and the commands of a Unix socket with calls on these parts, and broadcasts frames to
-- the WebSocket connections of its hub.
--
-- The files, and the code that each is about:
--   Common            Go's numbers, strings, slices, maps and (value, error) returns.
--   Session/TargetId  internal/session/targetid.go: `ParseTargetID` is `parse_target_id`.
--   Session/Scrollback  internal/session/scrollback.go: the ring buffer, its methods by name.
--   Session/Bookmark  internal/session/bookmark.go: `Add`, `Remove` (`remove_mark`), `Get`, `All`.
--   Session/Manager   internal/session/manager.go: one function per method of `Manager`.
--   Layout            internal/layout/layout.go: `Validate`; Layout/Resize: `ParseResizeArg`.
--   Kv                internal/kvstore/kvstore.go and sort.go: `Set` is `put`; Kv/Persist: `Load`.
--   Control           internal/control/control.go: `Parse` is `parse`, over any order of its map.
--   Base64            encoding/base64 of Go's library, which the pipeline and the client use.
--   Pipeline          internal/pipeline/pipeline.go: `processLine` is `process_line`, the loop of `Run`
--                     is `run_rounds`; Pipeline/Scanner is bufio.Scanner of Go's library.
--   Router            internal/router/router.go: `Register`, `Deregister`, `Route`, `Stream`, ...;
--                     Router/Content: a line that `Route` takes through the scanner to a pipeline.
--   Auth              internal/auth/auth.go: `Create`, `Verify`, `Revoke`, `List`.
--   RateLimiter       internal/server/middleware.go: `RateLimiter.Allow`.
--   Config            internal/config/config.go and loader.go: `Default`, `Load`, `validate`.
--   Hub               internal/server/hub.go and the registration of ws.go; Hub/Race: `Broadcast`
--                     and `serveWS` in steps, with the calls of other goroutines in between.
--   Server            internal/server/server.go: the state that the handlers share, and `New`.
--   Server/Control    the control handler of `New`; Server/Unix: `handleUnixCommand`.
--   Server/Guards     internal/server/middleware.go: the token, loopback and rate guards.
--   Server/Open       the key bindings and formatter names of internal/server/routes.go.
--   Server/Windows, Panes, Swap, Layouts, Keys, Tokens, Marks, Groups, CycleRoutes, Status
--                     internal/server/routes.go: one function per handler, by its name
--                     (`handlePaneSplit` is `handle_pane_split`); Server/Requests: `routes`.
--   Server/Keeps, Runs, Steps, History
--                     when every step of a server keeps a property of its panes and pipelines.
--   Relay             internal/pipe/pipe.go and hybrid.go: `relay` and the reader of image frames.
--   Discovery         internal/discovery/discovery.go: the registry file and `Resolve`.
--   Bindings          internal/bindings/bindings.go: `Default`, `Merge`, `Validate`, `Lookup`.
--   Highlight         internal/highlight/highlight.go: the profile store.
--   Cycle             internal/cycle/cycle.go: the rotation of focus over windows.
--   Format            internal/format/format.go, text.go and csv.go: `escapeHTML`, the registry.
--   Format/Markdown   internal/format/markdown.go: `renderMarkdown`; Inline: `inlineMarkdown`.
--   Tests             the theorems at concrete inputs.
--
-- How the code is read. A string is the list of its bytes. A struct that methods change is a record
-- that they take and return; an error is a value of a data type, one constructor per message. An int
-- is an integer, and the one computation that can leave 64 bits, `parseWholeInt`, has its wrap-around
-- written out; lengths, counts and nanoseconds are natural numbers. A Go map is an association list,
-- and its unspecified order is that list's order. Callbacks are numbers, and a step returns the calls
-- it made of them as events. The clock, random bytes, SHA-256, the network, processes and whether a
-- file can be written are arguments. Locks are not modelled: the calls on an object are one after the
-- other, as its mutex has them.
--
-- Loops are structural, with three exceptions. The loop over the logical lines of the hybrid reader has
-- fuel for as many rounds as the input has lines; each round takes a line at least. The loop of
-- `inlineMarkdown` has fuel for as many rounds as the text has bytes; each round takes a byte at least.
-- The outer loop of `renderMarkdown`, which does not always end, takes its fuel as an argument.
--
-- The locks of the hub are modelled in Hub/Race, where a broadcast and an arrival are sequences of steps;
-- a revocation, a departure and a broadcast of another goroutine are one step each there. A request is
-- one step of the server: its body is decoded already, or does not decode; what it takes from
-- libraries and the system stands in a record `Env`; the answer is a status and a value, with the error
-- it carries. The control handler and the sink act on the events of a routed line after it. A pane that
-- the code changes through a pointer is rewritten at its place in the session.
--
-- Not modelled: the routes that change formatters or format a pane, those of terminals, exports and
-- pages, the web page itself, the listeners and signals of `Run`, the WebSocket pumps, the command line, export, mirrors,
-- terminals, command filters, JSON and YAML texts, and SQLite, which are I/O, library calls or glue
-- over the parts above; nor the JSON, YAML, image and command formatters.
pub mod Common
pub mod Session
pub mod Layout
pub mod Kv
pub mod Control
pub mod Base64
pub mod Pipeline
pub mod Router
pub mod Auth
pub mod Format
pub mod RateLimiter
pub mod Relay
pub mod Discovery
pub mod Bindings
pub mod Highlight
pub mod Cycle
pub mod Config
pub mod Hub
pub mod Server
pub mod Tests
