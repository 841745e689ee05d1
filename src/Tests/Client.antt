-- ===== src/Tests/Client.antt =====
-- Runs on internal/pipe, internal/discovery, internal/bindings, internal/highlight and
-- internal/cycle.
use rdw.Router.{Router, new_router, route}
use rdw.Router.Content.{IsHandledBy}
use rdw.Relay.Frames.{frame_of, frame_line}
use rdw.Common.{
  none, text_eq_iff, leb, length, ℤ, pos, lookup, insert, Text, codes, text_eq, ℕ, ◌≡◌, refl, Bool,
  true, false, some, List, [], ◌∷◌, arith,
}
use rdw.Base64.{encode}
use rdw.Kv.{new_store}
use rdw.Session.Scrollback.{new_scrollback_buffer}
use rdw.Session.Scrollback.Ring.{IsValid, new_scrollback_buffer-IsValid}
use rdw.Pipeline.{Pipeline, new_pipeline, apply_filters}
use rdw.Relay.{Relay, Turn, logical_lines}
use rdw.Relay.Frames.{joined, image_frame-delivered}
use rdw.Discovery.{ServerInfo, default_port, RegistryFile, eqb_ℤ}
use rdw.Highlight.{Profile}
use rdw.Cycle.{Cycle}
use rdw.Bindings.{
  Bindings, action_window_next, action_escape, validate_keys, validate_all, validate_bindings,
  has_key, lookup_action,
}
use rdw.Control.{leading_space, trailing_space, trim_by, trim_space}
use rdw.Bindings.Keys.{validate_bindings-lookup_action}

-- A server that is away for the first two attempts.
abbrev away_twice : ℕ → Text → Bool
away_twice n l = leb 2 n

abbrev three_turns : List Turn
three_turns =
    record { line = codes "a"; is_cancelled = false }
    ∷ record { line = codes "b"; is_cancelled = false }
    ∷ record { line = codes "c"; is_cancelled = false }
    ∷ []

-- The server takes the second line, but the answer is lost.
abbrev takes_second : ℕ → Text → Bool
takes_second n l = leb 1 n

abbrev always : ℕ → Text → Bool
always n l = true

abbrev waiting : Relay
waiting = record {
  attempts = 1;
  queue = codes "a" ∷ [];
  confirmed = [];
  dropped = [];
  received = [];
}

abbrev pane : Pipeline
pane =
    new_pipeline (codes "log") (record { timestamp_enabled = false; max_filter_stages = pos 8 })
      (new_scrollback_buffer (pos 3))

pane-IsValid : IsValid pane.scrollback
pane-IsValid = unfold new_pipeline in new_scrollback_buffer-IsValid (pos 3)

abbrev one_pane : Router
one_pane =
    record (new_router new_store none (record {
      allow_unassigned = false;
      filter_chain_max = pos 8;
      default_scrollback_cap = pos 3;
    })) { pipes = (codes "log", pane) ∷ [] }

abbrev clock : ℕ → Text
clock n = codes "12:00"

image_frame-delivered_example :
    (logical_lines
        (length (frame_of (codes "png") (codes "x" ∷ []) (codes "y" ∷ [])))
        (frame_of (codes "png") (codes "x" ∷ []) (codes "y" ∷ []))
      ≡ frame_line (codes "x" ∷ []) ∷ logical_lines (length (codes "y" ∷ [])) (codes "y" ∷ []))
    × IsHandledBy
        (clock 0)
        (codes "log")
        pane
        one_pane
        (apply_filters pane.filters (joined (codes "x" ∷ [])))
        (route clock (codes "log") (frame_line (codes "x" ∷ [])) one_pane)
image_frame-delivered_example =
    image_frame-delivered clock (codes "log") (codes "png") (codes "x" ∷ []) (codes "y" ∷ []) pane
      one_pane (unfold text_eq in refl) (unfold text_eq in (refl, tt))
      (unfold joined in (omega arith, (omega arith, tt)))
      (unfold joined in unfold encode in omega arith) (unfold lookup in unfold text_eq in refl)
      pane-IsValid

abbrev server : ServerInfo
server = record { port = pos 7681; pid = pos 42; started_at = []; socket_path = [] }

abbrev registry : RegistryFile
registry =
    some (record { port = pos 7682; pid = pos 43; started_at = []; socket_path = [] } ∷ server ∷ [])

-- Only the default port answers.
abbrev probe : ℤ → Bool
probe p = eqb_ℤ p default_port

abbrev two_actions : Bindings
two_actions =
    (action_window_next, codes "g t" ∷ [])
    ∷ (action_escape, codes "Escape" ∷ codes "Control+c" ∷ [])
    ∷ []

abbrev two_actions_again : Bindings
two_actions_again =
    (action_escape, codes "Escape" ∷ codes "Control+c" ∷ [])
    ∷ (action_window_next, codes "g t" ∷ [])
    ∷ []

same_actions : (a : Text) → lookup a two_actions_again ≡ lookup a two_actions
unfolding lookup
same_actions a = ground (arith, text_eq_iff action_window_next a, text_eq_iff action_escape a)

validate_bindings-lookup_action_example :
    lookup_action two_actions_again (codes "Control+c ") ≡ some action_escape
validate_bindings-lookup_action_example =
    validate_bindings-lookup_action (codes "Control+c ") action_escape
      (codes "Escape" ∷ codes "Control+c" ∷ []) two_actions two_actions_again
      (unfold lookup in unfold text_eq in (refl, (refl, tt))) same_actions
      (unfold validate_bindings in
        unfold validate_all in
        unfold validate_keys in
        unfold lookup in
        unfold insert in
        unfold text_eq in
        unfold trim_space in
        unfold trim_by in unfold leading_space in unfold trailing_space in refl)
      (unfold lookup in unfold text_eq in refl)
      (unfold has_key in
        unfold text_eq in
        unfold trim_space in
        unfold trim_by in unfold leading_space in unfold trailing_space in refl)

abbrev overrides : Bindings
overrides = (action_escape, []) ∷ (action_window_next, codes "Tab" ∷ []) ∷ []

abbrev errors_profile : Profile
errors_profile = record {
  name = codes "errors";
  rules = record { pattern = codes "ERROR"; css_class = codes "red" } ∷ [];
}

abbrev any_pattern : Text → Bool
any_pattern s = true

abbrev two_windows : Cycle
two_windows = record { windows = codes "home" ∷ codes "logs" ∷ []; interval = pos 5; index = 0 }
