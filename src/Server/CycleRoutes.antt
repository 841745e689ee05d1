-- ===== src/Server/CycleRoutes.antt =====
-- The focus-cycle routes of internal/server/routes.go, and what is done with a cycle's event.
use rdw.Common.{
  if◌then◌else◌, pos_part, leb_ℤ, to_int64, ℤ, pos, Result, ok, err, Text, codes, ◌*◌, ◌%◌, ◌^◌,
  true, false, not, Option, List,
}
use rdw.Session.Manager.{Manager, SessionError, focus_window}
use rdw.Cycle.{Cycle, CycleError, new_cycle}
use rdw.Server.{
  Server, said, by_cycle, CycleView, cycle_body, Answer, api_error, write_header, json_response,
  broadcast_layout_update, with_body,
}
use rdw.Server.Windows.{set_manager}

pub record CycleBody : Type 0 where
  pub windows : List Text
  pub interval_ms : ℤ

abbrev cycle_interval_of : ℤ → ℤ
cycle_interval_of i = if leb_ℤ i (pos 0) then pos 5000 else i

-- `time.Duration(n) * time.Millisecond`, in 64 bits, for an interval that is positive.
abbrev millis : ℤ → ℤ
millis i = to_int64 (pos_part i * 1000000 % 2 ^ 64)

abbrev pub cycle_view : Server → CycleView
cycle_view s = record {
  running = s.is_cycling;
  windows = s.cycle_windows;
  interval_ms = s.cycle_interval;
}

-- A cycle that runs is cancelled before the new one starts.
abbrev pub started : CycleBody → Result CycleError Cycle → Server → Answer
started b (err e) s = api_error 400 (by_cycle e) s
started b (ok c) s =
    let s' = record s {
      is_cycling = true;
      cycle_windows = b.windows;
      cycle_interval = cycle_interval_of b.interval_ms;
    } in
    json_response (cycle_body (cycle_view s')) s'

unfoldable pub handle_cycle_start : Option CycleBody → Server → Answer
handle_cycle_start body =
    with_body body (λ b. started b (new_cycle b.windows (millis (cycle_interval_of b.interval_ms))))

unfoldable pub handle_cycle_stop : Server → Answer
handle_cycle_stop s =
    if not s.is_cycling
    then api_error 409 (said (codes "no cycle running")) s
    else write_header 204 (record s { is_cycling = false })

unfoldable pub handle_cycle_status : Server → Answer
handle_cycle_status s = json_response (cycle_body (cycle_view s)) s

abbrev pub focused : Manager × Result SessionError Unit → Server → Server
focused (m, err e) s = set_manager m s
focused (m, ok tt) s = broadcast_layout_update (set_manager m s)

-- One round of the goroutine over the events of a cycle: a window that is gone is passed over.
unfoldable pub cycle_event : Text → Server → Server
cycle_event n s = focused (focus_window n s.manager) s
