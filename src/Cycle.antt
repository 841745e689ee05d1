-- ===== src/Cycle.antt =====
-- internal/cycle/cycle.go: the rotation of focus over windows. A tick's event is dropped where the
-- consumer is slow.
pub mod Rotation
use rdw.Common.{
  ◌==◌, if◌then◌else◌, length, get_elem?, leb_ℤ, ℤ, pos, Result, ok, err, Text, ℕ, ◌+◌, ◌%◌, Bool,
  Option, List, [], ◌∷◌,
}

pub record Cycle : Type 0 where
  pub windows : List Text
  pub interval : ℤ
  pub index : ℕ

pub data CycleError : Type 0 where
  no_windows bad_interval : CycleError

pub new_cycle : List Text → ℤ → Result CycleError Cycle
new_cycle windows interval =
    if length windows == 0
    then err no_windows
    else if leb_ℤ interval (pos 0)
    then err bad_interval
    else ok (record { windows = windows; interval = interval; index = 0 })

-- `c.windows[c.index]`; `none` is a fault.
pub current_window : Cycle → Option Text
current_window c = get_elem? c.windows c.index

pub tick : Cycle → Cycle
tick c = record c { index = (c.index + 1) % length c.windows }

-- The events of `Run` up to cancellation: the first window, then one of each tick that is not dropped.
pub tick_events : List Bool → Cycle → List (Option Text)
tick_events [] c = []
tick_events (is_slow ∷ ticks) c =
    let rest = tick_events ticks (tick c) in
    if is_slow then rest else current_window (tick c) ∷ rest

pub run_cycle : List Bool → Cycle → List (Option Text)
run_cycle ticks c = current_window c ∷ tick_events ticks c
