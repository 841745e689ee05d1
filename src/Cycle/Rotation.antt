-- ===== src/Cycle/Rotation.antt =====
-- The events of internal/cycle/cycle.go.
use native.Mathlib.Nat.{mod-lt}
use rdw.Common.{
  is_present, Bool-cases, length, get_elem?, All, ℤ, ok, Text, ℕ, zero, suc, ◌+◌, ◌%◌, ◌<◌, ◌≡◌,
  refl, inl, inr, Bool, true, List, [], ◌∷◌, arith,
}
use rdw.Cycle.{Cycle, new_cycle, current_window, tick, tick_events, run_cycle}

abbrev IsInRange : Cycle → Type 0
IsInRange c = c.index < length c.windows

current_window-IsPresent :
    (ws : List Text) (i : ℕ) → i < length ws → is_present (get_elem? ws i) ≡ true
current_window-IsPresent [] i h = absurd (omega arith)
current_window-IsPresent (w ∷ ws) zero h = refl
current_window-IsPresent (w ∷ ws) (suc i) h = current_window-IsPresent ws i (omega arith)

tick_events-present :
    (ticks : List Bool) (c : Cycle)
    → IsInRange c
    → All (λ w. is_present w ≡ true) (tick_events ticks c)
unfolding tick_events tick current_window
tick_events-present [] c h = tt
tick_events-present (b ∷ ticks) c h =
    let next : (c.index + 1) % length c.windows < length c.windows =
      mod-lt (c.index + 1) (omega arith) in
    elim (Bool-cases b) [
      | inl e ↦ rw e (tick_events-present ticks (tick c) next)
      | inr e ↦
          rw e (current_window-IsPresent c.windows _ next, tick_events-present ticks (tick c) next)
    ]

-- A cycle that `New` accepts never indexes outside its windows, whichever events are dropped.
run_cycle-present :
    (windows : List Text) (interval : ℤ) (ticks : List Bool) (c : Cycle)
    → new_cycle windows interval ≡ ok c
    → All (λ w. is_present w ≡ true) (run_cycle ticks c)
unfolding run_cycle new_cycle current_window
run_cycle-present windows interval ticks c h =
    let inside : IsInRange c = ground arith in
    (current_window-IsPresent c.windows c.index inside, tick_events-present ticks c inside)
