-- ===== src/Timeouts/Ladder.antt =====
-- The layers of the timeouts answer one before the other, whatever the budget.
use godot_mcp.Base.{ℕ, ◌+◌, ◌≤◌, ◌<◌, ◌≡◌, Bool, Option, some, arith, if◌then◌else◌}
use godot_mcp.Json.{Num, scaled}
use godot_mcp.Timeouts.{
  absolute_ceiling_ms, input_budget_cap_ms, step_budget_cap_ms, derive_timeouts, ready_ms,
  max_in_game_budget_ms, ceil_budget,
}

-- Whatever the budget, a finite number or none, the budget ends before the bridge's wall, the wall
-- and the wait for readiness before the editor's relay, the relay before the server's socket, and
-- that within the ceiling.
pub ladder_ordered :
    (budget : Option Num) (ready_wait : Bool)
    → let d = derive_timeouts budget ready_wait in
      (d.clamped_budget_ms < d.bridge_wall_ms)
      × (ready_ms ready_wait + d.bridge_wall_ms < d.relay_ms)
      × (d.relay_ms < d.server_ms)
      × (d.server_ms ≤ absolute_ceiling_ms)
unfolding derive_timeouts max_in_game_budget_ms ready_ms
ladder_ordered budget ready_wait = ground arith

-- A budget of whole milliseconds within a tool's published cap is not cut, with the wait for
-- readiness up to the cap of the inputs and without it up to that of the steps.
pub published_cap_kept :
    (n : ℕ) (ready_wait : Bool)
    → n ≤ (if ready_wait then input_budget_cap_ms else step_budget_cap_ms)
    → (derive_timeouts (some (scaled n 0)) ready_wait).clamped_budget_ms ≡ n
unfolding derive_timeouts max_in_game_budget_ms ready_ms ceil_budget
published_cap_kept n ready_wait h = ground arith
