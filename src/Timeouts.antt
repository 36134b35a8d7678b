-- ===== src/Timeouts.antt =====
-- server/src/connection/timeouts.ts: the timeouts of a command, derived from the budget in the game
-- that its tool declares. A budget that is not a finite number is `none`.
pub mod Ladder
use godot_mcp.Base.{ℕ, ◌+◌, ◌-◌, ◌/◌, ◌^◌, Bool, Option, none, some, min, if◌then◌else◌}
use godot_mcp.Json.{Num, scaled, negative}

abbrev pub absolute_ceiling_ms : ℕ
absolute_ceiling_ms = 60000

abbrev pub ready_wait_ms : ℕ
ready_wait_ms = 10000

abbrev pub bridge_wall_slop_ms : ℕ
bridge_wall_slop_ms = 5000

abbrev pub relay_margin_ms : ℕ
relay_margin_ms = 2000

abbrev pub server_margin_ms : ℕ
server_margin_ms = 2000

abbrev pub fixed_overhead_ms : ℕ
fixed_overhead_ms = bridge_wall_slop_ms + relay_margin_ms + server_margin_ms

pub record DerivedTimeouts : Type 0 where
  pub bridge_wall_ms : ℕ
  pub relay_ms : ℕ
  pub server_ms : ℕ
  pub clamped_budget_ms : ℕ

unfoldable pub ready_ms : Bool → ℕ
ready_ms ready_wait = if ready_wait then ready_wait_ms else 0

unfoldable pub max_in_game_budget_ms : Bool → ℕ
max_in_game_budget_ms ready_wait = absolute_ceiling_ms - fixed_overhead_ms - ready_ms ready_wait

-- `Math.max(Number.isFinite(x) ? Math.ceil(x) : 0, 0)`
unfoldable pub ceil_budget : Option Num → ℕ
ceil_budget none = 0
ceil_budget (some (scaled n k)) = (n + (2 ^ k - 1)) / 2 ^ k
ceil_budget (some (negative n k)) = 0

unfoldable pub derive_timeouts : Option Num → Bool → DerivedTimeouts
derive_timeouts budget ready_wait =
    let clamped = min (ceil_budget budget) (max_in_game_budget_ms ready_wait) in
    let wall = clamped + bridge_wall_slop_ms in
    let relay = ready_ms ready_wait + wall + relay_margin_ms in
    record {
      bridge_wall_ms = wall;
      relay_ms = relay;
      server_ms = relay + server_margin_ms;
      clamped_budget_ms = clamped;
    }

-- The published caps of the tools.
abbrev pub step_budget_cap_ms : ℕ
step_budget_cap_ms = 50000

abbrev pub input_budget_cap_ms : ℕ
input_budget_cap_ms = 40000

abbrev pub exec_budget_cap_ms : ℕ
exec_budget_cap_ms = 30000
