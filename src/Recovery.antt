-- ===== src/Recovery.antt =====
-- launch/see1325-recovery.mjs: the decisions of the embedded recovery round.
-- Arguments that the source gives as an object are a record; a missing text is the empty text, the
-- source's default, and `released_at` is an option.
mod Decisions
mod Rounds
mod Tests
use godot_mcp.Base.{
  ℕ, ◌-◌, ◌/◌, String, Bool, true, false, not, ◌&&◌, ◌||◌, Option, none, some, ltb, leb, str_eq,
  non_empty, truthy, if◌then◌else◌,
}

-- `RECOVERY_ROUND_WORST_MS`
abbrev pub recovery_round_worst_ms : ℕ
recovery_round_worst_ms = 90000

pub data Action : Type 0 where
  takeover_wait stop_first fail_fast respawn : Action

pub data Reason : Type 0 where
  port_closed holder_identity_unreadable live_proxy_same_runtime live_proxy_foreign_runtime : Reason
  dead_proxy_foreign_runtime own_runtime_lease_released own_runtime_half_dead_active_lease : Reason

-- The diagnostic text of a refusal is left out; it names the same facts as the reason.
pub record Decision : Type 0 where
  pub action : Action
  pub reason : Reason
  pub evict : Bool

pub record RecoveryInput : Type 0 where
  pub port_open : Bool
  pub holder_proxy_alive : Bool
  pub holder_runtime_id : String
  pub our_runtime_id : String
  pub lease_state : String
  pub released_at : Option String
  pub holder_identity_readable : Bool

-- `sameRuntime`
abbrev pub same_runtime : RecoveryInput → Bool
same_runtime i = non_empty i.holder_runtime_id && str_eq i.holder_runtime_id i.our_runtime_id

-- `leaseState === 'released' || releasedAt`
abbrev pub lease_released : RecoveryInput → Bool
lease_released i = str_eq i.lease_state "released" || truthy i.released_at

unfoldable pub decide_recovery_action : RecoveryInput → Decision
decide_recovery_action i =
    if not i.port_open
    then record { action = respawn; reason = port_closed; evict = false }
    else if not i.holder_identity_readable
    then record { action = fail_fast; reason = holder_identity_unreadable; evict = false }
    else if i.holder_proxy_alive && same_runtime i
    then record { action = takeover_wait; reason = live_proxy_same_runtime; evict = false }
    else if i.holder_proxy_alive || (non_empty i.holder_runtime_id && not (same_runtime i))
    then record {
      action = fail_fast;
      reason =
          if i.holder_proxy_alive then live_proxy_foreign_runtime else dead_proxy_foreign_runtime;
      evict = false;
    }
    else if lease_released i
    then record { action = respawn; reason = own_runtime_lease_released; evict = false }
    else record { action = stop_first; reason = own_runtime_half_dead_active_lease; evict = true }

pub record Budget : Type 0 where
  pub total_ms : ℕ
  pub remaining_ms : ℕ
  pub can_start_round : Bool
  pub max_rounds : ℕ

-- `Math.max(0, a - b)` is the truncated subtraction.
unfoldable pub plan_recovery_budget : ℕ → ℕ → ℕ → Budget
plan_recovery_budget failed_exit_ms started_at now =
    let elapsed = now - started_at in
    let remaining = failed_exit_ms - elapsed in
    record {
      total_ms = failed_exit_ms;
      remaining_ms = remaining;
      can_start_round = leb recovery_round_worst_ms remaining;
      max_rounds = if ltb 0 failed_exit_ms then failed_exit_ms / recovery_round_worst_ms else 0;
    }

pub data Channel : Type 0 where
  file_cross_check ps_cmdline no_channel : Channel

pub record Attribution : Type 0 where
  pub identity_readable : Bool
  pub runtime_id : String
  pub worktree_matches : Bool
  pub channel : Channel

pub record AttributionInput : Type 0 where
  pub lease_runtime_id : String
  pub our_runtime_id : String
  pub registry_worktree : String
  pub holder_worktree : String
  pub our_worktree : String
  pub ps_cmdline_match : Option Bool

-- The fallback to the process's command line, when the files do not attribute the holder.
unfoldable pub attribute_by_ps : AttributionInput → Option Bool → Attribution
attribute_by_ps i (some true) = record {
  identity_readable = true;
  runtime_id = i.our_runtime_id;
  worktree_matches = true;
  channel = ps_cmdline;
}
attribute_by_ps i (some false) = record {
  identity_readable = true;
  runtime_id = if non_empty i.lease_runtime_id then i.lease_runtime_id else "unknown-legacy";
  worktree_matches = false;
  channel = ps_cmdline;
}
attribute_by_ps i none = record {
  identity_readable = false;
  runtime_id = "";
  worktree_matches = false;
  channel = no_channel;
}

unfoldable pub attribute_holder : AttributionInput → Attribution
unfolding attribute_by_ps
attribute_holder i =
    if non_empty i.lease_runtime_id && non_empty i.registry_worktree && non_empty i.holder_worktree
    then record {
      identity_readable = true;
      runtime_id = i.lease_runtime_id;
      worktree_matches =
          str_eq i.holder_worktree i.our_worktree || str_eq i.registry_worktree i.holder_worktree;
      channel = file_cross_check;
    }
    else attribute_by_ps i i.ps_cmdline_match
