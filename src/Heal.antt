-- ===== src/Heal.antt =====
-- launch/proxy/heal.mjs: a recovery round, from its guard to its spawn.
-- What the round reads from files, from the port and from the process table is its input, and so is
-- the outcome of the spawn. The round runs as one step.
mod Rounds
mod Tests
use godot_mcp.Base.{ℕ, String, ◌+◌, Bool, true, false, not, ◌&&◌, Option, none, some, if◌then◌else◌}
use godot_mcp.State.{Proxy, Config, SpawnError, holder_evicted, ensure_started, emit}
use godot_mcp.Spawn.{SpawnOutcome, spawned, reused, broke, apply_outcome}
use godot_mcp.Recovery.{
  Decision, Attribution, Budget, takeover_wait, stop_first, fail_fast, respawn,
  decide_recovery_action, plan_recovery_budget, attribute_holder,
}

-- The lease of the holder, where a missing text is the empty text.
pub record Lease : Type 0 where
  pub lease_runtime_id : String
  pub lease_worktree : String
  pub lease_state : String
  pub released_at : Option String

pub record RoundInput : Type 0 where
  pub lease : Lease
  pub holder_worktree : String
  pub our_worktree : String
  -- Whether the lease names a proxy that lives, and what its command line shows.
  pub holder_pid_alive : Bool
  pub cmdline_match : Option Bool
  pub port_open : Bool
  -- The port after an eviction, and the outcome of the spawn.
  pub still_open : Bool
  pub outcome : SpawnOutcome

-- The command line is probed only for a proxy that lives.
unfoldable pub attribution : Config → RoundInput → Attribution
attribution c i = attribute_holder (record {
  lease_runtime_id = i.lease.lease_runtime_id;
  our_runtime_id = c.runtime_id;
  registry_worktree = i.holder_worktree;
  holder_worktree = i.lease.lease_worktree;
  our_worktree = i.our_worktree;
  ps_cmdline_match = if i.holder_pid_alive then i.cmdline_match else none;
})

unfoldable pub round_decision : Config → RoundInput → Decision
round_decision c i = decide_recovery_action (record {
  port_open = i.port_open;
  holder_proxy_alive = i.holder_pid_alive;
  holder_runtime_id = (attribution c i).runtime_id;
  our_runtime_id = c.runtime_id;
  lease_state = i.lease.lease_state;
  released_at = i.lease.released_at;
  holder_identity_readable = (attribution c i).identity_readable;
})

-- A round that has ended, or whose port is free to spawn on.
pub data Healing : Type 0 where
  refused cleared : Proxy → Healing

unfoldable pub clear_port : Config → RoundInput → Proxy → Healing
clear_port c i p = elim (round_decision c i).action [
  | fail_fast ↦ refused p
  | takeover_wait ↦ refused p
  | stop_first ↦
      let evicted = emit (holder_evicted i.holder_worktree) p in
      if i.still_open then refused evicted else cleared evicted
  | respawn ↦ cleared p
]

-- The spawn succeeds.
unfoldable pub is_success : SpawnOutcome → Bool
is_success spawned = true
is_success reused = true
is_success (broke err) = false

-- `ensureEditor`, awaited, and the count of its failure.
unfoldable pub spawn_round : Config → ℕ → SpawnOutcome → Proxy → Bool × Proxy
spawn_round c now outcome p =
    let started =
      emit ensure_started
        (record p { spawning = record (p.spawning) { spawn_attempts = p.spawn_attempts + 1 } }) in
    (is_success outcome, apply_outcome c now outcome started)

unfoldable pub spawn_cleared : Config → ℕ → SpawnOutcome → Healing → Bool × Proxy
spawn_cleared c now outcome (refused p) = (false, p)
spawn_cleared c now outcome (cleared p) = spawn_round c now outcome p

-- `S.recoveryWindowStart`, anchored at the proxy's start.
unfoldable pub anchor : Proxy → ℕ
anchor p = elim p.recovery_window_start [ none ↦ p.started_at | some t ↦ t ]

unfoldable pub round_budget : Config → ℕ → Proxy → Budget
round_budget c now p = plan_recovery_budget c.failed_exit_ms (anchor p) now

-- The guard is taken, and the window is anchored.
unfoldable pub enter_round : Proxy → Proxy
enter_round p = record p {
  warmth = record (p.warmth) {
    warm_respawn_in_flight = true;
    recovery_window_start = some (anchor p);
  };
}

-- `S.recoveryRound += 1`
unfoldable pub count_round : Proxy → Proxy
count_round p = record p { warmth = record (p.warmth) { recovery_round = p.recovery_round + 1 } }

-- The guarded part of the round.
unfoldable pub guarded_round : Config → ℕ → RoundInput → Proxy → Bool × Proxy
guarded_round c now i p =
    if (round_budget c now p).can_start_round
    then spawn_cleared c now i.outcome (clear_port c i (count_round (enter_round p)))
    else (false, enter_round p)

-- `S.warmRespawnInFlight = false`
unfoldable pub leave_round : Proxy → Proxy
leave_round p = record p { warmth = record (p.warmth) { warm_respawn_in_flight = false } }

unfoldable pub run_recovery_round : Config → ℕ → RoundInput → Proxy → Bool × Proxy
run_recovery_round c now i p =
    if p.warm_respawn_in_flight
    then (false, p)
    else ((guarded_round c now i p).0, leave_round (guarded_round c now i p).1)
