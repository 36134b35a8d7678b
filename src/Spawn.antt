-- ===== src/Spawn.antt =====
-- launch/proxy/spawn.mjs: the bookkeeping of spawn rounds, their failures and the give-up.
-- The chain that configures and starts the editor is that of Ensure; here its outcome comes back as
-- an error or as a success.
mod Backoff
pub mod Failures
pub mod Cold
use godot_mcp.Base.{
  ℕ, String, ◌+◌, ◌-◌, ◌*◌, ◌^◌, Bool, true, false, not, ◌&&◌, ◌||◌, Option, none, some, ltb, leb,
  ◌==◌, str_eq, non_empty, min, if◌then◌else◌,
}
use godot_mcp.Stages.{Timestamps, no_times, editor_spawned}
use godot_mcp.State.{
  Proxy, Config, SpawnError, queue_rejected, ensure_started, evict_started, state_recorded,
  give_up_persisted, holder_evicted, emit,
}
use godot_mcp.Observe.{record_proxy_transition}
use godot_mcp.Queue.{reject_queue}

-- `startRenderStableMonitor`, but for its timer: without a log the gate is open at once.
unfoldable pub start_render_stable_monitor : Config → Proxy → Proxy
start_render_stable_monitor c p = record p {
  warmth = record (p.warmth) { render_stable = not (non_empty c.editor_log_file) };
}

-- `triggerEnsureEditor`; `ensureEditor` counts its attempt before it first waits.
unfoldable pub trigger_ensure_editor : Proxy → Proxy
trigger_ensure_editor p =
    if p.spawn_in_flight
    then p
    else let noted = record_proxy_transition "T1_warming_enter" p in
      emit ensure_started (record noted {
        spawning = record (p.spawning) {
          spawn_in_flight = true;
          spawn_attempts = p.spawn_attempts + 1;
        };
      })

-- `writeRuntimeState`, when there is a runtime id.
unfoldable pub record_state : Config → String → Option String → Proxy → Proxy
record_state c event state p =
    if non_empty c.runtime_id then emit (state_recorded event state) p else p

unfoldable pub begin_warm_editor_respawn : Config → Proxy → Proxy
begin_warm_editor_respawn c p =
    if p.warm_respawn_in_flight
    then p
    else record_state c "EDITOR_GONE" (some "COLD") (record p {
      warmth = record (p.warmth) {
        warm_respawn_in_flight = true;
        warm_editor_dead = true;
        warm = false;
        recovering = false;
        render_stable = false;
        warmup_timeout_ms = none;
        recovery_round = 0;
        recovery_window_start = none;
      };
      spawning = record (p.spawning) { spawn_triggered = false };
    })

-- The times of a fresh round: only the proxy's own start is known.
abbrev pub fresh_times : Proxy → Timestamps
fresh_times p = record no_times { at_launcher_exec = some p.started_at }

unfoldable pub reset_for_respawn : Proxy → Proxy
reset_for_respawn p = record p {
  warmth = record (p.warmth) {
    render_stable = false;
    warmup_timeout_ms = none;
    first_probe_ok_at = 0;
    bind_evidence_hold_used = false;
    warm_probe_failures = 0;
  };
  spawning = record (p.spawning) { last_spawn_reused = false };
  stages = record (p.stages) { timestamps = fresh_times p; tcp_received_count = 0 };
}

-- `giveUpAndRearm`
unfoldable pub give_up_and_rearm : Config → ℕ → SpawnError → Proxy → Proxy
give_up_and_rearm c now reason p =
    let count = p.give_up_count + 1 in
    let armed = record p {
      spawning = record (p.spawning) {
        spawn_terminal = false;
        give_up_count = count;
        give_up_backoff_ms =
            if count == 1
            then c.giveup_base_cooldown_ms
            else min (p.give_up_backoff_ms * 2) c.giveup_max_cooldown_ms;
        give_up_armed_at = now;
        give_up_last_reason = some reason;
        spawn_last_failed = true;
        spawn_triggered = false;
        spawn_in_flight = false;
        force_restart_count = 0;
        spawn_backoff_until = 0;
      };
      warmth = record (p.warmth) {
        recovering = false;
        warmup_timed_out = false;
        warmup_timeout_ms = none;
        recovery_round = 0;
        recovery_window_start = none;
      };
    } in
    let recorded = record_state c "STATE_TRANSITION" (some "FAILED_CLEAN") armed in
    let restarted =
      start_render_stable_monitor c
        (record recorded { spawning = record (recorded.spawning) { spawn_started_at = 0 } }) in
    record_proxy_transition "T4_give_up_rearm" (emit (give_up_persisted "give_up") restarted)

-- `maybeEscalateDeadHolderEvict`: whether the held record is classified for an eviction.
unfoldable pub maybe_escalate_dead_holder_evict : String → ℕ → Proxy → Proxy
maybe_escalate_dead_holder_evict bucket streak p =
    if ltb streak 2 || p.stale_takeover_in_flight
    then p
    else if not (str_eq bucket "editor_busy")
        && not (str_eq bucket "instance_busy_foreign")
        && not (str_eq bucket "spawn_failed_start")
    then p
    else emit evict_started
        (record p { spawning = record (p.spawning) { stale_takeover_in_flight = true } })

-- `(err && err.bucket) || 'spawn_failed_exception'`
abbrev pub bucket_of : SpawnError → String
bucket_of err = if non_empty err.bucket then err.bucket else "spawn_failed_exception"

-- `bucket === S.spawnFailedBucket`
abbrev pub is_bucket : String → Option String → Bool
is_bucket b none = false
is_bucket b (some a) = str_eq b a

-- `Math.min(base * 2 ** (streak - 1), max)`
unfoldable pub spawn_backoff_ms : Config → ℕ → ℕ
spawn_backoff_ms c streak =
    min (c.spawn_retry_backoff_ms * 2 ^ (streak - 1)) c.giveup_max_cooldown_ms

-- The streak of failures in one bucket.
unfoldable pub count_failure : SpawnError → Proxy → Proxy
count_failure err p = record p {
  spawning = record (p.spawning) {
    spawn_failed_streak =
        if is_bucket (bucket_of err) p.spawn_failed_bucket then p.spawn_failed_streak + 1 else 1;
    spawn_failed_bucket = some (bucket_of err);
    spawn_last_error = some err;
  };
}

-- The end of the streak: the rest of `handleSpawnFailure` at the limit.
unfoldable pub exhaust_streak : Config → ℕ → SpawnError → Proxy → Proxy
exhaust_streak c now err p =
    let refused = reject_queue (queue_rejected "FAILED_CLEAN") p in
    if c.giveup_rearm_enabled
    then give_up_and_rearm c now (record { bucket = bucket_of err; detail = err.detail }) refused
    else record_proxy_transition "spawn_terminal" (record refused {
      spawning = record (refused.spawning) { spawn_terminal = true; spawn_last_failed = true };
    })

-- A failure below the limit: a backoff window, and the diagnostic for the next call.
unfoldable pub arm_backoff : Config → ℕ → SpawnError → Proxy → Proxy
arm_backoff c now err p =
    let armed = record p {
      spawning = record (p.spawning) {
        spawn_backoff_until = now + spawn_backoff_ms c p.spawn_failed_streak;
        spawn_last_failed = true;
      };
    } in
    let refused = reject_queue (queue_rejected "spawn_failed") armed in
    record refused {
      spawning = record (refused.spawning) { spawn_triggered = false; spawn_in_flight = false };
    }

-- `handleSpawnFailure`
unfoldable pub handle_spawn_failure : Config → ℕ → SpawnError → Proxy → Proxy
handle_spawn_failure c now err p =
    let counted = count_failure err p in
    let escalated =
      maybe_escalate_dead_holder_evict (bucket_of err) counted.spawn_failed_streak counted in
    if leb c.spawn_max_attempts escalated.spawn_failed_streak
    then exhaust_streak c now err escalated
    else arm_backoff c now err escalated

-- How the chain that `ensureEditor` runs ends; its record on disk is left out.
pub data SpawnOutcome : Type 0 where
  spawned reused : SpawnOutcome
  broke : SpawnError → SpawnOutcome

-- What `ensureEditor` keeps of a success, and what its callers do with a failure.
unfoldable pub apply_outcome : Config → ℕ → SpawnOutcome → Proxy → Proxy
apply_outcome c now spawned p = record p {
  spawning = record (p.spawning) { last_spawn_reused = false; spawn_last_failed = false };
}
apply_outcome c now reused p = record p {
  spawning = record (p.spawning) { last_spawn_reused = true; spawn_last_failed = false };
}
apply_outcome c now (broke err) p = handle_spawn_failure c now err p

-- The settlement of the promise that `triggerEnsureEditor` starts.
unfoldable pub settle_ensure_editor : Config → ℕ → SpawnOutcome → Proxy → Proxy
settle_ensure_editor c now outcome p =
    let handled = apply_outcome c now outcome p in
    record handled { spawning = record (handled.spawning) { spawn_in_flight = false } }
