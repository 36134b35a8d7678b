-- ===== src/Warmup/Rounds.antt =====
-- launch/proxy/warmup.mjs: the start of a warmup round, the respawn after the guard, the probe of a
-- warm editor, and the way back into warmup after its death.
use godot_mcp.Base.{
  ℕ, String, ◌+◌, Bool, false, ◌||◌, not, ltb, ◌==◌, some, none, is_some, if◌then◌else◌,
}
use godot_mcp.Stages.{editor_spawned}
use godot_mcp.State.{Proxy, holder_evicted, emit}
use godot_mcp.Spawn.{
  start_render_stable_monitor, trigger_ensure_editor, begin_warm_editor_respawn, reset_for_respawn,
  fresh_times,
}
use godot_mcp.Heal.{RoundInput, run_recovery_round}
use godot_mcp.Warmup.{Settings, Loop}

-- The start of a round: its clock, and its window by whether a probe reached the port.
unfoldable pub begin_round : Settings → ℕ → Bool → Loop → Loop
begin_round s now reachable l =
    let p = l.proxy in
    let clocked : Proxy =
      if p.spawn_started_at == 0
      then record p {
        spawning = record (p.spawning) { spawn_started_at = now };
        stages = record (p.stages) {
          timestamps = record (p.stages.timestamps) { at_editor_spawned = some now };
        };
      }
      else p in
    let classified : Loop =
      if is_some clocked.warmup_timeout_ms || clocked.shutdown_requested
      then record l { proxy = clocked }
      else record l {
        cold_mode = if s.progress_on then not reachable else l.cold_mode;
        proxy = record clocked {
          warmth = record (clocked.warmth) {
            warmup_timeout_ms =
                some (if reachable then s.hot_warmup_timeout_ms else s.cold_warmup_timeout_ms);
          };
        };
      } in
    record classified { last_tcp_ok_at = classified.proxy.spawn_started_at; warm_flushed = false }

-- After the guard: our own slow editor is evicted and another is spawned; the wait for the port is
-- left out.
unfoldable pub respawn_after_guard : Settings → String → Loop → Loop
respawn_after_guard s our_worktree l =
    if l.grace_race_respawn
    then (let p = l.proxy in
        let reset : Proxy = record p {
          warmth = record (p.warmth) {
            warmup_timeout_ms = none;
            first_probe_ok_at = 0;
            bind_evidence_hold_used = false;
          };
          spawning = record (p.spawning) { last_spawn_reused = false };
          stages = record (p.stages) {
            stage = editor_spawned;
            timestamps = fresh_times p;
            tcp_received_count = 0;
          };
        } in
        let evicted =
          emit (holder_evicted our_worktree) (start_render_stable_monitor s.config reset) in
        record l {
          grace_race_respawn = false;
          proxy =
              trigger_ensure_editor
                (record evicted { spawning = record (evicted.spawning) { spawn_attempts = 0 } });
        })
    else l

-- `warmLivenessProbe`, with the outcome of its probe.
unfoldable pub warm_liveness_probe : Settings → Bool → Proxy → Proxy
warm_liveness_probe s ok p =
    if p.shutdown_requested
      || p.spawn_terminal
      || not p.warm
      || p.warm_editor_dead
      || not s.warm_liveness_enabled
    then p
    else if is_some p.restart_hold || p.npx_cli_connected
    then p
    else if ok
    then record p { warmth = record (p.warmth) { warm_probe_failures = 0 } }
    else (let counted : Proxy = record p {
      warmth = record (p.warmth) { warm_probe_failures = p.warm_probe_failures + 1 };
    } in
        if ltb counted.warm_probe_failures s.warm_liveness_failures
        then counted
        else begin_warm_editor_respawn s.config counted)

-- `runWarmupLoop`, from the death of a warm editor to the next warmup.
unfoldable pub reenter_warmup : Settings → ℕ → RoundInput → Proxy → Proxy
reenter_warmup s now i p =
    let healed = (run_recovery_round s.config now i (reset_for_respawn p)).1 in
    record healed { warmth = record (healed.warmth) { warm_respawn_in_flight = false } }
