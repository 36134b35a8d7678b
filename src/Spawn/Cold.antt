-- ===== src/Spawn/Cold.antt =====
-- launch/proxy/spawn.mjs: the forced restart of our own editor.
use godot_mcp.Base.{ℕ, String, ◌+◌, Bool, true, false, none, non_empty, if◌then◌else◌}
use godot_mcp.Stages.{editor_spawned}
use godot_mcp.State.{Proxy, Config, holder_evicted, emit}
use godot_mcp.Spawn.{trigger_ensure_editor, start_render_stable_monitor, fresh_times}

-- `forceColdRestart`: the eviction of our own editor, where our worktree is known, the reset, and a
-- new spawn round; the wait for the port is left out. It is refused while a respawn is under way.
unfoldable pub force_cold_restart : Config → ℕ → String → Proxy → Bool × Proxy
force_cold_restart c now our_worktree p =
    if p.warm_respawn_in_flight
    then (false, p)
    else let evicted = if non_empty our_worktree then emit (holder_evicted our_worktree) p else p in
      let reset : Proxy = record evicted {
        warmth = record (p.warmth) {
          warm = false;
          recovering = false;
          warm_editor_dead = false;
          warmup_timeout_ms = none;
          first_probe_ok_at = 0;
          bind_evidence_hold_used = false;
          warm_respawn_in_flight = false;
        };
        spawning = record (p.spawning) {
          force_restart_count = p.force_restart_count + 1;
          last_spawn_reused = false;
          spawn_started_at = now;
          spawn_attempts = 0;
        };
        stages = record (p.stages) {
          stage = editor_spawned;
          timestamps = fresh_times p;
          tcp_received_count = 0;
        };
      } in
      (true, trigger_ensure_editor (start_render_stable_monitor c reset))
