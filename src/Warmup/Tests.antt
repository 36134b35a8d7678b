-- ===== src/Warmup/Tests.antt =====
-- The theorems of the warmup at concrete inputs.
use godot_mcp.Spawn.{reset_for_respawn, begin_warm_editor_respawn}
use godot_mcp.Warmup.Rounds.{reenter_warmup, begin_round}
use godot_mcp.Warmup.Reentry.{reentry_skips_round, reentry_times_out}
use godot_mcp.Base.{◌≡◌, true, false, none, some, [], ◌∷◌, refl, arith}
use godot_mcp.State.{Proxy, queue_rejected}
use godot_mcp.Queue.Rejects.{Rejected}
use godot_mcp.Spawn.{spawned}
use godot_mcp.Warmup.{
  Settings, Loop, Tick, goes, loop_of, is_capped, is_timed_out, current_warmup_timeout,
}
use godot_mcp.Warmup.Gates.{timing_gates, gate_open, is_grace_race}
use godot_mcp.Warmup.Ticks.{warm_tick, probe_editor, fire_guard}
use godot_mcp.Warmup.Rounds.{respawn_after_guard}
use godot_mcp.Warmup.Capped.{Closed, cap_closes_recovery}
use godot_mcp.Warmup.Evidence.{IsUnproven, unproven_stays_cold, stale_delay_opens_gate}
use godot_mcp.Warmup.Liveness.{IsWatched}
use godot_mcp.Samples.{config, fresh, warmed, node_call, plain_tools}

abbrev settings : Settings
settings = record {
  config = config;
  cold_warmup_timeout_ms = 300000;
  hot_warmup_timeout_ms = 60000;
  recovering_hard_cap_ms = 600000;
  warm_recovering_cli_timeout_ms = 60000;
  grace_race_guard_enabled = true;
  grace_race_bind_ms = 150000;
  warm_liveness_enabled = true;
  warm_liveness_failures = 3;
  progress_on = true;
}

abbrev late : Tick
late = record {
  now = 900000;
  later = 901000;
  fork_lane = true;
  probe_ok = false;
  handoff_warm = false;
  npx_killable = true;
  our_worktree = "/w";
  round = record {
    lease = record {
      lease_runtime_id = "rt";
      lease_worktree = "/w";
      lease_state = "active";
      released_at = none;
    };
    holder_worktree = "/w";
    our_worktree = "/w";
    holder_pid_alive = false;
    cmdline_match = none;
    port_open = true;
    still_open = false;
    outcome = spawned;
  };
  during_probe = λ p. p;
  during_wait = λ p. p;
}

abbrev spawning : Proxy
spawning = record fresh {
  spawning = record (fresh.spawning) {
    spawn_triggered = true;
    spawn_started_at = 1000;
    spawn_attempts = 1;
  };
  pending_calls = node_call ∷ [];
}

abbrev loop_with : Proxy → Loop
loop_with p = record {
  proxy = p;
  last_tcp_ok_at = 1000;
  recovering_entered_at = 1000;
  recovering_cli_unconnected_since = 0;
  grace_race_guard_fired = false;
  grace_race_respawn = false;
  log_tail_available = false;
  warmup_just_completed = false;
  cold_mode = true;
  warm_flushed = false;
  npx_kills = 0;
}

abbrev grinding : Loop
grinding = loop_with (record spawning { warmth = record (fresh.warmth) { recovering = true } })

grinding-capped : is_capped settings late grinding ≡ true
unfolding is_capped
grinding-capped = refl

cap_closes_recovery_example :
    Closed settings (warm_tick settings plain_tools late grinding)
    × Closed settings (timing_gates settings late grinding)
cap_closes_recovery_example =
    cap_closes_recovery settings plain_tools late grinding grinding-capped refl (omega arith)

abbrev booting : Loop
booting = loop_with spawning

booting-over : is_timed_out settings late booting ≡ true
unfolding is_timed_out current_warmup_timeout
booting-over = refl

booting-IsUnproven : IsUnproven late booting.proxy
booting-IsUnproven = record {
  forked = refl;
  not_handed = refl;
  not_reused = refl;
  not_connected = refl;
  no_bind = refl;
  no_handshake = refl;
}

unproven_stays_cold_example :
    let m = loop_of (probe_editor settings plain_tools late booting) in
    (probe_editor settings plain_tools late booting ≡ goes m)
    × (m.proxy.warm ≡ booting.proxy.warm)
    × (m.proxy.pending_calls ≡ booting.proxy.pending_calls)
    × (m.proxy.effects ≡ booting.proxy.effects)
unproven_stays_cold_example =
    unproven_stays_cold settings plain_tools late booting booting-IsUnproven

-- An editor that took 200 seconds to bind.
abbrev slow : Loop
slow =
    loop_with
      (record spawning { stages = record (fresh.stages) { ws_bind_ok_delay_ms = some 200000 } })

slow-race : is_grace_race settings slow ≡ true
unfolding is_grace_race
slow-race = refl

stale_delay_opens_gate_example :
    gate_open late (respawn_after_guard settings "/w" (fire_guard slow)) ≡ true
stale_delay_opens_gate_example = stale_delay_opens_gate settings late "/w" slow slow-race

warmed-IsWatched : IsWatched settings warmed
warmed-IsWatched = record {
  running = refl;
  not_terminal = refl;
  is_warm = refl;
  not_dead = refl;
  enabled = refl;
  not_held = refl;
  not_connected = refl;
}

-- An editor that has been warm for a quarter of an hour.
abbrev aged : Proxy
aged = record warmed { spawning = record (fresh.spawning) { spawn_started_at = 1000 } }

reentry_skips_round_example :
    let reset = reset_for_respawn (begin_warm_editor_respawn config aged) in
    reenter_warmup settings 899000 late.round (begin_warm_editor_respawn config aged)
    ≡ record reset { warmth = record (reset.warmth) { warm_respawn_in_flight = false } }
reentry_skips_round_example = reentry_skips_round settings 899000 late.round aged refl

reentry_times_out_example :
    let q = reenter_warmup settings 899000 late.round (begin_warm_editor_respawn config aged) in
    let begun = begin_round settings 899000 false (record booting { proxy = q }) in
    let m = loop_of (timing_gates settings late begun) in
    (q.warm_respawn_in_flight ≡ false)
    × (is_timed_out settings late begun ≡ true)
    × (timing_gates settings late begun ≡ goes m)
    × (m.proxy.recovering ≡ true)
    × Rejected (queue_rejected "recovering") q.pending_calls q.effects m.proxy
reentry_times_out_example =
    reentry_times_out settings 899000 late.round false late booting aged refl (omega arith) refl
      (omega arith) (omega arith)
