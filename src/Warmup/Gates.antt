-- ===== src/Warmup/Gates.antt =====
-- launch/proxy/warmup.mjs: the gates of a tick on time, shared by its branches, and the gate that
-- opens on evidence of an editor that serves.
use godot_mcp.Base.{
  ℕ, ◌-◌, Bool, true, false, ◌&&◌, ◌||◌, not, leb, ltb, Option, some, none, is_some, if◌then◌else◌,
}
use godot_mcp.Stages.{StageState, set_time, warm, mcp_initialized}
use godot_mcp.State.{Proxy, queue_rejected}
use godot_mcp.Observe.{record_proxy_transition}
use godot_mcp.Queue.{reject_queue}
use godot_mcp.Spawn.{
  record_state, give_up_and_rearm, begin_warm_editor_respawn, start_render_stable_monitor,
}
use godot_mcp.Spawn.Cold.{force_cold_restart}
use godot_mcp.Heal.{run_recovery_round}
use godot_mcp.Warmup.{
  Settings, Loop, Tick, Turn, goes, leaves, exits, is_timed_out, is_capped, is_serving,
}

abbrev pub set_recovering : Bool → Proxy → Proxy
set_recovering b p = record p { warmth = record (p.warmth) { recovering = b } }

-- T2 of the warm branch.
unfoldable pub enter_warm_recovery : Settings → Tick → Loop → Loop
enter_warm_recovery s k l =
    if is_timed_out s k l
    then record l {
      recovering_entered_at = k.now;
      last_tcp_ok_at = k.now;
      proxy = reject_queue (queue_rejected "recovering") (
          record_proxy_transition "T2_recovering_enter" (
            record_state s.config "STATE_TRANSITION" (some "RECOVERING")
              (set_recovering true l.proxy)));
    }
    else l

-- T2 of the probe branch: the render gate has to be proven again.
unfoldable pub enter_cold_recovery : Settings → Tick → Loop → Loop
enter_cold_recovery s k l =
    let entered = record_proxy_transition "T2_recovering_enter" (set_recovering true l.proxy) in
    record l {
      recovering_entered_at = k.now;
      last_tcp_ok_at = k.now;
      proxy =
          start_render_stable_monitor s.config (reject_queue (queue_rejected "recovering") entered);
    }

-- The absolute cap: an editor that provably serves is left alone, and any other is restarted, or
-- given up once the restarts are used up.
unfoldable pub end_capped : Settings → Tick → Loop → Turn
end_capped s k l =
    let p = l.proxy in
    if is_serving p
    then leaves
        (record l { proxy = record_proxy_transition "r2_event_override" (set_recovering false p) })
    else let refused = reject_queue (queue_rejected "failed_exit") p in
      if ltb p.force_restart_count s.config.spawn_max_attempts
      then leaves
          (record l { proxy = (force_cold_restart s.config k.now k.our_worktree refused).1 })
      else leaves (record l {
        proxy =
            give_up_and_rearm s.config k.now
              (record { bucket = "recovering_hard_cap"; detail = "RECOVERING hard cap" }) refused;
      })

-- T4 without a give-up: the process ends.
unfoldable pub exit_failed : Loop → Turn
exit_failed l =
    let noted = record_proxy_transition "T4_failed_exit" l.proxy in
    exits (record l {
      proxy = record noted { warmth = record (noted.warmth) { warmup_timed_out = true } };
    })

abbrev pub not_timed_out : Proxy → Proxy
not_timed_out p = record p { warmth = record (p.warmth) { warmup_timed_out = false } }

-- T4 of the warm branch.
unfoldable pub warm_failed_exit : Settings → Tick → Loop → Turn
warm_failed_exit s k l =
    let p = l.proxy in
    if p.recovering && leb s.config.failed_exit_ms (k.now - l.recovering_entered_at)
    then (let refused = reject_queue (queue_rejected "failed_exit") p in
        if s.config.giveup_rearm_enabled
        then leaves (record l {
          proxy =
              give_up_and_rearm s.config k.now
                (record {
                  bucket = "warm_recovering_failed_exit";
                  detail = "warm+recovering FAILED_EXIT";
                })
                (begin_warm_editor_respawn s.config (not_timed_out refused));
        })
        else exit_failed (record l { proxy = refused }))
    else goes l

-- T4 of the probe branch: a recovery round comes first.
unfoldable pub cold_failed_exit : Settings → Tick → Loop → Turn
cold_failed_exit s k l =
    let round = run_recovery_round s.config k.now k.round l.proxy in
    if round.0
    then goes (record l { proxy = round.1 })
    else let refused = reject_queue (queue_rejected "failed_exit") round.1 in
      if s.config.giveup_rearm_enabled
      then leaves (record l {
        proxy =
            give_up_and_rearm s.config k.now
              (record { bucket = "recovering_failed_exit"; detail = "sustained probe failure" })
              (not_timed_out refused);
      })
      else exit_failed (record l { proxy = refused })

-- The gates on time of the probe branch.
unfoldable pub timing_gates : Settings → Tick → Loop → Turn
timing_gates s k l =
    if is_timed_out s k l
    then goes (enter_cold_recovery s k l)
    else if is_capped s k l
    then end_capped s k l
    else if l.proxy.recovering && leb s.config.failed_exit_ms (k.now - l.last_tcp_ok_at)
    then cold_failed_exit s k l
    else goes l

-- `bindEvidencePending`
unfoldable pub is_bind_pending : Tick → Proxy → Bool
is_bind_pending k p =
    not (is_some p.stages.ws_bind_ok_delay_ms)
    && ltb 0 p.first_probe_ok_at
    && ltb (k.now - p.first_probe_ok_at) 1500

-- `gateOpen`
unfoldable pub gate_open : Tick → Loop → Bool
gate_open k l =
    let p = l.proxy in
    not (is_bind_pending k p)
    && (p.last_spawn_reused
        || k.handoff_warm
        || (not l.log_tail_available && not k.fork_lane)
        || (k.fork_lane && p.npx_cli_connected)
        || is_some p.stages.ws_bind_ok_delay_ms
        || (is_some p.stages.timestamps.at_server_listening
            && is_some p.stages.timestamps.at_ws_handshake))

-- A bind delay over the limit.
abbrev pub is_slow : ℕ → Option ℕ → Bool
is_slow limit none = false
is_slow limit (some ms) = ltb limit ms

-- The guard that evicts an editor whose bind took too long.
unfoldable pub is_grace_race : Settings → Loop → Bool
is_grace_race s l =
    let p = l.proxy in
    s.grace_race_guard_enabled
    && not p.last_spawn_reused
    && not l.grace_race_guard_fired
    && ltb 0 p.spawn_attempts
    && not (is_some p.stages.timestamps.at_ws_handshake)
    && is_slow s.grace_race_bind_ms p.stages.ws_bind_ok_delay_ms
    && ltb p.spawn_attempts s.config.spawn_max_attempts

-- The last stage, where the progress protocol is on; MCP_INITIALIZED is filled in behind it.
unfoldable pub reach_warm : Settings → ℕ → StageState → StageState
reach_warm s now st =
    if s.progress_on
    then (let t =
          if is_some st.timestamps.at_warm
          then st.timestamps
          else set_time warm now st.timestamps in
        record st {
          stage = warm;
          timestamps =
              if is_some t.at_ws_handshake && not (is_some t.at_mcp_initialized)
              then set_time mcp_initialized now t
              else t;
        })
    else st
