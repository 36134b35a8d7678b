-- ===== src/Warmup/Ticks.antt =====
-- launch/proxy/warmup.mjs: one tick of the inner loop, in its warm branch and its probe branch.
use godot_mcp.Base.{
  ℕ, ◌+◌, ◌-◌, ◌==◌, Bool, true, false, ◌&&◌, ◌||◌, not, leb, List, [], ◌∷◌, some, if◌then◌else◌,
}
use godot_mcp.State.{Proxy, queue_rejected}
use godot_mcp.Queue.{reject_queue}
use godot_mcp.Router.{Tools}
use godot_mcp.Router.Flush.{flush_queue, maybe_reject_unready_held}
use godot_mcp.Spawn.{record_state}
use godot_mcp.Warmup.{Settings, Loop, Tick, Turn, goes, leaves, exits, ◌>>=◌, is_capped}
use godot_mcp.Warmup.Gates.{
  set_recovering, enter_warm_recovery, end_capped, warm_failed_exit, timing_gates, is_bind_pending,
  gate_open, is_grace_race, reach_warm,
}

-- A child that stays unconnected during recovery is killed, for its exit to bring up another.
unfoldable pub watch_cli : Settings → Tick → Loop → Loop
watch_cli s k l =
    let p = l.proxy in
    if p.recovering && k.fork_lane && not p.npx_cli_connected
    then (if l.recovering_cli_unconnected_since == 0
        then record l { recovering_cli_unconnected_since = k.now }
        else if leb s.warm_recovering_cli_timeout_ms (k.now - l.recovering_cli_unconnected_since)
            && k.npx_killable
        then record l { recovering_cli_unconnected_since = k.now; npx_kills = l.npx_kills + 1 }
        else l)
    else if p.npx_cli_connected
    then record l { recovering_cli_unconnected_since = 0 }
    else l

-- The held calls once the child is connected: rejected after a recovery, and released otherwise.
unfoldable pub settle_held : Settings → Tools → ℕ → Proxy → Proxy
settle_held s t now p =
    if p.recovering
    then reject_queue (queue_rejected "recovered") p
    else flush_queue s.config t now (maybe_reject_unready_held p)

unfoldable pub flush_connected : Settings → Tools → Tick → Loop → Turn
flush_connected s t k l =
    if not k.fork_lane || l.proxy.npx_cli_connected
    then (let settled = set_recovering false (settle_held s t k.later l.proxy) in
        leaves (record l {
          proxy = record settled { stages = reach_warm s k.later settled.stages };
          warmup_just_completed = s.progress_on || l.warmup_just_completed;
          warm_flushed = true;
        }))
    else goes l

abbrev pub waits : Tick → Loop → Loop
waits k l = record l { proxy = k.during_wait l.proxy }

-- `if (S.recovering && …) { … break; }` of the warm branch.
unfoldable pub warm_cap : Settings → Tick → Loop → Turn
warm_cap s k l = if is_capped s k l then end_capped s k l else goes l

unfoldable pub warm_tick : Settings → Tools → Tick → Loop → Turn
warm_tick s t k l = do
  uncapped ← warm_cap s k (enter_warm_recovery s k l)
  alive ← warm_failed_exit s k uncapped
  flush_connected s t k (waits k (watch_cli s k alive))

-- `probeOkRaw`
unfoldable pub is_probed : Tick → Bool
is_probed k = k.fork_lane || k.probe_ok

unfoldable pub note_probe : Tick → Loop → Loop
note_probe k l = record l {
  last_tcp_ok_at = k.now;
  proxy = record (l.proxy) {
    warmth = record (l.proxy.warmth) {
      first_probe_ok_at =
          if l.proxy.first_probe_ok_at == 0 then k.now else l.proxy.first_probe_ok_at;
    };
  };
}

-- The guard fires: the loop is left for a respawn.
unfoldable pub fire_guard : Loop → Loop
fire_guard l = record l {
  grace_race_guard_fired = true;
  grace_race_respawn = true;
  warm_flushed = false;
  proxy = record (l.proxy) { warmth = record (l.proxy.warmth) { warm = false } };
}

unfoldable pub turn_warm : Settings → Tick → Loop → Loop
turn_warm s k l =
    let p = record (l.proxy) {
      warmth = record (l.proxy.warmth) { warm = true; warm_at = k.now; warm_editor_dead = false };
      npx = record (l.proxy.npx) { pending_handshake = [] };
    } in
    let recorded = record_state s.config "STATE_TRANSITION" (some "WARM") p in
    record l {
      grace_race_guard_fired = false;
      proxy = record recorded { stages = reach_warm s k.now recorded.stages };
    }

-- The flush of a reused editor, whose child is connected.
unfoldable pub flush_hot : Settings → Tools → Tick → Loop → Turn
flush_hot s t k l =
    if not k.fork_lane || (l.proxy.last_spawn_reused && l.proxy.npx_cli_connected)
    then (let ready = maybe_reject_unready_held l.proxy in
        leaves (record l {
          proxy = set_recovering false (
              if ready.recovering
              then reject_queue (queue_rejected "recovered") ready
              else flush_queue s.config t k.now ready);
          warmup_just_completed = s.progress_on || l.warmup_just_completed;
          warm_flushed = true;
        }))
    else goes l

-- A probe that succeeds on an editor that renders: the evidence is weighed.
unfoldable pub weigh_evidence : Settings → Tools → Tick → Loop → Turn
weigh_evidence s t k l =
    let held : Loop = record l {
      proxy = record (l.proxy) {
        warmth = record (l.proxy.warmth) { bind_evidence_hold_active = is_bind_pending k l.proxy };
      };
    } in
    if gate_open k l
    then (if is_grace_race s l
        then leaves (fire_guard held)
        else flush_hot s t k (turn_warm s k held))
    else goes held

unfoldable pub probe_editor : Settings → Tools → Tick → Loop → Turn
probe_editor s t k l =
    if is_probed k
    then (if l.proxy.render_stable
        then weigh_evidence s t k (note_probe k l)
        else goes (note_probe k l))
    else goes l

unfoldable pub probe_tick : Settings → Tools → Tick → Loop → Turn
probe_tick s t k l = do
  probed ← probe_editor s t k (record l { proxy = k.during_probe l.proxy })
  timed ← timing_gates s k probed
  goes (waits k timed)

unfoldable pub tick : Settings → Tools → Tick → Loop → Turn
tick s t k l = if l.proxy.warm then warm_tick s t k l else probe_tick s t k l

-- The condition of the inner loop.
unfoldable pub is_looping : Loop → Bool
is_looping l =
    l.proxy.spawn_triggered
    && not l.warm_flushed
    && not l.proxy.warmup_timed_out
    && not l.proxy.shutdown_requested
    && not l.proxy.spawn_terminal

-- The inner loop, on the ticks that it makes.
unfoldable pub run_ticks : Settings → Tools → List Tick → Loop → Turn
run_ticks s t [] l = goes l
run_ticks s t (k ∷ ks) l =
    if is_looping l
    then elim (tick s t k l) [
      | goes m ↦ run_ticks s t ks m
      | leaves m ↦ leaves m
      | exits m ↦ exits m
    ]
    else leaves l
