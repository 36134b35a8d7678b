-- ===== src/Warmup/Evidence.antt =====
-- What the gate asks for before an editor counts as warm, and before one is evicted as slow.
use godot_mcp.Spawn.{trigger_ensure_editor, start_render_stable_monitor}
use godot_mcp.Observe.{record_proxy_transition}
use godot_mcp.Base.{ap, ◌∙◌, ◌≡◌, ◌⊎◌, true, false, none, arith, String, is_some}
use godot_mcp.State.{Proxy}
use godot_mcp.Router.{Tools}
use godot_mcp.Warmup.{Settings, Loop, Tick, goes, loop_of}
use godot_mcp.Warmup.Gates.{gate_open, is_grace_race, is_bind_pending}
use godot_mcp.Warmup.Ticks.{
  probe_editor, weigh_evidence, note_probe, is_probed, fire_guard, flush_hot, turn_warm,
}
use godot_mcp.Warmup.Rounds.{respawn_after_guard}

-- An editor of the fork's lane of which nothing is known: it is neither reused nor handed over, its
-- child is not connected, and its log shows neither a bind nor a handshake.
pub record IsUnproven (k : Tick) (p : Proxy) : Type 0 where
  pub forked : k.fork_lane ≡ true
  pub not_handed : k.handoff_warm ≡ false
  pub not_reused : p.last_spawn_reused ≡ false
  pub not_connected : p.npx_cli_connected ≡ false
  pub no_bind : p.stages.ws_bind_ok_delay_ms ≡ none
  pub no_handshake : p.stages.timestamps.at_ws_handshake ≡ none

-- On the fork's lane a probe, which always succeeds there, proves nothing of an editor that is
-- neither reused nor handed over, whose child is not connected, and whose log shows neither a bind
-- nor a handshake: whether that log can be read or not, the loop goes on, the editor is as warm as it
-- was, and no call is released or answered.
pub unproven_stays_cold :
    (s : Settings) (t : Tools) (k : Tick) (l : Loop)
    → IsUnproven k l.proxy
    → let m = loop_of (probe_editor s t k l) in
      (probe_editor s t k l ≡ goes m)
      × (m.proxy.warm ≡ l.proxy.warm)
      × (m.proxy.pending_calls ≡ l.proxy.pending_calls)
      × (m.proxy.effects ≡ l.proxy.effects)
unfolding probe_editor weigh_evidence note_probe gate_open is_probed
unproven_stays_cold s t k l unproven = ground (arith, unproven)

flush_hot-respawn :
    (s : Settings) (t : Tools) (k : Tick) (l : Loop)
    → (loop_of (flush_hot s t k l)).grace_race_respawn ≡ l.grace_race_respawn
unfolding flush_hot
flush_hot-respawn s t k l = ground arith

weigh_evidence-respawn :
    (s : Settings) (t : Tools) (k : Tick) (l : Loop)
    → is_grace_race s l ≡ false
    → (loop_of (weigh_evidence s t k l)).grace_race_respawn ≡ l.grace_race_respawn
unfolding weigh_evidence turn_warm
weigh_evidence-respawn s t k l calm =
    let held : Loop = record l {
      proxy = record (l.proxy) {
        warmth = record (l.proxy.warmth) { bind_evidence_hold_active = is_bind_pending k l.proxy };
      };
    } in
    ground (arith, calm, flush_hot-respawn s t k (turn_warm s k held))

-- The guard against a slow bind spares an editor whose log shows a handshake, one of which the log
-- shows no bind, and one that follows an eviction of the same round.
guard_spares :
    (s : Settings) (t : Tools) (k : Tick) (l : Loop)
    → (is_some l.proxy.stages.timestamps.at_ws_handshake ≡ true)
      ⊎ (l.proxy.stages.ws_bind_ok_delay_ms ≡ none)
      ⊎ (l.grace_race_guard_fired ≡ true)
    → (loop_of (probe_editor s t k l)).grace_race_respawn ≡ l.grace_race_respawn
unfolding probe_editor is_grace_race note_probe
guard_spares s t k l spared = ground (arith, spared, weigh_evidence-respawn s t k (note_probe k l))

delay-gate_open :
    (k : Tick) (l : Loop) → is_some l.proxy.stages.ws_bind_ok_delay_ms ≡ true → gate_open k l ≡ true
unfolding gate_open is_bind_pending
delay-gate_open k l known = ground (arith, known)

grace_race-delay :
    (s : Settings) (l : Loop)
    → is_grace_race s l ≡ true
    → is_some l.proxy.stages.ws_bind_ok_delay_ms ≡ true
unfolding is_grace_race
grace_race-delay s l race = ground (arith, race)

trigger_ensure_editor-stages : (p : Proxy) → (trigger_ensure_editor p).stages ≡ p.stages
unfolding trigger_ensure_editor record_proxy_transition
trigger_ensure_editor-stages p = ground arith

respawn_after_guard-delay :
    (s : Settings) (our_worktree : String) (l : Loop)
    → (respawn_after_guard s our_worktree (fire_guard l)).proxy.stages.ws_bind_ok_delay_ms
      ≡ l.proxy.stages.ws_bind_ok_delay_ms
unfolding respawn_after_guard fire_guard start_render_stable_monitor
respawn_after_guard-delay s our_worktree l =
    ap (λ st. st.ws_bind_ok_delay_ms) (trigger_ensure_editor-stages _)

-- The guard's respawn keeps the bind delay of the editor that it evicts: the gate is open at once
-- for the next editor, before that has logged anything.
pub stale_delay_opens_gate :
    (s : Settings) (k : Tick) (our_worktree : String) (l : Loop)
    → is_grace_race s l ≡ true
    → gate_open k (respawn_after_guard s our_worktree (fire_guard l)) ≡ true
stale_delay_opens_gate s k our_worktree l race =
    delay-gate_open k (respawn_after_guard s our_worktree (fire_guard l))
      (ap is_some (respawn_after_guard-delay s our_worktree l) ∙ grace_race-delay s l race)
