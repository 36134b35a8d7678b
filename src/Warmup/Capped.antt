-- ===== src/Warmup/Capped.antt =====
-- The absolute cap of a recovery.
use mathlib.Core.Path.{subst}
use godot_mcp.Router.{Tools}
use godot_mcp.Queue.Rejects.{reject_queue_answers}
use godot_mcp.Warmup.{is_timed_out}
use godot_mcp.Warmup.Gates.{enter_warm_recovery, timing_gates}
use godot_mcp.Warmup.Ticks.{warm_cap, warm_tick}
use godot_mcp.Base.{
  sym, true, false, ◌⊎◌, [], ℕ, String, ◌+◌, ◌≤◌, ◌≡◌, false, arith, true, ◌⊎◌, [],
}
use godot_mcp.State.{Proxy, Config, SpawnError, queue_rejected}
use godot_mcp.Observe.{record_proxy_transition}
use godot_mcp.Queue.{reject_queue}
use godot_mcp.Queue.Keeps.{reject_queue-spawning, reject_queue-warmth}
use godot_mcp.Spawn.{
  give_up_and_rearm, record_state, start_render_stable_monitor, trigger_ensure_editor,
}
use godot_mcp.Spawn.Cold.{force_cold_restart}
use godot_mcp.Warmup.{
  Settings, Loop, Tick, Turn, leaves, loop_of, is_capped, is_timed_out, is_serving,
}
use godot_mcp.Warmup.Gates.{end_capped, timing_gates}

force-closed :
    (c : Config) (now : ℕ) (w : String) (p : Proxy)
    → p.warm_respawn_in_flight ≡ false
    → ((force_cold_restart c now w p).1.recovering ≡ false)
      × ((force_cold_restart c now w p).1.pending_calls ≡ p.pending_calls)
      × ((force_cold_restart c now w p).1.force_restart_count ≡ p.force_restart_count + 1)
unfolding force_cold_restart trigger_ensure_editor start_render_stable_monitor
    record_proxy_transition
force-closed c now w p idle = ground (arith, idle)

give_up-closed :
    (c : Config) (now : ℕ) (e : SpawnError) (p : Proxy)
    → ((give_up_and_rearm c now e p).recovering ≡ false)
      × ((give_up_and_rearm c now e p).pending_calls ≡ p.pending_calls)
      × ((give_up_and_rearm c now e p).force_restart_count ≡ 0)
unfolding give_up_and_rearm record_proxy_transition record_state start_render_stable_monitor
give_up-closed c now e p = ground arith

-- A recovery that is closed, whose forced restarts stay within their number.
pub record Closed (s : Settings) (t : Turn) : Type 0 where
  pub closed : (loop_of t).proxy.recovering ≡ false
  pub within : (loop_of t).proxy.force_restart_count ≤ s.config.spawn_max_attempts
  pub broken : t ≡ leaves (loop_of t)

end_capped-Closed :
    (s : Settings) (k : Tick) (l : Loop)
    → l.proxy.warm_respawn_in_flight ≡ false
    → l.proxy.force_restart_count ≤ s.config.spawn_max_attempts
    → Closed s (end_capped s k l)
unfolding end_capped record_proxy_transition
end_capped-Closed s k l idle within =
    let f = queue_rejected "failed_exit" in
    let refused = reject_queue f l.proxy in
    let kept = reject_queue-spawning f l.proxy in
    let warmed = reject_queue-warmth f l.proxy in
    ground (
      arith,
      idle,
      within,
      kept,
      warmed,
      force-closed s.config k.now k.our_worktree refused,
      give_up-closed s.config k.now
          (record { bucket = "recovering_hard_cap"; detail = "RECOVERING hard cap" }) refused,
    )

-- Once capped, both branches do the same.
warm_tick-capped :
    (s : Settings) (t : Tools) (k : Tick) (l : Loop)
    → is_capped s k l ≡ true
    → warm_tick s t k l ≡ end_capped s k l
unfolding warm_tick warm_cap enter_warm_recovery is_timed_out is_capped end_capped
warm_tick-capped s t k l capped = ground (arith, capped)

timing_gates-capped :
    (s : Settings) (k : Tick) (l : Loop)
    → is_capped s k l ≡ true
    → timing_gates s k l ≡ end_capped s k l
unfolding timing_gates is_timed_out is_capped
timing_gates-capped s k l capped = ground (arith, capped)

-- A recovery that has lasted to its absolute cap is closed by the next tick, in the warm branch
-- and in the gates on time of the probe branch alike: the tick breaks out of the loop, and the
-- forced restarts stay within their number; no respawn is under way.
pub cap_closes_recovery :
    (s : Settings) (t : Tools) (k : Tick) (l : Loop)
    → is_capped s k l ≡ true
    → l.proxy.warm_respawn_in_flight ≡ false
    → l.proxy.force_restart_count ≤ s.config.spawn_max_attempts
    → Closed s (warm_tick s t k l) × Closed s (timing_gates s k l)
cap_closes_recovery s t k l capped idle within =
    let ended = end_capped-Closed s k l idle within in
    (
      subst (λ r. Closed s r) (sym (warm_tick-capped s t k l capped)) ended,
      subst (λ r. Closed s r) (sym (timing_gates-capped s k l capped)) ended,
    )

-- At the cap an editor that serves, with a handshake in its log and a connected child, is spared:
-- nothing is evicted or answered, and the queue is kept. Otherwise no call stays in the queue.
pub cap_spares_serving :
    (s : Settings) (k : Tick) (l : Loop)
    → is_capped s k l ≡ true
    → l.proxy.warm_respawn_in_flight ≡ false
    → let q = (loop_of (timing_gates s k l)).proxy in
      ((is_serving l.proxy ≡ true)
        × (q.effects ≡ l.proxy.effects)
        × (q.pending_calls ≡ l.proxy.pending_calls)
        × (q.force_restart_count ≡ l.proxy.force_restart_count))
      ⊎ ((is_serving l.proxy ≡ false) × (q.pending_calls ≡ []))
unfolding end_capped record_proxy_transition
cap_spares_serving s k l capped idle =
    let f = queue_rejected "failed_exit" in
    let refused = reject_queue f l.proxy in
    ground (
      arith,
      timing_gates-capped s k l capped,
      idle,
      reject_queue-warmth f l.proxy,
      reject_queue_answers f l.proxy,
      force-closed s.config k.now k.our_worktree refused,
      give_up-closed s.config k.now
          (record { bucket = "recovering_hard_cap"; detail = "RECOVERING hard cap" }) refused,
    )
