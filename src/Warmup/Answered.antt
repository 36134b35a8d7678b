-- ===== src/Warmup/Answered.antt =====
-- The held calls at the end of the warmup window.
use godot_mcp.Base.{◌≡◌, true, arith}
use godot_mcp.State.{queue_rejected}
use godot_mcp.Queue.Keeps.{reject_queue-warmth}
use godot_mcp.Queue.Rejects.{Rejected, reject_queue_answers}
use godot_mcp.Spawn.{start_render_stable_monitor}
use godot_mcp.Observe.{record_proxy_transition}
use godot_mcp.Warmup.{Settings, Loop, Tick, goes, loop_of, is_timed_out}
use godot_mcp.Warmup.Gates.{enter_cold_recovery, timing_gates, set_recovering}

-- Once the warmup window is over, the gates on time enter recovery: each held call that has an id
-- is answered once, in its order, the queue is empty, the recovery's clock and that of the last
-- probe start now, and the loop goes on.
pub timeout_answers :
    (s : Settings) (k : Tick) (l : Loop)
    → is_timed_out s k l ≡ true
    → let m = loop_of (timing_gates s k l) in
      (timing_gates s k l ≡ goes m)
      × (m.proxy.recovering ≡ true)
      × (m.recovering_entered_at ≡ k.now)
      × (m.last_tcp_ok_at ≡ k.now)
      × Rejected (queue_rejected "recovering") l.proxy.pending_calls l.proxy.effects m.proxy
unfolding timing_gates enter_cold_recovery start_render_stable_monitor record_proxy_transition
timeout_answers s k l over =
    let entered = record_proxy_transition "T2_recovering_enter" (set_recovering true l.proxy) in
    let f = queue_rejected "recovering" in
    ground (arith, over, reject_queue-warmth f entered, reject_queue_answers f entered)
