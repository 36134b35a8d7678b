-- ===== src/Warmup/Reentry.antt =====
-- The way back into warmup after the death of a warm editor.
use mathlib.Core.Path.{subst}
use godot_mcp.Base.{
  sym, ◌≡◌, ◌≤◌, ◌<◌, ◌-◌, ℕ, Bool, true, false, none, some, arith, ◌∙◌, if◌then◌else◌,
}
use godot_mcp.State.{Proxy, queue_rejected}
use godot_mcp.Queue.Rejects.{Rejected}
use godot_mcp.Warmup.Answered.{timeout_answers}
use godot_mcp.Warmup.Gates.{timing_gates}
use godot_mcp.Spawn.{begin_warm_editor_respawn, record_state, reset_for_respawn}
use godot_mcp.Heal.{RoundInput, run_recovery_round}
use godot_mcp.Warmup.{Settings, Loop, Tick, goes, loop_of, is_timed_out, current_warmup_timeout}
use godot_mcp.Warmup.Rounds.{begin_round, reenter_warmup}

-- What the death of a warm editor leaves for the next warmup.
pub record Reentered (p q : Proxy) : Type 0 where
  pub clock_kept : q.spawn_started_at ≡ p.spawn_started_at
  pub window_unset : q.warmup_timeout_ms ≡ none
  pub not_recovering : q.recovering ≡ false
  pub idle : q.warm_respawn_in_flight ≡ false
  pub shutdown_kept : q.shutdown_requested ≡ p.shutdown_requested

death-in_flight :
    (s : Settings) (p : Proxy)
    → p.warm_respawn_in_flight ≡ false
    → (reset_for_respawn (begin_warm_editor_respawn s.config p)).warm_respawn_in_flight ≡ true
unfolding begin_warm_editor_respawn record_state reset_for_respawn
death-in_flight s p idle = ground (arith, idle)

-- The flag that the death of a warm editor sets makes the recovery round that follows it refuse to
-- run: the way back into warmup is the reset alone, whatever the round would have found.
pub reentry_skips_round :
    (s : Settings) (now : ℕ) (i : RoundInput) (p : Proxy)
    → p.warm_respawn_in_flight ≡ false
    → let reset = reset_for_respawn (begin_warm_editor_respawn s.config p) in
      reenter_warmup s now i (begin_warm_editor_respawn s.config p)
      ≡ record reset { warmth = record (reset.warmth) { warm_respawn_in_flight = false } }
unfolding reenter_warmup run_recovery_round
reentry_skips_round s now i p idle = ground (arith, death-in_flight s p idle)

reset-Reentered :
    (s : Settings) (p : Proxy)
    → p.warm_respawn_in_flight ≡ false
    → let reset = reset_for_respawn (begin_warm_editor_respawn s.config p) in
      Reentered p
        (record reset { warmth = record (reset.warmth) { warm_respawn_in_flight = false } })
unfolding begin_warm_editor_respawn record_state reset_for_respawn
reset-Reentered s p idle = ground (arith, idle)

-- A round that begins with a clock that runs, and with no window yet.
record Begun (s : Settings) (reachable : Bool) (l m : Loop) : Type 0 where
  clock_kept : m.proxy.spawn_started_at ≡ l.proxy.spawn_started_at
  recovery_kept : m.proxy.recovering ≡ l.proxy.recovering
  window_set :
      m.proxy.warmup_timeout_ms
      ≡ some (if reachable then s.hot_warmup_timeout_ms else s.cold_warmup_timeout_ms)

begin_round-Begun :
    (s : Settings) (now : ℕ) (reachable : Bool) (l : Loop)
    → 0 < l.proxy.spawn_started_at
    → l.proxy.warmup_timeout_ms ≡ none
    → l.proxy.shutdown_requested ≡ false
    → Begun s reachable l (begin_round s now reachable l)
unfolding begin_round
begin_round-Begun s now reachable l runs unset running = ground (arith, runs, unset, running)

begin_round-keeps :
    (s : Settings) (now : ℕ) (reachable : Bool) (l : Loop)
    → ((begin_round s now reachable l).proxy.pending_calls ≡ l.proxy.pending_calls)
      × ((begin_round s now reachable l).proxy.effects ≡ l.proxy.effects)
unfolding begin_round
begin_round-keeps s now reachable l = ground arith

timed_out :
    (s : Settings) (k : Tick) (l : Loop) (ms : ℕ)
    → l.proxy.recovering ≡ false
    → l.proxy.warmup_timeout_ms ≡ some ms
    → ms ≤ k.now - l.proxy.spawn_started_at
    → is_timed_out s k l ≡ true
unfolding is_timed_out current_warmup_timeout
timed_out s k l ms calm set over = ground (arith, calm, set, over)

begin_round-over :
    (s : Settings) (now : ℕ) (reachable : Bool) (k : Tick) (l : Loop) (p : Proxy)
    → Reentered p l.proxy
    → 0 < p.spawn_started_at
    → p.shutdown_requested ≡ false
    → s.cold_warmup_timeout_ms ≤ k.now - p.spawn_started_at
    → s.hot_warmup_timeout_ms ≤ k.now - p.spawn_started_at
    → is_timed_out s k (begin_round s now reachable l) ≡ true
begin_round-over s now reachable k l p reentered spawned running cold hot =
    let begun =
      begin_round-Begun s now reachable l (omega (arith, reentered.clock_kept))
        reentered.window_unset (reentered.shutdown_kept ∙ running) in
    timed_out s k (begin_round s now reachable l) _ (begun.recovery_kept ∙ reentered.not_recovering)
      begun.window_set (ground (arith, begun.clock_kept, reentered.clock_kept, cold, hot))

-- A warm editor dies, while no respawn is under way and no shutdown is asked for, and the first tick
-- of the next warmup comes as long after its spawn as the warmup windows or later: the clock of that
-- spawn still runs, so that the window is over at this tick, whether the port is reached or not. The
-- tick's gates on time, run on what the start of the warmup left, enter recovery: each call that was
-- held then and has an id is answered once, in its order, with the rejection whose diagnosis is
-- `recovering`, and the queue is empty. No respawn is under way when the warmup begins.
pub reentry_times_out :
    (s : Settings) (now : ℕ) (i : RoundInput) (reachable : Bool) (k : Tick) (l : Loop) (p : Proxy)
    → p.warm_respawn_in_flight ≡ false
    → 0 < p.spawn_started_at
    → p.shutdown_requested ≡ false
    → s.cold_warmup_timeout_ms ≤ k.now - p.spawn_started_at
    → s.hot_warmup_timeout_ms ≤ k.now - p.spawn_started_at
    → let q = reenter_warmup s now i (begin_warm_editor_respawn s.config p) in
      let begun = begin_round s now reachable (record l { proxy = q }) in
      let m = loop_of (timing_gates s k begun) in
      (q.warm_respawn_in_flight ≡ false)
      × (is_timed_out s k begun ≡ true)
      × (timing_gates s k begun ≡ goes m)
      × (m.proxy.recovering ≡ true)
      × Rejected (queue_rejected "recovering") q.pending_calls q.effects m.proxy
reentry_times_out s now i reachable k l p idle spawned running cold hot =
    let q = reenter_warmup s now i (begin_warm_editor_respawn s.config p) in
    let reentered : Reentered p q =
      subst (λ r. Reentered p r) (sym (reentry_skips_round s now i p idle))
        (reset-Reentered s p idle) in
    let over =
      begin_round-over s now reachable k (record l { proxy = q }) p reentered spawned running cold
        hot in
    let begun = begin_round s now reachable (record l { proxy = q }) in
    let told = timeout_answers s k begun over in
    let kept = begin_round-keeps s now reachable (record l { proxy = q }) in
    let f = queue_rejected "recovering" in
    let last = (loop_of (timing_gates s k begun)).proxy in
    (
      reentered.idle,
      over,
      told.0,
      told.1,
      subst (λ ms. Rejected f ms q.effects last) kept.0
          (subst (λ es. Rejected f begun.proxy.pending_calls es last) kept.1 told.4),
    )
