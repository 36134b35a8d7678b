-- ===== src/Router/Accounts.antt =====
-- Every call with an id is answered, queued, or handed on, once.
use godot_mcp.Base.{
  ℕ, ◌+◌, ◌≡◌, ◌∙◌, ap, Bool, true, false, if◌then◌else◌, refl, Option, none, some, List, [], ◌∷◌,
  arith, length, length-append, is_some, String, ◌-◌, false,
}
use godot_mcp.Message.{CallId, Message}
use godot_mcp.State.{
  Proxy, Config, Effect, written, dropped, sent, ui_inspect_started, auto_step_started, Failure,
  emit, RestartHold, ack_pending, spawn_given_up, give_up_cooldown, spawn_backoff, spawn_failed,
  still_recovering, warmup_timeout,
}
use godot_mcp.Router.{Flow, stop, go, ◌>>=◌, result}
use godot_mcp.Protocol.{forward_to_npx}
use godot_mcp.Observe.{record_proxy_transition, note_proxy_call_summary}
use godot_mcp.Queue.{drop_tools_call_id}
use godot_mcp.Spawn.{trigger_ensure_editor, record_state}
use godot_mcp.Router.Gate.{
  refuse, hold_call, rearm, start_spawn, spawn_gate, warm_gate, failure_gate, hold_gate,
  give_up_gate, begin_restart_hold, record_call_event, cooldown_left, keep_progress_token,
  cold_gate, gate,
}

-- What an effect does for the call that it stands for.
abbrev pub weight : Effect → ℕ
weight (written m) = 1
weight (dropped m) = 1
weight (sent i a) = 1
weight (ui_inspect_started m) = 1
weight (auto_step_started i) = 1
weight _ = 0

unfoldable pub weights : List Effect → ℕ
weights [] = 0
weights (e ∷ es) = weight e + weights es

-- The lines that the proxy has answered or handed on, holds in its queue, or buffers for the child.
unfoldable pub settled : Proxy → ℕ
unfolding weights
settled p = weights p.effects + length p.pending_calls + length p.npx_write_buffer

pub forward_settles : (m : Message) (p : Proxy) → settled (forward_to_npx m p) ≡ settled p + 1
unfolding settled forward_to_npx
forward_settles m p = ground (arith, length-append p.npx_write_buffer (m ∷ []))

hold_settles : (m : Message) (p : Proxy) → settled (hold_call m p) ≡ settled p + 1
unfolding settled
hold_settles m p = omega (arith, length-append p.pending_calls (m ∷ []))

emit_settles : (e : Effect) (p : Proxy) → settled (emit e p) ≡ weight e + settled p
unfolding settled
emit_settles e p = omega arith

record_state_settles :
    (c : Config) (e : String) (s : Option String) (p : Proxy)
    → settled (record_state c e s p) ≡ settled p
unfolding settled record_state
record_state_settles c e s p = ground arith

drop_settles : (i : Option CallId) (p : Proxy) → settled (drop_tools_call_id i p) ≡ settled p
unfolding settled drop_tools_call_id
drop_settles none p = refl
drop_settles (some i) p = refl

pub refuse_settles :
    (m : Message) (f : Failure) (p : Proxy)
    → is_some m.id ≡ true
    → settled (refuse m f p) ≡ settled p + 1
unfolding refuse
refuse_settles m f p h = ground (
  arith,
  drop_settles m.id p,
  emit_settles (sent m.id (godot_mcp.State.error_answer f)) (drop_tools_call_id m.id p),
)

rearm_settles : (p : Proxy) → settled (rearm p) ≡ settled p
unfolding settled rearm record_proxy_transition
rearm_settles p = omega arith

trigger_settles : (p : Proxy) → settled (trigger_ensure_editor p) ≡ settled p
unfolding settled trigger_ensure_editor record_proxy_transition
trigger_settles p = ground arith

keep_progress_token_settles :
    (m : Message) (p : Proxy) → settled (keep_progress_token m p) ≡ settled p
unfolding settled keep_progress_token
keep_progress_token_settles m p = ground arith

start_spawn_settles : (m : Message) (p : Proxy) → settled (start_spawn m p) ≡ settled p
unfolding settled start_spawn
start_spawn_settles m p =
    let cleared = record p { spawning = record (p.spawning) { spawn_backoff_until = 0 } } in
    let kept = keep_progress_token m cleared in
    trigger_settles (record kept { spawning = record (kept.spawning) { spawn_triggered = true } })
    ∙ keep_progress_token_settles m cleared

-- A handler that returns has settled its call, and one that goes on has not.
abbrev pub Passes : Flow Proxy → ℕ → Type 0
Passes (stop q) n = settled q ≡ n + 1
Passes (go q) n = settled q ≡ n

-- A step that passes, before one that settles its call.
pub Passes-then :
    (x : Flow Proxy) (f : Proxy → Flow Proxy) (k n : ℕ)
    → Passes x k
    → k ≡ n
    → ((q : Proxy) → settled q ≡ n → settled (result (f q)) ≡ n + 1)
    → settled (result (x >>= f)) ≡ n + 1
Passes-then (stop q) f k n h e later = omega arith
Passes-then (go q) f k n h e later = later q (h ∙ e)

pub if_settles :
    (b : Bool) (x y : Proxy) (n : ℕ)
    → settled x ≡ n
    → settled y ≡ n
    → settled (if b then x else y) ≡ n
if_settles true x y n h k = h
if_settles false x y n h k = k

restart_hold_settles :
    (h : Option RestartHold) (p : Proxy) → settled (record p { restart_hold = h }) ≡ settled p
unfolding settled
restart_hold_settles h p = refl

record_call_event_settles :
    (c : Config) (e : String) (p : Proxy) → settled (record_call_event c e p) ≡ settled p
unfolding record_call_event
record_call_event_settles c e p = record_state_settles c e none p

module _ (c : Config) (now : ℕ) (m : Message) (named : is_some m.id ≡ true) where
  begin_restart_hold_settles : (p : Proxy) → settled (begin_restart_hold c now m p) ≡ settled p + 1
  unfolding begin_restart_hold
  begin_restart_hold_settles p = ground (
    arith,
    forward_settles m (record p {
      restart_hold = some (record {
        hold_id = m.id;
        phase = ack_pending;
        deadline = now + c.restart_hold_timeout_ms;
      });
    }),
    restart_hold_settles
        (some (record {
          hold_id = m.id;
          phase = ack_pending;
          deadline = now + c.restart_hold_timeout_ms;
        }))
        p,
  )

  warm_gate_settles : (p : Proxy) → settled (warm_gate c now m p) ≡ settled p + 1
  unfolding warm_gate
  warm_gate_settles p = ground (
    arith,
    hold_settles m p,
    begin_restart_hold_settles p,
    forward_settles m (record_call_event c "CALL_BEGIN" p),
    record_call_event_settles c "CALL_BEGIN" p,
  )

  give_up_gate-Passes : (p : Proxy) → Passes (give_up_gate c now m p) (settled p)
  unfolding give_up_gate
  give_up_gate-Passes p = ground (
    arith,
    rearm_settles p,
    refuse_settles m (spawn_given_up p.spawn_failed_bucket) p named,
    refuse_settles m (give_up_cooldown p.give_up_count (cooldown_left now p)) p named,
  )

  spawn_gate-Passes : (p : Proxy) → Passes (spawn_gate now m p) (settled p)
  unfolding spawn_gate
  spawn_gate-Passes p = ground (
    arith,
    start_spawn_settles m p,
    refuse_settles m (spawn_backoff (p.spawn_backoff_until - now)) p named,
  )

  failure_gate-Passes : (p : Proxy) → Passes (failure_gate m p) (settled p)
  unfolding settled failure_gate
  failure_gate-Passes p = ground (
    arith,
    refuse_settles m (spawn_failed p.spawn_last_error)
        (record p {
          spawning = record (p.spawning) { spawn_last_failed = false; spawn_last_error = none };
        })
        named,
  )

  hold_gate_settles : (p : Proxy) → settled (hold_gate m p) ≡ settled p + 1
  unfolding settled hold_gate note_proxy_call_summary
  hold_gate_settles p = ground (
    arith,
    drop_settles m.id p,
    refuse_settles m still_recovering p named,
    refuse_settles m warmup_timeout p named,
    length-append p.pending_calls (m ∷ []),
  )

  cold_gate_settles : (p : Proxy) → settled (cold_gate c now m p) ≡ settled p + 1
  unfolding cold_gate
  cold_gate_settles p = if_settles (is_some p.restart_hold) _ _ _ (hold_settles m p) (
      Passes-then (give_up_gate c now m p) _ (settled p) (settled p) (give_up_gate-Passes p) refl
        λ armed e.
          Passes-then (spawn_gate now m armed) _ (settled armed) (settled p)
            (spawn_gate-Passes armed) e
            λ spawned e.
              Passes-then (failure_gate m spawned) _ (settled spawned) (settled p)
                (failure_gate-Passes spawned) e λ q e. hold_gate_settles q ∙ ap (λ n. n + 1) e)

  pub gate_settles : (p : Proxy) → settled (gate c now m p) ≡ settled p + 1
  unfolding gate
  gate_settles p = if_settles p.warm _ _ _ (warm_gate_settles p) (cold_gate_settles p)
