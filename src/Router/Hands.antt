-- ===== src/Router/Hands.antt =====
-- What the gate of `handleClaudeMessage` hands to the child, and when.
use godot_mcp.Base.{
  ℕ, ◌+◌, ◌≡◌, ◌∙◌, refl, Bool, true, false, not, ◌&&◌, ◌||◌, none, some, Option, String, List, [],
  ◌∷◌, arith, length, length-append, is_some, if◌then◌else◌, ◌-◌,
}
use godot_mcp.Message.{CallId, Message}
use godot_mcp.State.{
  Proxy, Config, Effect, written, dropped, Failure, spawn_given_up, give_up_cooldown, spawn_backoff,
  spawn_failed, still_recovering, warmup_timeout,
}
use godot_mcp.Protocol.{forward_to_npx}
use godot_mcp.Observe.{record_proxy_transition, note_proxy_call_summary}
use godot_mcp.Queue.{drop_tools_call_id}
use godot_mcp.Spawn.{trigger_ensure_editor, record_state}
use godot_mcp.Router.{Flow, stop, go, ◌>>=◌, result}
use godot_mcp.Router.Kinds.{is_restart_tools_call}
use godot_mcp.Router.Gate.{
  refuse, rearm, start_spawn, keep_progress_token, spawn_gate, warm_gate, cold_gate, gate,
  failure_gate, hold_gate, give_up_gate, begin_restart_hold, record_call_event, cooldown_left,
}

-- A line for the child.
abbrev line_weight : Effect → ℕ
line_weight (written m) = 1
line_weight (dropped m) = 1
line_weight _ = 0

unfoldable pub line_weights : List Effect → ℕ
line_weights [] = 0
line_weights (e ∷ es) = line_weight e + line_weights es

-- The lines handed on to the child: written, dropped for want of one, or buffered.
unfoldable pub handed : Proxy → ℕ
unfolding line_weights
handed p = line_weights p.effects + length p.npx_write_buffer

forward_hands : (m : Message) (p : Proxy) → handed (forward_to_npx m p) ≡ handed p + 1
unfolding handed forward_to_npx
forward_hands m p = ground (arith, length-append p.npx_write_buffer (m ∷ []))

drop_hands : (i : Option CallId) (p : Proxy) → handed (drop_tools_call_id i p) ≡ handed p
unfolding handed drop_tools_call_id
drop_hands none p = refl
drop_hands (some i) p = refl

refuse_hands : (m : Message) (f : Failure) (p : Proxy) → handed (refuse m f p) ≡ handed p
unfolding handed refuse
refuse_hands m f p = ground (arith, drop_hands m.id p)

begin_hands :
    (c : Config) (now : ℕ) (m : Message) (p : Proxy)
    → handed (begin_restart_hold c now m p) ≡ handed p + 1
unfolding handed begin_restart_hold forward_to_npx
begin_hands c now m p = ground (arith, length-append p.npx_write_buffer (m ∷ []))

record_call_hands :
    (c : Config) (e : String) (p : Proxy) → handed (record_call_event c e p) ≡ handed p
unfolding handed record_call_event record_state
record_call_hands c e p = ground arith

rearm_hands : (p : Proxy) → handed (rearm p) ≡ handed p
unfolding handed rearm record_proxy_transition
rearm_hands p = omega arith

trigger_hands : (p : Proxy) → handed (trigger_ensure_editor p) ≡ handed p
unfolding handed trigger_ensure_editor record_proxy_transition
trigger_hands p = ground arith

keep_progress_token_hands : (m : Message) (p : Proxy) → handed (keep_progress_token m p) ≡ handed p
unfolding handed keep_progress_token
keep_progress_token_hands m p = ground arith

start_spawn_hands : (m : Message) (p : Proxy) → handed (start_spawn m p) ≡ handed p
unfolding handed start_spawn
start_spawn_hands m p =
    let cleared = record p { spawning = record (p.spawning) { spawn_backoff_until = 0 } } in
    let kept = keep_progress_token m cleared in
    trigger_hands (record kept { spawning = record (kept.spawning) { spawn_triggered = true } })
    ∙ keep_progress_token_hands m cleared

-- One for a line that is handed on.
unfoldable pub count : Bool → ℕ
count true = 1
count false = 0

-- A step that hands nothing on.
abbrev Keeps : Flow Proxy → ℕ → Type 0
Keeps (stop q) n = handed q ≡ n
Keeps (go q) n = handed q ≡ n

Keeps-then :
    (x : Flow Proxy) (f : Proxy → Flow Proxy) (k n : ℕ)
    → Keeps x k
    → k ≡ n
    → ((q : Proxy) → handed q ≡ n → handed (result (f q)) ≡ n)
    → handed (result (x >>= f)) ≡ n
Keeps-then (stop q) f k n h e later = h ∙ e
Keeps-then (go q) f k n h e later = later q (h ∙ e)

if_hands :
    (b : Bool) (x y : Proxy) (n : ℕ) → handed x ≡ n → handed y ≡ n → handed (if b then x else y) ≡ n
if_hands true x y n h k = h
if_hands false x y n h k = k

module _ (c : Config) (now : ℕ) (m : Message) where
  give_up-Keeps : (p : Proxy) → Keeps (give_up_gate c now m p) (handed p)
  unfolding give_up_gate
  give_up-Keeps p = ground (
    arith,
    rearm_hands p,
    refuse_hands m (spawn_given_up p.spawn_failed_bucket) p,
    refuse_hands m (give_up_cooldown p.give_up_count (cooldown_left now p)) p,
  )

  spawn-Keeps : (p : Proxy) → Keeps (spawn_gate now m p) (handed p)
  unfolding spawn_gate
  spawn-Keeps p =
      ground (
        arith,
        start_spawn_hands m p,
        refuse_hands m (spawn_backoff (p.spawn_backoff_until - now)) p,
      )

  failure-Keeps : (p : Proxy) → Keeps (failure_gate m p) (handed p)
  unfolding handed failure_gate
  failure-Keeps p = ground (
    arith,
    refuse_hands m (spawn_failed p.spawn_last_error) (record p {
      spawning = record (p.spawning) { spawn_last_failed = false; spawn_last_error = none };
    }),
  )

  hold_hands : (p : Proxy) → handed (hold_gate m p) ≡ handed p
  unfolding handed hold_gate note_proxy_call_summary
  hold_hands p =
      ground (
        arith,
        drop_hands m.id p,
        refuse_hands m still_recovering p,
        refuse_hands m warmup_timeout p,
      )

  cold_hands : (p : Proxy) → handed (cold_gate c now m p) ≡ handed p
  unfolding handed cold_gate
  cold_hands p = if_hands (is_some p.restart_hold) _ _ _ refl (
      Keeps-then (give_up_gate c now m p) _ (handed p) (handed p) (give_up-Keeps p) refl λ armed e.
        Keeps-then (spawn_gate now m armed) _ (handed armed) (handed p) (spawn-Keeps armed) e
          λ spawned e.
            Keeps-then (failure_gate m spawned) _ (handed spawned) (handed p)
              (failure-Keeps spawned) e λ q e. hold_hands q ∙ e)

  warm_hands :
      (p : Proxy)
      → handed (warm_gate c now m p)
        ≡ handed p
          + count
              (not (is_some p.restart_hold) && (is_restart_tools_call m || p.npx_transport_ready))
  unfolding handed warm_gate count
  warm_hands p = ground (
    arith,
    begin_hands c now m p,
    forward_hands m (record_call_event c "CALL_BEGIN" p),
    record_call_hands c "CALL_BEGIN" p,
  )

  -- The gate hands a call on to the child, or drops it for want of one, exactly when the editor is
  -- warm, no restart is under way, and the call is the restart itself or the transport is ready;
  -- otherwise it hands on nothing.
  pub gate_hands :
      (p : Proxy)
      → handed (gate c now m p)
        ≡ handed p
          + count (
              p.warm
              && not (is_some p.restart_hold)
              && (is_restart_tools_call m || p.npx_transport_ready))
  unfolding gate count
  gate_hands p = ground (arith, cold_hands p, warm_hands p)
