-- ===== src/Router/Gate.antt =====
-- The gate of `handleClaudeMessage`: what becomes of a tools/call once it is tracked.
use godot_mcp.Base.{
  ℕ, String, ◌+◌, ◌-◌, true, false, not, ◌&&◌, ◌||◌, none, some, [], ◌∷◌, ◌++◌, ltb, leb, is_some,
  if◌then◌else◌, Option, Bool,
}
use godot_mcp.Json.{Json, null, get_in}
use godot_mcp.Message.{Message}
use godot_mcp.State.{
  Proxy, Config, ack_pending, Failure, spawn_given_up, give_up_cooldown, spawn_backoff,
  spawn_failed, still_recovering, warmup_timeout, respawn_hint, sent, emit, give_up_persisted, held,
}
use godot_mcp.Protocol.{forward_to_npx, send_error}
use godot_mcp.Observe.{record_proxy_transition, note_proxy_call_summary}
use godot_mcp.Queue.{drop_tools_call_id}
use godot_mcp.Spawn.{trigger_ensure_editor, record_state}
use godot_mcp.Router.{Flow, stop, go, ◌>>=◌, result}
use godot_mcp.Router.Kinds.{is_restart_tools_call}

-- `if (id !== undefined) { dropToolsCallId(id); sendToClaude(makeErrorResponse(id, …)) }`
unfoldable pub refuse : Message → Failure → Proxy → Proxy
refuse m f p = if is_some m.id then send_error m.id f (drop_tools_call_id m.id p) else p

-- `S.pendingCalls.push(line)`
abbrev pub hold_call : Message → Proxy → Proxy
hold_call m p = record p { pending_calls = p.pending_calls ++ m ∷ [] }

-- `beginRestartHold`, but for its timer.
unfoldable pub begin_restart_hold : Config → ℕ → Message → Proxy → Proxy
begin_restart_hold c now m p = forward_to_npx m (record p {
  restart_hold =
      some (record {
        hold_id = m.id;
        phase = ack_pending;
        deadline = now + c.restart_hold_timeout_ms;
      });
})

-- `recordCallEvent`
unfoldable pub record_call_event : Config → String → Proxy → Proxy
record_call_event c kind p = record_state c kind none p

-- The branch of a warm editor.
unfoldable pub warm_gate : Config → ℕ → Message → Proxy → Proxy
warm_gate c now m p =
    if is_restart_tools_call m
    then (if is_some p.restart_hold then hold_call m p else begin_restart_hold c now m p)
    else if is_some p.restart_hold
    then hold_call m p
    else if not p.npx_transport_ready
    then hold_call m p
    else forward_to_npx m (record_call_event c "CALL_BEGIN" p)

-- The end of the give-up cooldown, or none where no give-up is armed; a negative rest is 0.
abbrev pub cooldown_left : ℕ → Proxy → ℕ
cooldown_left now p =
    if ltb 0 p.give_up_armed_at then p.give_up_armed_at + p.give_up_backoff_ms - now else 0

-- The warmup is armed again after the cooldown.
unfoldable pub rearm : Proxy → Proxy
rearm p = record_proxy_transition "give_up_rearm" (
    emit (give_up_persisted "rearm") (record p {
      spawning = record (p.spawning) {
        give_up_armed_at = 0;
        spawn_failed_streak = 0;
        spawn_failed_bucket = none;
        spawn_attempts = 0;
        spawn_last_failed = false;
        spawn_last_error = none;
      };
      warmth = record (p.warmth) { warm = false; recovering = false };
    }))

-- The terminal failure and the give-up cooldown.
unfoldable pub give_up_gate : Config → ℕ → Message → Proxy → Flow Proxy
give_up_gate c now m p =
    if p.spawn_terminal || ltb 0 p.give_up_armed_at
    then (if c.giveup_rearm_enabled && not p.spawn_terminal && leb (cooldown_left now p) 0
        then go (rearm p)
        else if p.spawn_terminal
        then stop (refuse m (spawn_given_up p.spawn_failed_bucket) p)
        else stop (refuse m (give_up_cooldown p.give_up_count (cooldown_left now p)) p))
    else go p

-- `token == null`
abbrev no_token : Option Json → Bool
no_token none = true
no_token (some null) = true
no_token (some _) = false

-- The first call's progress token, if none is kept yet.
unfoldable pub keep_progress_token : Message → Proxy → Proxy
keep_progress_token m p =
    let token = get_in "progressToken" (get_in "_meta" m.params) in
    if not (no_token p.first_call_progress_token && is_some token)
    then p
    else record p { calls = record (p.calls) { first_call_progress_token = token } }

-- The start of a spawn round by a call.
unfoldable pub start_spawn : Message → Proxy → Proxy
start_spawn m p =
    let cleared = record p { spawning = record (p.spawning) { spawn_backoff_until = 0 } } in
    let kept = keep_progress_token m cleared in
    trigger_ensure_editor
      (record kept { spawning = record (kept.spawning) { spawn_triggered = true } })

-- The backoff window, and the trigger of the spawn.
unfoldable pub spawn_gate : ℕ → Message → Proxy → Flow Proxy
spawn_gate now m p =
    if not p.spawn_triggered && not p.recovering && not p.warmup_timed_out
    then (if ltb now p.spawn_backoff_until && not p.spawn_last_failed
        then stop (refuse m (spawn_backoff (p.spawn_backoff_until - now)) p)
        else go (start_spawn m p))
    else go p

-- The diagnostic of the attempt that broke, once.
unfoldable pub failure_gate : Message → Proxy → Flow Proxy
failure_gate m p =
    if p.spawn_last_failed
    then stop (
        refuse m (spawn_failed p.spawn_last_error) (record p {
          spawning = record (p.spawning) { spawn_last_failed = false; spawn_last_error = none };
        }))
    else go p

-- The answers of an editor that is not warming, and the hold of one that is.
unfoldable pub hold_gate : Message → Proxy → Proxy
hold_gate m p =
    if p.warm_editor_dead && not p.bind_evidence_hold_active
    then (if is_some m.id then emit (sent m.id respawn_hint) (drop_tools_call_id m.id p) else p)
    else if p.recovering
    then refuse m still_recovering p
    else if p.warmup_timed_out
    then refuse m warmup_timeout p
    else hold_call m (note_proxy_call_summary held m p)

-- The gate of an editor that is not warm.
unfoldable pub cold_gate : Config → ℕ → Message → Proxy → Proxy
cold_gate c now m p =
    if is_some p.restart_hold
    then hold_call m p
    else result do
      armed ← give_up_gate c now m p
      spawned ← spawn_gate now m armed
      settled ← failure_gate m spawned
      go (hold_gate m settled)

unfoldable pub gate : Config → ℕ → Message → Proxy → Proxy
gate c now m p = if p.warm then warm_gate c now m p else cold_gate c now m p
