-- ===== src/Forwarder/Answers.antt =====
-- launch/proxy/npx.mjs: the steps of a response after the wait, and the handler of a line as a whole.
use godot_mcp.Base.{
  ℕ, String, Bool, false, not, ◌&&◌, ◌||◌, Option, none, some, ltb, is_some, if◌then◌else◌,
}
use godot_mcp.Json.{Json, text_of, get}
use godot_mcp.Message.{CallId, same_id, has, delete, map_delete}
use godot_mcp.State.{Proxy, Takeover, waiting, not_restarted}
use godot_mcp.Stages.{ordinal, set_time, advance, mcp_initialized}
use godot_mcp.Spawn.{begin_warm_editor_respawn}
use godot_mcp.Restart.{finish_restart_hold}
use godot_mcp.Takeover.{receive_busy, drain_takeover_waiters, is_probe}
use godot_mcp.Forwarder.{
  body, ChildResponse, ChildLine, blank, unparsed, parsed, Child, Settings, forwarded, verbatim,
  restart_watched, output, with_proxy, Body,
}
use godot_mcp.Forwarder.Errors.{
  is_editor_busy_error, is_editor_gone_error, augment_editor_busy_error, augment_tools_call_error,
}
use godot_mcp.Forwarder.Augment.{context_of, text_item, push_content}
use godot_mcp.Forwarder.Lines.{
  Step, stopped, going, awaiting, ◌>>=◌, open_response, echo_workdir, hint_exec,
}

-- `S.restartHold && S.restartHold.id === msg.id`
unfoldable pub answers_hold : CallId → Proxy → Bool
answers_hold i p = elim p.restart_hold [
  | none ↦ false
  | some hold ↦ elim hold.hold_id [ none ↦ false | some j ↦ same_id i j ]
]

-- The trackers of the restart call.
unfoldable pub forget_restart : CallId → Proxy → Proxy
forget_restart i p = record p {
  calls = record (p.calls) {
    tools_call_ids = delete i p.tools_call_ids;
    tools_call_lines = map_delete i p.tools_call_lines;
    screenshot_call_ids = delete i p.screenshot_call_ids;
    exec_call_ids = delete i p.exec_call_ids;
  };
  npx = record (p.npx) { pending_handshake = map_delete i p.pending_handshake };
}

-- `typeof error.message === 'string' ? error.message : …`
unfoldable pub restart_reason : Json → String
restart_reason error = elim (text_of (get "message" error)) [
  | none ↦ "addon rejected the restart command"
  | some why ↦ why
]

abbrev pub await_relaunch : Proxy → Proxy
await_relaunch p = elim p.restart_hold [
  | none ↦ p
  | some hold ↦ record p { restart_hold = some (record hold { phase = waiting }) }
]

-- The answer to the held restart: its end, or the watch for the relaunched editor.
unfoldable pub consume_restart : Settings → ℕ → CallId → ChildResponse → Child → Child
consume_restart s now i r k =
    let forgotten = forget_restart i k.proxy in
    elim r.error [
      | some error ↦
          with_proxy
            (finish_restart_hold s.config s.tools now (not_restarted (restart_reason error))
              forgotten)
            k
      | none ↦ output restart_watched (with_proxy (await_relaunch forgotten) k)
    ]

-- `S.toolsCallIds.delete(msg.id); S.toolsCallLines.delete(msg.id)`
unfoldable pub forget_call : CallId → Child → Child
forget_call i k =
    with_proxy
      (record (k.proxy) {
        calls = record (k.proxy.calls) {
          tools_call_ids = delete i k.proxy.tools_call_ids;
          tools_call_lines = map_delete i k.proxy.tools_call_lines;
        };
      })
      k

abbrev pub or_same : Json → Option Json → Json
or_same error none = error
or_same error (some error') = error'

-- A busy response: the takeover's, or one with a diagnostic where takeover is disabled.
unfoldable pub answer_busy : Settings → ℕ → CallId → Json → ChildResponse → Child → Step
answer_busy s now i error r k =
    if ltb 0 s.config.takeover_timeout_ms
    then stopped (with_proxy (receive_busy s.config now i k.proxy) k)
    else going (forget_call i k) (record r {
      error = some (or_same error (augment_editor_busy_error (context_of s k) error));
    })

-- A warm editor that is gone is respawned by the next call.
unfoldable pub note_gone : Settings → Json → Child → Child
note_gone s error k =
    if k.proxy.warm && is_editor_gone_error error
    then with_proxy (begin_warm_editor_respawn s.config k.proxy) k
    else k

-- The first answer over a handshaken socket.
unfoldable pub mark_initialized : Settings → ℕ → Child → Child
mark_initialized s now k =
    let st = k.proxy.stages in
    if s.progress_on && is_some st.timestamps.at_ws_handshake && ltb (ordinal st.stage) 6
    then with_proxy
        (record (k.proxy) {
          stages = record st {
            timestamps =
                if is_some st.timestamps.at_mcp_initialized
                then st.timestamps
                else set_time mcp_initialized now st.timestamps;
            stage = advance mcp_initialized st.stage;
          };
        })
        k
    else k

-- `S.takeover.waiters.has(msg.id) || S.takeover.probeId === msg.id`
unfoldable pub acquires : CallId → Option Takeover → Bool
acquires i none = false
acquires i (some t) = has i t.waiters || is_probe i t

unfoldable pub drain_if_acquired : CallId → Child → Child
drain_if_acquired i k =
    if acquires i k.proxy.takeover then with_proxy (drain_takeover_waiters i k.proxy) k else k

-- A response that is not busy.
unfoldable pub answer_plain : Settings → ℕ → CallId → ChildResponse → Child → Step
answer_plain s now i r k =
    let forgotten = forget_call i k in
    elim r.error [
      | some error ↦
          let wrapped = or_same error (augment_tools_call_error (context_of s k) error) in
          going (drain_if_acquired i (note_gone s wrapped forgotten))
            (record r { error = some wrapped })
      | none ↦ going (drain_if_acquired i (mark_initialized s now forgotten)) r
    ]

-- By the response's error.
unfoldable pub answer_with : Settings → ℕ → CallId → Option Json → ChildResponse → Child → Step
answer_with s now i none r k = answer_plain s now i r k
answer_with s now i (some error) r k =
    if is_editor_busy_error error then answer_busy s now i error r k else answer_plain s now i r k

unfoldable pub answer_call : Settings → ℕ → CallId → ChildResponse → Child → Step
answer_call s now i r k = answer_with s now i r.error r k

-- The response to a tracked call.
unfoldable pub settle_by_id : Settings → ℕ → Option CallId → ChildResponse → Child → Step
settle_by_id s now none r k = going k r
settle_by_id s now (some i) r k =
    if has i k.proxy.tools_call_ids
    then (if answers_hold i k.proxy
        then stopped (consume_restart s now i r k)
        else answer_call s now i r k)
    else going k r

unfoldable pub settle_call : Settings → ℕ → ChildResponse → Child → Step
settle_call s now r k = settle_by_id s now r.id r k

-- The timeline on the first result after the warmup. A result that is null throws.
unfoldable pub append_timeline : Settings → ChildResponse → Child → Child × ChildResponse
append_timeline s r k =
    if k.warmup_just_completed && not (is_some r.error) && is_some r.result
    then (let consumed = record k { warmup_just_completed = false } in
        if s.progress_on
        then elim r.result [
          | some (body result) ↦ (
            consumed,
            record r {
              result =
                  some (body (push_content (text_item (s.build_warmup_timeline k.proxy)) result));
            },
          )
          | _ ↦ (consumed, r)
        ]
        else (consumed, r))
    else (k, r)

-- Where a step ends: a response that goes on is forwarded.
abbrev pub ended : Step → Child
ended (stopped k) = k
ended (going k r) = output (forwarded r) k
ended (awaiting k r) = k

-- The steps after the wait.
unfoldable pub close_response : Settings → ℕ → ChildResponse → Child → Child
close_response s now r k = ended do
  (k1, r1) ← (let echoed = echo_workdir s r k in going echoed.0 echoed.1)
  (k2, r2) ← hint_exec s r1 k1
  (k3, r3) ← settle_call s now r2 k2
  let timed = append_timeline s r3 k3
  going timed.0 timed.1

-- The capture that has waited, with the result that the enrichment spliced, if it made one; what
-- other handlers did meanwhile is in the state.
unfoldable pub resume_capture : Settings → ℕ → Option Body → ChildResponse → Child → Child
resume_capture s now spliced r k =
    close_response s now (if is_some spliced then record r { result = spliced } else r) k

-- The state, and the response that waits for its enrichment, if there is one.
unfoldable pub continue_opened : Settings → ℕ → Step → Child × Option ChildResponse
continue_opened s now (stopped k) = (k, none)
continue_opened s now (going k r) = (close_response s now r k, none)
continue_opened s now (awaiting k r) = (k, some r)

unfoldable pub handle_response : Settings → ℕ → ChildResponse → Child → Child × Option ChildResponse
handle_response s now r k = continue_opened s now (open_response s r k)

-- `npxOut.on('line', …)`
unfoldable pub handle_line : Settings → ℕ → ChildLine → Child → Child × Option ChildResponse
handle_line s now blank k = (k, none)
handle_line s now (unparsed line) k = (output (verbatim line) k, none)
handle_line s now (parsed r) k = handle_response s now r k
