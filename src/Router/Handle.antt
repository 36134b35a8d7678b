-- ===== src/Router/Handle.antt =====
-- The tracking of a tools/call before the gate, and `handleClaudeMessage` as a whole.
use godot_mcp.Base.{
  ℕ, String, Option, Bool, true, false, not, ◌&&◌, none, some, is_some, str_eq, if◌then◌else◌,
}
use godot_mcp.Json.{get_in, is_true, is_text, text_of}
use godot_mcp.Message.{CallId, Message, add, map_set}
use godot_mcp.State.{
  Proxy, Config, Capture, drag_malformed, exec_rejected, exec_digest, sent, emit,
  ui_inspect_started, auto_step_started,
}
use godot_mcp.Protocol.{forward_to_npx}
use godot_mcp.Router.{Tools, Expanded, malformed, expanded, Flow, stop, go, ◌>>=◌, result}
use godot_mcp.Router.Kinds.{
  arguments, action, is_ui_inspect_tools_call, is_exec_tools_call, is_game_time_tools_call,
  is_input_sequence_tools_call, is_screenshot_tools_call, is_get_info_call, is_handshake_method,
  CaptureMode, bypass, auto_step, enrich, screenshot_capture_mode,
}
use godot_mcp.Router.Gate.{refuse, gate}

-- `S.toolsCallIds.add(id); S.toolsCallLines.set(id, line)`
unfoldable pub track_tools_call : Message → Proxy → Proxy
track_tools_call m p = elim m.id [
  | none ↦ p
  | some i ↦ record p {
    calls = record (p.calls) {
      tools_call_ids = add i p.tools_call_ids;
      tools_call_lines = map_set i m p.tools_call_lines;
    };
  }
]

-- The proxy's own tool is answered against a warm chain, and otherwise goes on as a plain call.
unfoldable pub intercept_ui_inspect : Message → Proxy → Flow Proxy
intercept_ui_inspect m p =
    if is_ui_inspect_tools_call m
    then (if p.warm && p.npx_transport_ready
        then stop (emit (ui_inspect_started m) (track_tools_call m p))
        else elim m.id [
          | none ↦ go p
          | some i ↦ go (record p {
            calls = record (p.calls) { ui_inspect_call_ids = add i p.ui_inspect_call_ids };
          })
        ])
    else go p

-- The drag sugar, by its result: an error is answered, and a message goes on.
unfoldable pub expand_with : Message → Expanded → Proxy → Flow Message
expand_with m (malformed why) p = stop (refuse m (drag_malformed why) p)
expand_with m (expanded m') p = go m'

unfoldable pub expand_call : Tools → Message → Proxy → Flow Message
expand_call t m p = expand_with m (t.expand_drag m) p

-- The capture contract of one screenshot call.
abbrev capture : ℕ → Bool → Message → Capture
capture now stepped m = record {
  forwarded_at_ms = now;
  auto_step_requested = stepped;
  request_args = arguments m;
}

-- `S.screenshotCallIds.add(id); S.screenshotContract.set(id, …)`
unfoldable pub contract : CallId → Capture → Proxy → Proxy
contract i k p = record p {
  calls = record (p.calls) { screenshot_contract = map_set i k p.screenshot_contract };
}

unfoldable pub track_capture : ℕ → CallId → Message → CaptureMode → Proxy → Flow Proxy
track_capture now i m bypass p = go p
track_capture now i m enrich p = go (contract i (capture now false m) p)
track_capture now i m auto_step p =
    let kept = contract i (capture now true m) p in
    stop (
      emit (auto_step_started i) (record kept {
        calls = record (kept.calls) {
          pending_auto_step_calls = map_set i m kept.pending_auto_step_calls;
        };
      }))

unfoldable pub track_screenshot : ℕ → Message → Proxy → Flow Proxy
track_screenshot now m p = elim m.id [
  | none ↦ go p
  | some i ↦
      if is_screenshot_tools_call m
      then track_capture now i m
          (screenshot_capture_mode p.warm p.npx_transport_ready
            (is_true (get_in "auto_step" (arguments m))))
          (record p {
            calls = record (p.calls) { screenshot_call_ids = add i p.screenshot_call_ids };
          })
      else go p
]

-- The result of the pre-check of a source.
unfoldable pub reject_source : Message → Option String → Proxy → Flow Proxy
reject_source m none p = go p
reject_source m (some why) p = stop (refuse m (exec_rejected why) p)

-- The answers to godot_exec that need no editor: its help, and the rejection of a source.
unfoldable pub screen_exec : Tools → Message → Proxy → Flow Proxy
screen_exec t m p =
    if is_exec_tools_call m
    then (if is_text "help" (action m)
        then stop (if is_some m.id then emit (sent m.id exec_digest) p else p)
        else if is_text "run" (action m)
        then elim (text_of (get_in "source" (arguments m))) [
          | none ↦ go p
          | some source ↦ reject_source m (t.precheck source) p
        ]
        else go p)
    else go p

-- `if (id !== undefined && isExecToolsCall(msg))`
unfoldable pub track_exec : ℕ → Message → Proxy → Proxy
track_exec now m p = elim m.id [
  | none ↦ p
  | some i ↦
      if is_exec_tools_call m
      then record p {
        calls = record (p.calls) {
          exec_call_ids = add i p.exec_call_ids;
          last_mutation_at_ms = if is_text "run" (action m) then now else p.last_mutation_at_ms;
        };
      }
      else p
]

unfoldable pub track_get_info : Message → Proxy → Proxy
track_get_info m p = elim m.id [
  | none ↦ p
  | some i ↦
      if is_get_info_call m
      then record p { calls = record (p.calls) { get_info_call_ids = add i p.get_info_call_ids } }
      else p
]

-- The clocks of the last mutation and of the last drawn frame.
unfoldable pub track_clocks : ℕ → Message → Proxy → Proxy
track_clocks now m p = record p {
  calls = record (p.calls) {
    last_frame_advance_at_ms =
        if is_game_time_tools_call m then now else p.last_frame_advance_at_ms;
    last_mutation_at_ms = if is_input_sequence_tools_call m then now else p.last_mutation_at_ms;
  };
}

unfoldable pub track_call : ℕ → Message → Proxy → Proxy
track_call now m p = track_tools_call m (track_clocks now m (track_get_info m (track_exec now m p)))

-- A call once its drag entries are expanded.
unfoldable pub handle_expanded : Config → Tools → ℕ → Message → Proxy → Proxy
handle_expanded c t now m p = result do
  captured ← track_screenshot now m p
  screened ← screen_exec t m captured
  go (gate c now m (track_call now m screened))

-- The branch of `tools/call`.
unfoldable pub handle_tools_call : Config → Tools → ℕ → Message → Proxy → Proxy
handle_tools_call c t now m p = result do
  routed ← intercept_ui_inspect m p
  m' ← expand_call t m routed
  go (handle_expanded c t now m' routed)

-- The branch of the handshake methods.
unfoldable pub handle_handshake : Message → Proxy → Proxy
handle_handshake m p =
    let tracked : Proxy = elim m.id [
      | none ↦ p
      | some i ↦
          if not p.warm && not p.warmup_timed_out
          then record p {
            npx = record (p.npx) { pending_handshake = map_set i m p.pending_handshake };
          }
          else p
    ] in
    forward_to_npx m tracked

-- `handleClaudeMessage`, for a line that parses.
unfoldable pub handle_claude_message : Config → Tools → ℕ → Message → Proxy → Proxy
handle_claude_message c t now m p =
    if is_handshake_method m.method
    then handle_handshake m p
    else if str_eq m.method "tools/call"
    then handle_tools_call c t now m p
    else forward_to_npx m p
