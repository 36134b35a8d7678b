-- ===== src/Forwarder/Errors.antt =====
-- launch/proxy/errors.mjs: the classification of the errors of a call, and what is added to them.
-- The hints of the diagnostics are left out.
use Prim.Native.String.{◌++◌ as append}
use godot_mcp.Base.{
  String, Bool, true, ◌&&◌, ◌||◌, not, Option, none, some, [], ◌∷◌, ltb, ◌==◌, non_empty,
  if◌then◌else◌, codes, List,
}
use godot_mcp.Base.Patterns.{
  literal, one_of, at_most_one, at_most, boundary, matched, occurs, is_space,
}
use godot_mcp.Json.{Json, bool, str, obj, Fields, end, field, get, text_of, lookup_field, is_object}
use godot_mcp.Record.{Conversions, set_field, fields_of}
use godot_mcp.Stages.{
  Stage, ordinal, warm, mcp_initialized, ws_handshake, launcher_exec, editor_spawned, plugin_init,
  server_listening, tcp_connected,
}

-- The fallback hint, trimmed.
abbrev pub screenshot_hint : String
screenshot_hint =
    "[hint: screenshot 失败，可调 addons/godot_mcp/launch/screenshot-fallback.sh 兜底抓主屏 → PNG]"

-- What the diagnostics read: the port, the protocol's switch, and the state.
pub record Context : Type 0 where
  pub conversions : Conversions
  pub godot_host : String
  pub godot_port : String
  pub progress_on : Bool
  pub stage : Stage
  pub lease_exit_detected : Bool

-- One of some phrases, anywhere in the text.
unfoldable pub mentions : List String → String → Bool
unfolding one_of literal occurs
mentions phrases message = occurs (one_of phrases matched) message

-- /(?:websocket|ws[\s_-]?(?:close|code))[\s\S]{0,60}\b4001\b/i
unfoldable pub socket_then_code : String → Bool
socket_then_code message =
    let code = at_most 60 (λ c. true) (boundary (literal (codes "4001") (boundary matched))) in
    occurs (one_of ("websocket" ∷ []) code) message
    || occurs
        (one_of ("ws" ∷ []) (
          at_most_one (λ c. is_space c || c == b'_' || c == b'-')
            (one_of ("close" ∷ "code" ∷ []) code)))
        message

-- /\b4001\b[\s\S]{0,60}(?:another client|already)/i
unfoldable pub code_then_client : String → Bool
code_then_client message =
    occurs
      (boundary (
        literal (codes "4001")
          (boundary (at_most 60 (λ c. true) (one_of ("another client" ∷ "already" ∷ []) matched)))))
      message

-- `EDITOR_BUSY_PATTERNS.some((re) => re.test(m))`
unfoldable pub is_busy_message : String → Bool
unfolding mentions socket_then_code code_then_client
is_busy_message message =
    mentions
      ("another client is already connected" ∷ "already_connected" ∷ "alreadyconnected"
        ∷ "rejected new connection" ∷ [])
      message
    || socket_then_code message
    || code_then_client message

-- `typeof error.message === 'string' ? error.message : ''`, of an error that is an object.
unfoldable pub message_of : Json → String
message_of error = elim (text_of (get "message" error)) [ none ↦ "" | some m ↦ m ]

unfoldable pub is_editor_busy_error : Json → Bool
is_editor_busy_error error =
    is_object (some error) && non_empty (message_of error) && is_busy_message (message_of error)

-- /(?:websocket|ws[\s_-]?(?:close|closed|fail|failed|error))/i
unfoldable pub socket_fails : String → Bool
socket_fails message =
    mentions ("websocket" ∷ []) message
    || occurs
        (one_of ("ws" ∷ []) (
          at_most_one (λ c. is_space c || c == b'_' || c == b'-')
            (one_of ("close" ∷ "closed" ∷ "fail" ∷ "failed" ∷ "error" ∷ []) matched)))
        message

-- /editor(?:[^.]{0,40})?(?:closed|exited|crashed|not responding|unreachable)/i
unfoldable pub editor_ends : String → Bool
editor_ends message =
    occurs
      (one_of ("editor" ∷ []) (
        at_most 40 (λ c. not (c == b'.'))
          (one_of ("closed" ∷ "exited" ∷ "crashed" ∷ "not responding" ∷ "unreachable" ∷ [])
            matched)))
      message

-- `EDITOR_GONE_PATTERNS.some((re) => re.test(m))`
unfoldable pub is_gone_message : String → Bool
unfolding mentions socket_fails editor_ends
is_gone_message message =
    mentions ("not connected to godot" ∷ []) message
    || socket_fails message
    || mentions ("connection refused" ∷ "econnrefused" ∷ []) message
    || editor_ends message

unfoldable pub is_editor_gone_error : Json → Bool
is_editor_gone_error error =
    is_object (some error) && non_empty (message_of error) && is_gone_message (message_of error)

-- `S.stage`, as a text.
abbrev pub stage_text : Stage → String
stage_text launcher_exec = "LAUNCHER_EXEC"
stage_text editor_spawned = "EDITOR_SPAWNED"
stage_text plugin_init = "PLUGIN_INIT"
stage_text server_listening = "SERVER_LISTENING"
stage_text tcp_connected = "TCP_CONNECTED"
stage_text ws_handshake = "WS_HANDSHAKE"
stage_text mcp_initialized = "MCP_INITIALIZED"
stage_text warm = "WARM"

-- The stage of the client that holds the slot.
unfoldable pub holder_stage : Stage → Stage
holder_stage warm = mcp_initialized
holder_stage s = if ltb (ordinal s) 5 then ws_handshake else s

-- A diagnostic's first fields, and those that the protocol adds.
unfoldable pub diagnostic : Context → String → Fields → Json
diagnostic c state staged = obj (
    field "state" (str state) (
      field "host" (str c.godot_host) (
        field "port" (str c.godot_port)
          (field "retryable" (bool true) (if c.progress_on then staged else end)))))

unfoldable pub editor_busy_diagnostic : Context → Json
editor_busy_diagnostic c = diagnostic c "editor_busy" (
    field "stage" (str (stage_text (holder_stage c.stage))) (
      field "handshakeSubstate" (str "rejected_4001")
        (field "leaseExitDetected" (bool c.lease_exit_detected) end)))

unfoldable pub editor_gone_diagnostic : Context → Json
editor_gone_diagnostic c = diagnostic c "editor_gone" (
    field "stage" (str (stage_text c.stage))
      (field "leaseExitDetected" (bool c.lease_exit_detected) end))

-- `{ ...error.data, key: v }`, or the new field alone where the data is no object.
unfoldable pub extend_data : Conversions → String → Json → Option Json → Json
extend_data c key v none = obj (field key v end)
extend_data c key v (some d) =
    if is_object (some d) then obj (set_field key v (fields_of c d)) else obj (field key v end)

-- An error with a longer message, if it has one, and more data.
unfoldable pub annotate : Conversions → String → String → Json → Json → Json
annotate c suffix key v error =
    let spread = fields_of c error in
    let worded : Fields = elim (text_of (lookup_field "message" spread)) [
      | none ↦ spread
      | some m ↦ set_field "message" (str (append m suffix)) spread
    ] in
    obj (set_field "data" (extend_data c key v (lookup_field "data" spread)) worded)

-- A changed error, or none where the source gives the same object back.
unfoldable pub augment_editor_busy_error : Context → Json → Option Json
augment_editor_busy_error c error =
    if is_editor_busy_error error
    then some (
        annotate c.conversions
          (append
            " [editor_busy: retryable — another session holds the godot_mcp WebSocket slot on port "
            (append c.godot_port "; retry shortly]"))
          "warmupDiagnostic" (editor_busy_diagnostic c) error)
    else none

unfoldable pub augment_editor_gone_error : Context → Json → Option Json
augment_editor_gone_error c error =
    if is_editor_gone_error error
    then some (
        annotate c.conversions
          (append " [editor_gone: retryable — editor WebSocket on port "
            (append c.godot_port " unreachable after warmup; retry shortly]"))
          "warmupDiagnostic" (editor_gone_diagnostic c) error)
    else none

unfoldable pub augment_tools_call_error : Context → Json → Option Json
augment_tools_call_error c error = elim (augment_editor_busy_error c error) [
  | none ↦ augment_editor_gone_error c error
  | some busy ↦ some busy
]

-- launch/proxy/screenshot.mjs: the hint on a failed capture. An error that is no object stays.
unfoldable pub augment_screenshot_error : Conversions → Json → Json
augment_screenshot_error c error =
    if is_object (some error)
    then (let spread = fields_of c error in
        let worded : Fields = elim (text_of (lookup_field "message" spread)) [
          | none ↦ set_field "message" (str screenshot_hint) spread
          | some m ↦ set_field "message" (str (append m (append " " screenshot_hint))) spread
        ] in
        obj (
          set_field "data"
            (extend_data c "screenshotFallback"
              (str "addons/godot_mcp/launch/screenshot-fallback.sh") (lookup_field "data" spread))
            worded))
    else error
