-- ===== src/Router/Kinds.antt =====
-- The classification of calls: launch/proxy/screenshot.mjs, exec.mjs, ui-inspect.mjs, restart.mjs.
use godot_mcp.Base.{
  String, Bool, true, false, not, ◌&&◌, ◌||◌, Option, some, List, [], ◌∷◌, str_eq, is_some,
  if◌then◌else◌,
}
use godot_mcp.Json.{Json, arr, get, get_in, is_object, is_array, is_text, text_starts, any_has}
use godot_mcp.Message.{Message}

-- `msg.params && msg.params.name`, and the same of `arguments`.
abbrev pub tool_name : Message → Option Json
tool_name m = get_in "name" m.params

abbrev pub arguments : Message → Option Json
arguments m = get_in "arguments" m.params

abbrev pub action : Message → Option Json
action m = get_in "action" (arguments m)

unfoldable pub is_ui_inspect_tools_call : Message → Bool
unfolding get
is_ui_inspect_tools_call m = is_text "godot_ui_inspect" (tool_name m)

unfoldable pub is_exec_tools_call : Message → Bool
unfolding get
is_exec_tools_call m = is_text "godot_exec" (tool_name m)

unfoldable pub is_game_time_tools_call : Message → Bool
unfolding get
is_game_time_tools_call m =
    is_text "godot_game_time" (tool_name m)
    && (is_text "step" (action m) || is_text "step_until" (action m) || is_text "thaw" (action m))

unfoldable pub is_input_sequence_tools_call : Message → Bool
unfolding get
is_input_sequence_tools_call m =
    is_text "godot_input" (tool_name m)
    && is_text "sequence" (action m)
    && is_array (get_in "inputs" (arguments m))

abbrev input_has_frames : Option Json → Bool
input_has_frames (some (arr inputs)) = any_has "screenshot_at_ms" inputs
input_has_frames _ = false

unfoldable pub is_screenshot_tools_call : Message → Bool
unfolding get any_has
is_screenshot_tools_call m =
    let name = tool_name m in
    if is_text "screenshot" name
      || is_text "capture_game_screenshot" name
      || is_text "capture_editor_screenshot" name
    then true
    else if text_starts "screenshot_" name
    then true
    else if is_text "godot_editor_read" name
    then text_starts "screenshot" (action m)
    else if is_text "godot_input" name
    then is_object (arguments m)
      && (is_some (get_in "screenshot_at_ms" (arguments m))
          || input_has_frames (get_in "inputs" (arguments m)))
    else false

-- The call that asks for the workdir echo, as the router tests for it.
unfoldable pub is_get_info_call : Message → Bool
unfolding get
is_get_info_call m = is_text "godot_project" (tool_name m) && is_text "get_info" (action m)

-- `isRestartToolsCall`
unfoldable pub is_restart_tools_call : Message → Bool
unfolding get
is_restart_tools_call m =
    is_text "godot_editor_edit" (tool_name m)
    && is_object (arguments m)
    && is_text "restart" (action m)

-- The methods that are forwarded without the warmup gate.
is_one_of : String → List String → Bool
is_one_of s [] = false
is_one_of s (t ∷ ts) = str_eq s t || is_one_of s ts

unfoldable pub is_handshake_method : String → Bool
unfolding is_one_of
is_handshake_method m = is_one_of m (
    "initialize" ∷ "notifications/initialized" ∷ "notifications/cancelled" ∷ "tools/list"
    ∷ "prompts/list" ∷ "prompts/get" ∷ "resources/list" ∷ "resources/read"
    ∷ "resources/templates/list" ∷ "resources/templates/get" ∷ "completion/complete" ∷ [])

pub data CaptureMode : Type 0 where
  bypass auto_step enrich : CaptureMode

-- `screenshotCaptureMode`
unfoldable pub screenshot_capture_mode : Bool → Bool → Bool → CaptureMode
screenshot_capture_mode warm transport_ready auto_step_requested =
    if not warm || not transport_ready
    then bypass
    else if auto_step_requested
    then auto_step
    else enrich
