-- ===== src/Bridge/Tests.antt =====
-- The theorems of a connection at concrete inputs, and a run of it.
use godot_mcp.Base.{◌≡◌, ◌≤◌, ℕ, true, false, none, some, [], ◌∷◌, refl, inl}
use godot_mcp.Wire.{success, parse_response, parse_success}
use godot_mcp.Json.{Json, obj, field, end, str, get, lookup_field}
use godot_mcp.Connection.{
  Connection, Env, PendingRequest, opened, shut, dialing, handshake, new_connection, connected,
  disconnected, uncaught, is_running,
}
use godot_mcp.Bridge.Requests.{
  find_request, issue, set_request, perform_handshake, reject_request, wake,
}
use godot_mcp.Bridge.Timers.{
  connect, start_ping_interval, stop_ping_interval, clear_pong_timeout, cleanup, reject_requests,
  schedule_reconnect, close_code_of,
}
use godot_mcp.Bridge.Events.{on_open, on_close, close_reason, resume, handle_message}
use godot_mcp.Bridge.Steps.{Reached, start, later, opens, closes, is_undelivered, times_issued}
use godot_mcp.Bridge.Ledger.{IsBalanced}
use godot_mcp.Bridge.Accounts.{Reached-IsBalanced}
use godot_mcp.Bridge.Simulates.{Step-Change}
use godot_mcp.Bridge.Refines.{Change, view}
use godot_mcp.Bridge.Alive.{dead_link_redials}
use godot_mcp.Bridge.Handshakes.{closed_then_connected, resultless_handshake_crashes}

abbrev env : Env
env = record {
  auto_reconnect = true;
  server_version = "2.0.0";
  url = "ws://127.0.0.1:6550";
  wsl = false;
  quick_timeout_ms = 30000;
  send_throws = λ s. false;
  show = λ n. "n";
  parse = λ s. none;
  to_text = λ v. "v";
}

abbrev dialled : Connection
dialled = connect new_connection

dialled-socket : dialled.socket ≡ dialing
unfolding connect
dialled-socket = refl

dialled-fresh : times_issued "h" dialled.trace ≡ 0
unfolding connect times_issued
dialled-fresh = refl

dialled-running : is_running dialled ≡ true
unfolding connect is_running
dialled-running = refl

abbrev shaking : Connection
shaking = on_open env "h" (record dialled { socket = opened })

shaking-Reached : Reached env shaking
shaking-Reached = later start dialled-running (opens "h" dialled-socket dialled-fresh)

shaking-undelivered : is_undelivered shaking.socket ≡ true
unfolding on_open connect start_ping_interval stop_ping_interval clear_pong_timeout
    perform_handshake issue
shaking-undelivered = refl

shaking-running : is_running shaking ≡ true
unfolding on_open connect start_ping_interval stop_ping_interval clear_pong_timeout
    perform_handshake issue is_running
shaking-running = refl

-- The socket is closed with 4001 before the handshake is answered.
abbrev refused : Connection
refused = on_close env 4001 (record shaking { socket = shut })

refused-Reached : Reached env refused
refused-Reached = later shaking-Reached shaking-running (closes 4001 shaking-undelivered)

Reached-IsBalanced_example : IsBalanced "h" refused
Reached-IsBalanced_example = Reached-IsBalanced refused-Reached "h"

Step-Change_example : Change (view shaking) (view refused)
Step-Change_example = Step-Change shaking-Reached (closes 4001 shaking-undelivered)

refused-link :
    (refused.is_closing ≡ false) × (is_undelivered refused.socket ≡ false) × (refused.stale ≡ 0)
unfolding on_open connect start_ping_interval stop_ping_interval clear_pong_timeout
    perform_handshake issue on_close close_reason cleanup reject_requests schedule_reconnect
    close_code_of set_request reject_request wake
refused-link = (refl, refl, refl)

dead_link_redials_example :
    (delay : ℕ) × (refused.reconnect_timeout ≡ some delay)
    × (delay ≤ 30000)
    × ((connect (record refused { reconnect_timeout = none })).socket ≡ dialing)
dead_link_redials_example =
    dead_link_redials refl refused-Reached refused-link.0 refused-link.1 refused-link.2

abbrev shake : PendingRequest
shake = record {
  id = "h";
  waiter = handshake;
  command = "mcp_handshake";
  timeout_ms = 5000;
  live = true;
}

abbrev waiting : Connection
waiting = record new_connection { socket = shut; pending_requests = shake ∷ [] }

closed_then_connected_example :
    ((on_close env 4001 waiting).current_state ≡ disconnected)
    × ((resume (on_close env 4001 waiting)).current_state ≡ connected)
    × ((resume (on_close env 4001 waiting)).socket ≡ waiting.socket)
closed_then_connected_example = closed_then_connected env 4001 shake waiting refl refl refl refl

shake-found : find_request "h" waiting.pending_requests ≡ some shake
unfolding find_request
shake-found = refl

-- A success that has no result.
abbrev resultless : Json
resultless = obj (field "id" (str "h") (field "status" (str "success") end))

resultless-parsed : parse_response resultless ≡ some (success "h" none)
unfolding parse_response parse_success get lookup_field
resultless-parsed = refl

abbrev parsing : Env
parsing = record env { parse = λ s. some resultless }

resultless_handshake_crashes_example :
    let d = handle_message parsing "m" waiting in
    (is_running d ≡ false)
    × (d.trace ≡ uncaught "h" ∷ [])
    × (find_request "h" d.pending_requests ≡ none)
    × (d.resumes ≡ [])
resultless_handshake_crashes_example =
    resultless_handshake_crashes parsing "m" "h" resultless none shake waiting refl
      resultless-parsed (inl refl) shake-found refl
