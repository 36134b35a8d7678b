-- ===== src/Connection.antt =====
-- server/src/connection/websocket.ts: the state of a `GodotConnection`, its diagnostics, and a
-- trace of what it did, newest first. The `ws` library, the event loop, `JSON.parse` and the
-- environment are parameters: `Env` and the steps that drive the operations.
use Prim.Native.String.{◌++◌ as join}
use godot_mcp.Base.{
  ℕ, String, Bool, true, false, Option, none, some, List, [], ◌∷◌, ◌++◌, ltb, non_empty,
  if◌then◌else◌,
}
use godot_mcp.Json.{Json}
use godot_mcp.Wire.{Request}

-- `ws`, with its `readyState`; a `shut` socket has had its close event.
pub data Socket : Type 0 where
  no_socket dialing opened closing shut : Socket

pub data DisconnectReason : Type 0 where
  never_connected rejected_another_client replaced_by_new_client : DisconnectReason
  connection_refused connection_lost closed_normally errored : DisconnectReason

pub data ConnectionState : Type 0 where
  connected disconnected connecting reconnecting : ConnectionState

pub data CloseCode : Type 0 where
  closed_by_client lost_connection replaced_by_new rejected_another : CloseCode
  stale_closed_by_server refused_connection close_unknown : CloseCode

pub data HandshakeStatus : Type 0 where
  handshake_success handshake_timeout : HandshakeStatus

-- The values of a success are those of the response, which nothing checks to be texts.
pub record HandshakeResult : Type 0 where
  pub addon_version : Json
  pub godot_version : Json
  pub project_path : Json
  pub project_name : Json
  pub handshake_status : HandshakeStatus

-- Why a promise is rejected; `not_connected` has the diagnostic that follows its first line.
pub data Rejection : Type 0 where
  closed_with : CloseCode → Rejection
  timed_out : String → ℕ → Rejection
  malformed_response : Rejection
  command_error : String → String → Option String → Rejection
  not_connected : String → Rejection
  send_threw : Rejection

pub data Outcome : Type 0 where
  resolved : Option Json → Outcome
  rejected : Rejection → Outcome

-- Who waits for a request: a caller, the heartbeat of the ping, or the handshake.
pub data Waiter : Type 0 where
  caller heartbeat handshake : Waiter

-- `live`: the promise is still unsettled. It is not once the send has thrown.
pub record PendingRequest : Type 0 where
  pub id : String
  pub waiter : Waiter
  pub command : String
  pub timeout_ms : ℕ
  pub live : Bool

-- What runs once a promise is settled.
pub data Resume : Type 0 where
  after_handshake : Outcome → Resume
  after_heartbeat : Resume

pub data Event : Type 0 where
  ev_connected ev_disconnected ev_pong_timeout ev_invalid_json ev_invalid_response : Event
  ev_handshake_failed : Rejection → Event
  ev_version_mismatch : Json → Json → Event
  ev_reconnecting : ℕ → ℕ → Event
  ev_error : String → Event

-- `called`: the entry's resolve or reject ran; `uncaught`: its resolve threw in the listener of the
-- socket's messages, and nothing catches that, so that the process ends.
pub data Trace : Type 0 where
  issued : String → Trace
  sent : Request → Trace
  called : String → Outcome → Trace
  uncaught : String → Trace
  refused : String → Rejection → Trace
  emitted : Event → Trace
  connect_resolved connect_rejected pinged terminated closed_socket : Trace

pub record Connection : Type 0 where
  pub socket : Socket
  -- Earlier sockets whose close event is still to come.
  pub stale : ℕ
  pub pending_requests : List PendingRequest
  pub reconnect_attempt : ℕ
  pub reconnect_timeout : Option ℕ
  pub ping_interval : Bool
  pub pong_timeout : Bool
  pub is_closing : Bool
  pub heartbeat_pending : Bool
  pub handshake_result : Option HandshakeResult
  pub pending_close_code : Option CloseCode
  pub last_disconnect_reason : DisconnectReason
  pub rejection_count : ℕ
  pub last_error_message : Option String
  pub current_state : ConnectionState
  pub resumes : List Resume
  pub trace : List Trace

abbrev pub new_connection : Connection
new_connection = record {
  socket = no_socket;
  stale = 0;
  pending_requests = [];
  reconnect_attempt = 0;
  reconnect_timeout = none;
  ping_interval = false;
  pong_timeout = false;
  is_closing = false;
  heartbeat_pending = false;
  handshake_result = none;
  pending_close_code = none;
  last_disconnect_reason = never_connected;
  rejection_count = 0;
  last_error_message = none;
  current_state = disconnected;
  resumes = [];
  trace = [];
}

pub record Env : Type 0 where
  pub auto_reconnect : Bool
  pub server_version : String
  pub url : String
  pub wsl : Bool
  pub quick_timeout_ms : ℕ
  -- Whether `send` throws, the printing of a number, `JSON.parse` and `String`.
  pub send_throws : Socket → Bool
  pub show : ℕ → String
  pub parse : String → Option Json
  pub to_text : Json → String

abbrev pub is_connected : Connection → Bool
is_connected c = elim (c.socket) [ opened ↦ true | _ ↦ false ]

abbrev pub note : Trace → Connection → Connection
note t c = record c { trace = t ∷ c.trace }

-- Whether the process still runs.
unfoldable pub is_running : Connection → Bool
is_running c = elim (c.trace) [ uncaught i ∷ ts ↦ false | _ ↦ true ]

abbrev wsl_lines : Env → List String
wsl_lines e =
    if e.wsl
    then "  Running in WSL: 127.0.0.1 does not cross to the Windows host."
      ∷ "  In the Godot MCP panel set Bind mode: WSL (not Localhost), or set GODOT_HOST." ∷ []
    else []

abbrev ensure_running : String
ensure_running = "Suggestion: Ensure Godot is running with the MCP addon enabled."

-- `getDiagnosticMessage`, before its lines are joined.
unfoldable pub diagnostic_lines : Env → Connection → List String
diagnostic_lines e c = elim (c.last_disconnect_reason) [
  | rejected_another_client ↦
      "Status: Another client is already connected to Godot"
        ∷ (if ltb 1 c.rejection_count
            then join "Details: " (join (e.show c.rejection_count) " connection attempts rejected")
              ∷ []
            else [])
      ++ ("Suggestion: Only one client can drive the Godot bridge at a time."
          ∷ "  This client keeps retrying and will connect once the other disconnects."
          ∷ "  If you did not expect another client, check for duplicate godot-mcp processes:"
          ∷ "    macOS/Linux: ps aux | grep godot-mcp"
          ∷ "    Windows: Get-Process -Name node | ? CommandLine -Like \"*godot-mcp*\"" ∷ [])
  | replaced_by_new_client ↦
      "Status: Another client took over the Godot bridge"
      ∷ "Suggestion: Reconnecting automatically; this recovers once the other client disconnects."
      ∷ []
  | connection_refused ↦ join "Status: Cannot reach Godot at " e.url ∷ ensure_running ∷ wsl_lines e
  | connection_lost ↦
      "Status: Connection to Godot was lost"
        ∷ (if ltb 0 c.reconnect_attempt
            then join "Details: " (join (e.show c.reconnect_attempt) " reconnection attempts made")
              ∷ []
            else [])
      ++ ("Suggestion: Check if Godot is still running." ∷ [])
  | never_connected ↦
      join "Status: Never successfully connected to Godot at " e.url ∷ ensure_running ∷ wsl_lines e
  | errored ↦ "Status: Connection error" ∷ elim (c.last_error_message) [
    | none ↦ []
    | some s ↦ if non_empty s then join "Details: " s ∷ [] else []
  ]
  | closed_normally ↦ "Status: Disconnected (closed_normally)" ∷ []
]

abbrev join_lines : List String → String
join_lines [] = ""
join_lines (s ∷ []) = s
join_lines (s ∷ t ∷ ts) = join s (join "\n" (join_lines (t ∷ ts)))

unfoldable pub diagnostic_message : Env → Connection → String
diagnostic_message e c = join_lines (diagnostic_lines e c)
