-- ===== src/Bridge/Timers.antt =====
-- server/src/connection/websocket.ts: the timers of a `GodotConnection`, its cleanup, and `connect`
-- and `disconnect`.
use godot_mcp.Base.{
  ℕ, zero, suc, String, ◌+◌, true, false, Option, none, some, is_some, List, [], ◌∷◌, ltb, min,
  if◌then◌else◌,
}
use godot_mcp.Json.{obj, end}
use godot_mcp.Connection.{
  no_socket, dialing, closing, shut, closed_normally, disconnected, connecting, reconnecting,
  CloseCode, closed_by_client, close_unknown, closed_with, heartbeat, PendingRequest,
  ev_pong_timeout, ev_reconnecting, emitted, connect_resolved, pinged, terminated, closed_socket,
  Connection, Env, is_connected, note,
}
use godot_mcp.Bridge.Requests.{reject_request, send_command}

-- `RECONNECT_DELAYS[i]`, for an index within the array.
abbrev pub reconnect_delay : ℕ → ℕ
reconnect_delay zero = 1000
reconnect_delay (suc zero) = 2000
reconnect_delay (suc (suc zero)) = 4000
reconnect_delay (suc (suc (suc zero))) = 8000
reconnect_delay (suc (suc (suc (suc zero)))) = 16000
reconnect_delay _ = 30000

-- `RECONNECT_DELAYS.length - 1`
abbrev pub last_delay : ℕ
last_delay = 5

unfoldable pub clear_pong_timeout : Connection → Connection
clear_pong_timeout c = record c { pong_timeout = false }

unfoldable pub stop_ping_interval : Connection → Connection
stop_ping_interval c = clear_pong_timeout (record c { ping_interval = false })

unfoldable pub start_ping_interval : Connection → Connection
start_ping_interval c = record (stop_ping_interval c) { ping_interval = true }

-- One tick of the ping interval.
unfoldable pub ping_tick : Env → String → Connection → Connection
ping_tick e i c =
    if is_connected c
    then (let pinging = note pinged (record c { pong_timeout = true }) in
        if c.heartbeat_pending
        then pinging
        else send_command e heartbeat i "heartbeat" (obj end) none
            (record pinging { heartbeat_pending = true }))
    else c

-- The pong timer: `terminate` closes the socket, and its close event follows.
unfoldable pub pong_expires : Connection → Connection
pong_expires c =
    let told = note (emitted ev_pong_timeout) (record c { pong_timeout = false }) in
    elim (c.socket) [
      | no_socket ↦ told
      | shut ↦ note terminated told
      | _ ↦ note terminated (record told { socket = closing })
    ]

-- The promises of the entries, rejected from the first to the last.
unfoldable pub reject_requests : CloseCode → List PendingRequest → Connection → Connection
reject_requests code [] c = c
reject_requests code (r ∷ rs) c = reject_requests code rs (reject_request r (closed_with code) c)

unfoldable pub close_code_of : Option CloseCode → CloseCode
close_code_of none = close_unknown
close_code_of (some code) = code

unfoldable pub cleanup : Connection → Connection
cleanup c =
    let stopped = record (stop_ping_interval c) {
      handshake_result = none;
      reconnect_timeout = none;
      pending_close_code = none;
    } in
    record (reject_requests (close_code_of c.pending_close_code) c.pending_requests stopped) {
      pending_requests = [];
    }

unfoldable pub schedule_reconnect : Connection → Connection
schedule_reconnect c =
    if is_some c.reconnect_timeout
    then c
    else let delay = reconnect_delay (min c.reconnect_attempt last_delay) in
      note (emitted (ev_reconnecting (c.reconnect_attempt + 1) delay))
        (record c { reconnect_attempt = c.reconnect_attempt + 1; reconnect_timeout = some delay })

-- `disconnect`; the socket that it drops still closes.
unfoldable pub disconnect : Connection → Connection
disconnect c =
    let cleaned = cleanup (record c {
      is_closing = true;
      last_disconnect_reason = closed_normally;
      pending_close_code = some closed_by_client;
      current_state = disconnected;
    }) in
    elim (c.socket) [
      | no_socket ↦ cleaned
      | shut ↦ note closed_socket (record cleaned { socket = no_socket })
      | _ ↦ note closed_socket (record cleaned { socket = no_socket; stale = c.stale + 1 })
    ]

-- `connect`; a socket that it replaces still closes.
unfoldable pub connect : Connection → Connection
connect c = if is_connected c then note connect_resolved c else record c {
  is_closing = false;
  current_state = if ltb 0 c.reconnect_attempt then reconnecting else connecting;
  socket = dialing;
  stale = elim (c.socket) [ no_socket ↦ c.stale | shut ↦ c.stale | _ ↦ c.stale + 1 ];
}
