-- ===== src/Bridge/Events.antt =====
-- server/src/connection/websocket.ts: the handlers of the socket's events and of the promises that
-- a connection awaits, and the steps by which the event loop drives a connection.
use godot_mcp.Base.{
  ℕ, String, ◌+◌, ◌-◌, Bool, true, false, not, ◌&&◌, Option, none, some, [], ◌∷◌, ◌==◌, non_empty,
  contains, codes, min, if◌then◌else◌,
}
use godot_mcp.Json.{Json, str, get}
use godot_mcp.Wire.{Response, success, failure, parse_response, response_id}
use godot_mcp.Connection.{
  never_connected, rejected_another_client, replaced_by_new_client, connection_refused,
  connection_lost, errored, connected, disconnected, lost_connection, replaced_by_new,
  rejected_another, stale_closed_by_server, refused_connection, malformed_response, command_error,
  Outcome, resolved, rejected, after_handshake, after_heartbeat, ev_connected, ev_disconnected,
  ev_invalid_json, ev_invalid_response, ev_handshake_failed, ev_error, emitted, connect_resolved,
  connect_rejected, Connection, Env, is_connected, note,
}
use godot_mcp.Bridge.Requests.{
  find_request, delete_request, reject_request, resolve_request, perform_handshake,
}
use godot_mcp.Bridge.Timers.{last_delay, start_ping_interval, cleanup, schedule_reconnect}

-- The open handler, up to the handshake that it awaits.
unfoldable pub on_open : Env → String → Connection → Connection
on_open e i c = perform_handshake e i (start_ping_interval (record c { reconnect_attempt = 0 }))

-- The open handler's rest, however the handshake ended.
unfoldable pub handshake_ends : Outcome → Connection → Connection
handshake_ends o c =
    let told : Connection = elim o [
      | resolved v ↦ c
      | rejected why ↦ note (emitted (ev_handshake_failed why)) c
    ] in
    note connect_resolved (note (emitted ev_connected) (record told { current_state = connected }))

-- The first of the settled promises that wait.
unfoldable pub resume : Connection → Connection
resume c = elim (c.resumes) [
  | [] ↦ c
  | after_handshake o ∷ rs ↦ handshake_ends o (record c { resumes = rs })
  | after_heartbeat ∷ rs ↦ record c { resumes = rs; heartbeat_pending = false }
]

-- The reason and the typed code that a close event leaves.
unfoldable pub close_reason : ℕ → Connection → Connection
close_reason code c =
    let was_connected : Bool = elim (c.current_state) [ connected ↦ true | _ ↦ false ] in
    let never : Bool = elim (c.last_disconnect_reason) [ never_connected ↦ true | _ ↦ false ] in
    let down = record c { current_state = disconnected } in
    if code == 4001
    then record down {
      last_disconnect_reason = rejected_another_client;
      pending_close_code = some rejected_another;
      rejection_count = c.rejection_count + 1;
      reconnect_attempt = min (c.rejection_count + 1 - 1) last_delay;
    }
    else if code == 4003
    then record down {
      last_disconnect_reason = replaced_by_new_client;
      pending_close_code = some replaced_by_new;
    }
    else if code == 4002
    then record down {
      last_disconnect_reason = connection_lost;
      pending_close_code = some stale_closed_by_server;
    }
    else if was_connected
    then record down {
      last_disconnect_reason = connection_lost;
      pending_close_code = some lost_connection;
    }
    else if never
    then record down {
      last_disconnect_reason = connection_refused;
      pending_close_code = some refused_connection;
    }
    else down

unfoldable pub on_close : Env → ℕ → Connection → Connection
on_close e code c =
    let told = note (emitted ev_disconnected) (cleanup (close_reason code c)) in
    if e.auto_reconnect && not told.is_closing then schedule_reconnect told else told

-- The error handler; the promise of `connect` takes the first of its settlings.
unfoldable pub on_error : String → Connection → Connection
on_error message c =
    let told = note (emitted (ev_error message)) (record c {
      last_error_message = some message;
      last_disconnect_reason =
          if contains (codes "ECONNREFUSED") (codes message) then connection_refused else errored;
    }) in
    if is_connected c then told else note connect_rejected told

-- `String(parsed.id)`, of an object that has an `id`.
unfoldable pub id_of : Env → Json → Option String
id_of e v = elim (get "id" v) [ none ↦ none | some (str s) ↦ some s | some w ↦ some (e.to_text w) ]

-- A text that is no response: the request that it names is rejected.
unfoldable pub refuse_message : Option String → Connection → Connection
refuse_message i c = elim i [
  | none ↦ note (emitted ev_invalid_response) c
  | some s ↦ elim (if non_empty s then find_request s c.pending_requests else none) [
    | none ↦ note (emitted ev_invalid_response) c
    | some r ↦
        reject_request r malformed_response
          (record c { pending_requests = delete_request s c.pending_requests })
  ]
]

unfoldable pub take_response : Env → Response → Connection → Connection
take_response e res c = elim (find_request (response_id res) c.pending_requests) [
  | none ↦ c
  | some r ↦
      let gone = record c {
        pending_requests = delete_request (response_id res) c.pending_requests;
      } in
      elim res [
        | success i result ↦ resolve_request e r result gone
        | failure i body ↦ reject_request r (command_error body.code body.message body.detail) gone
      ]
]

unfoldable pub handle_message : Env → String → Connection → Connection
handle_message e text c = elim (e.parse text) [
  | none ↦ note (emitted ev_invalid_json) c
  | some v ↦ elim (parse_response v) [
    | none ↦ refuse_message (id_of e v) c
    | some res ↦ take_response e res c
  ]
]
