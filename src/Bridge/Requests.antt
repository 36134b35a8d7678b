-- ===== src/Bridge/Requests.antt =====
-- server/src/connection/websocket.ts: the pending requests of a `GodotConnection`, from their issue
-- to the settling of their promises. What awaits a promise is kept in `resumes`.
use godot_mcp.Base.{
  ℕ, String, true, false, Option, none, some, List, [], ◌∷◌, ◌++◌, str_eq, if◌then◌else◌,
}
use godot_mcp.Json.{Json, null, str, obj, field, end, get, is_text}
use godot_mcp.Wire.{create_request}
use godot_mcp.Connection.{
  HandshakeResult, handshake_success, handshake_timeout, Rejection, timed_out, not_connected,
  send_threw, Outcome, resolved, rejected, caller, heartbeat, handshake, PendingRequest,
  after_handshake, after_heartbeat, ev_version_mismatch, issued, sent, called, uncaught, refused,
  emitted, Connection, Env, is_connected, note, diagnostic_message, Waiter,
}

abbrev pub handshake_timeout_ms : ℕ
handshake_timeout_ms = 5000

unfoldable pub find_request : String → List PendingRequest → Option PendingRequest
find_request i [] = none
find_request i (r ∷ rs) = if str_eq r.id i then some r else find_request i rs

unfoldable pub delete_request : String → List PendingRequest → List PendingRequest
delete_request i [] = []
delete_request i (r ∷ rs) =
    let rest = delete_request i rs in if str_eq r.id i then rest else r ∷ rest

-- `Map.set`: an entry of that key keeps its place.
unfoldable pub set_request : PendingRequest → List PendingRequest → List PendingRequest
set_request q [] = q ∷ []
set_request q (r ∷ rs) =
    let rest = set_request q rs in if str_eq r.id q.id then q ∷ rs else r ∷ rest

-- What the settling of a promise sets going.
unfoldable pub wake : PendingRequest → Outcome → Connection → Connection
wake r o c =
    if r.live
    then elim (r.waiter) [
      | caller ↦ c
      | heartbeat ↦ record c { resumes = c.resumes ++ after_heartbeat ∷ [] }
      | handshake ↦ record c { resumes = c.resumes ++ after_handshake o ∷ [] }
    ]
    else c

-- `pending.reject`
unfoldable pub reject_request : PendingRequest → Rejection → Connection → Connection
reject_request r why c = wake r (rejected why) (note (called r.id (rejected why)) c)

-- `data.k ?? d`
unfoldable pub or_default : String → Option Json → Json
or_default d none = str d
or_default d (some null) = str d
or_default d (some v) = v

unfoldable pub handshake_of : Json → HandshakeResult
handshake_of v = record {
  addon_version = or_default "unknown" (get "addon_version" v);
  godot_version = or_default "unknown" (get "godot_version" v);
  project_path = or_default "" (get "project_path" v);
  project_name = or_default "" (get "project_name" v);
  handshake_status = handshake_success;
}

-- The handshake's `resolve`, where the result has properties to read.
unfoldable pub take_handshake : Env → PendingRequest → Json → Connection → Connection
take_handshake e r v c =
    let h = handshake_of v in
    let kept = record c { handshake_result = some h } in
    let told =
      if is_text e.server_version (some h.addon_version)
      then kept
      else note (emitted (ev_version_mismatch h.addon_version h.project_path)) kept in
    wake r (resolved (some v)) (note (called r.id (resolved (some v))) told)

-- `pending.resolve`: a handshake without a result throws on its first read, out of `handleMessage`.
unfoldable pub resolve_request : Env → PendingRequest → Option Json → Connection → Connection
resolve_request e r result c = elim (r.waiter) [
  | handshake ↦ elim result [
    | none ↦ note (uncaught r.id) c
    | some null ↦ note (uncaught r.id) c
    | some v ↦ take_handshake e r v c
  ]
  | _ ↦ wake r (resolved result) (note (called r.id (resolved result)) c)
]

-- The executor of a request: its entry and timer, then the send, which may throw.
unfoldable pub issue : Env → PendingRequest → Json → Connection → Connection
issue e r params c =
    if e.send_throws c.socket
    then wake r (rejected send_threw) (
        note (refused r.id send_threw) (record c {
          pending_requests = set_request (record r { live = false }) c.pending_requests;
          trace = issued r.id ∷ c.trace;
        }))
    else record c {
      pending_requests = set_request r c.pending_requests;
      trace = sent (create_request r.id r.command params) ∷ issued r.id ∷ c.trace;
    }

-- `sendCommand`, for a caller or for the ping's heartbeat.
unfoldable pub send_command :
    Env → Waiter → String → String → Json → Option ℕ → Connection → Connection
send_command e w i command params timeout c =
    let r : PendingRequest = record {
      id = i;
      waiter = w;
      command = command;
      timeout_ms = elim timeout [ some ms ↦ ms | none ↦ e.quick_timeout_ms ];
      live = true;
    } in
    if is_connected c
    then issue e r params c
    else let why = not_connected (diagnostic_message e c) in
      wake r (rejected why) (note (refused i why) c)

unfoldable pub perform_handshake : Env → String → Connection → Connection
perform_handshake e i c =
    issue e
      (record {
        id = i;
        waiter = handshake;
        command = "mcp_handshake";
        timeout_ms = handshake_timeout_ms;
        live = true;
      })
      (obj (field "server_version" (str e.server_version) end)) c

-- What the handshake's timer leaves.
abbrev pub timed_out_handshake : HandshakeResult
timed_out_handshake = record {
  addon_version = str "unknown";
  godot_version = str "unknown";
  project_path = str "";
  project_name = str "";
  handshake_status = handshake_timeout;
}

-- The timer of a request: it is cleared wherever the entry goes.
unfoldable pub expire : String → Connection → Connection
expire i c = elim (find_request i c.pending_requests) [
  | none ↦ c
  | some r ↦
      let why = timed_out r.command r.timeout_ms in
      let gone = record c { pending_requests = delete_request i c.pending_requests } in
      elim (r.waiter) [
        | handshake ↦
            reject_request r why (record gone { handshake_result = some timed_out_handshake })
        | _ ↦ reject_request r why gone
      ]
]
