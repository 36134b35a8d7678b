-- ===== src/Bridge/Links.antt =====
-- What the requests of a connection leave alone: its sockets and the timer of a reconnect.
use godot_mcp.Bridge.Events.{id_of}
use godot_mcp.Bridge.Timers.{close_code_of}
use godot_mcp.Wire.{success, failure, parse_response}
use godot_mcp.Connection.{Outcome, CloseCode, rejected, closed_with, called, note, Waiter}
use godot_mcp.Json.{obj, end}
use godot_mcp.Connection.{heartbeat, pinged}
use godot_mcp.Base.{
  [], List, ◌∷◌, Option-cases, ◌≡◌, true, Option, none, arith, inl, inr, ℕ, String, List, ◌∷◌,
}
use godot_mcp.Json.{Json}
use godot_mcp.Connection.{
  Connection, PendingRequest, Env, Waiter, Outcome, CloseCode, rejected, closed_with, note, called,
}
use godot_mcp.Wire.{Response}
use godot_mcp.Bridge.Requests.{
  wake, find_request, delete_request, resolve_request, reject_request, issue, send_command, expire,
  take_handshake,
}
use godot_mcp.Bridge.Timers.{
  cleanup, stop_ping_interval, clear_pong_timeout, ping_tick, reject_requests,
}
use godot_mcp.Bridge.Events.{handle_message, refuse_message, take_response}

-- The parts that tell whether the connection comes back.
pub record SameLink (c d : Connection) : Type 0 where
  pub same_closing : d.is_closing ≡ c.is_closing
  pub same_socket : d.socket ≡ c.socket
  pub same_stale : d.stale ≡ c.stale
  pub same_timer : d.reconnect_timeout ≡ c.reconnect_timeout

wake-SameLink : (r : PendingRequest) (o : Outcome) (c : Connection) → SameLink c (wake r o c)
unfolding wake
wake-SameLink r o c = ground arith

reject_requests-SameLink :
    (code : CloseCode) (rs : List PendingRequest) (c : Connection)
    → SameLink c (reject_requests code rs c)
unfolding reject_requests reject_request
reject_requests-SameLink code [] c = ground arith
reject_requests-SameLink code (r ∷ rs) c =
    let first =
      wake-SameLink r (rejected (closed_with code))
        (note (called r.id (rejected (closed_with code))) c) in
    let rest = reject_requests-SameLink code rs (reject_request r (closed_with code) c) in
    ground (arith, first, rest)

resolve_request-SameLink :
    (e : Env) (r : PendingRequest) (result : Option Json) (c : Connection)
    → SameLink c (resolve_request e r result c)
unfolding resolve_request take_handshake wake
resolve_request-SameLink e r result c = ground arith

pub issue-SameLink :
    (e : Env) (r : PendingRequest) (params : Json) (c : Connection)
    → SameLink c (issue e r params c)
unfolding issue wake
issue-SameLink e r params c = ground arith

pub send_command-SameLink :
    (e : Env) (w : Waiter) (i command : String) (params : Json) (timeout : Option ℕ)
    (c : Connection)
    → SameLink c (send_command e w i command params timeout c)
unfolding send_command wake issue
send_command-SameLink e w i command params timeout c = ground arith

pub expire-SameLink : (i : String) (c : Connection) → SameLink c (expire i c)
unfolding expire reject_request wake
expire-SameLink i c = ground arith

refuse_message-SameLink : (i : Option String) (c : Connection) → SameLink c (refuse_message i c)
unfolding refuse_message reject_request wake
refuse_message-SameLink i c = ground arith

take_response-SameLink :
    (e : Env) (res : Response) (c : Connection) → SameLink c (take_response e res c)
unfolding take_response reject_request wake
take_response-SameLink e (success i result) c =
    elim (Option-cases (find_request i c.pending_requests)) [
      | inl absent ↦ ground (arith, absent)
      | inr (r, found) ↦
          let gone : Connection = record c {
            pending_requests = delete_request i c.pending_requests;
          } in
          ground (arith, found, resolve_request-SameLink e r result gone)
    ]
take_response-SameLink e (failure i body) c = ground arith

pub handle_message-SameLink :
    (e : Env) (text : String) (c : Connection) → SameLink c (handle_message e text c)
unfolding handle_message
handle_message-SameLink e text c = elim (Option-cases (e.parse text)) [
  | inl bad ↦ ground (arith, bad)
  | inr (v, good) ↦ elim (Option-cases (parse_response v)) [
    | inl refused ↦ ground (arith, good, refused, refuse_message-SameLink (id_of e v) c)
    | inr (res, ok) ↦ ground (arith, good, ok, take_response-SameLink e res c)
  ]
]

pub cleanup-link :
    (c : Connection)
    → ((cleanup c).is_closing ≡ c.is_closing)
      × ((cleanup c).socket ≡ c.socket)
      × ((cleanup c).stale ≡ c.stale)
      × ((cleanup c).reconnect_timeout ≡ none)
unfolding cleanup stop_ping_interval clear_pong_timeout
cleanup-link c =
    let stopped : Connection = record (stop_ping_interval c) {
      handshake_result = none;
      reconnect_timeout = none;
      pending_close_code = none;
    } in
    ground (
      arith,
      reject_requests-SameLink (close_code_of c.pending_close_code) c.pending_requests stopped,
    )

pub ping_tick-SameLink : (e : Env) (i : String) (c : Connection) → SameLink c (ping_tick e i c)
unfolding ping_tick
ping_tick-SameLink e i c =
    let asking : Connection = record (note pinged (record c { pong_timeout = true })) {
      heartbeat_pending = true;
    } in
    ground (arith, send_command-SameLink e heartbeat i "heartbeat" (obj end) none asking)
