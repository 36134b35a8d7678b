-- ===== src/Bridge/Handshakes.antt =====
-- What a refusal and a handshake that fails leave of a connection.
use mathlib.Core.Path.{subst}
use godot_mcp.Base.{sym, ◌⊎◌, eq_iff}
use godot_mcp.Wire.{Response, success, parse_response}
use godot_mcp.Json.{null}
use godot_mcp.Bridge.Entries.{find-delete}
use godot_mcp.Base.{
  arith, refl, ◌≡◌, ◌+◌, ℕ, some, none, true, false, Option, inl, inr, String, ◌∙◌, List, [], ◌∷◌,
  min, ap,
}
use godot_mcp.Json.{Json}
use godot_mcp.Connection.{
  Resume, Connection, PendingRequest, Env, Outcome, rejected, closed_with, CloseCode, connected,
  disconnected, handshake, after_handshake, uncaught, is_running, Trace,
}
use godot_mcp.Bridge.Requests.{wake, find_request, reject_request, resolve_request}
use godot_mcp.Bridge.Timers.{
  cleanup, stop_ping_interval, clear_pong_timeout, schedule_reconnect, reject_requests,
  close_code_of, reconnect_delay, last_delay,
}
use godot_mcp.Bridge.Events.{
  on_close, close_reason, resume, handshake_ends, take_response, handle_message,
}
use godot_mcp.Bridge.Links.{cleanup-link}
use godot_mcp.Bridge.Closing.{on_close-keeps, close_reason-keeps}

reject_requests-keeps :
    (code : CloseCode) (rs : List PendingRequest) (c : Connection)
    → ((reject_requests code rs c).current_state ≡ c.current_state)
      × ((reject_requests code rs c).reconnect_attempt ≡ c.reconnect_attempt)
      × ((reject_requests code rs c).rejection_count ≡ c.rejection_count)
unfolding reject_requests reject_request wake
reject_requests-keeps code [] c = (refl, refl, refl)
reject_requests-keeps code (r ∷ rs) c =
    ground (arith, reject_requests-keeps code rs (reject_request r (closed_with code) c))

cleanup-keeps :
    (c : Connection)
    → ((cleanup c).current_state ≡ c.current_state)
      × ((cleanup c).reconnect_attempt ≡ c.reconnect_attempt)
      × ((cleanup c).rejection_count ≡ c.rejection_count)
unfolding cleanup stop_ping_interval clear_pong_timeout
cleanup-keeps c = reject_requests-keeps (close_code_of c.pending_close_code) c.pending_requests _

close_reason-refused :
    (c : Connection)
    → ((close_reason 4001 c).reconnect_attempt ≡ min c.rejection_count last_delay)
      × ((close_reason 4001 c).rejection_count ≡ c.rejection_count + 1)
      × ((close_reason 4001 c).is_closing ≡ c.is_closing)
unfolding close_reason
close_reason-refused c = (omega arith, refl, refl)

close_reason-down :
    (code : ℕ) (c : Connection)
    → ((close_reason code c).current_state ≡ disconnected)
      × ((close_reason code c).socket ≡ c.socket)
      × ((close_reason code c).resumes ≡ c.resumes)
unfolding close_reason
close_reason-down code c = ground arith

reject_requests-handshake :
    (code : CloseCode) (r : PendingRequest) (c : Connection)
    → r.waiter ≡ handshake
    → r.live ≡ true
    → c.resumes ≡ []
    → (reject_requests code (r ∷ []) c).resumes ≡ after_handshake (rejected (closed_with code)) ∷ []
unfolding reject_requests reject_request wake
reject_requests-handshake code r c shakes live idle = ground (arith, shakes, live, idle)

cleanup-handshake :
    (r : PendingRequest) (c : Connection)
    → c.pending_requests ≡ r ∷ []
    → r.waiter ≡ handshake
    → r.live ≡ true
    → c.resumes ≡ []
    → (cleanup c).resumes
      ≡ after_handshake (rejected (closed_with (close_code_of c.pending_close_code))) ∷ []
unfolding cleanup stop_ping_interval clear_pong_timeout
cleanup-handshake r c only shakes live idle =
    let code = close_code_of c.pending_close_code in
    let stopped : Connection = record (stop_ping_interval c) {
      handshake_result = none;
      reconnect_timeout = none;
      pending_close_code = none;
    } in
    ap (λ rs. (reject_requests code rs stopped).resumes) only
    ∙ reject_requests-handshake code r stopped shakes live idle

resume-connected :
    (o : Outcome) (rs : List Resume) (c : Connection)
    → c.resumes ≡ after_handshake o ∷ rs
    → ((resume c).current_state ≡ connected) × ((resume c).socket ≡ c.socket)
unfolding resume handshake_ends
resume-connected o rs c first = ground (arith, first)

-- A client that is refused for the n-th time in a row, n counted from one, waits for the n-th delay
-- of the table or its last, unless it is closing; it reconnects automatically.
pub refusal_backs_off :
    (e : Env) (c : Connection)
    → e.auto_reconnect ≡ true
    → c.is_closing ≡ false
    → ((on_close e 4001 c).reconnect_timeout
        ≡ some (reconnect_delay (min c.rejection_count last_delay)))
      × ((on_close e 4001 c).rejection_count ≡ c.rejection_count + 1)
unfolding on_close schedule_reconnect
refusal_backs_off e c auto open_end =
    let reasoned = close_reason 4001 c in
    ground
      (arith, auto, open_end, close_reason-refused c, cleanup-link reasoned, cleanup-keeps reasoned)

-- A socket that closes while only the handshake waits: its promise's continuation then still calls
-- the connection connected, though the socket is not open.
pub closed_then_connected :
    (e : Env) (code : ℕ) (r : PendingRequest) (c : Connection)
    → c.pending_requests ≡ r ∷ []
    → r.waiter ≡ handshake
    → r.live ≡ true
    → c.resumes ≡ []
    → ((on_close e code c).current_state ≡ disconnected)
      × ((resume (on_close e code c)).current_state ≡ connected)
      × ((resume (on_close e code c)).socket ≡ c.socket)
closed_then_connected e code r c only shakes live idle =
    let reasoned = close_reason code c in
    let down = close_reason-down code c in
    let kept = on_close-keeps e code c in
    let woken =
      cleanup-handshake r reasoned ((close_reason-keeps code c).0 ∙ only) shakes live
        (down.2 ∙ idle) in
    let told = resume-connected _ [] (on_close e code c) (kept.4 ∙ woken) in
    ground (arith, kept, down, told, cleanup-keeps reasoned, cleanup-link reasoned)

response-crashes :
    (e : Env) (i : String) (result : Option Json) (r : PendingRequest) (c : Connection)
    → (result ≡ none) ⊎ (result ≡ some null)
    → find_request i c.pending_requests ≡ some r
    → r.waiter ≡ handshake
    → let d = take_response e (success i result) c in
      (d.trace ≡ uncaught r.id ∷ c.trace)
      × (find_request i d.pending_requests ≡ none)
      × (d.resumes ≡ c.resumes)
unfolding take_response resolve_request
response-crashes e i result r c (inl absent) found shakes =
    ground (arith, absent, found, shakes, find-delete i i c.pending_requests, (eq_iff i i).1 refl)
response-crashes e i result r c (inr nothing) found shakes =
    ground (arith, nothing, found, shakes, find-delete i i c.pending_requests, (eq_iff i i).1 refl)

taken :
    (e : Env) (message : String) (v : Json) (res : Response) (c : Connection)
    → e.parse message ≡ some v
    → parse_response v ≡ some res
    → handle_message e message c ≡ take_response e res c
unfolding handle_message
taken e message v res c parses responds = ground (arith, parses, responds)

crashed-is_running :
    (i : String) (ts : List Trace) (c : Connection)
    → c.trace ≡ uncaught i ∷ ts
    → is_running c ≡ false
unfolding is_running
crashed-is_running i ts c crashed = rw crashed refl

-- A message that answers the pending handshake with success, but with a null result or none: its
-- entry goes, and then its resolve throws. Nothing catches that, so that the process runs no more;
-- until then nothing but the exception has happened: the handshake's promise has not settled, nothing
-- was emitted, and neither was `connect` resolved.
pub resultless_handshake_crashes :
    (e : Env) (message i : String) (v : Json) (result : Option Json) (r : PendingRequest)
    (c : Connection)
    → e.parse message ≡ some v
    → parse_response v ≡ some (success i result)
    → (result ≡ none) ⊎ (result ≡ some null)
    → find_request i c.pending_requests ≡ some r
    → r.waiter ≡ handshake
    → let d = handle_message e message c in
      (is_running d ≡ false)
      × (d.trace ≡ uncaught r.id ∷ c.trace)
      × (find_request i d.pending_requests ≡ none)
      × (d.resumes ≡ c.resumes)
resultless_handshake_crashes e message i v result r c parses responds missing found shakes =
    let crash = response-crashes e i result r c missing found shakes in
    subst
      (λ (d : Connection).
        (is_running d ≡ false)
        × (d.trace ≡ uncaught r.id ∷ c.trace)
        × (find_request i d.pending_requests ≡ none)
        × (d.resumes ≡ c.resumes))
      (sym (taken e message v (success i result) c parses responds))
      (crashed-is_running r.id c.trace _ crash.0, crash.0, crash.1, crash.2)
