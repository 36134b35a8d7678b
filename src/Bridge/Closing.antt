-- ===== src/Bridge/Closing.antt =====
-- What a close event does to a connection and to the requests that wait, and what becomes of a
-- handshake that it ends.
use godot_mcp.Base.{arith, refl, ◌≡◌, ◌==◌, ℕ, if◌then◌else◌, ◌∙◌, List, [], ◌∷◌, ap}
use godot_mcp.Connection.{
  emitted, ev_disconnected, Connection, PendingRequest, Env, rejected, closed_with, called, note,
  CloseCode, lost_connection, replaced_by_new, rejected_another, stale_closed_by_server,
  refused_connection, connected, never_connected, Trace,
}
use godot_mcp.Bridge.Requests.{reject_request}
use godot_mcp.Bridge.Timers.{
  cleanup, stop_ping_interval, clear_pong_timeout, schedule_reconnect, reject_requests,
  close_code_of,
}
use godot_mcp.Bridge.Events.{on_close, close_reason}
use godot_mcp.Bridge.Ledger.{wake-trace}

-- The calls of continuations in a trace, newest first.
abbrev pub calls : List Trace → List Trace
calls [] = []
calls (called i o ∷ ts) = called i o ∷ calls ts
calls (_ ∷ ts) = calls ts

-- Requests that are rejected in their order, on top of the calls before.
abbrev pub rejections : CloseCode → List PendingRequest → List Trace → List Trace
rejections code [] ts = ts
rejections code (r ∷ rs) ts = rejections code rs (called r.id (rejected (closed_with code)) ∷ ts)

-- The typed code of a close event.
abbrev pub typed_code : ℕ → Connection → CloseCode
typed_code code c =
    if code == 4001
    then rejected_another
    else if code == 4003
    then replaced_by_new
    else if code == 4002
    then stale_closed_by_server
    else elim (c.current_state) [
      | connected ↦ lost_connection
      | _ ↦ elim (c.last_disconnect_reason) [
        | never_connected ↦ refused_connection
        | _ ↦ close_code_of c.pending_close_code
      ]
    ]

reject_requests-calls :
    (code : CloseCode) (rs : List PendingRequest) (c : Connection)
    → calls (reject_requests code rs c).trace ≡ rejections code rs (calls c.trace)
unfolding reject_requests reject_request
reject_requests-calls code [] c = refl
reject_requests-calls code (r ∷ rs) c =
    let why = rejected (closed_with code) in
    reject_requests-calls code rs (reject_request r (closed_with code) c)
    ∙ ap (λ ts. rejections code rs (calls ts)) (wake-trace r why (note (called r.id why) c))

cleanup-calls :
    (c : Connection)
    → calls (cleanup c).trace
      ≡ rejections (close_code_of c.pending_close_code) c.pending_requests (calls c.trace)
unfolding cleanup stop_ping_interval clear_pong_timeout
cleanup-calls c = reject_requests-calls (close_code_of c.pending_close_code) c.pending_requests _

close_reason-code :
    (code : ℕ) (c : Connection)
    → close_code_of (close_reason code c).pending_close_code ≡ typed_code code c
unfolding close_reason close_code_of
close_reason-code code c = ground arith

pub close_reason-keeps :
    (code : ℕ) (c : Connection)
    → ((close_reason code c).pending_requests ≡ c.pending_requests)
      × ((close_reason code c).trace ≡ c.trace)
unfolding close_reason
close_reason-keeps code c = ground arith

schedule_reconnect-keeps :
    (c : Connection)
    → (calls (schedule_reconnect c).trace ≡ calls c.trace)
      × ((schedule_reconnect c).pending_requests ≡ c.pending_requests)
      × ((schedule_reconnect c).current_state ≡ c.current_state)
      × ((schedule_reconnect c).socket ≡ c.socket)
      × ((schedule_reconnect c).resumes ≡ c.resumes)
      × ((schedule_reconnect c).rejection_count ≡ c.rejection_count)
unfolding schedule_reconnect
schedule_reconnect-keeps c = ground arith

-- `on_close` is its cleanup, the event, and perhaps the timer of a reconnect.
pub on_close-keeps :
    (e : Env) (code : ℕ) (c : Connection)
    → let cleaned = cleanup (close_reason code c) in
      (calls (on_close e code c).trace ≡ calls cleaned.trace)
      × ((on_close e code c).pending_requests ≡ cleaned.pending_requests)
      × ((on_close e code c).current_state ≡ cleaned.current_state)
      × ((on_close e code c).socket ≡ cleaned.socket)
      × ((on_close e code c).resumes ≡ cleaned.resumes)
      × ((on_close e code c).rejection_count ≡ cleaned.rejection_count)
unfolding on_close
on_close-keeps e code c =
    let told : Connection = note (emitted ev_disconnected) (cleanup (close_reason code c)) in
    ground (arith, schedule_reconnect-keeps told)

cleanup-entries : (c : Connection) → (cleanup c).pending_requests ≡ []
unfolding cleanup
cleanup-entries c = refl

-- A close event leaves no request pending, and rejects those that were in their order, each with
-- the typed code that the close's number and the connection's state name.
pub close_rejects :
    (e : Env) (code : ℕ) (c : Connection)
    → ((on_close e code c).pending_requests ≡ [])
      × (calls (on_close e code c).trace
          ≡ rejections (typed_code code c) c.pending_requests (calls c.trace))
close_rejects e code c =
    let reasoned = close_reason code c in
    ground (
      arith,
      on_close-keeps e code c,
      cleanup-entries reasoned,
      cleanup-calls reasoned,
      close_reason-code code c,
      close_reason-keeps code c,
    )
