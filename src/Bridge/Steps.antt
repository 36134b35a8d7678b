-- ===== src/Bridge/Steps.antt =====
-- server/src/connection/websocket.ts: the steps by which the event loop and the callers drive a
-- connection, and what its trace says of each request.
use godot_mcp.Base.{
  ℕ, String, ◌+◌, ◌-◌, ◌<◌, ◌≡◌, Bool, true, false, Option, none, some, List, [], ◌∷◌, str_eq,
  if◌then◌else◌,
}
use godot_mcp.Json.{Json}
use godot_mcp.Connection.{
  Socket, no_socket, dialing, opened, closing, shut, caller, PendingRequest, Trace, issued, called,
  uncaught, Connection, Env, new_connection, is_running,
}
use godot_mcp.Bridge.Requests.{send_command, expire}
use godot_mcp.Bridge.Timers.{clear_pong_timeout, ping_tick, pong_expires, disconnect, connect}
use godot_mcp.Bridge.Events.{on_open, on_close, on_error, handle_message, resume}

-- How often a request was issued.
unfoldable pub times_issued : String → List Trace → ℕ
times_issued i [] = 0
times_issued i (issued j ∷ ts) =
    let rest = times_issued i ts in if str_eq j i then rest + 1 else rest
times_issued i (_ ∷ ts) = times_issued i ts

-- How often the continuation of a request was called, to its end or up to a throw.
unfoldable pub times_called : String → List Trace → ℕ
times_called i [] = 0
times_called i (called j o ∷ ts) =
    let rest = times_called i ts in if str_eq j i then rest + 1 else rest
times_called i (uncaught j ∷ ts) =
    let rest = times_called i ts in if str_eq j i then rest + 1 else rest
times_called i (_ ∷ ts) = times_called i ts

unfoldable pub times_pending : String → List PendingRequest → ℕ
times_pending i [] = 0
times_pending i (r ∷ rs) = let rest = times_pending i rs in if str_eq r.id i then rest + 1 else rest

-- A socket whose close event is still to come.
abbrev pub is_undelivered : Socket → Bool
is_undelivered no_socket = false
is_undelivered shut = false
is_undelivered _ = true

-- `crypto.randomUUID` draws an identifier that no request had before.
abbrev pub IsFresh : String → Connection → Type 0
IsFresh i c = times_issued i c.trace ≡ 0

pub data Step (e : Env) : Connection → Connection → Type 0 where
  connects : {c : Connection} → Step e c (connect c)
  disconnects : {c : Connection} → Step e c (disconnect c)
  commands :
      {c : Connection} (i command : String) (params : Json) (timeout : Option ℕ)
      → IsFresh i c
      → Step e c (send_command e caller i command params timeout c)
  opens :
      {c : Connection} (i : String)
      → c.socket ≡ dialing
      → IsFresh i c
      → Step e c (on_open e i (record c { socket = opened }))
  opens_stale : {c : Connection} (i : String) → 0 < c.stale → IsFresh i c → Step e c (on_open e i c)
  begins_close : {c : Connection} → c.socket ≡ opened → Step e c (record c { socket = closing })
  closes :
      {c : Connection} (code : ℕ)
      → is_undelivered c.socket ≡ true
      → Step e c (on_close e code (record c { socket = shut }))
  closes_stale :
      {c : Connection} (code : ℕ)
      → 0 < c.stale
      → Step e c (on_close e code (record c { stale = c.stale - 1 }))
  fails : {c : Connection} (message : String) → Step e c (on_error message c)
  receives : {c : Connection} (text : String) → Step e c (handle_message e text c)
  pongs : {c : Connection} → Step e c (clear_pong_timeout c)
  ticks :
      {c : Connection} (i : String)
      → c.ping_interval ≡ true
      → IsFresh i c
      → Step e c (ping_tick e i c)
  misses_pong : {c : Connection} → c.pong_timeout ≡ true → Step e c (pong_expires c)
  expires : {c : Connection} (i : String) → Step e c (expire i c)
  reconnects :
      {c : Connection} (delay : ℕ)
      → c.reconnect_timeout ≡ some delay
      → Step e c (connect (record c { reconnect_timeout = none }))
  resumes_next : {c : Connection} → Step e c (resume c)

-- The connections that come from the first `connect`, with which the server begins; an exception
-- that nothing catches ends the run.
pub data Reached (e : Env) : Connection → Type 0 where
  start : Reached e (connect new_connection)
  later : {c d : Connection} → Reached e c → is_running c ≡ true → Step e c d → Reached e d
