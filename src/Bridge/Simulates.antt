-- ===== src/Bridge/Simulates.antt =====
-- Every step of a connection is one change of the requests that wait.
use godot_mcp.Bridge.Accounts.{Reached-IsBalanced}
use godot_mcp.Bridge.Entries.{find-absent}
use godot_mcp.Connection.{caller, shut}
use godot_mcp.Bridge.Events.{on_open, resume, handshake_ends, on_error}
use godot_mcp.Bridge.Timers.{
  cleanup, start_ping_interval, stop_ping_interval, clear_pong_timeout, connect, disconnect,
  pong_expires,
}
use godot_mcp.Bridge.Steps.{
  Reached, Step, IsFresh, connects, disconnects, commands, opens, opens_stale, begins_close, closes,
  closes_stale, fails, receives, pongs, ticks, misses_pong, expires, reconnects, resumes_next,
}
use godot_mcp.Bridge.Requests.{perform_handshake}
use godot_mcp.Base.{refl, ◌-◌, arith, ◌≡◌, none, String}
use godot_mcp.Connection.{Connection, Env}
use godot_mcp.Bridge.Requests.{find_request}
use godot_mcp.Bridge.Refines.{
  Change, stays, clears, view, same_entries, issue-Change, send_command-Change,
  handle_message-Change, ping_tick-Change, expire-Change, on_close-Change,
}

-- A new identifier has no entry.
fresh_absent :
    {e : Env} {c : Connection} (i : String)
    → Reached e c
    → IsFresh i c
    → find_request i c.pending_requests ≡ none
fresh_absent {e} {c} i r fresh =
    find-absent i c.pending_requests (omega (arith, (Reached-IsBalanced r i).balanced, fresh))

-- Each step of a connection that is reached makes one change of the requests that wait: none, one
-- more under a new identifier, one less, or none left.
pub Step-Change : {e : Env} {c d : Connection} → Reached e c → Step e c d → Change (view c) (view d)
unfolding connect disconnect cleanup on_open perform_handshake start_ping_interval
    stop_ping_interval clear_pong_timeout pong_expires resume handshake_ends on_error find_request
Step-Change {e} {c} r connects = same_entries c (connect c) (ground arith)
Step-Change r disconnects = clears (λ j. ground arith)
Step-Change {e} {c} r (commands i command params timeout fresh) =
    send_command-Change e caller i command params timeout c (fresh_absent i r fresh)
Step-Change r (opens i down fresh) = issue-Change _ _ _ _ (fresh_absent i r fresh)
Step-Change r (opens_stale i late fresh) = issue-Change _ _ _ _ (fresh_absent i r fresh)
Step-Change r (begins_close up) = stays (λ j. refl)
Step-Change {e} {c} r (closes code up) = on_close-Change e code (record c { socket = shut }) c
Step-Change {e} {c} r (closes_stale code late) =
    on_close-Change e code (record c { stale = c.stale - 1 }) c
Step-Change {e} {c} r (fails message) = same_entries c (on_error message c) (ground arith)
Step-Change {e} {c} r (receives text) = handle_message-Change e text c
Step-Change r pongs = stays (λ j. refl)
Step-Change {e} {c} r (ticks i on fresh) = ping_tick-Change e i c (fresh_absent i r fresh)
Step-Change {e} {c} r (misses_pong on) = same_entries c (pong_expires c) (ground arith)
Step-Change {e} {c} r (expires i) = expire-Change i c
Step-Change {e} {c} r (reconnects delay set) =
    same_entries c (connect (record c { reconnect_timeout = none })) (ground arith)
Step-Change {e} {c} r resumes_next = same_entries c (resume c) (ground arith)
