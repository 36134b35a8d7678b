-- ===== src/Bridge/Accounts.antt =====
-- Every step of a connection keeps the balance of its requests.
use godot_mcp.Bridge.Replies.{handle_message-IsBalanced}
use godot_mcp.Json.{obj, end}
use godot_mcp.Connection.{heartbeat, caller, opened, shut, ev_disconnected, emitted, note, pinged}
use godot_mcp.Base.{◌-◌, true, some, none, arith, refl, String, ℕ, true, some, ◌≡◌}
use godot_mcp.Connection.{
  Connection, Env, closed_by_client, closed_normally, disconnected, note, pinged, emitted,
  ev_disconnected, heartbeat,
}
use godot_mcp.Bridge.Requests.{perform_handshake}
use godot_mcp.Bridge.Timers.{
  cleanup, start_ping_interval, stop_ping_interval, clear_pong_timeout, ping_tick, connect,
  disconnect, schedule_reconnect, pong_expires,
}
use godot_mcp.Bridge.Events.{on_open, on_close, close_reason, on_error, resume, handshake_ends}
use godot_mcp.Bridge.Steps.{
  times_issued, times_called, times_pending, IsFresh, Step, connects, disconnects, commands, opens,
  opens_stale, begins_close, closes, closes_stale, fails, receives, pongs, ticks, misses_pong,
  expires, reconnects, resumes_next, Reached, start, later,
}
use godot_mcp.Bridge.Ledger.{IsBalanced}
use godot_mcp.Bridge.Balance.{
  cleanup-IsBalanced, issue-IsBalanced, send_command-IsBalanced, expire-IsBalanced,
}

moved :
    {i : String} {c d : Connection}
    → IsBalanced i c
    → d.pending_requests ≡ c.pending_requests
    → times_issued i d.trace ≡ times_issued i c.trace
    → times_called i d.trace ≡ times_called i c.trace
    → IsBalanced i d
moved h same_entries same_issues same_calls = ground (arith, h)

clear_pong_timeout-IsBalanced :
    (i : String) (c : Connection) → IsBalanced i c → IsBalanced i (clear_pong_timeout c)
unfolding clear_pong_timeout
clear_pong_timeout-IsBalanced i c h = moved h refl refl refl

connect-IsBalanced : (i : String) (c : Connection) → IsBalanced i c → IsBalanced i (connect c)
unfolding connect times_issued times_called
connect-IsBalanced i c h = ground (arith, h)

disconnect-IsBalanced : (i : String) (c : Connection) → IsBalanced i c → IsBalanced i (disconnect c)
unfolding disconnect times_issued times_called
disconnect-IsBalanced i c h =
    let ending : Connection = record c {
      is_closing = true;
      last_disconnect_reason = closed_normally;
      pending_close_code = some closed_by_client;
      current_state = disconnected;
    } in
    let cleaned = cleanup-IsBalanced i ending (moved h refl refl refl) in ground (arith, cleaned)

on_open-IsBalanced :
    (i : String) (e : Env) (j : String) (c : Connection)
    → IsFresh j c
    → IsBalanced j c
    → IsBalanced i c
    → IsBalanced i (on_open e j c)
unfolding on_open perform_handshake start_ping_interval stop_ping_interval clear_pong_timeout
on_open-IsBalanced i e j c fresh own h =
    issue-IsBalanced i e _ _ _ fresh (moved own refl refl refl) (moved h refl refl refl)

close_reason-IsBalanced :
    (i : String) (code : ℕ) (c : Connection) → IsBalanced i c → IsBalanced i (close_reason code c)
unfolding close_reason
close_reason-IsBalanced i code c h = ground (arith, h)

schedule_reconnect-IsBalanced :
    (i : String) (c : Connection) → IsBalanced i c → IsBalanced i (schedule_reconnect c)
unfolding schedule_reconnect times_issued times_called
schedule_reconnect-IsBalanced i c h = ground (arith, h)

on_close-IsBalanced :
    (i : String) (e : Env) (code : ℕ) (c : Connection)
    → IsBalanced i c
    → IsBalanced i (on_close e code c)
unfolding on_close times_issued times_called
on_close-IsBalanced i e code c h =
    let cleaned = cleanup-IsBalanced i (close_reason code c) (close_reason-IsBalanced i code c h) in
    let told : Connection = note (emitted ev_disconnected) (cleanup (close_reason code c)) in
    let gone : IsBalanced i told = moved cleaned refl refl refl in
    ground (arith, gone, schedule_reconnect-IsBalanced i told gone)

on_error-IsBalanced :
    (i message : String) (c : Connection) → IsBalanced i c → IsBalanced i (on_error message c)
unfolding on_error times_issued times_called
on_error-IsBalanced i message c h = ground (arith, h)

ping_tick-IsBalanced :
    (i : String) (e : Env) (j : String) (c : Connection)
    → IsFresh j c
    → IsBalanced j c
    → IsBalanced i c
    → IsBalanced i (ping_tick e j c)
unfolding ping_tick times_issued times_called
ping_tick-IsBalanced i e j c fresh own h =
    let asking : Connection = record (note pinged (record c { pong_timeout = true })) {
      heartbeat_pending = true;
    } in
    ground (
      arith,
      h,
      send_command-IsBalanced i e heartbeat j "heartbeat" (obj end) none asking fresh
          (moved own refl refl refl) (moved h refl refl refl),
    )

pong_expires-IsBalanced :
    (i : String) (c : Connection) → IsBalanced i c → IsBalanced i (pong_expires c)
unfolding pong_expires times_issued times_called
pong_expires-IsBalanced i c h = ground (arith, h)

resume-IsBalanced : (i : String) (c : Connection) → IsBalanced i c → IsBalanced i (resume c)
unfolding resume handshake_ends times_issued times_called
resume-IsBalanced i c h = ground (arith, h)

Step-IsBalanced :
    {e : Env} {c d : Connection}
    → Step e c d
    → ((i : String) → IsBalanced i c)
    → (i : String) → IsBalanced i d
Step-IsBalanced connects h i = connect-IsBalanced i _ (h i)
Step-IsBalanced disconnects h i = disconnect-IsBalanced i _ (h i)
Step-IsBalanced {e} {c} (commands j command params timeout fresh) h i =
    send_command-IsBalanced i e caller j command params timeout c fresh (h j) (h i)
Step-IsBalanced {e} {c} (opens j down fresh) h i =
    on_open-IsBalanced i e j (record c { socket = opened }) fresh (moved (h j) refl refl refl)
      (moved (h i) refl refl refl)
Step-IsBalanced {e} {c} (opens_stale j late fresh) h i =
    on_open-IsBalanced i e j c fresh (h j) (h i)
Step-IsBalanced (begins_close up) h i = moved (h i) refl refl refl
Step-IsBalanced {e} {c} (closes code up) h i =
    on_close-IsBalanced i e code (record c { socket = shut }) (moved (h i) refl refl refl)
Step-IsBalanced {e} {c} (closes_stale code late) h i =
    on_close-IsBalanced i e code (record c { stale = c.stale - 1 }) (moved (h i) refl refl refl)
Step-IsBalanced (fails message) h i = on_error-IsBalanced i message _ (h i)
Step-IsBalanced {e} (receives text) h i = handle_message-IsBalanced i e text _ (h i)
Step-IsBalanced pongs h i = clear_pong_timeout-IsBalanced i _ (h i)
Step-IsBalanced {e} (ticks j on fresh) h i = ping_tick-IsBalanced i e j _ fresh (h j) (h i)
Step-IsBalanced (misses_pong on) h i = pong_expires-IsBalanced i _ (h i)
Step-IsBalanced (expires j) h i = expire-IsBalanced i j _ (h i)
Step-IsBalanced {e} {c} (reconnects delay set) h i =
    connect-IsBalanced i (record c { reconnect_timeout = none }) (moved (h i) refl refl refl)
Step-IsBalanced resumes_next h i = resume-IsBalanced i _ (h i)

-- On every connection that is reached, each request is issued once at most, and either its entry
-- is pending or its continuation was called, but not both; a call counts even where it threw.
pub Reached-IsBalanced : {e : Env} {c : Connection} → Reached e c → (i : String) → IsBalanced i c
unfolding connect times_issued times_called times_pending
Reached-IsBalanced start i = record { balanced = refl; once = omega arith }
Reached-IsBalanced (later r runs st) i = Step-IsBalanced st (Reached-IsBalanced r) i
