-- ===== src/Bridge/Alive.antt =====
-- A connection that is not closing is never left for dead: it comes back.
use godot_mcp.Bridge.Links.{
  SameLink, send_command-SameLink, expire-SameLink, handle_message-SameLink, cleanup-link,
  issue-SameLink, ping_tick-SameLink,
}
use godot_mcp.Connection.{caller}
use godot_mcp.Bridge.Timers.{reconnect_delay}
use godot_mcp.Connection.{dialing}
use godot_mcp.Base.{
  Bool, leb, zero, suc, ◌≤◌, Option-cases, ◌≡◌, ◌<◌, ◌⊎◌, true, false, Option, some, none, arith,
  refl, inl, inr, ℕ,
}
use godot_mcp.Connection.{Connection, Env, closed_by_client, closed_normally, disconnected}
use godot_mcp.Bridge.Requests.{perform_handshake}
use godot_mcp.Bridge.Timers.{
  start_ping_interval, stop_ping_interval, clear_pong_timeout, ping_tick, connect, disconnect,
  schedule_reconnect, pong_expires,
}
use godot_mcp.Bridge.Events.{on_open, on_close, close_reason, on_error, resume, handshake_ends}
use godot_mcp.Bridge.Steps.{
  is_undelivered, Step, connects, disconnects, commands, opens, opens_stale, begins_close, closes,
  closes_stale, fails, receives, pongs, ticks, misses_pong, expires, reconnects, resumes_next,
  Reached, start, later,
}

-- A timer that fires within thirty seconds.
abbrev pub is_due : Option ℕ → Bool
is_due none = false
is_due (some delay) = leb delay 30000

-- A close event is still to come, or the timer of a reconnect runs, unless the client is closing.
unfoldable pub IsAlive : Connection → Type 0
IsAlive c =
    (c.is_closing ≡ true)
    ⊎ (is_undelivered c.socket ≡ true)
    ⊎ (0 < c.stale)
    ⊎ (is_due c.reconnect_timeout ≡ true)

same_link : {c d : Connection} → SameLink c d → IsAlive c → IsAlive d
unfolding IsAlive
same_link s h = ground (arith, s, h)

reconnect_delay-is_due : (n : ℕ) → is_due (some (reconnect_delay n)) ≡ true
reconnect_delay-is_due zero = refl
reconnect_delay-is_due (suc zero) = refl
reconnect_delay-is_due (suc (suc zero)) = refl
reconnect_delay-is_due (suc (suc (suc zero))) = refl
reconnect_delay-is_due (suc (suc (suc (suc zero)))) = refl
reconnect_delay-is_due (suc (suc (suc (suc (suc n))))) = refl

-- A close event arms the timer, unless the client is closing.
pub on_close-IsAlive :
    (e : Env) (code : ℕ) (c : Connection) → e.auto_reconnect ≡ true → IsAlive (on_close e code c)
unfolding IsAlive on_close schedule_reconnect
on_close-IsAlive e code c auto = ground (arith, auto, cleanup-link (close_reason code c))

disconnect-IsAlive : (c : Connection) → IsAlive (disconnect c)
unfolding IsAlive disconnect
disconnect-IsAlive c =
    let ending : Connection = record c {
      is_closing = true;
      last_disconnect_reason = closed_normally;
      pending_close_code = some closed_by_client;
      current_state = disconnected;
    } in
    ground (arith, cleanup-link ending)

connect-IsAlive : (c : Connection) → IsAlive (connect c)
unfolding IsAlive connect
connect-IsAlive c = ground arith

Step-IsAlive :
    {e : Env} {c d : Connection} → e.auto_reconnect ≡ true → Step e c d → IsAlive c → IsAlive d
unfolding IsAlive on_open start_ping_interval stop_ping_interval clear_pong_timeout
    perform_handshake ping_tick pong_expires resume handshake_ends on_error
Step-IsAlive auto connects h = connect-IsAlive _
Step-IsAlive auto disconnects h = disconnect-IsAlive _
Step-IsAlive {e} {c} auto (commands i command params timeout fresh) h =
    same_link (send_command-SameLink e caller i command params timeout c) h
Step-IsAlive auto (opens i down fresh) h = same_link (issue-SameLink _ _ _ _) (inr (inl refl))
Step-IsAlive auto (opens_stale i late fresh) h = same_link (issue-SameLink _ _ _ _) h
Step-IsAlive auto (begins_close up) h = inr (inl refl)
Step-IsAlive {e} auto (closes code up) h = on_close-IsAlive e code _ auto
Step-IsAlive {e} auto (closes_stale code late) h = on_close-IsAlive e code _ auto
Step-IsAlive auto (fails message) h = ground (arith, h)
Step-IsAlive {e} {c} auto (receives text) h = same_link (handle_message-SameLink e text c) h
Step-IsAlive auto pongs h = h
Step-IsAlive {e} {c} auto (ticks i on fresh) h = same_link (ping_tick-SameLink e i c) h
Step-IsAlive auto (misses_pong on) h = ground (arith, h)
Step-IsAlive {e} {c} auto (expires i) h = same_link (expire-SameLink i c) h
Step-IsAlive auto (reconnects delay set) h = connect-IsAlive _
Step-IsAlive auto resumes_next h = ground (arith, h)

pub Reached-IsAlive : {e : Env} {c : Connection} → e.auto_reconnect ≡ true → Reached e c → IsAlive c
Reached-IsAlive auto start = connect-IsAlive _
Reached-IsAlive auto (later r runs st) = Step-IsAlive auto st (Reached-IsAlive auto r)

-- Where every socket is gone and the client is not closing, the timer of a reconnect runs, it fires
-- within thirty seconds, and then a new socket is dialled; the client reconnects automatically.
pub dead_link_redials :
    {e : Env} {c : Connection}
    → e.auto_reconnect ≡ true
    → Reached e c
    → c.is_closing ≡ false
    → is_undelivered c.socket ≡ false
    → c.stale ≡ 0
    → (delay : ℕ) × (c.reconnect_timeout ≡ some delay)
      × (delay ≤ 30000)
      × ((connect (record c { reconnect_timeout = none })).socket ≡ dialing)
unfolding IsAlive connect
dead_link_redials {e} {c} auto r open_end gone single = elim (Option-cases c.reconnect_timeout) [
  | inl unset ↦ absurd (ground (arith, Reached-IsAlive auto r))
  | inr (delay, set) ↦ (delay, set, ground (arith, Reached-IsAlive auto r), ground arith)
]
