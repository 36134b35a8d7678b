-- ===== src/Takeover.antt =====
-- launch/proxy/takeover.mjs: the wait for another session to release the editor, and the busy
-- responses of launch/proxy/npx.mjs that drive it. Promises that it starts are effects; what they
-- do when they settle is a function of its own.
mod Cleared
mod Driven
mod Waiters
mod Tests
use godot_mcp.Base.{
  ℕ, ◌+◌, ◌-◌, ◌*◌, Bool, true, false, not, ◌&&◌, ◌||◌, Option, none, some, List, [], ◌∷◌, ltb, leb,
  is_some, if◌then◌else◌,
}
use godot_mcp.Message.{CallId, null_id, same_id, Message, has, add, delete, map_get, map_delete}
use godot_mcp.State.{
  Proxy, Config, Takeover, takeover_timeout, evict_started, self_heal_started, emit,
}
use godot_mcp.Protocol.{forward_to_npx, send_error}

-- `setTimeout(attemptTakeoverProbe, …)`
abbrev pub arm : Takeover → Takeover
arm t = record t { timer_set = true; timer_pending = true }

-- `clearTimeout(timer); timer = null`
abbrev pub disarm : Takeover → Takeover
disarm t = record t { timer_set = false; timer_pending = false }

-- `S.takeover = t`
abbrev pub keep : Takeover → Proxy → Proxy
keep t p = record p { takeover = some t }

-- `probeId !== null`; an id that is null counts as none.
unfoldable pub in_flight : Option CallId → Bool
in_flight none = false
in_flight (some null_id) = false
in_flight (some _) = true

-- `probeId === id`
unfoldable pub is_probe : CallId → Takeover → Bool
is_probe i t = elim t.probe_id [ none ↦ same_id i null_id | some j ↦ same_id i j ]

-- The takeover that a waiter finds: a new one, or the old one, with its timer set if neither a
-- probe nor a timer is there.
unfoldable pub armed_for : Config → ℕ → Option Takeover → Takeover
armed_for c now none = arm (record {
  takeover_deadline = now + c.takeover_timeout_ms;
  waiters = [];
  probe_id = none;
  probe_at = 0;
  timer_set = false;
  timer_pending = false;
})
armed_for c now (some t) = if not (in_flight t.probe_id) && not t.timer_set then arm t else t

unfoldable pub enter_takeover_waiter : Config → ℕ → CallId → Proxy → Proxy
enter_takeover_waiter c now i p =
    let t = armed_for c now p.takeover in keep (record t { waiters = add i t.waiters }) p

unfoldable pub end_takeover : Proxy → Proxy
end_takeover p =
    if is_some p.takeover then record p { takeover = none; takeover_fail_streak = 0 } else p

-- `S.toolsCallIds.delete(id); S.toolsCallLines.delete(id)`, and the answer.
unfoldable pub fail_waiter : CallId → Proxy → Proxy
fail_waiter i p = send_error (some i) takeover_timeout (record p {
  calls = record (p.calls) {
    tools_call_ids = delete i p.tools_call_ids;
    tools_call_lines = map_delete i p.tools_call_lines;
  };
})

unfoldable pub fail_waiters : List CallId → Proxy → Proxy
fail_waiters [] p = p
fail_waiters (i ∷ is) p = fail_waiters is (fail_waiter i p)

-- The classification of the holder after a timeout, unless one is under way.
unfoldable pub classify_holder : Proxy → Proxy
classify_holder p =
    if p.stale_takeover_in_flight
    then p
    else emit evict_started
        (record p { spawning = record (p.spawning) { stale_takeover_in_flight = true } })

-- One more timeout in the streak, and the eviction of the holder at the threshold.
unfoldable pub count_timeout : Config → Proxy → Proxy
count_timeout c p =
    let streak = p.takeover_fail_streak + 1 in
    if c.takeover_self_heal_enabled
      && leb c.takeover_self_heal_threshold streak
      && not p.takeover_self_heal_in_flight
    then emit self_heal_started
        (record p { takeover_fail_streak = 0; takeover_self_heal_in_flight = true })
    else record p { takeover_fail_streak = streak }

unfoldable pub fail_with : Config → Option Takeover → Proxy → Proxy
fail_with c none p = p
fail_with c (some t) p =
    count_timeout c (classify_holder (fail_waiters t.waiters (record p { takeover = none })))

unfoldable pub fail_takeover : Config → Proxy → Proxy
fail_takeover c p = fail_with c p.takeover p

-- The end of the self-heal, whatever its eviction did.
unfoldable pub settle_self_heal : Proxy → Proxy
settle_self_heal p = record p {
  warmth = record (p.warmth) { warm = false; warm_editor_dead = false };
  spawning = record (p.spawning) { spawn_triggered = false };
  takeover_self_heal_in_flight = false;
}

-- The probe of the first waiter, with its line.
unfoldable pub send_probe : ℕ → CallId → Message → Takeover → Proxy → Proxy
send_probe now i line t p =
    let probing = keep (record t { probe_id = some i; probe_at = now }) p in
    forward_to_npx line
      (record probing { calls = record (p.calls) { tools_call_ids = add i p.tools_call_ids } })

-- A waiter by its line; one whose line is unknown is dropped, and the next attempt is set.
unfoldable pub probe_line : ℕ → CallId → Option Message → Takeover → Proxy → Proxy
probe_line now i none t p = keep (arm (record t { waiters = delete i t.waiters })) p
probe_line now i (some line) t p = send_probe now i line t p

-- The choice of the first waiter.
unfoldable pub probe_waiters : ℕ → List CallId → Takeover → Proxy → Proxy
probe_waiters now [] t p = end_takeover p
probe_waiters now (i ∷ is) t p = probe_line now i (map_get i p.tools_call_lines) t p

unfoldable pub probe_first : ℕ → Takeover → Proxy → Proxy
probe_first now t p = probe_waiters now t.waiters t p

-- The body of `attemptTakeoverProbe` for a takeover that is there.
unfoldable pub attempt_probe : Config → ℕ → Takeover → Proxy → Proxy
attempt_probe c now t p =
    if leb t.takeover_deadline now
    then fail_takeover c p
    else if in_flight t.probe_id
    then (if ltb (now - t.probe_at) (c.takeover_retry_ms * 2)
        then keep (arm t) p
        else let reclaimed = record t { probe_id = none; probe_at = 0 } in
          probe_first now reclaimed (keep reclaimed p))
    else probe_first now t p

unfoldable pub attempt_with : Config → ℕ → Option Takeover → Proxy → Proxy
attempt_with c now none p = p
attempt_with c now (some t) p = attempt_probe c now t p

unfoldable pub attempt_takeover_probe : Config → ℕ → Proxy → Proxy
attempt_takeover_probe c now p = attempt_with c now p.takeover p

-- The timer fires: its handle stays.
unfoldable pub fire_timer : Config → ℕ → Takeover → Proxy → Proxy
fire_timer c now t p = attempt_takeover_probe c now (keep (record t { timer_pending = false }) p)

-- Another waiter, once the slot is acquired; one whose line is unknown is passed over.
unfoldable pub dispatch_waiter : CallId → Proxy → Proxy
dispatch_waiter i p = elim (map_get i p.tools_call_lines) [
  | none ↦ p
  | some line ↦
      forward_to_npx line
        (record p { calls = record (p.calls) { tools_call_ids = add i p.tools_call_ids } })
]

unfoldable pub dispatch_waiters : List CallId → Proxy → Proxy
dispatch_waiters [] p = p
dispatch_waiters (i ∷ is) p = dispatch_waiters is (dispatch_waiter i p)

unfoldable pub drain_with : CallId → Option Takeover → Proxy → Proxy
drain_with ready none p = p
drain_with ready (some t) p = dispatch_waiters (delete ready t.waiters) (end_takeover p)

unfoldable pub drain_takeover_waiters : CallId → Proxy → Proxy
drain_takeover_waiters ready p = drain_with ready p.takeover p

-- A busy response to the probe: the next attempt, or the end at the deadline.
unfoldable pub lose_probe : Config → ℕ → Takeover → Proxy → Proxy
lose_probe c now t p =
    let cleared = disarm (record t { probe_id = none }) in
    if leb t.takeover_deadline now then fail_takeover c (keep cleared p) else keep (arm cleared) p

-- launch/proxy/npx.mjs: a response that says that the editor is busy, where takeover is enabled.
unfoldable pub busy_with : Config → ℕ → CallId → Option Takeover → Proxy → Proxy
busy_with c now i none p = enter_takeover_waiter c now i p
busy_with c now i (some t) p =
    if is_probe i t then lose_probe c now t p else enter_takeover_waiter c now i p

unfoldable pub receive_busy : Config → ℕ → CallId → Proxy → Proxy
receive_busy c now i p =
    busy_with c now i p.takeover
      (record p { calls = record (p.calls) { tools_call_ids = delete i p.tools_call_ids } })
