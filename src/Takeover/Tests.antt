-- ===== src/Takeover/Tests.antt =====
-- The theorems of the takeover at concrete inputs.
use godot_mcp.Base.{◌≡◌, refl, not, some, [], ◌∷◌, none, true}
use godot_mcp.Message.{text, add, has}
use godot_mcp.State.{Proxy, Takeover}
use godot_mcp.Takeover.{
  in_flight, receive_busy, fail_takeover, armed_for, enter_takeover_waiter, busy_with,
}
use godot_mcp.Takeover.Driven.{Reached, idle, busy, timer_or_probe, is_named}
use godot_mcp.Takeover.Waiters.{timeouts, starts, fail_takeover_answers}
use godot_mcp.Samples.{config, fresh, node_call, inspect_call}

abbrev waiting : Takeover
waiting = record {
  takeover_deadline = 60700;
  waiters = text "a" ∷ [];
  probe_id = none;
  probe_at = 0;
  timer_set = true;
  timer_pending = true;
}

abbrev after_busy : Proxy
after_busy = receive_busy config 700 (text "a") fresh

after_busy-Reached : Reached config after_busy
unfolding is_named
after_busy-Reached = busy fresh 700 (text "a") refl (idle fresh refl)

after_busy_waits : after_busy.takeover ≡ some waiting
unfolding receive_busy busy_with enter_takeover_waiter armed_for add has
after_busy_waits = refl

timer_or_probe_example : waiting.timer_pending ≡ not (in_flight waiting.probe_id)
timer_or_probe_example = timer_or_probe config waiting after_busy-Reached after_busy_waits

abbrev crowded : Takeover
crowded = record waiting { waiters = text "a" ∷ text "b" ∷ [] }

abbrev held : Proxy
held = record fresh {
  takeover = some crowded;
  calls = record (fresh.calls) {
    tools_call_lines = (text "a", node_call) ∷ (text "b", inspect_call) ∷ [];
  };
}

fail_takeover_answers_example :
    (fail_takeover config held).effects
    ≡ starts config held (timeouts (text "a" ∷ text "b" ∷ []) [])
fail_takeover_answers_example = fail_takeover_answers config crowded held refl
