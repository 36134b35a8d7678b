-- ===== src/Shim/Tests.antt =====
-- The theorems of the front at concrete inputs.
use godot_mcp.Base.{
  ℕ, ◌≡◌, refl, inl, inr, true, false, none, some, List, [], ◌∷◌, codes, contains, strip_prefix,
  arith,
}
use godot_mcp.Message.{text}
use godot_mcp.Record.{absent}
use godot_mcp.Shim.{Shim, Spawn, proxy_warming, chain_exhausted, transient_error_response}
use godot_mcp.Shim.Chain.{on_chain_stderr}
use godot_mcp.Shim.Client.{
  ShimEvent, client_line, parsed, chain_exited, chain_stderr, rechain_fired, run_events,
}
use godot_mcp.Shim.Sound.{IsSound, passed, respawns}
use godot_mcp.Shim.Runs.{run_events-IsSound}
use godot_mcp.Shim.Late.{late_line_hides_exhaustion}

abbrev started : Shim
started = record {
  handed_off = false;
  handoff_triggered = false;
  chain_spawned_once = true;
  chain_proc = some 7;
  chain_stdout_open = false;
  chain_execed = false;
  chain_live = true;
  chain_missing = false;
  chain_state = proxy_warming;
  held_inbound = [];
  buffered_lines = [];
  rechain_attempts = 0;
  rechain_timer = false;
  exiting = false;
  gone = false;
  outputs = [];
}

abbrev two : ℕ
two = 2

started-IsSound : IsSound two started
unfolding passed respawns
started-IsSound = record {
  attached = refl;
  waits_detached = inl refl;
  started = refl;
  latched = refl;
  quiet = inr refl;
  proven = inl refl;
  settled = inl refl;
  bounded = inl (omega arith);
}

abbrev spawn : Spawn
spawn = record { config_ok = true; launcher_found = true; pid = 8 }

abbrev events : List ShimEvent
events =
    client_line spawn absent (parsed (record { id = some (text "a"); method = some "tools/call" }))
    ∷ chain_exited 7
    ∷ rechain_fired spawn
    ∷ chain_stderr 8 (codes "stage=LAUNCHER_EXEC")
    ∷ client_line spawn absent
        (parsed (record { id = some (text "b"); method = some "tools/call" }))
    ∷ []

run_events-IsSound_example : IsSound two (run_events two events started)
run_events-IsSound_example = run_events-IsSound two events started started-IsSound

abbrev exhausted : Shim
exhausted = record started {
  chain_proc = none;
  chain_live = false;
  chain_state = chain_exhausted;
  rechain_attempts = 3;
}

abbrev wait_line : List ℕ
wait_line = codes "stage=WORKTREE_WAIT"

late_line_hides_exhaustion_example :
    ((transient_error_response exhausted).retryable ≡ false)
    × ((transient_error_response (on_chain_stderr 7 wait_line exhausted)).retryable ≡ true)
    × ((on_chain_stderr 7 wait_line exhausted).chain_proc ≡ none)
    × ((on_chain_stderr 7 wait_line exhausted).rechain_timer ≡ false)
unfolding contains strip_prefix
late_line_hides_exhaustion_example =
    late_line_hides_exhaustion 7 wait_line exhausted refl refl refl refl
