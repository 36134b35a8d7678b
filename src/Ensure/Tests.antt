-- ===== src/Ensure/Tests.antt =====
-- The theorems of the chain at concrete inputs, and a run that evicts.
use godot_mcp.Base.{
  ◌+◌, ◌≤◌, ◌≡◌, ◌⊎◌, refl, true, false, none, some, [], ◌∷◌, length, arith, strip_prefix, ◌<◌,
}
use godot_mcp.Holder.{decide_sidecar_guard}
use godot_mcp.Ensure.{
  code, probed, slept, History, World, Settings, is_shared_master, spawned, Action,
}
use godot_mcp.Ensure.Scripts.{
  evict_stale_holder, run_if_found, wait_for_port_release, wait_until, spawn_editor, prepare_editor,
  configure_editor, verify_lease, start_editor,
}
use godot_mcp.Ensure.Lanes.{
  ensure_editor, run_ensure, arbiter_lane, arbiter_decide, by_verdict, dead_holder_lane,
  evict_and_wait,
}
use godot_mcp.Holder.{decide_sidecar_guard}
use godot_mcp.Ensure.Counts.{evictions}
use godot_mcp.Ensure.Spared.{connected, Protected-is_spared}
use godot_mcp.Ensure.Waits.{wait_ends}
use godot_mcp.Ensure.Started.{EndsPrepared}
use godot_mcp.Ensure.Prepared.{spawned_is_prepared}
use godot_mcp.Samples.{config, fresh}
use godot_mcp.Ensure.Settles.{IsSettled, run_ensure-IsSettled}
use godot_mcp.Ensure.Leases.{released_lease_starts}

abbrev settings : Settings
settings = record {
  runtime_id = "";
  port = "6560";
  agent_name = "archi";
  shared_master = "/master";
  arbiter_enabled = true;
  respawn_window_ms = 4;
  takeover_timeout_ms = 10;
  path_of = λ s. "/launch/helper.sh";
}

-- A dead holder by the arbiter, whose editor our client is connected to; the lease is released.
abbrev held : World
held = record {
  now = λ h. length h;
  answers = λ h. true;
  record_of = λ h. none;
  arbiter_prints = λ h. some "evict";
  worktree_of = λ h. "/slot";
  holder_worktree_of = λ h. "";
  holder_agent_of = λ h. "";
  cli_connected = λ h. true;
  lease_of = λ worktree h. some (record { state = "released"; port = "6560" });
  run_of = λ s args h. code 0;
  has_stderr = λ s h. false;
}

abbrev closed : World
closed = record held { answers = λ h. false; cli_connected = λ h. false }

Protected-is_spared_example : evictions (ensure_editor settings held 1 []).history ≡ evictions []
Protected-is_spared_example =
    Protected-is_spared settings held 1 [] (connected [] (λ g. refl) (λ g. refl))

spawned_is_prepared_example : EndsPrepared settings closed (ensure_editor settings closed 1 [])
spawned_is_prepared_example = spawned_is_prepared settings closed 1 []

ticks : (h : History) → length h < length (slept ∷ probed true ∷ h)
ticks h = omega arith

wait_ends_example :
    let waited = wait_for_port_release settings held 10 [] in
    (waited.0 ≡ true) ⊎ (length {A = Action} [] + 10 ≤ length waited.1)
wait_ends_example = wait_ends settings held 10 [] ticks

released_lease_starts_example : (ensure_editor settings closed 1 []).outcome ≡ spawned "/slot"
unfolding is_shared_master strip_prefix
released_lease_starts_example =
    released_lease_starts settings closed "/slot" (λ s args g. refl) (λ g. refl) 1 [] refl refl refl
      refl refl refl

run_ensure-IsSettled_example : IsSettled (run_ensure config settings held 900 "" [] fresh)
run_ensure-IsSettled_example = run_ensure-IsSettled config settings held 900 "" [] fresh refl

-- The holder without a connected client is evicted, and the port, which is still held, is waited for.
evicts_unproven :
    evictions (ensure_editor settings (record held { cli_connected = λ h. false }) 1 []).history ≡ 1
unfolding ensure_editor evictions arbiter_lane arbiter_decide by_verdict dead_holder_lane
    evict_and_wait evict_stale_holder run_if_found wait_for_port_release wait_until spawn_editor
    prepare_editor configure_editor verify_lease start_editor is_shared_master strip_prefix
    decide_sidecar_guard
evicts_unproven = refl
