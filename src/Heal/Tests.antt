-- ===== src/Heal/Tests.antt =====
-- The theorems of the recovery round at concrete inputs.
use godot_mcp.Base.{◌≡◌, ◌⊎◌, true, false, none, [], ◌∷◌}
use godot_mcp.State.{holder_evicted}
use godot_mcp.Heal.{RoundInput, clear_port}
use godot_mcp.Heal.Rounds.{proxy_of, IsOurResidue, evicts_own_residue}
use godot_mcp.Spawn.{spawned}
use godot_mcp.Samples.{config, fresh}

abbrev residue : RoundInput
residue = record {
  lease = record {
    lease_runtime_id = "rt";
    lease_worktree = "/w";
    lease_state = "active";
    released_at = none;
  };
  holder_worktree = "/w";
  our_worktree = "/w";
  holder_pid_alive = false;
  cmdline_match = none;
  port_open = true;
  still_open = false;
  outcome = spawned;
}

evicts_own_residue_example :
    ((proxy_of (clear_port config residue fresh)).effects ≡ [])
    ⊎ (IsOurResidue config residue
        × ((proxy_of (clear_port config residue fresh)).effects ≡ holder_evicted "/w" ∷ []))
evicts_own_residue_example = evicts_own_residue config residue fresh
