-- ===== src/Recovery/Tests.antt =====
-- The recovery theorems at concrete inputs.
use godot_mcp.Base.{List, ℕ, ◌≡◌, ◌↔◌, refl, true, false, none, [], ◌∷◌, arith}
use godot_mcp.Recovery.{
  RecoveryInput, AttributionInput, decide_recovery_action, attribute_holder, plan_recovery_budget,
}
use godot_mcp.Recovery.Decisions.{IsOwnHalfDead, evict_iff}
use godot_mcp.Recovery.Rounds.{IsSchedule}

abbrev half_dead : RecoveryInput
half_dead = record {
  port_open = true;
  holder_proxy_alive = false;
  holder_runtime_id = "rt-1";
  our_runtime_id = "rt-1";
  lease_state = "active";
  released_at = none;
  holder_identity_readable = true;
}

abbrev attributed : AttributionInput
attributed = record {
  lease_runtime_id = "rt-1";
  our_runtime_id = "rt-1";
  registry_worktree = "/w";
  holder_worktree = "/w";
  our_worktree = "/w";
  ps_cmdline_match = none;
}

evict_iff_example : ((decide_recovery_action half_dead).evict ≡ true) ↔ IsOwnHalfDead half_dead
evict_iff_example = evict_iff half_dead

readable : (attribute_holder attributed).identity_readable ≡ true
unfolding attribute_holder
readable = refl

abbrev starts : List ℕ
starts = 1000 ∷ 91000 ∷ 185000 ∷ []

three_rounds : IsSchedule 280000 1000 1000 starts
unfolding plan_recovery_budget
three_rounds = (omega arith, refl, (omega arith, refl, (omega arith, refl, tt)))
