-- ===== src/Ensure/Settles.antt =====
-- What a triggered spawn leaves in the proxy.
use godot_mcp.Base.{ℕ, String, ◌≡◌, ◌⊎◌, true, false, [], refl, inl, inr, arith}
use godot_mcp.State.{Proxy, Config}
use godot_mcp.Spawn.{SpawnOutcome, apply_outcome, settle_ensure_editor, trigger_ensure_editor}
use godot_mcp.Spawn.Failures.{handle_spawn_failure-Settled}
use godot_mcp.Ensure.{History, World, Settings}
use godot_mcp.Ensure.Lanes.{ensure_editor, spawn_outcome, run_ensure}

-- No spawn is under way, and the last one has not failed, or it has and no call is held.
pub record IsSettled (q : Proxy) : Type 0 where
  pub not_in_flight : q.spawn_in_flight ≡ false
  pub told : (q.spawn_last_failed ≡ false) ⊎ ((q.spawn_last_failed ≡ true) × (q.pending_calls ≡ []))

outcome-IsSettled :
    (c : Config) (now : ℕ) (o : SpawnOutcome) (p : Proxy)
    → IsSettled (settle_ensure_editor c now o p)
unfolding settle_ensure_editor apply_outcome
outcome-IsSettled c now SpawnOutcome.spawned p = record { not_in_flight = refl; told = inl refl }
outcome-IsSettled c now SpawnOutcome.reused p = record { not_in_flight = refl; told = inl refl }
outcome-IsSettled c now (SpawnOutcome.broke err) p =
    let s = handle_spawn_failure-Settled c now err p in
    record { not_in_flight = refl; told = inr (s.diagnosed, s.queue_empty) }

-- A spawn that is triggered while none is under way settles, whatever the port, the record, the
-- arbiter and the scripts answer: no spawn is under way any more, and the last one has not failed, or
-- its failure is kept for the next call and no call is held.
pub run_ensure-IsSettled :
    (c : Config) (s : Settings) (w : World) (now : ℕ) (text : String) (h : History) (p : Proxy)
    → p.spawn_in_flight ≡ false
    → IsSettled (run_ensure c s w now text h p)
unfolding run_ensure
run_ensure-IsSettled c s w now text h p idle =
    let triggered = trigger_ensure_editor p in
    let ending = ensure_editor s w triggered.spawn_attempts h in
    ground (arith, outcome-IsSettled c now (spawn_outcome text ending.outcome) triggered)
