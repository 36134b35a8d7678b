-- ===== src/Ensure/Lanes.antt =====
-- launch/proxy/spawn.mjs: `ensureEditor`: whose editor holds the port, and whether it is adopted,
-- waited for, evicted or left alone.
use godot_mcp.Base.{
  ℕ, String, Bool, true, false, not, ◌&&◌, Option, none, some, ◌∷◌, non_empty, str_eq,
  if◌then◌else◌,
}
use godot_mcp.State.{Proxy, Config}
use godot_mcp.Spawn.{SpawnOutcome, trigger_ensure_editor, settle_ensure_editor}
use godot_mcp.Handoff.{
  HandoffAction, cold_start, handoff_warm, editor_busy, reclaim_dead, join_wait, handoff_reuse,
  decide_reuse_single_source,
}
use godot_mcp.Holder.{Reuse, Guard, keep, evict, decide_reuse, decide_sidecar_guard, foreign, reuse}
use godot_mcp.Ensure.{
  probed, arbitrated, holder_read, agent_read, resolved, History, Recorded, World, Settings,
  Outcome, reused, spawned, failed, Ending,
}
use godot_mcp.Ensure.Scripts.{
  end_with, pin_reused, evict_stale_holder, wait_for_port_release, spawn_editor,
}

-- The verdicts of the arbiter; a printed text of another kind is `legacy`.
pub data ArbiterVerdict : Type 0 where
  free hot_reuse respawn evict_now busy_foreign legacy : ArbiterVerdict

abbrev pub verdict_of : Option String → ArbiterVerdict
verdict_of none = legacy
verdict_of (some v) =
    if str_eq v "free"
    then free
    else if str_eq v "reuse"
    then hot_reuse
    else if str_eq v "respawn"
    then respawn
    else if str_eq v "evict"
    then evict_now
    else if str_eq v "busy_foreign"
    then busy_foreign
    else legacy

abbrev pub is_kept : Guard → Bool
is_kept keep = true
is_kept evict = false

abbrev pub is_foreign : Reuse → Bool
is_foreign foreign = true
is_foreign reuse = false

module _ (c : Settings) (w : World) where
  unfoldable pub arbiter_decide : History → ArbiterVerdict
  arbiter_decide h = if c.arbiter_enabled then verdict_of (w.arbiter_prints h) else legacy

  -- The holder is dead: it is evicted, and the wait is bounded.
  unfoldable pub evict_and_wait : ℕ → String → History → Ending
  evict_and_wait attempts holder h =
      spawn_editor c w attempts
        (wait_for_port_release c w c.respawn_window_ms (evict_stale_holder c w holder h)).1

  unfoldable pub wait_or_evict : ℕ → String → Bool × History → Ending
  wait_or_evict attempts holder (freed, h) =
      if freed then spawn_editor c w attempts h else evict_and_wait attempts holder h

  abbrev pub adopts_connected : String → History → Bool
  adopts_connected holder h = not (non_empty holder) && w.cli_connected h

  abbrev pub serves_us : String → String → Bool
  serves_us holder ours =
      non_empty holder && non_empty ours && is_kept (decide_sidecar_guard holder ours)

  -- The lane of the verdicts `evict` and `respawn`.
  unfoldable pub dead_holder_lane : Bool → ℕ → History → Ending
  dead_holder_lane at_once attempts h =
      let holder = w.holder_worktree_of h in
      let h1 = holder_read ∷ h in
      let ours = w.worktree_of h1 in
      let h2 = resolved ours ∷ h1 in
      if adopts_connected holder h2
      then pin_reused c w true h2
      else if serves_us holder ours
      then pin_reused c w true h2
      else if at_once
      then evict_and_wait attempts holder h2
      else wait_or_evict attempts holder (wait_for_port_release c w c.respawn_window_ms h2)

  unfoldable pub takeover_with : ℕ → Bool × History → Ending
  takeover_with attempts (freed, h) =
      if freed then spawn_editor c w attempts h else end_with c w (failed "editor_busy") h

  -- The lane of the sidecar guard.
  unfoldable pub legacy_lane : ℕ → History → Ending
  legacy_lane attempts h =
      let holder = w.holder_worktree_of h in
      let h1 = holder_read ∷ h in
      let ours = w.worktree_of h1 in
      let h2 = resolved ours ∷ h1 in
      let agent = w.holder_agent_of h2 in
      let h3 = agent_read ∷ h2 in
      if adopts_connected holder h3
      then pin_reused c w true h3
      else if is_foreign (decide_reuse agent c.agent_name)
      then end_with c w (failed "instance_busy_foreign") h3
      else if is_kept (decide_sidecar_guard holder ours)
      then pin_reused c w false h3
      else spawn_editor c w attempts (evict_stale_holder c w holder h3)

  unfoldable pub by_verdict : ArbiterVerdict → ℕ → History → Ending
  by_verdict free attempts h = spawn_editor c w attempts h
  by_verdict hot_reuse attempts h =
      takeover_with attempts (wait_for_port_release c w c.takeover_timeout_ms h)
  by_verdict respawn attempts h = dead_holder_lane false attempts h
  by_verdict evict_now attempts h = dead_holder_lane true attempts h
  by_verdict busy_foreign attempts h = end_with c w (failed "editor_busy") h
  by_verdict legacy attempts h = legacy_lane attempts h

  unfoldable pub arbiter_lane : ℕ → History → Ending
  arbiter_lane attempts h = by_verdict (arbiter_decide h) attempts (arbitrated ∷ h)

  -- The decision on the record on disk.
  unfoldable pub by_action : HandoffAction → ℕ → History → Ending
  by_action handoff_reuse attempts h = pin_reused c w true h
  by_action editor_busy attempts h = end_with c w (failed "editor_busy") h
  by_action cold_start attempts h = arbiter_lane attempts h
  by_action handoff_warm attempts h = arbiter_lane attempts h
  by_action reclaim_dead attempts h = arbiter_lane attempts h
  by_action join_wait attempts h = arbiter_lane attempts h

  abbrev pub single_source : Recorded → String → HandoffAction
  single_source r ours =
      (decide_reuse_single_source (record {
        state = r.state;
        holder_proxy_alive = r.holder_alive;
        holder_worktree = r.worktree;
        our_worktree = ours;
        same_port = str_eq r.port c.port;
        editor_alive = r.editor_alive;
      })).action

  unfoldable pub by_record : Option Recorded → ℕ → History → Ending
  by_record none attempts h = arbiter_lane attempts h
  by_record (some r) attempts h =
      let ours = w.worktree_of h in by_action (single_source r ours) attempts (resolved ours ∷ h)

  -- `ensureEditor`, after it has counted its attempt.
  unfoldable pub ensure_editor : ℕ → History → Ending
  ensure_editor attempts h =
      let h1 = probed true ∷ h in
      if not (w.answers h)
      then spawn_editor c w attempts (probed false ∷ h)
      else if non_empty c.runtime_id
      then by_record (w.record_of h1) attempts h1
      else arbiter_lane attempts h1

-- How the bookkeeping of spawns reads the outcome; the text of an error is an argument.
unfoldable pub spawn_outcome : String → Outcome → SpawnOutcome
spawn_outcome text (reused stale worktree status) = SpawnOutcome.reused
spawn_outcome text (spawned worktree) = SpawnOutcome.spawned
spawn_outcome text (failed bucket) = SpawnOutcome.broke (record { bucket = bucket; detail = text })

-- `triggerEnsureEditor`, with the chain that it starts.
unfoldable pub run_ensure : Config → Settings → World → ℕ → String → History → Proxy → Proxy
run_ensure c s w now text h p =
    let triggered = trigger_ensure_editor p in
    let ending = ensure_editor s w triggered.spawn_attempts h in
    if p.spawn_in_flight
    then p
    else settle_ensure_editor c now (spawn_outcome text ending.outcome) triggered
