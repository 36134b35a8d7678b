-- ===== src/Ensure/Prepared.antt =====
-- What has run before an editor is started, over the lanes of a port that is held.
use godot_mcp.Base.{
  ℕ, String, Bool, true, false, not, ◌||◌, Option, none, some, ◌∷◌, Bool-cases, inl, inr, non_empty,
  if◌then◌else◌,
}
use godot_mcp.Handoff.{
  HandoffAction, cold_start, handoff_warm, reclaim_dead, join_wait, handoff_reuse, editor_busy,
}
use godot_mcp.Holder.{decide_sidecar_guard, decide_reuse}
use godot_mcp.Ensure.{
  configure_sh, probed, arbitrated, holder_read, agent_read, resolved, History, Recorded, World,
  Settings, is_shared_master, Ending, failed, Ending,
}
use godot_mcp.Ensure.Scripts.{
  has_helper, end_with, pin_reused, evict_stale_holder, wait_for_port_release, spawn_editor,
}
use godot_mcp.Ensure.Lanes.{
  is_kept, is_foreign, ArbiterVerdict, free, hot_reuse, respawn, evict_now, busy_foreign, legacy,
  arbiter_decide, evict_and_wait, wait_or_evict, adopts_connected, serves_us, dead_holder_lane,
  takeover_with, legacy_lane, by_verdict, arbiter_lane, by_action, single_source, by_record,
  ensure_editor,
}
use godot_mcp.Ensure.Started.{EndsPrepared, spawn-EndsPrepared}

module _ (c : Settings) (w : World) where
  -- The statement as a record, so that the ending it is about can be read off.
  record IsSure (e : Ending) : Type 0 where
    sure : EndsPrepared c w e

  spawn-IsSure : (attempts : ℕ) (h : History) → IsSure (spawn_editor c w attempts h)
  spawn-IsSure attempts h = record { sure = spawn-EndsPrepared c w attempts h }

  failed-IsSure : (bucket : String) (h : History) → IsSure (end_with c w (failed bucket) h)
  failed-IsSure bucket h = record { sure = tt }

  pin-IsSure : (stale : Bool) (h : History) → IsSure (pin_reused c w stale h)
  unfolding pin_reused
  pin-IsSure stale h =
      let worktree = w.worktree_of h in
      elim (Bool-cases (
        not (has_helper c w configure_sh)
        || not (non_empty worktree)
        || is_shared_master c worktree)) [
          | inl skips ↦ record { sure = rw skips tt }
          | inr pins ↦ record { sure = rw pins tt }
        ]

  if-IsSure : (b : Bool) (e f : Ending) → IsSure e → IsSure f → IsSure (if b then e else f)
  if-IsSure true e f p q = p
  if-IsSure false e f p q = q

  wait_or_evict-IsSure :
      (attempts : ℕ) (holder : String) (waited : Bool × History)
      → IsSure (wait_or_evict c w attempts holder waited)
  unfolding wait_or_evict evict_and_wait
  wait_or_evict-IsSure attempts holder (freed, h) =
      if-IsSure freed _ _ (spawn-IsSure attempts h) (spawn-IsSure attempts _)

  takeover-IsSure :
      (attempts : ℕ) (waited : Bool × History) → IsSure (takeover_with c w attempts waited)
  unfolding takeover_with
  takeover-IsSure attempts (freed, h) =
      if-IsSure freed _ _ (spawn-IsSure attempts h) (failed-IsSure "editor_busy" h)

  dead_lane-IsSure :
      (at_once : Bool) (attempts : ℕ) (h : History)
      → IsSure (dead_holder_lane c w at_once attempts h)
  unfolding dead_holder_lane evict_and_wait
  dead_lane-IsSure at_once attempts h =
      let holder = w.holder_worktree_of h in
      let ours = w.worktree_of (holder_read ∷ h) in
      let h2 = resolved ours ∷ holder_read ∷ h in
      if-IsSure (adopts_connected c w holder h2) _ _ (pin-IsSure true h2) (
        if-IsSure (serves_us c w holder ours) _ _ (pin-IsSure true h2) (
          if-IsSure at_once _ _
            (spawn-IsSure attempts
              (wait_for_port_release c w c.respawn_window_ms (evict_stale_holder c w holder h2)).1)
            (wait_or_evict-IsSure attempts holder
              (wait_for_port_release c w c.respawn_window_ms h2))))

  legacy-IsSure : (attempts : ℕ) (h : History) → IsSure (legacy_lane c w attempts h)
  unfolding legacy_lane
  legacy-IsSure attempts h =
      let holder = w.holder_worktree_of h in
      let ours = w.worktree_of (holder_read ∷ h) in
      let h3 = agent_read ∷ resolved ours ∷ holder_read ∷ h in
      let agent = w.holder_agent_of (resolved ours ∷ holder_read ∷ h) in
      if-IsSure (adopts_connected c w holder h3) _ _ (pin-IsSure true h3) (
        if-IsSure (is_foreign (decide_reuse agent c.agent_name)) _ _
          (failed-IsSure "instance_busy_foreign" h3)
          (if-IsSure (is_kept (decide_sidecar_guard holder ours)) _ _ (pin-IsSure false h3)
            (spawn-IsSure attempts (evict_stale_holder c w holder h3))))

  verdict-IsSure :
      (v : ArbiterVerdict) (attempts : ℕ) (h : History) → IsSure (by_verdict c w v attempts h)
  unfolding by_verdict
  verdict-IsSure free attempts h = spawn-IsSure attempts h
  verdict-IsSure hot_reuse attempts h = takeover-IsSure attempts _
  verdict-IsSure respawn attempts h = dead_lane-IsSure false attempts h
  verdict-IsSure evict_now attempts h = dead_lane-IsSure true attempts h
  verdict-IsSure busy_foreign attempts h = failed-IsSure "editor_busy" h
  verdict-IsSure legacy attempts h = legacy-IsSure attempts h

  lane-IsSure : (attempts : ℕ) (h : History) → IsSure (arbiter_lane c w attempts h)
  unfolding arbiter_lane
  lane-IsSure attempts h = verdict-IsSure (arbiter_decide c w h) attempts (arbitrated ∷ h)

  action-IsSure :
      (a : HandoffAction) (attempts : ℕ) (h : History) → IsSure (by_action c w a attempts h)
  unfolding by_action
  action-IsSure handoff_reuse attempts h = pin-IsSure true h
  action-IsSure editor_busy attempts h = failed-IsSure "editor_busy" h
  action-IsSure cold_start attempts h = lane-IsSure attempts h
  action-IsSure handoff_warm attempts h = lane-IsSure attempts h
  action-IsSure reclaim_dead attempts h = lane-IsSure attempts h
  action-IsSure join_wait attempts h = lane-IsSure attempts h

  record-IsSure :
      (o : Option Recorded) (attempts : ℕ) (h : History) → IsSure (by_record c w o attempts h)
  unfolding by_record
  record-IsSure none attempts h = lane-IsSure attempts h
  record-IsSure (some r) attempts h =
      action-IsSure (single_source c w r (w.worktree_of h)) attempts _

  ensure-IsSure : (attempts : ℕ) (h : History) → IsSure (ensure_editor c w attempts h)
  unfolding ensure_editor
  ensure-IsSure attempts h =
      let h1 = probed true ∷ h in
      if-IsSure (not (w.answers h)) _ _ (spawn-IsSure attempts (probed false ∷ h)) (
        if-IsSure (non_empty c.runtime_id) _ _ (record-IsSure (w.record_of h1) attempts h1)
          (lane-IsSure attempts h1))

  -- Where the chain ends with a spawned editor, whichever lane it took, the editor's worktree has a
  -- name and is not the shared master, and the scripts that prepare it, configure it and start it
  -- have run for that worktree and this port, each with the exit code 0.
  pub spawned_is_prepared :
      (attempts : ℕ) (h : History) → EndsPrepared c w (ensure_editor c w attempts h)
  spawned_is_prepared attempts h = (ensure-IsSure attempts h).sure
