-- ===== src/Ensure/Scripts.antt =====
-- launch/proxy/spawn.mjs: the runs of the helper scripts: the pin of a reused port, the eviction of
-- a holder, the wait for a release, and the scripts of a spawn up to the start of the editor.
use godot_mcp.Base.{
  ℕ, zero, suc, ◌+◌, String, Bool, true, false, not, ◌&&◌, ◌||◌, Option, none, some, List, [], ◌∷◌,
  ◌++◌, non_empty, str_eq, ltb, if◌then◌else◌,
}
use Prim.Native.String.{◌++◌ as append}
use godot_mcp.Worktree.{build_helper_args}
use godot_mcp.Ensure.{
  Helper, configure_sh, start_sh, stop_sh, reap_sh, prepare_sh, Rc, succeeded, probed, slept,
  lease_read, resolved, ran, persisted, warming_recorded, History, Lease, World, Settings,
  is_shared_master, pinned, pin_failed, pin_skipped, Outcome, reused, spawned, failed, Ending,
}

module _ (c : Settings) (w : World) where
  abbrev pub run : Helper → List String → History → Rc × History
  run s args h = let rc = w.run_of s args h in (rc, ran s args rc ∷ h)

  abbrev pub has_helper : Helper → Bool
  has_helper s = non_empty (c.path_of s)

  abbrev pub end_with : Outcome → History → Ending
  end_with o h = record { outcome = o; history = h }

  abbrev pub project_args : String → List String
  project_args worktree =
      build_helper_args c.agent_name c.port
        ("--project-godot" ∷ append worktree "/project.godot" ∷ [])

  abbrev pub worktree_args : String → List String
  worktree_args worktree = build_helper_args c.agent_name c.port ("--worktree" ∷ worktree ∷ [])

  -- `ensureReusedWorktreeConfigured`, and the result of the reuse.
  unfoldable pub pin_reused : Bool → History → Ending
  pin_reused stale h =
      let worktree = w.worktree_of h in
      let h1 = resolved worktree ∷ h in
      if not (has_helper configure_sh) || not (non_empty worktree) || is_shared_master c worktree
      then end_with (reused stale worktree pin_skipped) h1
      else let r = run configure_sh (project_args worktree) h1 in
        end_with (reused stale worktree (if succeeded r.0 then pinned else pin_failed)) r.1

  -- `evictStaleHolder`: the stop, and the sweep of the leases.
  abbrev pub stop_args : String → List String
  stop_args holder =
      let ported = "--port" ∷ c.port ∷ [] in
      (if non_empty c.agent_name then c.agent_name ∷ ported else ported)
      ++ (if non_empty holder then "--project-godot" ∷ append holder "/project.godot" ∷ [] else [])

  abbrev pub reap_args : String → List String
  reap_args holder = if non_empty holder then "--root" ∷ holder ∷ [] else []

  unfoldable pub run_if_found : Helper → List String → History → History
  run_if_found s args h = if has_helper s then (run s args h).1 else h

  unfoldable pub evict_stale_holder : String → History → History
  evict_stale_holder holder h =
      run_if_found reap_sh (reap_args holder) (run_if_found stop_sh (stop_args holder) h)

  -- The loop of `waitForPortRelease`, on fuel: whether the port was freed, and what was done.
  unfoldable pub wait_until : ℕ → ℕ → History → Bool × History
  wait_until zero deadline h = (false, h)
  wait_until (suc fuel) deadline h =
      let again = wait_until fuel deadline (slept ∷ probed true ∷ h) in
      if ltb (w.now h) deadline
      then if w.answers h then again else (true, probed false ∷ h)
      else (false, h)

  unfoldable pub wait_for_port_release : ℕ → History → Bool × History
  wait_for_port_release budget h = wait_until (budget + 1) (w.now h + budget) h

  -- A script has failed: its stderr is kept, and the error is thrown.
  unfoldable pub fail_script : Helper → String → History → Ending
  fail_script s bucket h =
      end_with (failed bucket) (if w.has_stderr s h then persisted s ∷ h else h)

  -- The start of the editor, and the record of the spawn.
  unfoldable pub start_editor : ℕ → String → History → Ending
  start_editor attempts worktree h =
      let r = run start_sh (worktree_args worktree) h in
      if not (succeeded r.0)
      then fail_script start_sh "spawn_failed_start" r.1
      else end_with (spawned worktree)
          (if non_empty c.runtime_id then warming_recorded attempts ∷ r.1 else r.1)

  abbrev pub is_active : Option Lease → Bool
  is_active none = false
  is_active (some l) = str_eq l.state "active" && str_eq l.port c.port

  -- The loop that verifies the lease, with the tries left; a lease that is not active is configured
  -- again.
  unfoldable pub verify_lease : ℕ → ℕ → String → History → Ending
  verify_lease zero attempts worktree h = start_editor attempts worktree h
  verify_lease (suc tries) attempts worktree h =
      let r = run configure_sh (project_args worktree) (lease_read ∷ h) in
      let again = verify_lease tries attempts worktree r.1 in
      if is_active (w.lease_of worktree h)
      then start_editor attempts worktree (lease_read ∷ h)
      else if not (succeeded r.0)
      then fail_script configure_sh "configure_failed" r.1
      else again

  unfoldable pub configure_editor : ℕ → String → History → Ending
  configure_editor attempts worktree h =
      let r = run configure_sh (project_args worktree) h in
      if not (succeeded r.0)
      then fail_script configure_sh "configure_failed" r.1
      else verify_lease 3 attempts worktree r.1

  unfoldable pub prepare_editor : ℕ → String → History → Ending
  prepare_editor attempts worktree h =
      let r = run prepare_sh (worktree_args worktree) h in
      if not (succeeded r.0)
      then fail_script prepare_sh "configure_failed" r.1
      else configure_editor attempts worktree r.1

  -- The spawn path of `ensureEditor`.
  unfoldable pub spawn_editor : ℕ → History → Ending
  spawn_editor attempts h =
      if not (has_helper configure_sh) || not (has_helper start_sh)
      then end_with (failed "spawn_failed_exception") h
      else let worktree = w.worktree_of h in
        if not (non_empty worktree)
        then end_with (failed "worktree_unresolved") (resolved worktree ∷ h)
        else if is_shared_master c worktree
        then end_with (failed "worktree_shared_master") (resolved worktree ∷ h)
        else prepare_editor attempts worktree (resolved worktree ∷ h)
