-- ===== src/Ensure/Leases.antt =====
-- A lease that never becomes active.
use godot_mcp.Base.{ℕ, zero, suc, String, true, false, List, ◌∷◌, ◌≡◌, arith, non_empty}
use godot_mcp.Ensure.{
  Helper, configure_sh, start_sh, succeeded, probed, resolved, lease_read, History, World, Settings,
  is_shared_master, spawned, prepare_sh,
}
use godot_mcp.Ensure.Scripts.{
  run, project_args, worktree_args, has_helper, is_active, start_editor, verify_lease,
  configure_editor, prepare_editor, spawn_editor,
}
use godot_mcp.Ensure.Lanes.{ensure_editor}

module _ (c : Settings) (w : World) (ours : String)
    (works : (s : Helper) (args : List String) (g : History) → succeeded (w.run_of s args g) ≡ true)
    (released : (g : History) → is_active c w (w.lease_of ours g) ≡ false) where
  start-spawned :
      (attempts : ℕ) (h : History) → (start_editor c w attempts ours h).outcome ≡ spawned ours
  unfolding start_editor
  start-spawned attempts h = ground (arith, works start_sh (worktree_args c w ours) h)

  verify-spawned :
      (tries attempts : ℕ) (h : History)
      → (verify_lease c w tries attempts ours h).outcome ≡ spawned ours
  unfolding verify_lease
  verify-spawned zero attempts h = start-spawned attempts h
  verify-spawned (suc tries) attempts h =
      let args = project_args c w ours in
      ground (
        arith,
        works configure_sh args (lease_read ∷ h),
        released h,
        verify-spawned tries attempts (run c w configure_sh args (lease_read ∷ h)).1,
      )

  configure-spawned :
      (attempts : ℕ) (h : History) → (configure_editor c w attempts ours h).outcome ≡ spawned ours
  unfolding configure_editor
  configure-spawned attempts h =
      let args = project_args c w ours in
      ground (
        arith,
        works configure_sh args h,
        verify-spawned 3 attempts (run c w configure_sh args h).1,
      )

  prepare-spawned :
      (attempts : ℕ) (h : History) → (prepare_editor c w attempts ours h).outcome ≡ spawned ours
  unfolding prepare_editor
  prepare-spawned attempts h =
      let args = worktree_args c w ours in
      ground
        (arith, works prepare_sh args h, configure-spawned attempts (run c w prepare_sh args h).1)

  -- Where the port is closed, the helpers are found and every script succeeds for a worktree of our
  -- own, the editor is started although its lease is never active: a lease that stays released does
  -- not fail the spawn.
  pub released_lease_starts :
      (attempts : ℕ) (h : History)
      → w.answers h ≡ false
      → has_helper c w configure_sh ≡ true
      → has_helper c w start_sh ≡ true
      → w.worktree_of (probed false ∷ h) ≡ ours
      → non_empty ours ≡ true
      → is_shared_master c ours ≡ false
      → (ensure_editor c w attempts h).outcome ≡ spawned ours
  unfolding ensure_editor spawn_editor
  released_lease_starts attempts h closed finds_configure finds_start is_ours named unshared =
      ground (arith, prepare-spawned attempts (resolved ours ∷ probed false ∷ h))
