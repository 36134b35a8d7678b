-- ===== src/Ensure/Counts.antt =====
-- The evictions of a history: the runs of the stop script.
use godot_mcp.Base.{
  ℕ, zero, suc, ◌+◌, String, Bool, true, false, [], ◌∷◌, ◌≡◌, refl, arith, if◌then◌else◌,
}
use godot_mcp.Ensure.{
  Helper, configure_sh, stop_sh, prepare_sh, Action, probed, slept, lease_read, resolved, ran,
  History, World, Settings,
}
use godot_mcp.Ensure.Scripts.{
  run, project_args, worktree_args, pin_reused, wait_until, wait_for_port_release, fail_script,
  start_editor, verify_lease, configure_editor, prepare_editor, spawn_editor,
}

abbrev pub is_stop : Action → Bool
is_stop (ran stop_sh args rc) = true
is_stop _ = false

unfoldable pub evictions : History → ℕ
evictions [] = 0
evictions (a ∷ h) = if is_stop a then evictions h + 1 else evictions h

module _ (c : Settings) (w : World) where
  pub pin_reused-evictions :
      (stale : Bool) (h : History) → evictions (pin_reused c w stale h).history ≡ evictions h
  unfolding pin_reused evictions
  pin_reused-evictions stale h = ground arith

  wait_until-evictions :
      (fuel deadline : ℕ) (h : History) → evictions (wait_until c w fuel deadline h).1 ≡ evictions h
  unfolding wait_until evictions
  wait_until-evictions zero deadline h = refl
  wait_until-evictions (suc fuel) deadline h =
      ground (arith, wait_until-evictions fuel deadline (slept ∷ probed true ∷ h))

  pub wait-evictions :
      (budget : ℕ) (h : History) → evictions (wait_for_port_release c w budget h).1 ≡ evictions h
  unfolding wait_for_port_release
  wait-evictions budget h = wait_until-evictions (budget + 1) (w.now h + budget) h

  fail-evictions :
      (s : Helper) (bucket : String) (h : History)
      → evictions (fail_script c w s bucket h).history ≡ evictions h
  unfolding fail_script evictions
  fail-evictions s bucket h = ground arith

  start-evictions :
      (attempts : ℕ) (worktree : String) (h : History)
      → evictions (start_editor c w attempts worktree h).history ≡ evictions h
  unfolding start_editor fail_script evictions
  start-evictions attempts worktree h = ground arith

  verify-evictions :
      (tries attempts : ℕ) (worktree : String) (h : History)
      → evictions (verify_lease c w tries attempts worktree h).history ≡ evictions h
  unfolding verify_lease evictions
  verify-evictions zero attempts worktree h = start-evictions attempts worktree h
  verify-evictions (suc tries) attempts worktree h =
      let r = run c w configure_sh (project_args c w worktree) (lease_read ∷ h) in
      ground (
        arith,
        start-evictions attempts worktree (lease_read ∷ h),
        fail-evictions configure_sh "configure_failed" r.1,
        verify-evictions tries attempts worktree r.1,
      )

  configure-evictions :
      (attempts : ℕ) (worktree : String) (h : History)
      → evictions (configure_editor c w attempts worktree h).history ≡ evictions h
  unfolding configure_editor evictions
  configure-evictions attempts worktree h =
      let r = run c w configure_sh (project_args c w worktree) h in
      ground (
        arith,
        fail-evictions configure_sh "configure_failed" r.1,
        verify-evictions 3 attempts worktree r.1,
      )

  prepare-evictions :
      (attempts : ℕ) (worktree : String) (h : History)
      → evictions (prepare_editor c w attempts worktree h).history ≡ evictions h
  unfolding prepare_editor evictions
  prepare-evictions attempts worktree h =
      let r = run c w prepare_sh (worktree_args c w worktree) h in
      ground (
        arith,
        fail-evictions prepare_sh "configure_failed" r.1,
        configure-evictions attempts worktree r.1,
      )

  pub spawn-evictions :
      (attempts : ℕ) (h : History) → evictions (spawn_editor c w attempts h).history ≡ evictions h
  unfolding spawn_editor evictions
  spawn-evictions attempts h =
      ground (arith, prepare-evictions attempts (w.worktree_of h) (resolved (w.worktree_of h) ∷ h))
