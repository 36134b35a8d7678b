-- ===== src/Ensure/Started.antt =====
-- What has run before an editor is started.
use godot_mcp.Base.{
  ℕ, zero, suc, String, true, false, not, ◌||◌, List, [], ◌∷◌, ◌≡◌, ◌⊎◌, refl, Bool-cases, inl, inr,
  non_empty,
}
use godot_mcp.Ensure.{
  Helper, configure_sh, start_sh, prepare_sh, succeeded, Action, lease_read, resolved, ran, History,
  World, Settings, is_shared_master, Outcome, spawned, Ending,
}
use godot_mcp.Ensure.Scripts.{
  project_args, worktree_args, fail_script, start_editor, verify_lease, configure_editor,
  prepare_editor, spawn_editor, has_helper, is_active,
}

abbrev pub IsRun : Helper → List String → Action → Type 0
IsRun s args (ran t given rc) = (t ≡ s) × (given ≡ args) × (succeeded rc ≡ true)
IsRun s args _ = ⊥

-- A script has run with the arguments and succeeded.
abbrev pub HasRun : Helper → List String → History → Type 0
HasRun s args [] = ⊥
HasRun s args (a ∷ h) = IsRun s args a ⊎ HasRun s args h

module _ (c : Settings) (w : World) where
  -- An editor that is spawned is one of a worktree of our own, which the three scripts were run for.
  abbrev pub IsPrepared : Outcome → History → Type 0
  IsPrepared (spawned worktree) h =
      (non_empty worktree ≡ true)
      × (is_shared_master c worktree ≡ false)
      × HasRun prepare_sh (worktree_args c w worktree) h
      × HasRun configure_sh (project_args c w worktree) h
      × HasRun start_sh (worktree_args c w worktree) h
  IsPrepared _ h = Unit

  -- What holds of the worktree when the editor is about to start.
  record Ready (worktree : String) (h : History) : Type 0 where
    is_named : non_empty worktree ≡ true
    is_ours : is_shared_master c worktree ≡ false
    is_prepared : HasRun prepare_sh (worktree_args c w worktree) h
    is_configured : HasRun configure_sh (project_args c w worktree) h

  Ready-next :
      (a : Action) (worktree : String) (h : History) → Ready worktree h → Ready worktree (a ∷ h)
  Ready-next a worktree h r = record {
    is_named = r.is_named;
    is_ours = r.is_ours;
    is_prepared = inr r.is_prepared;
    is_configured = inr r.is_configured;
  }

  abbrev pub EndsPrepared : Ending → Type 0
  EndsPrepared e = IsPrepared e.outcome e.history

  start-EndsPrepared :
      (attempts : ℕ) (worktree : String) (h : History)
      → Ready worktree h
      → EndsPrepared (start_editor c w attempts worktree h)
  unfolding start_editor fail_script
  start-EndsPrepared attempts worktree h r =
      let args = worktree_args c w worktree in
      elim (Bool-cases (succeeded (w.run_of start_sh args h))) [
        | inr fails ↦ rw fails tt
        | inl done ↦ elim (Bool-cases (non_empty c.runtime_id)) [
          | inl recorded ↦
              rw (done, recorded)
                (
                  r.is_named,
                  r.is_ours,
                  inr (inr r.is_prepared),
                  inr (inr r.is_configured),
                  inr (inl (refl, refl, done)),
                )
          | inr unrecorded ↦
              rw (done, unrecorded)
                (
                  r.is_named,
                  r.is_ours,
                  inr r.is_prepared,
                  inr r.is_configured,
                  inl (refl, refl, done),
                )
        ]
      ]

  verify-EndsPrepared :
      (tries attempts : ℕ) (worktree : String) (h : History)
      → Ready worktree h
      → EndsPrepared (verify_lease c w tries attempts worktree h)
  unfolding verify_lease fail_script
  verify-EndsPrepared zero attempts worktree h r = start-EndsPrepared attempts worktree h r
  verify-EndsPrepared (suc tries) attempts worktree h r =
      let args = project_args c w worktree in
      let h1 = lease_read ∷ h in
      let rc = w.run_of configure_sh args h1 in
      let r1 = Ready-next lease_read worktree h r in
      elim (Bool-cases (is_active c w (w.lease_of worktree h))) [
        | inl active ↦ rw active (start-EndsPrepared attempts worktree h1 r1)
        | inr stale ↦ elim (Bool-cases (succeeded rc)) [
          | inr fails ↦ rw (stale, fails) tt
          | inl done ↦
              rw (stale, done)
                (verify-EndsPrepared tries attempts worktree (ran configure_sh args rc ∷ h1)
                  (Ready-next (ran configure_sh args rc) worktree h1 r1))
        ]
      ]

  configure-EndsPrepared :
      (attempts : ℕ) (worktree : String) (h : History)
      → non_empty worktree ≡ true
      → is_shared_master c worktree ≡ false
      → HasRun prepare_sh (worktree_args c w worktree) h
      → EndsPrepared (configure_editor c w attempts worktree h)
  unfolding configure_editor fail_script
  configure-EndsPrepared attempts worktree h named ours prepared =
      let args = project_args c w worktree in
      let rc = w.run_of configure_sh args h in
      elim (Bool-cases (succeeded rc)) [
        | inr fails ↦ rw fails tt
        | inl done ↦ rw done (
            verify-EndsPrepared 3 attempts worktree (ran configure_sh args rc ∷ h) (record {
              is_named = named;
              is_ours = ours;
              is_prepared = inr prepared;
              is_configured = inl (refl, refl, done);
            }))
      ]

  prepare-EndsPrepared :
      (attempts : ℕ) (worktree : String) (h : History)
      → non_empty worktree ≡ true
      → is_shared_master c worktree ≡ false
      → EndsPrepared (prepare_editor c w attempts worktree h)
  unfolding prepare_editor fail_script
  prepare-EndsPrepared attempts worktree h named ours =
      let args = worktree_args c w worktree in
      let rc = w.run_of prepare_sh args h in
      elim (Bool-cases (succeeded rc)) [
        | inr fails ↦ rw fails tt
        | inl done ↦ rw done (
            configure-EndsPrepared attempts worktree (ran prepare_sh args rc ∷ h) named ours
              (inl (refl, refl, done)))
      ]

  pub spawn-EndsPrepared : (attempts : ℕ) (h : History) → EndsPrepared (spawn_editor c w attempts h)
  unfolding spawn_editor
  spawn-EndsPrepared attempts h =
      let worktree = w.worktree_of h in
      elim (Bool-cases (not (has_helper c w configure_sh) || not (has_helper c w start_sh))) [
        | inl lacks ↦ rw lacks tt
        | inr found ↦ elim (Bool-cases (non_empty worktree)) [
          | inr unnamed ↦ rw (found, unnamed) tt
          | inl named ↦ elim (Bool-cases (is_shared_master c worktree)) [
            | inl shared ↦ rw (found, named, shared) tt
            | inr ours ↦
                rw (found, named, ours)
                  (prepare-EndsPrepared attempts worktree (resolved worktree ∷ h) named ours)
          ]
        ]
      ]
