-- ===== src/Ensure/Spared.antt =====
-- Whose editor is never evicted.
use godot_mcp.Base.{eq_iff}
use godot_mcp.Base.{
  ℕ, String, Bool, true, false, ◌&&◌, ◌||◌, Option, none, some, ◌∷◌, ◌≡◌, refl, arith, non_empty,
  str_eq, str_eq_exclusive,
}
use godot_mcp.Handoff.{
  cold_start, handoff_warm, reclaim_dead, join_wait, handoff_reuse, editor_busy, not_no,
  decide_reuse_single_source, decide_reuse_by_lane, HandoffAction,
}
use godot_mcp.Holder.{decide_sidecar_guard}
use godot_mcp.Ensure.{
  probed, arbitrated, holder_read, agent_read, resolved, History, Recorded, World, Settings,
}
use godot_mcp.Ensure.Scripts.{wait_for_port_release}
use godot_mcp.Ensure.Lanes.{
  ArbiterVerdict, free, hot_reuse, respawn, evict_now, busy_foreign, legacy, verdict_of,
  arbiter_decide, takeover_with, dead_holder_lane, legacy_lane, by_verdict, arbiter_lane, by_action,
  single_source, by_record, ensure_editor, adopts_connected, serves_us,
}
use godot_mcp.Ensure.Counts.{evictions, pin_reused-evictions, wait-evictions, spawn-evictions}

-- The arbiter says that the holder's proxy lives.
abbrev pub is_living : Option String → Bool
is_living none = false
is_living (some v) = str_eq v "reuse" || str_eq v "busy_foreign"

-- The record on disk says that a living proxy manages a warm editor on our port.
abbrev pub is_managed : Settings → Option Recorded → Bool
is_managed c none = false
is_managed c (some r) =
    str_eq r.state "WARM" && r.holder_alive && str_eq r.port c.port && not_no r.editor_alive

module _ (c : Settings) (w : World) where
  -- What protects the editor that holds the port: that it does not hold it; that its proxy lives,
  -- by the arbiter or by the record; that our own client is connected to it and nothing names its
  -- worktree; or that it serves our worktree.
  pub data Protected : History → Type 0 where
    port_closed : (h : History) → w.answers h ≡ false → Protected h
    living :
        (h : History)
        → c.arbiter_enabled ≡ true
        → ((g : History) → is_living (w.arbiter_prints g) ≡ true)
        → Protected h
    managed :
        (h : History)
        → non_empty c.runtime_id ≡ true
        → ((g : History) → is_managed c (w.record_of g) ≡ true)
        → Protected h
    connected :
        (h : History)
        → ((g : History) → w.cli_connected g ≡ true)
        → ((g : History) → w.holder_worktree_of g ≡ "")
        → Protected h
    serving :
        (h : History) (ours : String)
        → non_empty ours ≡ true
        → ((g : History) → w.worktree_of g ≡ ours)
        → ((g : History) → w.holder_worktree_of g ≡ ours)
        → Protected h

  dead_lane-evictions :
      (at_once : Bool) (attempts : ℕ) (h : History)
      → let holder = w.holder_worktree_of h in
        let ours = w.worktree_of (holder_read ∷ h) in
        let h2 = resolved ours ∷ holder_read ∷ h in
        (adopts_connected c w holder h2 || serves_us c w holder ours) ≡ true
        → evictions (dead_holder_lane c w at_once attempts h).history ≡ evictions h
  unfolding dead_holder_lane evictions
  dead_lane-evictions at_once attempts h spares =
      let h2 = resolved (w.worktree_of (holder_read ∷ h)) ∷ holder_read ∷ h in
      ground (arith, pin_reused-evictions c w true h2)

  legacy-evictions :
      (attempts : ℕ) (h : History)
      → let holder = w.holder_worktree_of h in
        let ours = w.worktree_of (holder_read ∷ h) in
        let h2 = resolved ours ∷ holder_read ∷ h in
        (adopts_connected c w holder (agent_read ∷ h2) || serves_us c w holder ours) ≡ true
        → evictions (legacy_lane c w attempts h).history ≡ evictions h
  unfolding legacy_lane evictions
  legacy-evictions attempts h spares =
      let h3 = agent_read ∷ resolved (w.worktree_of (holder_read ∷ h)) ∷ holder_read ∷ h in
      ground (arith, pin_reused-evictions c w true h3, pin_reused-evictions c w false h3)

  abbrev is_sparing : ArbiterVerdict → Bool
  is_sparing free = true
  is_sparing hot_reuse = true
  is_sparing busy_foreign = true
  is_sparing _ = false

  living-is_sparing : (o : Option String) → is_living o ≡ true → is_sparing (verdict_of o) ≡ true
  living-is_sparing none h = h
  living-is_sparing (some v) h = ground (
    arith,
    str_eq_exclusive v "respawn" "busy_foreign" refl,
    str_eq_exclusive v "evict" "busy_foreign" refl,
  )

  by_verdict-evictions :
      (v : ArbiterVerdict) (attempts : ℕ) (h : History)
      → is_sparing v ≡ true
      → evictions (by_verdict c w v attempts h).history ≡ evictions h
  unfolding by_verdict takeover_with
  by_verdict-evictions free attempts h spares = spawn-evictions c w attempts h
  by_verdict-evictions hot_reuse attempts h spares =
      let waited = wait_for_port_release c w c.takeover_timeout_ms h in
      ground
        (arith, wait-evictions c w c.takeover_timeout_ms h, spawn-evictions c w attempts waited.1)
  by_verdict-evictions busy_foreign attempts h spares = refl
  by_verdict-evictions respawn attempts h spares = ground arith
  by_verdict-evictions evict_now attempts h spares = ground arith
  by_verdict-evictions legacy attempts h spares = ground arith

  serving-serves_us : (ours : String) → non_empty ours ≡ true → serves_us c w ours ours ≡ true
  unfolding decide_sidecar_guard
  serving-serves_us ours h = ground (arith, (eq_iff ours ours).1 refl)

  -- Where the lanes that may evict do not, no verdict does.
  any_verdict-evictions :
      (v : ArbiterVerdict) (attempts : ℕ) (h : History)
      → ((at_once : Bool)
          → evictions (dead_holder_lane c w at_once attempts h).history ≡ evictions h)
      → evictions (legacy_lane c w attempts h).history ≡ evictions h
      → evictions (by_verdict c w v attempts h).history ≡ evictions h
  unfolding by_verdict
  any_verdict-evictions free attempts h dead old = by_verdict-evictions free attempts h refl
  any_verdict-evictions hot_reuse attempts h dead old =
      by_verdict-evictions hot_reuse attempts h refl
  any_verdict-evictions busy_foreign attempts h dead old = refl
  any_verdict-evictions respawn attempts h dead old = dead false
  any_verdict-evictions evict_now attempts h dead old = dead true
  any_verdict-evictions legacy attempts h dead old = old

  AdoptsAll : Type 0
  AdoptsAll =
      (g f : History)
      → (adopts_connected c w (w.holder_worktree_of g) f
          || serves_us c w (w.holder_worktree_of g) (w.worktree_of (holder_read ∷ g)))
        ≡ true

  adopts-evictions :
      (attempts : ℕ) (h : History)
      → AdoptsAll
      → evictions (arbiter_lane c w attempts h).history ≡ evictions h
  unfolding AdoptsAll arbiter_lane evictions
  adopts-evictions attempts h all =
      let g = arbitrated ∷ h in
      let h2 = resolved (w.worktree_of (holder_read ∷ g)) ∷ holder_read ∷ g in
      any_verdict-evictions (arbiter_decide c w h) attempts g
        (λ at_once. dead_lane-evictions at_once attempts g (all g h2))
        (legacy-evictions attempts g (all g (agent_read ∷ h2)))

  living-evictions :
      (attempts : ℕ) (h : History)
      → c.arbiter_enabled ≡ true
      → is_living (w.arbiter_prints h) ≡ true
      → evictions (arbiter_lane c w attempts h).history ≡ evictions h
  unfolding arbiter_lane arbiter_decide evictions
  living-evictions attempts h on lives =
      by_verdict-evictions (arbiter_decide c w h) attempts (arbitrated ∷ h)
        (ground (arith, living-is_sparing (w.arbiter_prints h) lives))

  by_action-evictions :
      (a : HandoffAction) (attempts : ℕ) (h : History)
      → ((g : History) → evictions (arbiter_lane c w attempts g).history ≡ evictions g)
      → evictions (by_action c w a attempts h).history ≡ evictions h
  unfolding by_action
  by_action-evictions handoff_reuse attempts h spares = pin_reused-evictions c w true h
  by_action-evictions editor_busy attempts h spares = refl
  by_action-evictions cold_start attempts h spares = spares h
  by_action-evictions handoff_warm attempts h spares = spares h
  by_action-evictions reclaim_dead attempts h spares = spares h
  by_action-evictions join_wait attempts h spares = spares h

  -- The lane of the record, where the arbiter's evicts no one.
  by_record-evictions :
      (o : Option Recorded) (attempts : ℕ) (h : History)
      → ((g : History) → evictions (arbiter_lane c w attempts g).history ≡ evictions g)
      → evictions (by_record c w o attempts h).history ≡ evictions h
  unfolding by_record evictions
  by_record-evictions none attempts h spares = spares h
  by_record-evictions (some r) attempts h spares =
      by_action-evictions (single_source c w r (w.worktree_of h)) attempts
        (resolved (w.worktree_of h) ∷ h) spares

  managed-editor_busy :
      (r : Recorded) (ours : String)
      → is_managed c (some r) ≡ true
      → single_source c w r ours ≡ editor_busy
  unfolding decide_reuse_single_source decide_reuse_by_lane
  managed-editor_busy r ours m = ground (arith, str_eq_exclusive r.state "FAILED_CLEAN" "WARM" refl)

  managed-evictions :
      (o : Option Recorded) (attempts : ℕ) (h : History)
      → is_managed c o ≡ true
      → evictions (by_record c w o attempts h).history ≡ evictions h
  unfolding by_record by_action evictions
  managed-evictions none attempts h m = ground arith
  managed-evictions (some r) attempts h m = rw (managed-editor_busy r (w.worktree_of h) m) refl

  busy-evictions :
      (attempts : ℕ) (h : History)
      → ((g : History) → evictions (arbiter_lane c w attempts g).history ≡ evictions g)
      → evictions (ensure_editor c w attempts h).history ≡ evictions h
  unfolding ensure_editor evictions
  busy-evictions attempts h spares =
      let h1 = probed true ∷ h in
      ground (
        arith,
        spawn-evictions c w attempts (probed false ∷ h),
        by_record-evictions (w.record_of h1) attempts h1 spares,
        spares h1,
      )

  connected-AdoptsAll :
      ((g : History) → w.cli_connected g ≡ true)
      → ((g : History) → w.holder_worktree_of g ≡ "")
      → AdoptsAll
  unfolding AdoptsAll
  connected-AdoptsAll cli unnamed g f = rw (unnamed g, cli f)

  serving-AdoptsAll :
      (ours : String)
      → non_empty ours ≡ true
      → ((g : History) → w.worktree_of g ≡ ours)
      → ((g : History) → w.holder_worktree_of g ≡ ours)
      → AdoptsAll
  unfolding AdoptsAll
  serving-AdoptsAll ours named is_ours is_holder g f =
      ground (arith, is_ours (holder_read ∷ g), is_holder g, serving-serves_us ours named)

  -- No holder of the port that is protected is evicted, whatever the scripts, the arbiter and the
  -- clock answer: neither one whose proxy lives by the arbiter or by the record on disk, nor one that
  -- our own client is connected to and that has no sidecar, nor one whose sidecar names our worktree;
  -- and where the port is closed there is no eviction either.
  pub Protected-is_spared :
      (attempts : ℕ) (h : History)
      → Protected h
      → evictions (ensure_editor c w attempts h).history ≡ evictions h
  unfolding ensure_editor evictions
  Protected-is_spared attempts _ (port_closed h closed) =
      ground (arith, spawn-evictions c w attempts (probed false ∷ h))
  Protected-is_spared attempts _ (living h on lives) =
      busy-evictions attempts h (λ g. living-evictions attempts g on (lives g))
  Protected-is_spared attempts _ (managed h runs manages) =
      let h1 = probed true ∷ h in
      ground (
        arith,
        spawn-evictions c w attempts (probed false ∷ h),
        managed-evictions (w.record_of h1) attempts h1 (manages h1),
      )
  Protected-is_spared attempts _ (connected h cli none_named) =
      busy-evictions attempts h
        (λ g. adopts-evictions attempts g (connected-AdoptsAll cli none_named))
  Protected-is_spared attempts _ (serving h ours named is_ours is_holder) =
      busy-evictions attempts h
        (λ g. adopts-evictions attempts g (serving-AdoptsAll ours named is_ours is_holder))
