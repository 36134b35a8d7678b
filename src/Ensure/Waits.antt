-- ===== src/Ensure/Waits.antt =====
-- The wait for the release of the port ends.
use godot_mcp.Base.{ℕ, zero, suc, ◌+◌, ◌≤◌, ◌<◌, ◌≡◌, ◌⊎◌, true, ◌∷◌, arith}
use godot_mcp.Ensure.{probed, slept, History, World, Settings}
use godot_mcp.Ensure.Scripts.{wait_until, wait_for_port_release}

module _ (c : Settings) (w : World) where
  -- The clock goes on while the loop sleeps.
  abbrev pub Ticks : Type 0
  Ticks = (h : History) → w.now h < w.now (slept ∷ probed true ∷ h)

  wait_until-ends :
      (fuel deadline : ℕ) (h : History)
      → Ticks
      → deadline < w.now h + fuel
      → let waited = wait_until c w fuel deadline h in
        (waited.0 ≡ true) ⊎ (deadline ≤ w.now waited.1)
  unfolding wait_until
  wait_until-ends zero deadline h ticks enough = ground arith
  wait_until-ends (suc fuel) deadline h ticks enough =
      ground (arith, ticks h, wait_until-ends fuel deadline (slept ∷ probed true ∷ h) ticks)

  -- Where the clock goes on, the wait for a release ends by itself: it reports a freed port, or its
  -- whole budget has passed. The loop's fuel is never what ends it.
  pub wait_ends :
      (budget : ℕ) (h : History)
      → Ticks
      → let waited = wait_for_port_release c w budget h in
        (waited.0 ≡ true) ⊎ (w.now h + budget ≤ w.now waited.1)
  unfolding wait_for_port_release
  wait_ends budget h ticks = wait_until-ends (budget + 1) (w.now h + budget) h ticks (omega arith)
