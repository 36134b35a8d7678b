-- ===== src/Shim/Sound.antt =====
-- What holds in every state of the front.
use godot_mcp.Base.{ℕ, ◌+◌, ◌≤◌, ◌<◌, ◌≡◌, ◌⊎◌, true, false, ◌||◌, List, [], ◌∷◌, arith, is_some}
use godot_mcp.Shim.{ShimOutput, to_chain, to_client, respawn_scheduled, Shim, Spawn}
use godot_mcp.Shim.Chain.{
  spawn_chain, schedule_rechain, on_rechain_timer, on_chain_error, on_chain_exit, on_chain_stderr,
}

-- What has passed between the client and the chain.
unfoldable pub passed : List ShimOutput → ℕ
passed [] = 0
passed (to_chain m ∷ os) = passed os + 1
passed (to_client f ∷ os) = passed os + 1
passed (o ∷ os) = passed os

unfoldable pub respawns : List ShimOutput → ℕ
respawns [] = 0
respawns (respawn_scheduled ms ∷ os) = respawns os + 1
respawns (o ∷ os) = respawns os

pub record IsSound (max : ℕ) (s : Shim) : Type 0 where
  -- A chain that counts as live is attached, so that a write to it has a pipe.
  pub attached : s.chain_live ≡ is_some s.chain_proc
  pub waits_detached : (s.rechain_timer ≡ false) ⊎ (s.chain_live ≡ false)
  pub started : s.chain_spawned_once ≡ true
  pub latched : s.handoff_triggered ≡ s.handed_off
  -- Nothing passes before the handoff, and the handoff has its proof.
  pub quiet : (s.handed_off ≡ true) ⊎ (passed s.outputs ≡ 0)
  pub proven : (s.handed_off ≡ false) ⊎ ((s.chain_execed || s.chain_stdout_open) ≡ true)
  pub settled : (s.handed_off ≡ false) ⊎ (s.rechain_timer ≡ false)
  -- The budget of respawns.
  pub bounded :
      ((s.rechain_attempts ≤ max) × (respawns s.outputs ≡ s.rechain_attempts))
      ⊎ ((max < s.rechain_attempts) × (respawns s.outputs ≡ max))

module _ (max : ℕ) where
  pub spawn_chain-IsSound : (w : Spawn) (s : Shim) → IsSound max s → IsSound max (spawn_chain w s)
  unfolding spawn_chain
  spawn_chain-IsSound w s i = ground arith

  pub on_rechain_timer-IsSound :
      (w : Spawn) (s : Shim)
      → s.rechain_timer ≡ true
      → IsSound max s
      → IsSound max (on_rechain_timer w s)
  unfolding on_rechain_timer spawn_chain passed respawns
  on_rechain_timer-IsSound w s t i = ground arith

  pub on_chain_error-IsSound :
      (pid : ℕ) (s : Shim) → IsSound max s → IsSound max (on_chain_error max pid s)
  unfolding on_chain_error schedule_rechain passed respawns
  on_chain_error-IsSound pid s i = ground arith

  pub on_chain_exit-IsSound :
      (pid : ℕ) (s : Shim) → IsSound max s → IsSound max (on_chain_exit max pid s)
  unfolding on_chain_exit schedule_rechain passed respawns
  on_chain_exit-IsSound pid s i = ground arith

  pub on_chain_stderr-IsSound :
      (pid : ℕ) (line : List ℕ) (s : Shim)
      → IsSound max s
      → IsSound max (on_chain_stderr pid line s)
  unfolding on_chain_stderr
  on_chain_stderr-IsSound pid line s i = ground arith
