-- ===== src/Heal/Rounds.antt =====
-- What a recovery round may stop, and when it spawns.
use godot_mcp.Base.{
  ℕ, ◌≡◌, ◌↔◌, ◌⊎◌, refl, Bool, true, false, List, ◌∷◌, if◌then◌else◌, arith, eq_iff, non_empty,
  inr, inl,
}
use godot_mcp.State.{Proxy, Config, Effect, holder_evicted}
use godot_mcp.Recovery.{
  respawn, stop_first, decide_recovery_action, attribute_holder, attribute_by_ps,
}
use godot_mcp.Heal.{
  is_success, RoundInput, Healing, refused, cleared, attribution, round_decision, clear_port,
  spawn_round, spawn_cleared, round_budget, guarded_round, enter_round, count_round, leave_round,
  run_recovery_round,
}

abbrev pub proxy_of : Healing → Proxy
proxy_of (refused p) = p
proxy_of (cleared p) = p

-- What has to hold of the lease before the holder of the port is evicted.
pub record IsOurResidue (c : Config) (i : RoundInput) : Type 0 where
  pub busy : i.port_open ≡ true
  pub dead : i.holder_pid_alive ≡ false
  pub leased : non_empty i.lease.lease_runtime_id ≡ true
  pub ours : i.lease.lease_runtime_id ≡ c.runtime_id

clear_port-evicts :
    (c : Config) (i : RoundInput) (p : Proxy)
    → (proxy_of (clear_port c i p)).effects ≡ (
        if (round_decision c i).evict
        then holder_evicted i.holder_worktree ∷ p.effects
        else p.effects)
unfolding clear_port round_decision decide_recovery_action
clear_port-evicts c i p = ground arith

decision-IsOurResidue :
    (c : Config) (i : RoundInput) → (round_decision c i).evict ≡ true → IsOurResidue c i
unfolding round_decision decide_recovery_action attribution attribute_holder attribute_by_ps
decision-IsOurResidue c i h =
    ground (arith, eq_iff i.lease.lease_runtime_id "", eq_iff i.lease.lease_runtime_id c.runtime_id)

if_effects :
    (b : Bool) (e : Effect) (es fs : List Effect) (A : Type 0)
    → (b ≡ true → A)
    → fs ≡ (if b then e ∷ es else es)
    → (fs ≡ es) ⊎ (A × (fs ≡ e ∷ es))
if_effects true e es fs A k h = inr (k refl, h)
if_effects false e es fs A k h = inl h

-- A round evicts the holder of the port only where the port is busy, the holder's proxy is dead, and
-- the lease bears our own runtime id, which is not empty; else it leaves the trace as it is.
pub evicts_own_residue :
    (c : Config) (i : RoundInput) (p : Proxy)
    → ((proxy_of (clear_port c i p)).effects ≡ p.effects)
      ⊎ (IsOurResidue c i
          × ((proxy_of (clear_port c i p)).effects ≡ holder_evicted i.holder_worktree ∷ p.effects))
evicts_own_residue c i p =
    if_effects (round_decision c i).evict (holder_evicted i.holder_worktree) p.effects _
      (IsOurResidue c i) (decision-IsOurResidue c i) (clear_port-evicts c i p)

-- What has to hold for a round to end in a spawn that succeeds.
pub record MaySpawn (c : Config) (now : ℕ) (i : RoundInput) (p : Proxy) : Type 0 where
  pub alone : p.warm_respawn_in_flight ≡ false
  pub in_budget : (round_budget c now p).can_start_round ≡ true
  pub free :
      ((round_decision c i).action ≡ respawn)
      ⊎ (((round_decision c i).action ≡ stop_first) × (i.still_open ≡ false))
  pub succeeds : is_success i.outcome ≡ true

spawned_iff :
    (c : Config) (now : ℕ) (i : RoundInput) (p : Proxy)
    → ((spawn_cleared c now i.outcome (clear_port c i p)).0 ≡ true) ↔ (
        (((round_decision c i).action ≡ respawn)
          ⊎ (((round_decision c i).action ≡ stop_first) × (i.still_open ≡ false)))
        × (is_success i.outcome ≡ true))
unfolding spawn_cleared spawn_round clear_port
spawned_iff c now i p = (λ h. ground arith, λ h. ground arith)

-- A round succeeds exactly when no other round is under way, the budget admits one, the decision
-- is to respawn or an eviction has freed the port, and the spawn succeeds.
pub healed_iff :
    (c : Config) (now : ℕ) (i : RoundInput) (p : Proxy)
    → ((run_recovery_round c now i p).0 ≡ true) ↔ MaySpawn c now i p
unfolding run_recovery_round guarded_round
healed_iff c now i p =
    let spawned = spawned_iff c now i (count_round (enter_round p)) in
    (λ h. ground (arith, spawned), λ h. ground (arith, spawned))

-- A round leaves the guard as it finds it: a round that it refuses to start is still under way, and
-- one that it runs has ended, however it ends.
pub guard_kept :
    (c : Config) (now : ℕ) (i : RoundInput) (p : Proxy)
    → (run_recovery_round c now i p).1.warm_respawn_in_flight ≡ p.warm_respawn_in_flight
unfolding run_recovery_round leave_round
guard_kept c now i p = ground arith
