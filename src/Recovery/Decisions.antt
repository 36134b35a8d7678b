-- ===== src/Recovery/Decisions.antt =====
-- Which holder a recovery round may evict, and how attribution bounds it.
use godot_mcp.Base.{◌≡◌, ◌↔◌, ◌⊎◌, ◌≢◌, true, false, some, arith, eq_iff, non_empty}
use godot_mcp.Recovery.{
  RecoveryInput, AttributionInput, takeover_wait, fail_fast, same_runtime, lease_released,
  decide_recovery_action, attribute_holder,
}

-- The eviction permit: what has to hold of the holder before its editor is stopped.
pub record IsOwnHalfDead (i : RecoveryInput) : Type 0 where
  pub port_busy : i.port_open ≡ true
  pub readable : i.holder_identity_readable ≡ true
  pub dead : i.holder_proxy_alive ≡ false
  pub own : (i.holder_runtime_id ≡ "") ⊎ (i.holder_runtime_id ≡ i.our_runtime_id)
  pub active : lease_released i ≡ false

-- A decision permits eviction exactly when the port is busy, the holder's identity is readable, its
-- proxy is dead, its runtime id is empty or ours, and its lease bears no trace of a release.
pub evict_iff : (i : RecoveryInput) → ((decide_recovery_action i).evict ≡ true) ↔ IsOwnHalfDead i
unfolding decide_recovery_action
evict_iff i = (
  λ h. ground (arith, eq_iff i.holder_runtime_id "", eq_iff i.holder_runtime_id i.our_runtime_id),
  λ h. ground (arith, eq_iff i.holder_runtime_id "", eq_iff i.holder_runtime_id i.our_runtime_id),
)

-- A live proxy on a busy port whose identity can be read is waited for when its runtime id is ours
-- and not empty, and otherwise refused without an eviction.
pub live_holder_kept :
    (i : RecoveryInput)
    → i.port_open ≡ true
    → i.holder_identity_readable ≡ true
    → i.holder_proxy_alive ≡ true
    → (((decide_recovery_action i).action ≡ takeover_wait) ↔ (same_runtime i ≡ true))
      × (((decide_recovery_action i).action ≡ fail_fast) ↔ (same_runtime i ≡ false))
      × ((decide_recovery_action i).evict ≡ false)
unfolding decide_recovery_action
live_holder_kept i p r a =
    ((λ h. ground arith, λ h. ground arith), (λ h. ground arith, λ h. ground arith), ground arith)

-- With the process's command line unknown, a holder is readable only through the files, and then it
-- bears the lease's runtime id.
pub attribute_holder_by_files :
    (i : AttributionInput)
    → i.ps_cmdline_match ≢ some true
    → i.ps_cmdline_match ≢ some false
    → (attribute_holder i).identity_readable ≡ true
    → ((attribute_holder i).runtime_id ≡ i.lease_runtime_id)
      × (non_empty i.lease_runtime_id ≡ true)
      × (non_empty i.registry_worktree ≡ true)
      × (non_empty i.holder_worktree ≡ true)
unfolding attribute_holder
attribute_holder_by_files i t f h = ground arith
