-- ===== src/Holder/Laws.antt =====
-- Which holder is evicted, reused or refused.
use godot_mcp.Base.{ℕ, String, ◌≡◌, ◌≢◌, ◌↔◌, ◌⊎◌, ◌<◌, Bool, true, false, some, arith, eq_iff}
use godot_mcp.Holder.{
  HeldProxy, is_pid, decide_stale_proxy_action, classify_held_proxy, evicts, maybe_evict_stale_held,
  foreign, decide_reuse, keep, decide_sidecar_guard,
}

-- The holder that the record names is evicted exactly when its pid is positive and it is this
-- process or is not alive.
pub evict_held_iff :
    (lives : ℕ → Bool) (ours : ℕ) (held : HeldProxy)
    → (maybe_evict_stale_held lives ours (some held) ≡ true)
      ↔ ((0 < held.pid) × ((held.pid ≡ ours) ⊎ (lives held.pid ≡ false)))
unfolding maybe_evict_stale_held evicts classify_held_proxy decide_stale_proxy_action is_pid
evict_held_iff lives ours held = (λ h. ground arith, λ h. ground arith)

-- A holder is refused exactly when its agent and ours are both known and differ.
pub foreign_iff :
    (theirs ours : String)
    → (decide_reuse theirs ours ≡ foreign) ↔ ((theirs ≢ "") × (ours ≢ "") × (theirs ≢ ours))
unfolding decide_reuse
foreign_iff theirs ours = (
  λ h. (
    λ e. ground (arith, eq_iff theirs ""),
    λ e. ground (arith, eq_iff ours ""),
    λ e. ground (arith, eq_iff theirs ours),
  ),
  λ h. ground (arith, eq_iff theirs "", eq_iff ours "", eq_iff theirs ours),
)

-- The sidecar guard keeps a holder exactly when its worktree is known and is ours.
pub keep_iff :
    (theirs ours : String)
    → (decide_sidecar_guard theirs ours ≡ keep) ↔ ((theirs ≢ "") × (theirs ≡ ours))
unfolding decide_sidecar_guard
keep_iff theirs ours = (
  λ h. (
    λ e. ground (arith, eq_iff theirs "", eq_iff ours "", eq_iff theirs ours),
    ground (arith, eq_iff theirs "", eq_iff ours "", eq_iff theirs ours),
  ),
  λ h. ground (arith, eq_iff theirs "", eq_iff ours "", eq_iff theirs ours),
)
