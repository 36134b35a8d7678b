-- ===== src/Holder.antt =====
-- Who holds the port, and whether its editor may be stopped: launch/see1338-stale-takeover.mjs,
-- launch/proxy/stale-proxy.mjs, launch/see1129-reuse-predicate.mjs and
-- launch/see1129-sidecar-guard-predicate.mjs.
-- A pid that is no positive integer is 0, and a missing text is the empty text. Whether a process
-- lives is a function of its pid.
mod Laws
use godot_mcp.Base.{
  ℕ, String, Bool, true, false, not, Option, none, some, List, [], ◌∷◌, ltb, ◌==◌, str_eq,
  non_empty, if◌then◌else◌,
}

pub data HeldAction : Type 0 where
  free own busy takeover : HeldAction

pub record HeldProxy : Type 0 where
  pub pid : ℕ
  pub runtime_id : String

pub record Classified : Type 0 where
  pub action : HeldAction
  pub pid : ℕ

-- `ourPid !== null && holderPid === ourPid`
unfoldable pub is_pid : ℕ → Option ℕ → Bool
is_pid pid none = false
is_pid pid (some ours) = pid == ours

-- `holderAlive === true`
abbrev pub is_alive : Option Bool → Bool
is_alive (some true) = true
is_alive _ = false

unfoldable pub decide_stale_proxy_action : ℕ → Option ℕ → Option Bool → Classified
decide_stale_proxy_action holder ours alive =
    if not (ltb 0 holder)
    then record { action = free; pid = holder }
    else if is_pid holder ours
    then record { action = own; pid = holder }
    else if is_alive alive
    then record { action = busy; pid = holder }
    else record { action = takeover; pid = holder }

-- `classifyHeldProxy`: the own process is not asked whether it lives.
unfoldable pub classify_held_proxy : (ℕ → Bool) → ℕ → Option HeldProxy → Classified
classify_held_proxy lives ours none = decide_stale_proxy_action 0 none none
classify_held_proxy lives ours (some held) =
    decide_stale_proxy_action held.pid (some ours)
      (if held.pid == ours then none else some (lives held.pid))

-- `maybeEvictStaleHeld`: whether it calls the eviction that it is given.
unfoldable pub evicts : Classified → Bool
evicts cls = elim cls.action [ free ↦ false | own ↦ true | busy ↦ false | takeover ↦ true ]

unfoldable pub maybe_evict_stale_held : (ℕ → Bool) → ℕ → Option HeldProxy → Bool
maybe_evict_stale_held lives ours held = evicts (classify_held_proxy lives ours held)

pub data Reuse : Type 0 where
  reuse foreign : Reuse

-- `decideReuse`; the worktrees do not count.
unfoldable pub decide_reuse : String → String → Reuse
decide_reuse holder_agent our_agent =
    if not (non_empty holder_agent)
    then reuse
    else if not (non_empty our_agent)
    then reuse
    else if str_eq holder_agent our_agent
    then reuse
    else foreign

pub data Guard : Type 0 where
  keep evict : Guard

unfoldable pub decide_sidecar_guard : String → String → Guard
decide_sidecar_guard holder_worktree our_worktree =
    if not (non_empty our_worktree)
    then evict
    else if not (non_empty holder_worktree)
    then evict
    else if not (str_eq holder_worktree our_worktree)
    then evict
    else keep
