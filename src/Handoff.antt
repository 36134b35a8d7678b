-- ===== src/Handoff.antt =====
-- launch/see1338-handoff.mjs: what to do with the runtime that the record on disk describes.
-- `Date.parse` is a parameter. A reason is a constructor, with the name of the state where the
-- source's text has it. A missing text is the empty text. The test `state in WT_MATCH_PREFIXES` is
-- read for states that name no property of every object.
mod Decisions
mod Reuse
mod Tests
use godot_mcp.Base.{
  ℕ, String, ◌-◌, Bool, true, false, not, ◌&&◌, ◌||◌, Option, none, some, [], ◌∷◌, ◌++◌, ltb, leb,
  str_eq, non_empty, codes, has_prefix, if◌then◌else◌,
}

pub data HandoffAction : Type 0 where
  cold_start handoff_warm editor_busy reclaim_dead join_wait handoff_reuse : HandoffAction

pub data HandoffReason : Type 0 where
  no_state unknown_state : String → HandoffReason
  failed_clean_reentrant cold_record warm_fresh_live_proxy warm_fresh_proxy_dead : HandoffReason
  warm_stale_live_proxy warm_stale_proxy_dead port_mismatch holder_proxy_alive : HandoffReason
  live_proxy_join proxy_dead record_state editor_dead : String → HandoffReason
  worktree_match worktree_mismatch : String → HandoffReason

pub record Handoff : Type 0 where
  pub action : HandoffAction
  pub reason : HandoffReason

-- The fields of the record on disk that are read.
pub record StateDoc : Type 0 where
  pub state : String
  pub heartbeat_at : String

pub data Disk : Type 0 where
  unreadable : String → Disk
  readable : StateDoc → Disk

pub record HolderProxy : Type 0 where
  pub pid : ℕ
  pub verified : Option Bool
  pub alive : Option Bool

-- `x === true`, and `x !== false`.
abbrev pub is_yes : Option Bool → Bool
is_yes (some true) = true
is_yes _ = false

abbrev pub not_no : Option Bool → Bool
not_no (some false) = false
not_no _ = true

unfoldable pub is_proxy_alive : Option HolderProxy → Bool
is_proxy_alive none = false
is_proxy_alive (some h) =
    ltb 0 h.pid && (is_yes h.verified || (not_no h.verified && not_no h.alive))

abbrev decide : HandoffAction → HandoffReason → Handoff
decide a r = record { action = a; reason = r }

unfoldable pub decide_warm : Bool → Bool → Handoff
decide_warm fresh proxy_alive =
    if fresh
    then (if proxy_alive
        then decide handoff_warm warm_fresh_live_proxy
        else decide reclaim_dead warm_fresh_proxy_dead)
    else if proxy_alive
    then decide editor_busy warm_stale_live_proxy
    else decide reclaim_dead warm_stale_proxy_dead

unfoldable pub decide_in_flight : String → Bool → Bool → Handoff
decide_in_flight name fresh proxy_alive =
    if proxy_alive && fresh
    then decide join_wait (live_proxy_join name)
    else decide reclaim_dead (proxy_dead name)

-- `HANDOFF_DISPATCH[stName] || decideUnknown`
unfoldable pub dispatch : String → Bool → Bool → Handoff
dispatch name fresh proxy_alive =
    if str_eq name "WARM"
    then decide_warm fresh proxy_alive
    else if str_eq name "WARMING" || str_eq name "RECOVERING"
    then decide_in_flight name fresh proxy_alive
    else if str_eq name "FAILED_CLEAN"
    then decide cold_start failed_clean_reentrant
    else if str_eq name "COLD"
    then decide cold_start cold_record
    else decide cold_start (unknown_state name)

module _ (date_parse : String → Option ℕ) where
  -- A time later than now is fresh, as its age is negative.
  unfoldable pub heartbeat_fresh : String → ℕ → ℕ → Bool
  heartbeat_fresh heartbeat now max_age =
      if non_empty heartbeat
      then elim (date_parse heartbeat) [ none ↦ false | some t ↦ leb (now - t) max_age ]
      else false

  unfoldable pub decide_handoff_action : Disk → Option HolderProxy → ℕ → ℕ → Handoff
  decide_handoff_action (unreadable why) holder now max_age = decide cold_start (no_state why)
  decide_handoff_action (readable st) holder now max_age =
      dispatch st.state (heartbeat_fresh st.heartbeat_at now max_age) (is_proxy_alive holder)

pub record ReuseInput : Type 0 where
  pub state : String
  pub holder_proxy_alive : Bool
  pub holder_worktree : String
  pub our_worktree : String
  pub same_port : Bool
  pub editor_alive : Option Bool

-- `a.startsWith(b + '/')`
abbrev pub is_under : String → String → Bool
is_under a b = has_prefix (codes b ++ codes "/") (codes a)

unfoldable pub worktree_serves : String → String → Bool
worktree_serves ours holder =
    non_empty holder
    && non_empty ours
    && (str_eq holder ours || is_under holder ours || is_under ours holder)

-- `state in WT_MATCH_PREFIXES`
abbrev pub has_lane : String → Bool
has_lane name = str_eq name "WARM" || str_eq name "WARMING" || str_eq name "RECOVERING"

unfoldable pub decide_reuse_by_lane : ReuseInput → Handoff
decide_reuse_by_lane i =
    if str_eq i.state "WARM" && i.holder_proxy_alive
    then decide editor_busy holder_proxy_alive
    else if worktree_serves i.our_worktree i.holder_worktree
    then decide handoff_reuse (worktree_match i.state)
    else decide cold_start (worktree_mismatch i.state)

unfoldable pub decide_reuse_single_source : ReuseInput → Handoff
decide_reuse_single_source i =
    if not i.same_port
    then decide cold_start port_mismatch
    else if str_eq i.state "FAILED_CLEAN"
    then decide cold_start failed_clean_reentrant
    else if not (has_lane i.state)
    then decide cold_start (record_state i.state)
    else if not (not_no i.editor_alive)
    then decide cold_start (editor_dead i.state)
    else decide_reuse_by_lane i
