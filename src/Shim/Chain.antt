-- ===== src/Shim/Chain.antt =====
-- launch/godot-mcp-shim.mjs: the spawn of the chain, its death and its streams, and the handoff.
use godot_mcp.Base.{
  ℕ, ◌+◌, String, Bool, true, false, not, ◌&&◌, ◌||◌, ◌==◌, none, some, List, [], ◌∷◌, ◌++◌, ltb,
  contains, codes, if◌then◌else◌,
}
use godot_mcp.Shim.{
  worktree_wait, proxy_warming, chain_restarting, chain_exhausted, ClientMessage, Frame,
  transient_answered, to_chain, to_client, chain_spawned, respawn_scheduled, Shim, Spawn, put,
  end_process,
}

-- `spawnChain`
unfoldable pub spawn_chain : Spawn → Shim → Shim
spawn_chain w s =
    if s.chain_spawned_once
    then s
    else let marked = record s { chain_spawned_once = true } in
      if not w.config_ok
      then end_process 2 marked
      else if not w.launcher_found
      then record marked { chain_state = chain_exhausted; chain_missing = true }
      else put (chain_spawned w.pid) (record marked {
        chain_proc = some w.pid;
        chain_state = proxy_warming;
        chain_live = true;
      })

-- RECHAIN_BACKOFF_MS, by the attempt.
unfoldable pub rechain_delay : ℕ → ℕ
rechain_delay attempts = if ltb attempts 2 then 10000 else 20000

-- `scheduleRechain`; `max` is RECHAIN_MAX.
unfoldable pub schedule_rechain : ℕ → Shim → Shim
schedule_rechain max s =
    if s.handed_off || s.chain_missing || s.rechain_timer
    then s
    else let counted = record s { rechain_attempts = s.rechain_attempts + 1 } in
      if ltb max counted.rechain_attempts
      then record counted { chain_state = chain_exhausted }
      else put (respawn_scheduled (rechain_delay counted.rechain_attempts))
          (record counted { chain_state = chain_restarting; rechain_timer = true })

-- The timer of a respawn.
unfoldable pub on_rechain_timer : Spawn → Shim → Shim
on_rechain_timer w s = spawn_chain w (record s {
  rechain_timer = false;
  chain_spawned_once = false;
  chain_live = false;
  chain_stdout_open = false;
  chain_execed = false;
  buffered_lines = [];
})

-- `chainProc && chainProc.pid !== spawnedPid`
abbrev pub is_stale : ℕ → Shim → Bool
is_stale pid s = elim s.chain_proc [ none ↦ false | some p ↦ not (p == pid) ]

abbrev detach : Shim → Shim
detach s = record s { chain_live = false; chain_proc = none }

unfoldable pub on_chain_error : ℕ → ℕ → Shim → Shim
on_chain_error max pid s =
    if s.exiting then detach s else if is_stale pid s then s else schedule_rechain max (detach s)

unfoldable pub on_chain_exit : ℕ → ℕ → Shim → Shim
on_chain_exit max pid s =
    if s.handed_off
    then end_process 1 s
    else if s.exiting
    then detach s
    else if is_stale pid s
    then s
    else schedule_rechain max (detach s)

abbrev says : String → List ℕ → Bool
says text line = contains (codes text) line

abbrev pub says_wait : List ℕ → Bool
says_wait line = says "stage=WORKTREE_WAIT" line || says "stage=RUNTIME_WAIT" line

unfoldable pub on_chain_stderr : ℕ → List ℕ → Shim → Shim
on_chain_stderr pid line s =
    if is_stale pid s
    then s
    else if says_wait line
    then record s { chain_state = worktree_wait }
    else if says "stage=LAUNCHER_EXEC" line
    then record s { chain_state = proxy_warming; chain_execed = true }
    else if says "stage=WORKTREE_READY" line || says "stage=RUNTIME_READY" line
    then record s { chain_state = proxy_warming }
    else s

-- A held request is answered; a held line with no id is dropped.
unfoldable pub answer_message : ClientMessage → Shim → Shim
answer_message m s = elim m.id [
  | none ↦ s
  | some i ↦ put (transient_answered i s.chain_state s.rechain_attempts) s
]

unfoldable pub answer_held : List ClientMessage → Shim → Shim
answer_held [] s = record s { held_inbound = [] }
answer_held (m ∷ ms) s = answer_held ms (answer_message m s)

unfoldable pub flush_held : List ClientMessage → Shim → Shim
flush_held [] s = record s { held_inbound = [] }
flush_held (m ∷ ms) s = flush_held ms (put (to_chain m) s)

unfoldable pub drain_frames : List Frame → Shim → Shim
drain_frames [] s = record s { buffered_lines = [] }
drain_frames (f ∷ fs) s = drain_frames fs (put (to_client f) s)

-- A chain is attached, and its proxy is proven to run.
unfoldable pub is_proven : Shim → Bool
is_proven s = s.chain_live && (s.chain_execed || s.chain_stdout_open)

-- `triggerHandoff`
unfoldable pub trigger_handoff : Shim → Shim
trigger_handoff s =
    if s.handoff_triggered
    then s
    else if not (is_proven s)
    then answer_held s.held_inbound s
    else drain_frames s.buffered_lines
        (flush_held s.held_inbound (record s { handoff_triggered = true; handed_off = true }))

abbrev pub open_stdout : Shim → Shim
open_stdout s =
    if s.chain_stdout_open then s else record s { chain_stdout_open = true; chain_execed = true }

-- A frame of an open stdout: passed on, or kept until the handoff, which it may trigger.
unfoldable pub take_frame : Frame → Shim → Shim
take_frame f s =
    if s.handed_off
    then put (to_client f) s
    else let buffered = record s { buffered_lines = s.buffered_lines ++ f ∷ [] } in
      if not s.handoff_triggered && f.is_json then trigger_handoff buffered else buffered

unfoldable pub on_chain_stdout : ℕ → Frame → Shim → Shim
on_chain_stdout pid f s = if is_stale pid s then s else take_frame f (open_stdout s)
