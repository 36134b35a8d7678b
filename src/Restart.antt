-- ===== src/Restart.antt =====
-- launch/proxy/restart.mjs: the end of a held restart call, and the watch for the editor that comes
-- back. A hold is resolved when the proxy no longer keeps it. The watch runs on the list of what its
-- loops see, one entry for each round.
mod Finish
mod Watching
mod Tests
use godot_mcp.Base.{
  ℕ, ◌+◌, Bool, true, false, not, ◌&&◌, ◌||◌, Option, none, some, List, [], ◌∷◌, ltb, leb, is_some,
  if◌then◌else◌, String,
}
use godot_mcp.Message.{Message}
use godot_mcp.State.{
  Proxy, Config, RestartHold, RestartResult, restarted, not_restarted, restart_answer,
  restart_failed, sent, emit,
}
use godot_mcp.Protocol.{send_error}
use godot_mcp.Queue.{drop_tools_call_id}
use godot_mcp.Router.{Tools}
use godot_mcp.Router.Flush.{flush_queue}

-- The rejection of one call that was held during the restart.
unfoldable pub fail_held : String → Message → Proxy → Proxy
fail_held why m p =
    if is_some m.id then send_error m.id (restart_failed why) (drop_tools_call_id m.id p) else p

unfoldable pub fail_all_held : String → List Message → Proxy → Proxy
fail_all_held why [] p = record p { pending_calls = [] }
fail_all_held why (m ∷ ms) p = fail_all_held why ms (fail_held why m p)

-- What becomes of the calls that were held.
unfoldable pub release_held : Config → Tools → ℕ → RestartResult → Proxy → Proxy
release_held c t now restarted p = flush_queue c t now p
release_held c t now (not_restarted why) p = fail_all_held why p.pending_calls p

unfoldable pub finish_with : Config → Tools → ℕ → RestartResult → Option RestartHold → Proxy → Proxy
finish_with c t now result none p = p
finish_with c t now result (some hold) p =
    release_held c t now result
      (emit (sent hold.hold_id (restart_answer result)) (record p { restart_hold = none }))

unfoldable pub finish_restart_hold : Config → Tools → ℕ → RestartResult → Proxy → Proxy
finish_restart_hold c t now result p = finish_with c t now result p.restart_hold p

-- What a round of the watch sees: the time, a shutdown, the probe's result, and whether the child's
-- client is connected or no signal of that is expected.
pub record Poll : Type 0 where
  pub at : ℕ
  pub shutdown : Bool
  pub answers : Bool
  pub connected : Bool

-- The phases: failures in a row while the old editor goes, the boot, and the client's return.
pub data Watch : Type 0 where
  going : ℕ → Watch
  booting reconnecting : Watch

-- The relaunched editor is up.
unfoldable pub mark_warm : ℕ → Proxy → Proxy
mark_warm now p = record p {
  warmth = record (p.warmth) { warm = true; warm_at = now; warm_editor_dead = false };
}

-- The watch's end, with its result, or its next phase.
pub data Outcome : Type 0 where
  ended : Bool → Outcome
  watching : Watch → Outcome

-- `!S.shutdownRequested && Date.now() < hold.deadline`
unfoldable pub goes_on : ℕ → Poll → Bool
goes_on deadline poll = not poll.shutdown && ltb poll.at deadline

unfoldable pub watch_phase : Watch → Poll → Outcome
watch_phase (going failures) poll =
    if poll.answers
    then watching (going 0)
    else if leb 2 (failures + 1)
    then watching booting
    else watching (going (failures + 1))
watch_phase booting poll = if poll.answers then watching reconnecting else watching booting
watch_phase reconnecting poll = if poll.connected then ended true else watching reconnecting

unfoldable pub watch_poll : ℕ → Watch → Poll → Outcome
watch_poll deadline w poll = if goes_on deadline poll then watch_phase w poll else ended false

-- The proxy after a round.
unfoldable pub note_poll : ℕ → Watch → Poll → Proxy → Proxy
note_poll deadline booting poll p =
    if goes_on deadline poll && poll.answers then mark_warm poll.at p else p
note_poll deadline (going n) poll p = p
note_poll deadline reconnecting poll p = p

-- The loops, from an outcome on: the result, if the rounds reach one, and the proxy.
unfoldable pub drive : ℕ → Outcome → List Poll → Proxy → Option Bool × Proxy
drive deadline (ended result) polls p = (some result, p)
drive deadline (watching w) [] p = (none, p)
drive deadline (watching w) (poll ∷ polls) p =
    drive deadline (watch_poll deadline w poll) polls (note_poll deadline w poll p)

-- `driveRestartRespawn`
unfoldable pub drive_restart_respawn : ℕ → List Poll → Proxy → Option Bool × Proxy
drive_restart_respawn deadline polls p = drive deadline (watching (going 0)) polls p
