-- ===== src/Stages/Reached.antt =====
-- What the state of a boot's log says of the boot.
use godot_mcp.Base.{
  [], ◌∷◌, ◌<◌, ◌-◌, ◌↔◌, ◌⊎◌, ℕ, zero, suc, ◌≤◌, ◌≡◌, Bool, true, none, List, ◌||◌, is_some, arith,
  some, Option, ◌∷◌, Option-cases, inl, inr,
}
use godot_mcp.Stages.{
  StageState, plugin_init, server_listening, ws_handshake, ordinal, note_bind, note_stage, note_tcp,
  handshake_substate, scan_lines, reset_generation, handshake_pending_ms, create_stage_state,
  scan_stage_lines, handshake_stall_threshold_ms, count_lines, stalled, tcp_line, handshake_line,
  listening_line, plugin_line,
}

-- The stage is no less than any milestone seen, a connection is counted only with its time, and a
-- stage past the connection has seen the connection or the handshake.
pub record IsObserved (s : StageState) : Type 0 where
  pub counted : s.timestamps.at_tcp_connected ≡ none → s.tcp_received_count ≡ 0
  pub plugged : is_some s.timestamps.at_plugin_init ≡ true → 2 ≤ ordinal s.stage
  pub listening : is_some s.timestamps.at_server_listening ≡ true → 3 ≤ ordinal s.stage
  pub received : is_some s.timestamps.at_tcp_connected ≡ true → 4 ≤ ordinal s.stage
  pub shaken : is_some s.timestamps.at_ws_handshake ≡ true → 5 ≤ ordinal s.stage
  pub connected :
      4 ≤ ordinal s.stage
      → (is_some s.timestamps.at_tcp_connected || is_some s.timestamps.at_ws_handshake) ≡ true

note_bind-IsObserved :
    (ls : List (List ℕ)) (s : StageState) → IsObserved s → IsObserved (note_bind ls s)
unfolding note_bind
note_bind-IsObserved ls s h = ground arith

note_plugin-IsObserved :
    (p : List ℕ → Bool) (now : ℕ) (ls : List (List ℕ)) (s : StageState)
    → IsObserved s
    → IsObserved (note_stage plugin_init p now ls s)
unfolding note_stage
note_plugin-IsObserved p now ls s h = ground arith

note_listening-IsObserved :
    (p : List ℕ → Bool) (now : ℕ) (ls : List (List ℕ)) (s : StageState)
    → IsObserved s
    → IsObserved (note_stage server_listening p now ls s)
unfolding note_stage
note_listening-IsObserved p now ls s h = ground arith

note_handshake-IsObserved :
    (p : List ℕ → Bool) (now : ℕ) (ls : List (List ℕ)) (s : StageState)
    → IsObserved s
    → IsObserved (note_stage ws_handshake p now ls s)
unfolding note_stage
note_handshake-IsObserved p now ls s h = ground arith

note_tcp-IsObserved : (now n : ℕ) (s : StageState) → IsObserved s → IsObserved (note_tcp now n s)
unfolding note_tcp
note_tcp-IsObserved now zero s h = h
note_tcp-IsObserved now (suc n) s h = ground arith

scan_lines-IsObserved :
    (s : StageState) (ls : List (List ℕ)) (now : ℕ)
    → IsObserved s
    → IsObserved (scan_lines s ls now)
unfolding scan_lines
scan_lines-IsObserved s ls now h = note_tcp-IsObserved now (count_lines tcp_line ls) _ (
    note_handshake-IsObserved handshake_line now ls _ (
      note_listening-IsObserved listening_line now ls _
        (note_plugin-IsObserved plugin_line now ls _ (note_bind-IsObserved ls s h))))

-- The states of a boot's log: fresh ones, generation resets, and scans.
pub data Reached : StageState → Type 0 where
  created : (started_at : Option ℕ) → Reached (create_stage_state started_at)
  renewed : (s : StageState) → Reached (reset_generation s)
  scanned :
      (s : StageState) (slice : List ℕ) (now : ℕ)
      → Reached s
      → Reached (scan_stage_lines s slice now)

scan_stage_lines-IsObserved :
    (s : StageState) (slice : List ℕ) (now : ℕ)
    → IsObserved s
    → IsObserved (scan_stage_lines s slice now)
unfolding scan_stage_lines
scan_stage_lines-IsObserved s [] now h = h
scan_stage_lines-IsObserved s (c ∷ slice) now h = scan_lines-IsObserved s _ now h

create-IsObserved : (started_at : Option ℕ) → IsObserved (create_stage_state started_at)
unfolding create_stage_state
create-IsObserved started_at = ground arith

reset-IsObserved : (s : StageState) → IsObserved (reset_generation s)
unfolding reset_generation
reset-IsObserved s = ground arith

-- Every state that scans and generation resets reach has a stage no less than its milestones, counts
-- connections only with the time of the first, and is past the connection only if it has seen the
-- connection or the handshake.
pub Reached-IsObserved : {s : StageState} → Reached s → IsObserved s
Reached-IsObserved (created started_at) = create-IsObserved started_at
Reached-IsObserved (renewed s) = reset-IsObserved s
Reached-IsObserved (scanned s slice now r) =
    scan_stage_lines-IsObserved s slice now (Reached-IsObserved r)

-- The two fingerprints of a handshake that does not come.
abbrev pub IsStalled : StageState → ℕ → Type 0
IsStalled s now =
    (s.timestamps.at_ws_handshake ≡ none)
    × ((t : ℕ) × (s.timestamps.at_tcp_connected ≡ some t)
        × ((1 < s.tcp_received_count) ⊎ (handshake_stall_threshold_ms < now - t)))

stalled_to :
    (s : StageState) (now : ℕ) → IsObserved s → handshake_substate s now ≡ stalled → IsStalled s now
unfolding handshake_substate
stalled_to s now h e = elim (Option-cases s.timestamps.at_tcp_connected) [
  | inl no_time ↦ absurd (ground arith)
  | inr (t, at) ↦ (ground arith, (t, at, ground arith))
]

stalled_from :
    (s : StageState) (now : ℕ) → IsObserved s → IsStalled s now → handshake_substate s now ≡ stalled
unfolding handshake_substate
stalled_from s now h (unshaken, (t, at, late)) = ground arith

-- In a state that the log has reached, the handshake is called stalled exactly when no handshake has
-- been seen, a connection has, and either a second connection came or the threshold has passed.
pub stalled_iff :
    (s : StageState) (now : ℕ) → Reached s → (handshake_substate s now ≡ stalled) ↔ IsStalled s now
stalled_iff s now r =
    (stalled_to s now (Reached-IsObserved r), stalled_from s now (Reached-IsObserved r))

-- A stage past the connection, set while neither the connection nor the handshake was seen in the
-- log, has a pending time equal to the clock itself.
pub handshake_pending_unobserved :
    (s : StageState) (now : ℕ)
    → 4 ≤ ordinal s.stage
    → s.timestamps.at_tcp_connected ≡ none
    → s.timestamps.at_ws_handshake ≡ none
    → handshake_pending_ms s now ≡ now
unfolding handshake_pending_ms
handshake_pending_unobserved s now h t w = ground arith
