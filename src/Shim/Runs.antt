-- ===== src/Shim/Runs.antt =====
-- The handoff and the client's lines keep what holds, and so does every run.
use godot_mcp.Base.{Option, none, some, String, ◌++◌, if◌then◌else◌}
use godot_mcp.Base.{refl, inl, inr, Bool-cases}
use godot_mcp.Base.{ℕ, ◌≡◌, true, List, [], ◌∷◌, arith}
use godot_mcp.Shim.{to_chain, to_client, Shim, Spawn, ClientMessage, Frame}
use godot_mcp.Shim.{put}
use godot_mcp.Record.{File}
use godot_mcp.Shim.Client.{
  hold_and_trigger_handoff, dispatch_method, ClientLine, blank, unparsed, null_message, parsed,
  on_client_line, on_input_closed, on_grace_over, ShimEvent, client_line, input_closed, grace_over,
  chain_failed, chain_exited, chain_stderr, chain_stdout, rechain_fired, handle_event, run_events,
}
use godot_mcp.Shim.Chain.{
  open_stdout, take_frame, on_chain_stdout, answer_message, answer_held, flush_held, drain_frames,
  is_proven, trigger_handoff, on_chain_stdout, spawn_chain,
}
use godot_mcp.Shim.Sound.{
  passed, respawns, IsSound, spawn_chain-IsSound, on_rechain_timer-IsSound, on_chain_error-IsSound,
  on_chain_exit-IsSound, on_chain_stderr-IsSound,
}

-- A state with the same chain and latches, and as many respawns.
record SameChain (s q : Shim) : Type 0 where
  same_live : q.chain_live ≡ s.chain_live
  same_proc : q.chain_proc ≡ s.chain_proc
  same_timer : q.rechain_timer ≡ s.rechain_timer
  same_started : q.chain_spawned_once ≡ s.chain_spawned_once
  same_trigger : q.handoff_triggered ≡ s.handoff_triggered
  same_handed : q.handed_off ≡ s.handed_off
  same_execed : q.chain_execed ≡ s.chain_execed
  same_open : q.chain_stdout_open ≡ s.chain_stdout_open
  same_attempts : q.rechain_attempts ≡ s.rechain_attempts
  same_respawns : respawns q.outputs ≡ respawns s.outputs

answer_held-SameChain :
    (ms : List ClientMessage) (s : Shim)
    → SameChain s (answer_held ms s) × (passed (answer_held ms s).outputs ≡ passed s.outputs)
unfolding answer_held answer_message passed respawns
answer_held-SameChain [] s = ground arith
answer_held-SameChain (m ∷ ms) s = ground (arith, answer_held-SameChain ms (answer_message m s))

flush_held-SameChain : (ms : List ClientMessage) (s : Shim) → SameChain s (flush_held ms s)
unfolding flush_held respawns
flush_held-SameChain [] s = ground arith
flush_held-SameChain (m ∷ ms) s = ground (arith, flush_held-SameChain ms (put (to_chain m) s))

drain_frames-SameChain : (fs : List Frame) (s : Shim) → SameChain s (drain_frames fs s)
unfolding drain_frames respawns
drain_frames-SameChain [] s = ground arith
drain_frames-SameChain (f ∷ fs) s = ground (arith, drain_frames-SameChain fs (put (to_client f) s))

module _ (max : ℕ) where
  answered-IsSound :
      (s q : Shim)
      → SameChain s q
      → passed q.outputs ≡ passed s.outputs
      → IsSound max s
      → IsSound max q
  answered-IsSound s q same p i = ground arith

  handed-IsSound :
      (s q : Shim) → s.handed_off ≡ true → SameChain s q → IsSound max s → IsSound max q
  handed-IsSound s q h same i = ground arith

  latch-IsSound :
      (s : Shim)
      → is_proven s ≡ true
      → IsSound max s
      → IsSound max (record s { handoff_triggered = true; handed_off = true })
  unfolding is_proven
  latch-IsSound s p i = ground arith

  trigger_handoff-IsSound : (s : Shim) → IsSound max s → IsSound max (trigger_handoff s)
  unfolding trigger_handoff
  trigger_handoff-IsSound s i = elim (Bool-cases s.handoff_triggered) [
    | inl done ↦ ground arith
    | inr first ↦ elim (Bool-cases (is_proven s)) [
      | inr unproven ↦ ground (
        arith,
        answered-IsSound s (answer_held s.held_inbound s) (answer_held-SameChain s.held_inbound s).0
            (answer_held-SameChain s.held_inbound s).1 i,
      )
      | inl sure ↦
          let latched = record s { handoff_triggered = true; handed_off = true } in
          let flushed = flush_held s.held_inbound latched in
          ground (
            arith,
            handed-IsSound flushed (drain_frames s.buffered_lines flushed)
                (flush_held-SameChain s.held_inbound latched).same_handed
                (drain_frames-SameChain s.buffered_lines flushed)
                (handed-IsSound latched flushed refl (flush_held-SameChain s.held_inbound latched)
                  (latch-IsSound s sure i)),
          )
    ]
  ]

  held-IsSound :
      (ms : List ClientMessage) (s : Shim)
      → IsSound max s
      → IsSound max (record s { held_inbound = ms })
  held-IsSound ms s i = ground arith

  buffered-IsSound :
      (fs : List Frame) (s : Shim) → IsSound max s → IsSound max (record s { buffered_lines = fs })
  buffered-IsSound fs s i = ground arith

  open_stdout-IsSound : (s : Shim) → IsSound max s → IsSound max (open_stdout s)
  open_stdout-IsSound s i = ground arith

  take_frame-IsSound : (f : Frame) (s : Shim) → IsSound max s → IsSound max (take_frame f s)
  unfolding take_frame passed respawns
  take_frame-IsSound f s i =
      let buffered = record s { buffered_lines = s.buffered_lines ++ f ∷ [] } in
      let b = buffered-IsSound (s.buffered_lines ++ f ∷ []) s i in
      ground (arith, b, trigger_handoff-IsSound buffered b)

  on_chain_stdout-IsSound :
      (pid : ℕ) (f : Frame) (s : Shim) → IsSound max s → IsSound max (on_chain_stdout pid f s)
  unfolding on_chain_stdout
  on_chain_stdout-IsSound pid f s i =
      ground (arith, take_frame-IsSound f (open_stdout s) (open_stdout-IsSound s i))

  hold-IsSound :
      (w : Spawn) (m : ClientMessage) (s : Shim)
      → IsSound max s
      → IsSound max (hold_and_trigger_handoff w m s)
  unfolding hold_and_trigger_handoff
  hold-IsSound w m s i =
      let spawned = spawn_chain w s in
      let held = record spawned { held_inbound = spawned.held_inbound ++ m ∷ [] } in
      let j = spawn_chain-IsSound max w s i in
      let h = held-IsSound (spawned.held_inbound ++ m ∷ []) spawned j in
      ground (arith, j, h, trigger_handoff-IsSound held h)

  dispatch-IsSound :
      (w : Spawn) (cache : File) (method : Option String) (m : ClientMessage) (s : Shim)
      → IsSound max s
      → IsSound max (dispatch_method w cache method m s)
  unfolding dispatch_method passed respawns
  dispatch-IsSound w cache none m s i = ground (arith, hold-IsSound w m s i)
  dispatch-IsSound w cache (some method) m s i = ground (arith, hold-IsSound w m s i)

  client-IsSound :
      (w : Spawn) (cache : File) (line : ClientLine) (s : Shim)
      → IsSound max s
      → IsSound max (on_client_line w cache line s)
  unfolding on_client_line passed respawns
  client-IsSound w cache blank s i = i
  client-IsSound w cache unparsed s i = i
  client-IsSound w cache null_message s i = ground arith
  client-IsSound w cache (parsed m) s i = ground (arith, dispatch-IsSound w cache m.method m s i)

  closed-IsSound :
      (s : Shim) → IsSound max s → IsSound max (on_input_closed s) × IsSound max (on_grace_over s)
  unfolding on_input_closed on_grace_over passed respawns
  closed-IsSound s i = ground arith

  handle_event-IsSound :
      (e : ShimEvent) (s : Shim) → IsSound max s → IsSound max (handle_event max e s)
  unfolding handle_event
  handle_event-IsSound (client_line w cache line) s i = client-IsSound w cache line s i
  handle_event-IsSound input_closed s i = (closed-IsSound s i).0
  handle_event-IsSound grace_over s i = (closed-IsSound s i).1
  handle_event-IsSound (chain_failed pid) s i = on_chain_error-IsSound max pid s i
  handle_event-IsSound (chain_exited pid) s i = on_chain_exit-IsSound max pid s i
  handle_event-IsSound (chain_stderr pid line) s i = on_chain_stderr-IsSound max pid line s i
  handle_event-IsSound (chain_stdout pid f) s i = on_chain_stdout-IsSound pid f s i
  handle_event-IsSound (rechain_fired w) s i = elim (Bool-cases s.rechain_timer) [
    | inl set ↦ ground (arith, on_rechain_timer-IsSound max w s set i)
    | inr unset ↦ ground arith
  ]

  guarded-IsSound :
      (e : ShimEvent) (s : Shim)
      → IsSound max s
      → IsSound max (if s.gone then s else handle_event max e s)
  guarded-IsSound e s i = ground (arith, handle_event-IsSound e s i)

  -- From a state that is sound, such as the one after the first spawn, every run of lines of the
  -- client, deaths, lines and timers of the chain leads to a sound one: what is handed off has the
  -- proof that the proxy runs, and before the handoff no line has gone to the chain and no frame to
  -- the client; a chain that counts as live has a process; a timer waits only without a live chain
  -- and before the handoff; and the respawns are as many as the attempts, up to the budget.
  pub run_events-IsSound :
      (es : List ShimEvent) (s : Shim) → IsSound max s → IsSound max (run_events max es s)
  unfolding run_events
  run_events-IsSound [] s i = i
  run_events-IsSound (e ∷ es) s i =
      run_events-IsSound es (if s.gone then s else handle_event max e s) (guarded-IsSound e s i)
