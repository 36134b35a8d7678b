-- ===== src/Shim/Client.antt =====
-- launch/godot-mcp-shim.mjs: the lines of the client, the end of its input, and the events of a run.
use godot_mcp.Base.{
  ℕ, String, true, not, ◌&&◌, Option, none, some, List, [], ◌∷◌, ◌++◌, is_some, str_eq,
  if◌then◌else◌,
}
use godot_mcp.Record.{File}
use godot_mcp.Shim.{
  ClientMessage, Frame, init_answered, pong_answered, tools_answered, to_chain, term_sent,
  kill_sent, Shim, Spawn, put, end_process, read_tools_cache,
}
use godot_mcp.Shim.Chain.{
  spawn_chain, on_rechain_timer, on_chain_error, on_chain_exit, on_chain_stderr, on_chain_stdout,
  trigger_handoff,
}

pub data ClientLine : Type 0 where
  blank unparsed null_message : ClientLine
  parsed : ClientMessage → ClientLine

unfoldable pub hold_and_trigger_handoff : Spawn → ClientMessage → Shim → Shim
hold_and_trigger_handoff w m s =
    let spawned = spawn_chain w s in
    if spawned.gone
    then spawned
    else let held = record spawned { held_inbound = spawned.held_inbound ++ m ∷ [] } in
      if held.handoff_triggered then held else trigger_handoff held

-- The dispatch by the method, before the handoff.
unfoldable pub dispatch_method : Spawn → File → Option String → ClientMessage → Shim → Shim
dispatch_method w cache none m s = if is_some m.id then hold_and_trigger_handoff w m s else s
dispatch_method w cache (some method) m s =
    if str_eq method "initialize"
    then put (init_answered m.id) s
    else if str_eq method "notifications/initialized"
    then s
    else if str_eq method "tools/list"
    then put (tools_answered m.id (read_tools_cache cache)) s
    else if str_eq method "ping"
    then put (pong_answered m.id) s
    else hold_and_trigger_handoff w m s

-- `chainProc?.stdin?.write(…)`
abbrev pass_on : ClientMessage → Shim → Shim
pass_on m s = if is_some s.chain_proc then put (to_chain m) s else s

-- `rl.on('line')`. Reading the method of null throws, and the process dies; after the handoff the
-- line itself is passed on, which null's is too.
unfoldable pub on_client_line : Spawn → File → ClientLine → Shim → Shim
on_client_line w cache blank s = s
on_client_line w cache unparsed s = s
on_client_line w cache null_message s =
    if s.handed_off then pass_on (record { id = none; method = none }) s else end_process 1 s
on_client_line w cache (parsed m) s =
    if s.handed_off then pass_on m s else dispatch_method w cache m.method m s

-- `rl.on('close')`, up to its wait for the chain's exit.
unfoldable pub on_input_closed : Shim → Shim
on_input_closed s =
    if is_some s.chain_proc && not s.handed_off
    then put term_sent (record s { exiting = true })
    else end_process 0 s

-- The end of that wait.
unfoldable pub on_grace_over : Shim → Shim
on_grace_over s =
    if s.exiting then end_process 0 (if is_some s.chain_proc then put kill_sent s else s) else s

pub data ShimEvent : Type 0 where
  client_line : Spawn → File → ClientLine → ShimEvent
  input_closed grace_over : ShimEvent
  chain_failed chain_exited : ℕ → ShimEvent
  chain_stderr : ℕ → List ℕ → ShimEvent
  chain_stdout : ℕ → Frame → ShimEvent
  rechain_fired : Spawn → ShimEvent

unfoldable pub handle_event : ℕ → ShimEvent → Shim → Shim
handle_event max (client_line w cache line) s = on_client_line w cache line s
handle_event max input_closed s = on_input_closed s
handle_event max grace_over s = on_grace_over s
handle_event max (chain_failed pid) s = on_chain_error max pid s
handle_event max (chain_exited pid) s = on_chain_exit max pid s
handle_event max (chain_stderr pid line) s = on_chain_stderr pid line s
handle_event max (chain_stdout pid f) s = on_chain_stdout pid f s
handle_event max (rechain_fired w) s = if s.rechain_timer then on_rechain_timer w s else s

-- A process that has ended takes no event.
unfoldable pub run_events : ℕ → List ShimEvent → Shim → Shim
run_events max [] s = s
run_events max (e ∷ es) s = run_events max es (if s.gone then s else handle_event max e s)
