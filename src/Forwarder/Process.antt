-- ===== src/Forwarder/Process.antt =====
-- launch/proxy/npx.mjs: the start, the streams and the exit of the child. A child that has started
-- has an open pipe; whether the pipe is writable at once is an input, and so is each identifier.
use godot_mcp.Base.{
  ℕ, String, ◌+◌, ◌-◌, ◌*◌, Bool, true, false, not, ◌&&◌, ◌||◌, List, [], ◌∷◌, ◌++◌, ltb, min, ◌==◌,
  codes, contains, if◌then◌else◌,
}
use godot_mcp.State.{queue_rejected}
use godot_mcp.Protocol.{replay_handshake, flush_npx_write_buffer}
use godot_mcp.Queue.{reject_queue}
use godot_mcp.Router.Flush.{mark_npx_transport_ready}
use godot_mcp.Forwarder.{
  Child, Settings, child_spawned, cold_respawn_scheduled, hot_respawn_scheduled, exited, output,
  with_proxy,
}
use godot_mcp.Forwarder.ToolsCache.{maybe_refresh_tools_cache}

abbrev stdin_ready : Bool → Child → Child
stdin_ready b k =
    with_proxy (record (k.proxy) { npx = record (k.proxy.npx) { npx_stdin_ready = b } }) k

abbrev cli_connected : Bool → Child → Child
cli_connected b k =
    with_proxy (record (k.proxy) { npx = record (k.proxy.npx) { npx_cli_connected = b } }) k

-- `S.npxStdinReady = true; markNpxTransportReady()`
unfoldable pub open_transport : Settings → ℕ → Child → Child
open_transport s now k =
    let ready = stdin_ready true k in
    with_proxy (mark_npx_transport_ready s.config s.tools now ready.proxy) ready

-- The fields of a new child.
unfoldable pub spawn_child : Child → Child
spawn_child k = output child_spawned (record k {
  npx_running = true;
  tools_cache_refreshed_for_spawn = false;
  err_buf = [];
  proxy = record (k.proxy) {
    npx = record (k.proxy.npx) { npx_open = true; npx_cli_connected = false };
  };
})

-- `startNpx`
unfoldable pub start_npx : Settings → ℕ → Bool → Child → Child
start_npx s now writable k =
    let started = spawn_child k in if writable then open_transport s now started else started

-- `stdin.on('error')` and `stdin.on('finish')`
unfoldable pub on_stdin_closed : Child → Child
on_stdin_closed k = stdin_ready false k

abbrev flushed : Child → Child
flushed k = with_proxy (flush_npx_write_buffer k.proxy) k

unfoldable pub on_stdin_open : Settings → ℕ → Child → Child
on_stdin_open s now k = flushed (open_transport s now k)

unfoldable pub on_stdin_drain : Settings → ℕ → Child → Child
on_stdin_drain s now k = flushed (if not k.proxy.npx_stdin_ready then open_transport s now k else k)

-- `npx.on('error')`
unfoldable pub on_spawn_error : Child → Child
on_spawn_error k = record k { npx_running = false }

-- A line of the child's stderr.
unfoldable pub note_stderr_line : String → List ℕ → Child → Child
note_stderr_line internal_id line k =
    if contains (codes "Connected to Godot") line
    then maybe_refresh_tools_cache internal_id (cli_connected true k)
    else if contains (codes "Disconnected from Godot") line
        || contains (codes "Reconnecting to Godot") line
    then cli_connected false k
    else k

-- `errBuf.slice(0, idx)` and `errBuf.slice(idx + 1)` for each line feed: the lines, and the rest.
abbrev pub add_unit : ℕ → List (List ℕ) × List ℕ → List (List ℕ) × List ℕ
add_unit c ([], rest) = ([], c ∷ rest)
add_unit c (line ∷ lines, rest) = ((c ∷ line) ∷ lines, rest)

unfoldable pub split_lines : List ℕ → List (List ℕ) × List ℕ
split_lines [] = ([], [])
split_lines (c ∷ cs) =
    let later = split_lines cs in if c == 10 then ([] ∷ later.0, later.1) else add_unit c later

unfoldable pub note_stderr_lines : String → List (List ℕ) → Child → Child
note_stderr_lines internal_id [] k = k
note_stderr_lines internal_id (line ∷ lines) k =
    note_stderr_lines internal_id lines (note_stderr_line internal_id line k)

-- `stderr.on('data')`: the bytes of each chunk are decoded on their own. A chunk starts one refresh
-- of the tools cache at most, so that one identifier is enough.
unfoldable pub on_stderr : Settings → String → List ℕ → Child → Child
on_stderr s internal_id chunk k =
    let cut = split_lines (k.err_buf ++ s.decode chunk) in
    note_stderr_lines internal_id cut.0 (record k { err_buf = cut.1 })

-- The state of an exited child.
unfoldable pub close_child : Child → Child
close_child k = record k {
  npx_running = false;
  proxy = record (k.proxy) {
    npx = record (k.proxy.npx) {
      npx_stdin_ready = false;
      npx_transport_ready = false;
      npx_write_buffer = [];
    };
  };
}

-- The backoff of a respawn during the warmup.
unfoldable pub cold_backoff_ms : Settings → ℕ → ℕ
cold_backoff_ms s restarts = s.npx_restart_backoff_ms * min restarts 5

unfoldable pub respawn_cold : Settings → Child → Child
respawn_cold s k =
    output (cold_respawn_scheduled (cold_backoff_ms s (k.cold_npx_restarts + 1)))
      (record k { cold_npx_restarts = k.cold_npx_restarts + 1 })

-- `rejectQueue(…); process.exit(…)`
unfoldable pub give_up : String → Child → Child
give_up why k = output exited (with_proxy (reject_queue (queue_rejected why) k.proxy) k)

unfoldable pub respawn_hot : Settings → ℕ → Child → Child
respawn_hot s now k =
    if ltb k.hot_npx_restarts 3 && ltb (now - k.proxy.warm_at) s.hot_npx_restart_deadline_ms
    then output (hot_respawn_scheduled s.npx_restart_backoff_ms)
        (record k { hot_npx_restarts = k.hot_npx_restarts + 1 })
    else give_up "npx process exited after editor became warm" k

-- `npx.on('exit')`
unfoldable pub on_exit : Settings → ℕ → Child → Child
on_exit s now k =
    let closed = close_child k in
    if not k.proxy.warm && not k.proxy.warmup_timed_out && not k.proxy.shutdown_requested
    then respawn_cold s closed
    else if k.proxy.warm && not k.proxy.shutdown_requested
    then respawn_hot s now closed
    else give_up "npx process exited before editor became warm" closed

-- The timer of a respawn during the warmup.
unfoldable pub on_cold_timer : Settings → ℕ → Bool → Child → Child
on_cold_timer s now writable k =
    if k.proxy.warm || k.proxy.warmup_timed_out || k.proxy.shutdown_requested
    then k
    else let started = start_npx s now writable k in
      with_proxy (replay_handshake started.proxy) started

-- The timer of a hot restart.
unfoldable pub on_hot_timer : Settings → ℕ → Bool → Child → Child
on_hot_timer s now writable k = if k.proxy.shutdown_requested then k else start_npx s now writable k
