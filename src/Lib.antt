-- ===== src/Lib.antt =====
-- The launcher proxy of godot-mcp (launch/*.mjs and launch/proxy/*.mjs) sits between an MCP client
-- and a child process that talks to a Godot editor. It starts the editor on the first call, holds
-- calls until the editor is warm, answers them with a diagnostic where it is not, and decides what
-- to do with an editor that another process holds. The MCP server (server/) talks to the editor's
-- addon over a socket; its connection and its injection of input are modelled too.
--
-- Files and the code that they model:
--   Json, Message   messages as JSON values, with the sets and maps keyed by a request id
--   State           launch/proxy/state.mjs: the one mutable state, in parts, with a trace of effects
--   Protocol        launch/proxy/protocol.mjs: forwardToNpx, flushNpxWriteBuffer, replayHandshake
--   Observe         launch/proxy/proxy-state.mjs: proxyCoarseState, the capped histories
--   Queue           launch/proxy/router.mjs: rejectQueue, dropToolsCallId
--   Spawn           launch/proxy/spawn.mjs: triggerEnsureEditor, handleSpawnFailure, giveUpAndRearm
--   Ensure          launch/proxy/spawn.mjs: ensureEditor, its lanes, the eviction and the scripts
--   Router          launch/proxy/router.mjs: handleClaudeMessage, flushQueue and their guards;
--                   the classification of calls in exec.mjs, screenshot.mjs, ui-inspect.mjs, restart.mjs
--   Takeover        launch/proxy/takeover.mjs: the wait for another session's editor
--   Restart         launch/proxy/restart.mjs: finishRestartHold, driveRestartRespawn
--   Forwarder       launch/proxy/npx.mjs, errors.mjs, tools-cache.mjs: the child, and its responses
--   Handoff         launch/see1338-handoff.mjs: decideHandoffAction, decideReuseSingleSource
--   Holder          launch/proxy/stale-proxy.mjs, launch/see1338-stale-takeover.mjs and the
--                   see1129 predicates: who holds the port, and whether it may be evicted
--   Lock            launch/proxy/state-file.mjs: acquireRuntimeLock, releaseRuntimeLock
--   Record          launch/proxy/state-file.mjs: readRuntimeState, writeRuntimeState, the probes of pids
--   Heal            launch/proxy/heal.mjs: runRecoveryRound
--   Warmup          launch/proxy/warmup.mjs: the ticks of the warmup loop and the way back into it
--   Recovery        launch/see1325-recovery.mjs: the decisions of a recovery round
--   Exec            launch/see1240-exec-constraints.mjs: precheckExecSource and its lexer
--   Drag            launch/see1240-ui-tools.mjs: expandDragEntry, expandDragInToolsCall, normalizeNodePath
--   LaunchConfig    launch/config-validate.mjs: validateLaunchConfig, and its command line
--   Worktree        launch/proxy/worktree.mjs: resolveWorktreeForSpawn
--   Shim            launch/godot-mcp-shim.mjs: the registration front, its chain and the handoff
--   Injection       server/src/tools/input.ts: the entries of an input sequence, their call and its time
--   Screenshot      launch/see1240-screenshot-contract.mjs: its verdict, and the enrichment
--   Stages          launch/warmup-stage-parser.mjs: the stages of a boot, read from its log
--   Wire            server/src/connection/protocol.ts: requests, responses and their schema
--   Connection      server/src/connection/websocket.ts: the state of a GodotConnection, its diagnostics
--   Bridge          server/src/connection/websocket.ts: its operations, handlers and steps
--   Timeouts        server/src/connection/timeouts.ts: the ladder of timeouts of a command
--   Samples         concrete values for the tests
--
-- An operation is a function on the state that also takes the options of launch/proxy/config.mjs
-- and the time at which it runs. What it does to the outside, a line written to the child, an answer,
-- a promise started, a record on disk, is an effect in the state's trace, newest first.
-- The numbers are natural numbers; where the source clamps a difference at 0 the subtraction is
-- the truncated one. The loop of `flushQueue` runs on fuel, the length of the queue, and that of
-- `driveRestartRespawn` on the list of the rounds that it sees; the warmup loop runs on its ticks.
-- The wait for a port runs on one round for each millisecond of its budget, and one more: each
-- sleep takes a millisecond at least.
--
-- The connection to the editor is driven by steps (Bridge.Steps): its own operations, the events of
-- its sockets in any order, and its timers. The socket library, `JSON.parse` and the environment are
-- its parameters (Connection.Env); an identifier of a request is one that no request had before.
-- An exception that nothing catches ends the process, and with it the run.
--
-- Not modelled: sockets, timers, processes and files, whose results are inputs; the texts of
-- diagnostics; the editor addon, which is GDScript, and the tools of the MCP server but for its
-- input, most of which only pass a command on to the editor; the generator of the docs; the shell
-- scripts, of which the model takes the exit codes and the output. The drag sugar and
-- the pre-check of a source are an interface of the router, `Router.Tools`, which Drag.Tools fills
-- from Drag and Exec. `Date.parse`, the arithmetic of numbers, the decoding of bytes and the
-- liveness of a process are parameters.
pub mod Base
pub mod Json
pub mod Message
pub mod State
pub mod Protocol
pub mod Observe
pub mod Queue
pub mod Spawn
pub mod Router
pub mod Takeover
pub mod Handoff
pub mod Holder
pub mod Lock
pub mod Restart
pub mod Heal
pub mod Recovery
pub mod Stages
pub mod Samples
pub mod Wire
pub mod Connection
pub mod Timeouts
pub mod Bridge
pub mod Warmup
pub mod Exec
pub mod Shim
pub mod Worktree
pub mod LaunchConfig
pub mod Drag
pub mod Forwarder
pub mod Record
pub mod Screenshot
pub mod Ensure
pub mod Injection
