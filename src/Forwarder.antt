-- ===== src/Forwarder.antt =====
-- launch/proxy/npx.mjs: the child process and the forwarder of its responses.
-- A line of the child is represented by the response that JSON.parse makes of it, and a forwarded
-- response stands for its line. A result is an object or null, as MCP's are. What the forwarder does
-- to the outside has a trace of its own, newest first, beside that of the proxy.
pub mod Errors
pub mod ToolsCache
pub mod Augment
pub mod Process
pub mod Lines
pub mod Answers
mod Chunks
mod Keeps
mod Restarts
mod Delivery
mod Tests
use godot_mcp.Base.{ℕ, String, Bool, Option, List, ◌∷◌}
use godot_mcp.Json.{Json, Items, Fields}
use godot_mcp.Message.{CallId}
use godot_mcp.State.{Proxy, Config, Capture}
use godot_mcp.Router.{Tools}
use godot_mcp.Record.{Conversions}

pub data Body : Type 0 where
  null_body : Body
  body : Fields → Body

pub record ChildResponse : Type 0 where
  pub id : Option CallId
  pub error : Option Json
  pub result : Option Body

pub data ChildLine : Type 0 where
  blank : ChildLine
  -- Not JSON.
  unparsed : String → ChildLine
  parsed : ChildResponse → ChildLine

pub data Output : Type 0 where
  forwarded : ChildResponse → Output
  verbatim : String → Output
  -- A waiter of an internal call, with what it is resolved with.
  waiter_resolved : CallId → ChildResponse → Output
  cache_written : Items → Output
  list_changed : Output
  restart_watched : Output
  child_spawned : Output
  -- `setTimeout(…, ms)` of the two respawns.
  cold_respawn_scheduled hot_respawn_scheduled : ℕ → Output
  exited : Output

-- The part of `S` that the child and its forwarder keep, with the proxy's.
pub record Child : Type 0 where
  pub proxy : Proxy
  pub npx_running : Bool
  pub cold_npx_restarts : ℕ
  pub hot_npx_restarts : ℕ
  -- The rest of the child's stderr after its last line feed.
  pub err_buf : List ℕ
  pub internal_exec_waiters : List CallId
  pub internal_exec_timers : List CallId
  pub tools_cache_refresh_in_flight : Bool
  pub tools_cache_refreshed_for_spawn : Bool
  pub tools_cache_waiters : List CallId
  pub warmup_just_completed : Bool
  pub lease_exit_detected : Bool
  pub outputs : List Output

-- A patch of a tool's description.
pub record DescriptionPatch : Type 0 where
  pub tool : String
  pub anchor : String
  pub replacement : String

-- Options, the texts that other parts make, and JavaScript's functions on texts.
pub record Settings : Type 0 where
  pub config : Config
  pub tools : Tools
  pub conversions : Conversions
  pub godot_host : String
  pub godot_port : String
  pub progress_on : Bool
  pub npx_restart_backoff_ms : ℕ
  pub hot_npx_restart_deadline_ms : ℕ
  -- `Buffer.toString`: the code units of the text of some bytes.
  pub decode : List ℕ → List ℕ
  pub includes : String → String → Bool
  pub replace_first : String → String → String → String
  pub ui_inspect_tool : Json
  pub description_patches : List DescriptionPatch
  pub exec_hints_for_text : String → String
  pub workdir_echo : String
  pub build_warmup_timeline : Proxy → String

-- One more output.
abbrev pub output : Output → Child → Child
output o k = record k { outputs = o ∷ k.outputs }

-- The proxy's part after a change.
abbrev pub with_proxy : Proxy → Child → Child
with_proxy p k = record k { proxy = p }
