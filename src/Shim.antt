-- ===== src/Shim.antt =====
-- launch/godot-mcp-shim.mjs: the registration front, which answers the client until the chain of
-- launcher and proxy is up, and then passes its lines on. The parts of an event that come from
-- outside, such as whether the launcher is on the disk, are its arguments. Log lines, the refresh
-- timer and the launcher's override of the tests are left out.
pub mod Chain
pub mod Client
mod Sound
mod Runs
mod Late
mod Tests
use godot_mcp.Base.{
  ℕ, ◌+◌, ◌-◌, String, Bool, true, false, not, ◌&&◌, ◌||◌, ◌==◌, Option, none, some, List, [], ◌∷◌,
  is_some, if◌then◌else◌,
}
use godot_mcp.Message.{CallId}
use godot_mcp.Json.{Json, Num, scaled, num, arr, Items, nil, cons, get}
use godot_mcp.Record.{File, holds}

pub data ChainState : Type 0 where
  worktree_wait proxy_warming chain_restarting chain_exhausted : ChainState

-- A message of the client; a method that is no text counts as one of an unknown name.
pub record ClientMessage : Type 0 where
  pub id : Option CallId
  pub method : Option String

-- A frame of the chain, by whether JSON.parse reads it.
pub record Frame : Type 0 where
  pub text : String
  pub is_json : Bool

pub data ShimOutput : Type 0 where
  init_answered pong_answered : Option CallId → ShimOutput
  -- With the cached list, or with the placeholders.
  tools_answered : Option CallId → Option Items → ShimOutput
  -- With the state and the attempts.
  transient_answered : CallId → ChainState → ℕ → ShimOutput
  -- A line for the chain, or a frame of the chain for the client.
  to_chain : ClientMessage → ShimOutput
  to_client : Frame → ShimOutput
  chain_spawned respawn_scheduled : ℕ → ShimOutput
  term_sent kill_sent : ShimOutput
  exited : ℕ → ShimOutput

pub record Shim : Type 0 where
  pub handed_off : Bool
  pub handoff_triggered : Bool
  pub chain_spawned_once : Bool
  -- The pid of `chainProc`.
  pub chain_proc : Option ℕ
  pub chain_stdout_open : Bool
  pub chain_execed : Bool
  pub chain_live : Bool
  pub chain_missing : Bool
  pub chain_state : ChainState
  pub held_inbound : List ClientMessage
  pub buffered_lines : List Frame
  pub rechain_attempts : ℕ
  pub rechain_timer : Bool
  pub exiting : Bool
  -- The process has ended.
  pub gone : Bool
  pub outputs : List ShimOutput

-- What a spawn meets: the verdict of the configuration, the launcher on the disk, and the new pid.
pub record Spawn : Type 0 where
  pub config_ok : Bool
  pub launcher_found : Bool
  pub pid : ℕ

abbrev pub put : ShimOutput → Shim → Shim
put o s = record s { outputs = o ∷ s.outputs }

-- `die(reason, code)` and `process.exit(code)`
abbrev pub end_process : ℕ → Shim → Shim
end_process code s = put (exited code) (record s { gone = true })

-- `readToolsCache`, but for its age: the list, where the file has the shape.
abbrev is_schema : Option Json → Bool
is_schema (some (num (scaled n k))) = n == 1 && k == 0
is_schema _ = false

unfoldable pub cached_tools : Option Json → Option Items
cached_tools (some (arr (cons t ts))) = some (cons t ts)
cached_tools _ = none

unfoldable pub read_tools_cache : File → Option Items
read_tools_cache (holds v) =
    if is_schema (get "schema" v) then cached_tools (get "tools" v) else none
read_tools_cache _ = none

-- The data of `transientErrorResponse`.
pub record Transient : Type 0 where
  pub state : ChainState
  pub retryable : Bool
  pub retry_after_s : ℕ
  pub rechain_attempt : ℕ

abbrev is_exhausted : ChainState → Bool
is_exhausted chain_exhausted = true
is_exhausted _ = false

abbrev is_warming : ChainState → Bool
is_warming proxy_warming = true
is_warming _ = false

unfoldable pub transient_error_response : Shim → Transient
transient_error_response s = record {
  state = s.chain_state;
  retryable = not (is_exhausted s.chain_state);
  retry_after_s = if is_warming s.chain_state then 1 else 5;
  rechain_attempt = s.rechain_attempts;
}
