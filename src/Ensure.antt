-- ===== src/Ensure.antt =====
-- launch/proxy/spawn.mjs: the chain that ensures an editor, from the probe of the port to the start.
-- What a call waits for is answered by the world, which sees all that was done before: the history,
-- newest first. The helper scripts are runs in it, with their arguments and exit codes; the stage
-- lines of the log and the texts of the errors are left out, and a missing path is the empty text.
pub mod Scripts
pub mod Lanes
mod Counts
mod Spared
mod Waits
mod Started
mod Prepared
mod Leases
mod Settles
mod Tests
use godot_mcp.Base.{
  ℕ, String, Bool, true, false, not, ◌&&◌, ◌||◌, ◌==◌, Option, List, [], ◌∷◌, ◌++◌, codes,
  non_empty, str_eq, has_prefix, if◌then◌else◌,
}

pub data Helper : Type 0 where
  configure_sh start_sh stop_sh reap_sh prepare_sh : Helper

-- The exit code of a script, or -1 where there is none.
pub data Rc : Type 0 where
  code : ℕ → Rc
  no_code : Rc

abbrev pub succeeded : Rc → Bool
succeeded (code n) = n == 0
succeeded no_code = false

pub data Action : Type 0 where
  probed : Bool → Action
  slept arbitrated lease_read holder_read agent_read : Action
  resolved : String → Action
  ran : Helper → List String → Rc → Action
  -- `persistSpawnStderr`
  persisted : Helper → Action
  -- `writeRuntimeState`, with the attempts.
  warming_recorded : ℕ → Action

abbrev pub History : Type 0
History = List Action

-- A record on disk that is valid, with what the probes of its pids say.
pub record Recorded : Type 0 where
  pub state : String
  pub port : String
  pub worktree : String
  pub holder_alive : Bool
  -- `none` where the record has no pid of an editor, or the probe no verdict.
  pub editor_alive : Option Bool

-- `lease.state` and `String(lease.port)`
pub record Lease : Type 0 where
  pub state : String
  pub port : String

pub record World : Type 0 where
  pub now : History → ℕ
  -- `tcpProbe`
  pub answers : History → Bool
  pub record_of : History → Option Recorded
  -- What the arbiter prints, trimmed; `none` where it fails.
  pub arbiter_prints : History → Option String
  pub worktree_of : History → String
  -- `readHolderWorktree` and `readHolderAgent`
  pub holder_worktree_of : History → String
  pub holder_agent_of : History → String
  pub cli_connected : History → Bool
  pub lease_of : String → History → Option Lease
  pub run_of : Helper → List String → History → Rc
  -- Whether the script printed to stderr.
  pub has_stderr : Helper → History → Bool

pub record Settings : Type 0 where
  pub runtime_id : String
  pub port : String
  pub agent_name : String
  pub shared_master : String
  pub arbiter_enabled : Bool
  pub respawn_window_ms : ℕ
  pub takeover_timeout_ms : ℕ
  -- `resolveHelper`
  pub path_of : Helper → String

unfoldable pub is_shared_master : Settings → String → Bool
is_shared_master c worktree =
    if not (non_empty worktree) || not (non_empty c.shared_master)
    then false
    else str_eq worktree c.shared_master
      || has_prefix (codes c.shared_master ++ codes "/") (codes worktree)

pub data PinStatus : Type 0 where
  pinned pin_failed pin_skipped : PinStatus

pub data Outcome : Type 0 where
  -- With the flag `staleHandoff`, the worktree, and what became of the port pin.
  reused : Bool → String → PinStatus → Outcome
  spawned : String → Outcome
  -- A SpawnError, with its bucket.
  failed : String → Outcome

pub record Ending : Type 0 where
  pub outcome : Outcome
  pub history : History
