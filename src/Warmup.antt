-- ===== src/Warmup.antt =====
-- launch/proxy/warmup.mjs: the warmup loop. Its state is the proxy with the fields of `S` that only
-- this loop writes and its own locals. What a tick reads from the clock, the probes and the child
-- is its input, and so is what the other handlers do to the proxy while the tick awaits.
pub mod Gates
pub mod Ticks
pub mod Rounds
mod Capped
mod Answered
mod Evidence
mod Liveness
mod Reentry
mod Tests
use godot_mcp.Base.{
  ℕ, String, ◌-◌, Bool, true, ◌&&◌, not, leb, Option, some, none, is_some, if◌then◌else◌,
}
use godot_mcp.State.{Proxy, Config}
use godot_mcp.Heal.{RoundInput}

-- The options of launch/proxy/config.mjs that only this loop reads.
pub record Settings : Type 0 where
  pub config : Config
  pub cold_warmup_timeout_ms : ℕ
  pub hot_warmup_timeout_ms : ℕ
  pub recovering_hard_cap_ms : ℕ
  pub warm_recovering_cli_timeout_ms : ℕ
  pub grace_race_guard_enabled : Bool
  pub grace_race_bind_ms : ℕ
  pub warm_liveness_enabled : Bool
  pub warm_liveness_failures : ℕ
  -- `KOL_PROGRESS_PROTOCOL !== 'off'`
  pub progress_on : Bool

pub record Loop : Type 0 where
  pub proxy : Proxy
  pub last_tcp_ok_at : ℕ
  pub recovering_entered_at : ℕ
  pub recovering_cli_unconnected_since : ℕ
  pub grace_race_guard_fired : Bool
  pub grace_race_respawn : Bool
  pub log_tail_available : Bool
  pub warmup_just_completed : Bool
  pub cold_mode : Bool
  pub warm_flushed : Bool
  -- How often the child was sent SIGTERM.
  pub npx_kills : ℕ

pub record Tick : Type 0 where
  pub now : ℕ
  -- The time after the wait in the warm branch.
  pub later : ℕ
  -- `cliConnectSignalExpected()`, `wsProbe()` and GODOT_MCP_HANDOFF_WARM.
  pub fork_lane : Bool
  pub probe_ok : Bool
  pub handoff_warm : Bool
  -- `S.npx && S.npxRunning && !S.npx.killed`
  pub npx_killable : Bool
  pub our_worktree : String
  pub round : RoundInput
  -- What others do to the proxy during the probe and during the wait.
  pub during_probe : Proxy → Proxy
  pub during_wait : Proxy → Proxy

-- A tick that goes on to the next, that breaks out of the loop, or that ends the process.
pub data Turn : Type 0 where
  goes leaves exits : Loop → Turn

infixl 5 ◌>>=◌
abbrev pub ◌>>=◌ : Turn → (Loop → Turn) → Turn
goes l >>= f = f l
leaves l >>= f = leaves l
exits l >>= f = exits l

abbrev pub loop_of : Turn → Loop
loop_of (goes l) = l
loop_of (leaves l) = l
loop_of (exits l) = l

-- `currentWarmupTimeout`
unfoldable pub current_warmup_timeout : Settings → Proxy → ℕ
current_warmup_timeout s p = elim (p.warmup_timeout_ms) [
  | some ms ↦ ms
  | none ↦ s.cold_warmup_timeout_ms
]

-- The warmup window is over, and recovery has not begun.
unfoldable pub is_timed_out : Settings → Tick → Loop → Bool
is_timed_out s k l =
    not l.proxy.recovering
    && leb (current_warmup_timeout s l.proxy) (k.now - l.proxy.spawn_started_at)

-- Recovery has lasted to its absolute cap.
unfoldable pub is_capped : Settings → Tick → Loop → Bool
is_capped s k l =
    l.proxy.recovering && leb s.recovering_hard_cap_ms (k.now - l.recovering_entered_at)

-- `S.stageTimestamps.WS_HANDSHAKE !== null && S.npxCliConnected`
unfoldable pub is_serving : Proxy → Bool
is_serving p = is_some p.stages.timestamps.at_ws_handshake && p.npx_cli_connected
