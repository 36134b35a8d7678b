-- ===== src/State.antt =====
-- launch/proxy/state.mjs: the proxy's one mutable state `S`, in parts, with a trace of what the
-- proxy has done to the outside, newest first. Timers, caches of paths and log throttles are left out.
use godot_mcp.Base.{ℕ, String, Bool, Option, List, ◌∷◌}
use godot_mcp.Json.{Json}
use godot_mcp.Message.{CallId, Message}
use godot_mcp.Stages.{StageState}

-- The options of launch/proxy/config.mjs that the modelled operations read.
pub record Config : Type 0 where
  pub runtime_id : String
  pub editor_log_file : String
  pub giveup_rearm_enabled : Bool
  pub giveup_base_cooldown_ms : ℕ
  pub giveup_max_cooldown_ms : ℕ
  pub spawn_max_attempts : ℕ
  pub spawn_retry_backoff_ms : ℕ
  pub restart_hold_timeout_ms : ℕ
  pub takeover_timeout_ms : ℕ
  pub takeover_retry_ms : ℕ
  pub takeover_self_heal_enabled : Bool
  pub takeover_self_heal_threshold : ℕ
  pub failed_exit_ms : ℕ

-- The child process and its transport.
pub record Npx : Type 0 where
  -- `S.npx && S.npx.stdin && !S.npx.stdin.destroyed`
  pub npx_open : Bool
  pub npx_stdin_ready : Bool
  pub npx_write_buffer : List Message
  pub npx_transport_ready : Bool
  pub npx_cli_connected : Bool
  pub npx_ready_dropped : Bool
  pub pending_handshake : List (CallId × Message)

-- What the capture contract keeps of a screenshot call.
pub record Capture : Type 0 where
  pub forwarded_at_ms : ℕ
  pub auto_step_requested : Bool
  pub request_args : Option Json

-- The trackers of calls that await a response.
pub record Calls : Type 0 where
  pub screenshot_call_ids : List CallId
  pub screenshot_contract : List (CallId × Capture)
  pub ui_inspect_call_ids : List CallId
  pub exec_call_ids : List CallId
  pub get_info_call_ids : List CallId
  pub tools_call_ids : List CallId
  pub tools_call_lines : List (CallId × Message)
  pub pending_auto_step_calls : List (CallId × Message)
  pub first_call_progress_token : Option Json
  pub last_mutation_at_ms : ℕ
  pub last_frame_advance_at_ms : ℕ

-- A SpawnError: its bucket and its message.
pub record SpawnError : Type 0 where
  pub bucket : String
  pub detail : String

pub record Spawning : Type 0 where
  pub spawn_triggered : Bool
  pub spawn_in_flight : Bool
  pub spawn_attempts : ℕ
  pub spawn_failed_bucket : Option String
  pub spawn_failed_streak : ℕ
  pub spawn_backoff_until : ℕ
  pub force_restart_count : ℕ
  pub spawn_started_at : ℕ
  pub spawn_terminal : Bool
  pub give_up_count : ℕ
  pub give_up_armed_at : ℕ
  pub give_up_backoff_ms : ℕ
  pub give_up_last_reason : Option SpawnError
  pub spawn_last_failed : Bool
  pub spawn_last_error : Option SpawnError
  pub last_spawn_reused : Bool
  pub stale_takeover_in_flight : Bool

pub record Warmth : Type 0 where
  pub warm : Bool
  pub warmup_timed_out : Bool
  pub recovering : Bool
  pub render_stable : Bool
  pub warmup_timeout_ms : Option ℕ
  pub warm_at : ℕ
  pub warm_editor_dead : Bool
  pub warm_respawn_in_flight : Bool
  pub warm_probe_failures : ℕ
  pub bind_evidence_hold_active : Bool
  pub bind_evidence_hold_used : Bool
  pub first_probe_ok_at : ℕ
  pub recovery_round : ℕ
  pub recovery_window_start : Option ℕ

pub data HoldPhase : Type 0 where
  ack_pending waiting : HoldPhase

-- The held restart call; `S.restartHold === hold` is kept by clearing the field.
pub record RestartHold : Type 0 where
  pub hold_id : Option CallId
  pub phase : HoldPhase
  pub deadline : ℕ

pub data RestartResult : Type 0 where
  restarted : RestartResult
  not_restarted : String → RestartResult

-- Why a call is answered with an error, with the numbers that the answer carries.
pub data Failure : Type 0 where
  drag_malformed : String → Failure
  exec_rejected : String → Failure
  spawn_given_up : Option String → Failure
  give_up_cooldown : ℕ → ℕ → Failure
  spawn_backoff : ℕ → Failure
  spawn_failed : Option SpawnError → Failure
  still_recovering : Failure
  warmup_timeout : Failure
  queue_rejected : String → Failure
  restart_failed : String → Failure
  takeover_timeout : Failure

-- An answer to the client; notifications are left out.
pub data Answer : Type 0 where
  error_answer : Failure → Answer
  exec_digest : Answer
  respawn_hint : Answer
  restart_answer : RestartResult → Answer

pub data Effect : Type 0 where
  -- A line written to the child's stdin, or dropped because there is no child.
  written : Message → Effect
  dropped : Message → Effect
  -- `sendToClaude`
  sent : Option CallId → Answer → Effect
  -- Promises that the handler starts.
  ensure_started : Effect
  ui_inspect_started : Message → Effect
  auto_step_started : CallId → Effect
  evict_started : Effect
  self_heal_started : Effect
  -- `evictStaleHolder`, with the worktree that it is given.
  holder_evicted : String → Effect
  -- Records on disk: the runtime state with its event, and the give-up status.
  state_recorded : String → Option String → Effect
  give_up_persisted : String → Effect
  shutdown_started : Effect

-- A call's summary in the proxy's snapshot.
pub data SummaryKind : Type 0 where
  held rejected : SummaryKind

pub record Transition : Type 0 where
  pub trigger : String
  pub state : String

-- The timer's handle outlives its firing; `timer_pending` tells whether it is still to fire.
pub record Takeover : Type 0 where
  pub takeover_deadline : ℕ
  pub waiters : List CallId
  pub probe_id : Option CallId
  pub probe_at : ℕ
  pub timer_set : Bool
  pub timer_pending : Bool

pub record Proxy : Type 0 where
  pub started_at : ℕ
  pub shutdown_requested : Bool
  pub pending_calls : List Message
  pub npx : Npx
  pub open npx use *
  pub calls : Calls
  pub open calls use *
  pub spawning : Spawning
  pub open spawning use *
  pub warmth : Warmth
  pub open warmth use *
  pub stages : StageState
  pub restart_hold : Option RestartHold
  pub takeover : Option Takeover
  pub takeover_fail_streak : ℕ
  pub takeover_self_heal_in_flight : Bool
  pub last_transitions : List Transition
  pub recent_proxy_calls : List (SummaryKind × Message)
  pub effects : List Effect

-- One more effect.
abbrev pub emit : Effect → Proxy → Proxy
emit e p = record p { effects = e ∷ p.effects }
