-- ===== src/Samples.antt =====
-- Concrete values for the tests: a proxy that has just started, and its calls.
use godot_mcp.Base.{sym, ap, ◌≡◌, some, String, true, false, none, some, []}
use godot_mcp.Json.{obj, field, end, str}
use godot_mcp.Message.{CallId, Message, text}
use godot_mcp.Stages.{no_times, launcher_exec}
use godot_mcp.State.{Proxy, Config}
use godot_mcp.Router.{Tools, Expanded, malformed, expanded}

abbrev pub config : Config
config = record {
  runtime_id = "rt";
  editor_log_file = "";
  giveup_rearm_enabled = true;
  giveup_base_cooldown_ms = 60000;
  giveup_max_cooldown_ms = 300000;
  spawn_max_attempts = 3;
  spawn_retry_backoff_ms = 5000;
  restart_hold_timeout_ms = 120000;
  takeover_timeout_ms = 60000;
  takeover_retry_ms = 2000;
  takeover_self_heal_enabled = true;
  takeover_self_heal_threshold = 2;
  failed_exit_ms = 280000;
}

abbrev pub fresh : Proxy
fresh = record {
  started_at = 1;
  shutdown_requested = false;
  pending_calls = [];
  npx = record {
    npx_open = true;
    npx_stdin_ready = true;
    npx_write_buffer = [];
    npx_transport_ready = false;
    npx_cli_connected = false;
    npx_ready_dropped = false;
    pending_handshake = [];
  };
  calls = record {
    screenshot_call_ids = [];
    screenshot_contract = [];
    ui_inspect_call_ids = [];
    exec_call_ids = [];
    get_info_call_ids = [];
    tools_call_ids = [];
    tools_call_lines = [];
    pending_auto_step_calls = [];
    first_call_progress_token = none;
    last_mutation_at_ms = 0;
    last_frame_advance_at_ms = 0;
  };
  spawning = record {
    spawn_triggered = false;
    spawn_in_flight = false;
    spawn_attempts = 0;
    spawn_failed_bucket = none;
    spawn_failed_streak = 0;
    spawn_backoff_until = 0;
    force_restart_count = 0;
    spawn_started_at = 0;
    spawn_terminal = false;
    give_up_count = 0;
    give_up_armed_at = 0;
    give_up_backoff_ms = 0;
    give_up_last_reason = none;
    spawn_last_failed = false;
    spawn_last_error = none;
    last_spawn_reused = false;
    stale_takeover_in_flight = false;
  };
  warmth = record {
    warm = false;
    warmup_timed_out = false;
    recovering = false;
    render_stable = false;
    warmup_timeout_ms = none;
    warm_at = 0;
    warm_editor_dead = false;
    warm_respawn_in_flight = false;
    warm_probe_failures = 0;
    bind_evidence_hold_active = false;
    bind_evidence_hold_used = false;
    first_probe_ok_at = 0;
    recovery_round = 0;
    recovery_window_start = none;
  };
  stages = record {
    stage = launcher_exec;
    timestamps = no_times;
    tcp_received_count = 0;
    ws_bind_ok_delay_ms = none;
  };
  restart_hold = none;
  takeover = none;
  takeover_fail_streak = 0;
  takeover_self_heal_in_flight = false;
  last_transitions = [];
  recent_proxy_calls = [];
  effects = [];
}

-- The proxy once its editor and its transport are up.
abbrev pub warmed : Proxy
warmed = record fresh {
  warmth = record (fresh.warmth) { warm = true };
  npx = record (fresh.npx) { npx_transport_ready = true };
}

abbrev pub call_of : CallId → String → Message
call_of i tool = record {
  id = some i;
  method = "tools/call";
  params = some (obj (field "name" (str tool) (field "arguments" (obj end) end)));
}

abbrev pub node_call : Message
node_call = call_of (text "a") "godot_node"

abbrev pub inspect_call : Message
inspect_call = call_of (text "b") "godot_ui_inspect"

message_of : Message → Expanded → Message
message_of m (malformed why) = m
message_of m (expanded m') = m'

pub kept_expansion :
    (m m' : Message) → expanded m ≡ expanded m' → (m'.id ≡ m.id) × (m'.method ≡ m.method)
unfolding message_of
kept_expansion m m' e =
    (sym (ap (λ x. (message_of m x).id) e), sym (ap (λ x. (message_of m x).method) e))

-- A collaborator that has no drag entries to expand and rejects no source.
abbrev pub plain_tools : Tools
plain_tools = record {
  expand_drag = λ m. expanded m;
  precheck = λ source. none;
  expand_keeps = λ m {m'} e. kept_expansion m m' e;
}
