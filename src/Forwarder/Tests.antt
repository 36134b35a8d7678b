-- ===== src/Forwarder/Tests.antt =====
-- The theorems of the forwarder at concrete inputs, and tests of the classification of errors.
use godot_mcp.Base.{
  ℕ, ◌≡◌, ◌<◌, refl, ap, ltb, if◌then◌else◌, String, true, false, none, some, [], ◌∷◌, ◌++◌, codes,
  arith, List,
}
use godot_mcp.Json.{obj, field, end, str}
use godot_mcp.Message.{text}
use godot_mcp.Forwarder.{Child, Settings, ChildResponse}
use godot_mcp.Forwarder.Errors.{is_busy_message, is_gone_message}
use godot_mcp.Forwarder.Answers.{close_response}
use godot_mcp.Forwarder.Process.{on_stderr}
use godot_mcp.Forwarder.Chunks.{IsUtf8, ascii_cuts_are_invisible}
use godot_mcp.Forwarder.Delivery.{Delivered, is_withheld, close_response_delivers}
use godot_mcp.Forwarder.Keeps.{hot_restarts}
use godot_mcp.Forwarder.Restarts.{Event, exit_seen, hot_timer, run, IsBounded, run-IsBounded}
use godot_mcp.Samples.{config, warmed, plain_tools}

-- A text of ASCII, in which every other byte is broken.
abbrev ascii_text : List ℕ → List ℕ
ascii_text [] = []
ascii_text (c ∷ cs) = (if ltb c 128 then c else 65533) ∷ ascii_text cs

ascii_text-cut :
    (a b : List ℕ) (c : ℕ) → c < 128 → ascii_text (a ++ c ∷ b) ≡ ascii_text a ++ c ∷ ascii_text b
ascii_text-cut [] b c ascii = ground (arith, ascii)
ascii_text-cut (d ∷ a) b c ascii =
    ap (λ t. (if ltb d 128 then d else 65533) ∷ t) (ascii_text-cut a b c ascii)

ascii_text-IsUtf8 : IsUtf8 ascii_text
ascii_text-IsUtf8 = record { of_nothing = refl; at_ascii = ascii_text-cut }

abbrev settings : Settings
settings = record {
  config = config;
  tools = plain_tools;
  conversions = record { number_of = λ v. none; text_of_value = λ v. ""; indexed = λ v. end };
  godot_host = "127.0.0.1";
  godot_port = "6550";
  progress_on = true;
  npx_restart_backoff_ms = 1500;
  hot_npx_restart_deadline_ms = 30000;
  includes = λ s t. false;
  replace_first = λ s t u. s;
  ui_inspect_tool = obj (field "name" (str "godot_ui_inspect") end);
  description_patches = [];
  decode = ascii_text;
  exec_hints_for_text = λ t. "";
  workdir_echo = "{}";
  build_warmup_timeline = λ p. "timeline";
}

abbrev child : Child
child = record {
  proxy = record warmed { calls = record (warmed.calls) { tools_call_ids = text "a" ∷ [] } };
  npx_running = true;
  cold_npx_restarts = 0;
  hot_npx_restarts = 0;
  err_buf = [];
  internal_exec_waiters = [];
  internal_exec_timers = [];
  tools_cache_refresh_in_flight = false;
  tools_cache_refreshed_for_spawn = false;
  tools_cache_waiters = [];
  warmup_just_completed = false;
  lease_exit_detected = false;
  outputs = [];
}

ascii_cuts_are_invisible_example :
    (on_stderr settings "i"
        (32 ∷ codes "to Godot\n")
        (on_stderr settings "i" (codes "Connected") child)
      ≡ on_stderr settings "i" (codes "Connected" ++ 32 ∷ codes "to Godot\n") child)
    × (on_stderr settings "i"
          (codes "to Godot\n")
          (on_stderr settings "i" (codes "Connected" ++ 32 ∷ []) child)
        ≡ on_stderr settings "i" (codes "Connected" ++ 32 ∷ codes "to Godot\n") child)
ascii_cuts_are_invisible_example =
    ascii_cuts_are_invisible settings ascii_text-IsUtf8 "i" (codes "Connected") (codes "to Godot\n")
      32 child (omega arith)

abbrev busy_answer : ChildResponse
busy_answer = record {
  id = some (text "a");
  error = some (obj (field "message" (str "Another client is already connected") end));
  result = none;
}

close_response_delivers_example :
    Delivered busy_answer child
      (close_response settings 50 busy_answer child)
      (is_withheld settings busy_answer child)
close_response_delivers_example = close_response_delivers settings 50 busy_answer child

abbrev deaths : List Event
deaths = exit_seen 10 ∷ hot_timer 1510 true ∷ exit_seen 2000 ∷ []

child-IsBounded : IsBounded child
unfolding hot_restarts
child-IsBounded = omega arith

run-IsBounded_example : IsBounded (run settings deaths child)
run-IsBounded_example = run-IsBounded settings deaths child child-IsBounded

busy_by_code : is_busy_message "WebSocket closed with code 4001" ≡ true
unfolding is_busy_message godot_mcp.Base.Patterns.at_most godot_mcp.Base.Patterns.boundary
busy_by_code = refl

not_busy_inside_a_number : is_busy_message "ws_close 14001" ≡ false
unfolding is_busy_message godot_mcp.Base.Patterns.at_most_one godot_mcp.Base.Patterns.at_most
    godot_mcp.Base.Patterns.boundary
not_busy_inside_a_number = refl

gone_by_crash : is_gone_message "the Editor has crashed" ≡ true
unfolding is_gone_message godot_mcp.Base.Patterns.at_most
gone_by_crash = refl

not_gone_over_a_dot : is_gone_message "the editor. It has crashed" ≡ false
unfolding is_gone_message godot_mcp.Base.Patterns.at_most
not_gone_over_a_dot = refl
