-- ===== src/Restart/Tests.antt =====
-- The theorems of the restart at concrete inputs.
use godot_mcp.Base.{◌≡◌, refl, true, false, some, List, [], ◌∷◌}
use godot_mcp.Message.{text}
use godot_mcp.State.{Proxy, RestartHold, waiting, not_restarted}
use godot_mcp.Router.Drains.{IsOpen}
use godot_mcp.Restart.{Poll, finish_restart_hold, goes_on}
use godot_mcp.Restart.Finish.{Unrestarted, failed_restart_answers}
use godot_mcp.Restart.Watching.{has_last, all_answered}
use godot_mcp.Samples.{config, warmed, node_call, inspect_call, plain_tools}

abbrev hold : RestartHold
hold = record { hold_id = some (text "r"); phase = waiting; deadline = 900 }

abbrev holding : Proxy
holding = record warmed { restart_hold = some hold; pending_calls = node_call ∷ inspect_call ∷ [] }

failed_restart_answers_example :
    Unrestarted "timeout" hold holding
      (finish_restart_hold config plain_tools 900 (not_restarted "timeout") holding)
failed_restart_answers_example =
    failed_restart_answers config plain_tools 900 "timeout" hold holding refl

abbrev finished : Proxy
finished = finish_restart_hold config plain_tools 900 (not_restarted "timeout") holding

holding-IsOpen : IsOpen holding
holding-IsOpen = record { is_warm = refl; is_ready = refl; is_piped = refl; takes_lines = refl }

abbrev early : Poll
early = record { at = 100; shutdown = false; answers = true; connected = false }

abbrev late : Poll
late = record { at = 901; shutdown = false; answers = true; connected = false }

abbrev polls : List Poll
polls = early ∷ late ∷ []

polls_last : has_last 900 polls ≡ true
unfolding has_last goes_on
polls_last = refl

polls_answered : all_answered polls ≡ true
unfolding all_answered
polls_answered = refl
