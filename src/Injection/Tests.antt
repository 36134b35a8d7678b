-- ===== src/Injection/Tests.antt =====
-- The theorems of the injection at concrete inputs, and a run.
use godot_mcp.Base.{◌≡◌, refl, true, false, Option, none, some, List, [], ◌∷◌}
use godot_mcp.Json.{Num, scaled, negative}
use godot_mcp.Injection.{
  left, stick, action_name, look, InputEntry, InputKinds, any_shape, input_skew_warning,
  compile_input_entries,
}
use godot_mcp.Injection.Calls.{
  SequenceArgs, SequenceResult, Capture, sequence_command, sequence_answer, frame_blocks,
  answer_frames, sequence_lines, count_ok, last_end, completed, paused, blocks, summary, captured,
  frame_at, frame_failed, image,
}
use godot_mcp.Injection.Warned.{AllUnderstood, unwarned-Understood}
use godot_mcp.Injection.Timely.{IsTimely, sequence_command-IsTimely}

abbrev half : Num
half = scaled 1 1

abbrev three_inputs : List InputEntry
three_inputs =
    record { shape = action_name "jump" none; start_ms = 0; duration_ms = 100 }
    ∷ record { shape = stick left half (negative 1 0) 0; start_ms = 50; duration_ms = 400 }
    ∷ record { shape = look half half; start_ms = 600; duration_ms = 0 }
    ∷ []

abbrev counts_all : Option InputKinds
counts_all =
    some
      (record { has_mouse_move = true; has_mouse_button = true; has_look = true; has_key = true })

unwarned-Understood_example : AllUnderstood counts_all (compile_input_entries three_inputs)
unfolding input_skew_warning any_shape
unwarned-Understood_example = unwarned-Understood three_inputs counts_all refl

abbrev sequence : SequenceArgs
sequence = record {
  inputs = three_inputs;
  report = none;
  screenshot_at_ms = some (300 ∷ 700 ∷ []);
  screenshot_max_width = none;
}

sequence_command-IsTimely_example : IsTimely sequence (sequence_command sequence)
sequence_command-IsTimely_example = sequence_command-IsTimely sequence

abbrev taken : Capture
taken = record {
  requested_ms = 300;
  actual_ms = 310;
  ok = true;
  image_base64 = "aGk=";
  width = 64;
  height = 32;
  error = "";
}

abbrev missed : Capture
missed = record taken { requested_ms = 700; ok = false; image_base64 = "" }

abbrev result : SequenceResult
result = record {
  actions_executed = 3;
  scene = none;
  tree_paused = true;
  frozen = false;
  gameplay_ms = none;
  wall_ms = none;
  report = none;
  any_changed = none;
  captures = taken ∷ missed ∷ [];
  input_kinds = counts_all;
  error = none;
}

answer_of_result :
    sequence_answer three_inputs result
    ≡ blocks (
        summary
          (completed 3 600 ∷ paused false ∷ captured 1 2 (310 ∷ 310 ∷ []) (300 ∷ 700 ∷ []) ∷ [])
        ∷ frame_at taken
        ∷ image "aGk="
        ∷ frame_failed missed
        ∷ [])
unfolding sequence_answer answer_frames sequence_lines frame_blocks count_ok last_end
    input_skew_warning any_shape
answer_of_result = refl
