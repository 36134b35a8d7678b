-- ===== src/Injection/Calls.antt =====
-- server/src/tools/input.ts: the calls `sequence` and `type_text`: what is sent to the editor, how
-- long it may take, and what is answered. The texts of the answers are left out, but for the values
-- they carry; `get_map` only prints a list.
use godot_mcp.Base.{
  ℕ, ◌+◌, ◌*◌, String, Bool, true, false, ◌&&◌, Option, none, some, List, [], ◌∷◌, ◌++◌, map,
  length, max, ltb, truthy, if◌then◌else◌,
}
use godot_mcp.Json.{Json, scaled}
use godot_mcp.Timeouts.{input_budget_cap_ms, derive_timeouts}
use godot_mcp.Injection.{InputEntry, InputKinds, Skew, compile_input_entries, input_skew_warning}

pub record SequenceArgs : Type 0 where
  pub inputs : List InputEntry
  pub report : Option (List String)
  pub screenshot_at_ms : Option (List ℕ)
  pub screenshot_max_width : Option ℕ

pub record SequenceCommand : Type 0 where
  pub inputs : List InputEntry
  pub report : Option (List String)
  pub screenshot_at_ms : Option (List ℕ)
  pub screenshot_max_width : Option ℕ
  pub relay_timeout_ms : ℕ
  -- The option `timeoutMs` of sendCommand.
  pub timeout_ms : ℕ

abbrev pub end_ms : InputEntry → ℕ
end_ms e = e.start_ms + e.duration_ms

unfoldable pub last_end : List InputEntry → ℕ
last_end [] = 0
last_end (e ∷ es) = max (end_ms e) (last_end es)

unfoldable pub last_offset : List ℕ → ℕ
last_offset [] = 0
last_offset (o ∷ os) = max o (last_offset os)

-- `args.screenshot_at_ms ?? []`
abbrev pub offsets_of : Option (List ℕ) → List ℕ
offsets_of none = []
offsets_of (some os) = os

abbrev pub sequence_budget : SequenceArgs → ℕ
sequence_budget a = max (last_end a.inputs) (last_offset (offsets_of a.screenshot_at_ms))

-- `none` where the call throws, as the sequence is longer than one call may be.
unfoldable pub sequence_command : SequenceArgs → Option SequenceCommand
sequence_command a =
    let budget = sequence_budget a in
    if ltb input_budget_cap_ms budget
    then none
    else let t = derive_timeouts (some (scaled budget 0)) true in
      some (record {
        inputs = compile_input_entries a.inputs;
        report = a.report;
        screenshot_at_ms = a.screenshot_at_ms;
        screenshot_max_width = a.screenshot_max_width;
        relay_timeout_ms = t.relay_ms;
        timeout_ms = t.server_ms;
      })

pub record Capture : Type 0 where
  pub requested_ms : ℕ
  pub actual_ms : ℕ
  pub ok : Bool
  pub image_base64 : String
  pub width : ℕ
  pub height : ℕ
  pub error : String

pub record Probed : Type 0 where
  pub expression : String
  pub before : Json
  pub after : Json
  pub changed : Bool

pub record SequenceResult : Type 0 where
  pub actions_executed : ℕ
  pub scene : Option String
  pub tree_paused : Bool
  pub frozen : Bool
  pub gameplay_ms : Option ℕ
  pub wall_ms : Option ℕ
  pub report : Option (List Probed)
  pub any_changed : Option Bool
  pub captures : List Capture
  pub input_kinds : Option InputKinds
  pub error : Option String

pub data Line : Type 0 where
  -- With the entries that were executed and the time they took.
  completed : ℕ → ℕ → Line
  skewed : Skew → Line
  -- With the scene, and with the times in the game and on the wall.
  context : Option String → Option (ℕ × ℕ) → Line
  -- With the flag `frozen`.
  paused : Bool → Line
  probes_follow none_changed : Line
  probed : Probed → Line
  -- The frames that are there of those asked for, and the offsets.
  captured : ℕ → ℕ → List ℕ → List ℕ → Line

pub data Block : Type 0 where
  summary : List Line → Block
  frame_at frame_failed : Capture → Block
  image : String → Block

pub data Answer : Type 0 where
  -- With the error of the editor.
  thrown : String → Answer
  lines : List Line → Answer
  blocks : List Block → Answer

abbrev pub both : Option ℕ → Option ℕ → Option (ℕ × ℕ)
both (some g) (some w) = some (g, w)
both _ _ = none

abbrev skew_lines : Option Skew → List Line
skew_lines none = []
skew_lines (some w) = skewed w ∷ []

abbrev context_lines : Option String → Option (ℕ × ℕ) → List Line
context_lines none none = []
context_lines scene times = context scene times ∷ []

abbrev changed_lines : Option Bool → List Line
changed_lines (some false) = none_changed ∷ []
changed_lines _ = []

abbrev report_lines : Option (List Probed) → Option Bool → List Line
report_lines none any = []
report_lines (some ps) any = probes_follow ∷ map probed ps ++ changed_lines any

unfoldable pub sequence_lines : List InputEntry → SequenceResult → List Line
sequence_lines inputs r =
    completed r.actions_executed (last_end inputs)
      ∷ skew_lines (input_skew_warning inputs r.input_kinds)
    ++ context_lines r.scene (both r.gameplay_ms r.wall_ms)
    ++ (if r.tree_paused then paused r.frozen ∷ [] else [])
    ++ report_lines r.report r.any_changed

abbrev pub is_there : Capture → Bool
is_there c = c.ok && truthy (some c.image_base64)

unfoldable pub count_ok : List Capture → ℕ
count_ok [] = 0
count_ok (c ∷ cs) = if c.ok then count_ok cs + 1 else count_ok cs

unfoldable pub frame_blocks : List Capture → List Block
frame_blocks [] = []
frame_blocks (c ∷ cs) =
    let rest = frame_blocks cs in
    if is_there c then frame_at c ∷ image c.image_base64 ∷ rest else frame_failed c ∷ rest

abbrev captured_line : List Capture → Line
captured_line cs =
    captured (count_ok cs) (length cs) (map (λ c. c.actual_ms) cs) (map (λ c. c.requested_ms) cs)

unfoldable pub answer_frames : List Line → List Capture → Answer
answer_frames ls [] = lines ls
answer_frames ls (c ∷ cs) =
    blocks (summary (ls ++ captured_line (c ∷ cs) ∷ []) ∷ frame_blocks (c ∷ cs))

-- `if (result.error)`
unfoldable pub sequence_answer : List InputEntry → SequenceResult → Answer
sequence_answer inputs r = elim r.error [
  | none ↦ answer_frames (sequence_lines inputs r) r.captures
  | some e ↦
      if truthy (some e) then thrown e else answer_frames (sequence_lines inputs r) r.captures
]

-- The relay's and the socket's time for a text of `n` characters, `none` where the call throws.
unfoldable pub type_text_timeouts : ℕ → ℕ → Option (ℕ × ℕ)
type_text_timeouts n delay_ms =
    let budget = n * delay_ms in
    if ltb input_budget_cap_ms budget
    then none
    else let t = derive_timeouts (some (scaled budget 0)) true in some (t.relay_ms, t.server_ms)
