-- ===== src/Stages.antt =====
-- launch/warmup-stage-parser.mjs: the milestones of an editor's boot, read from its log.
-- A slice is the list of its code units; the `m` patterns are tests of its lines.
mod Advance
mod Reached
use godot_mcp.Base.{
  ℕ, zero, suc, ◌+◌, ◌-◌, Bool, true, false, ◌||◌, Option, none, some, List, [], ◌∷◌, ltb, is_some,
  if◌then◌else◌, codes, has_prefix, lines_from, strip_prefix, contains, take_digits, number,
}

pub data Stage : Type 0 where
  launcher_exec editor_spawned plugin_init server_listening : Stage
  tcp_connected ws_handshake mcp_initialized warm : Stage

-- `stageOrdinal`
abbrev pub ordinal : Stage → ℕ
ordinal launcher_exec = 0
ordinal editor_spawned = 1
ordinal plugin_init = 2
ordinal server_listening = 3
ordinal tcp_connected = 4
ordinal ws_handshake = 5
ordinal mcp_initialized = 6
ordinal warm = 7

pub record Timestamps : Type 0 where
  pub at_launcher_exec : Option ℕ
  pub at_editor_spawned : Option ℕ
  pub at_plugin_init : Option ℕ
  pub at_server_listening : Option ℕ
  pub at_tcp_connected : Option ℕ
  pub at_ws_handshake : Option ℕ
  pub at_mcp_initialized : Option ℕ
  pub at_warm : Option ℕ

-- `timestamps[stage]`
abbrev pub time_of : Stage → Timestamps → Option ℕ
time_of launcher_exec t = t.at_launcher_exec
time_of editor_spawned t = t.at_editor_spawned
time_of plugin_init t = t.at_plugin_init
time_of server_listening t = t.at_server_listening
time_of tcp_connected t = t.at_tcp_connected
time_of ws_handshake t = t.at_ws_handshake
time_of mcp_initialized t = t.at_mcp_initialized
time_of warm t = t.at_warm

-- `timestamps[stage] = now`
abbrev pub set_time : Stage → ℕ → Timestamps → Timestamps
set_time launcher_exec now t = record t { at_launcher_exec = some now }
set_time editor_spawned now t = record t { at_editor_spawned = some now }
set_time plugin_init now t = record t { at_plugin_init = some now }
set_time server_listening now t = record t { at_server_listening = some now }
set_time tcp_connected now t = record t { at_tcp_connected = some now }
set_time ws_handshake now t = record t { at_ws_handshake = some now }
set_time mcp_initialized now t = record t { at_mcp_initialized = some now }
set_time warm now t = record t { at_warm = some now }

pub record StageState : Type 0 where
  pub stage : Stage
  pub timestamps : Timestamps
  pub tcp_received_count : ℕ
  pub ws_bind_ok_delay_ms : Option ℕ

abbrev pub no_times : Timestamps
no_times = record {
  at_launcher_exec = none;
  at_editor_spawned = none;
  at_plugin_init = none;
  at_server_listening = none;
  at_tcp_connected = none;
  at_ws_handshake = none;
  at_mcp_initialized = none;
  at_warm = none;
}

-- `createStageState`; `resetGeneration` passes it a time that may be null.
unfoldable pub create_stage_state : Option ℕ → StageState
create_stage_state started_at = record {
  stage = launcher_exec;
  timestamps = record no_times { at_launcher_exec = started_at };
  tcp_received_count = 0;
  ws_bind_ok_delay_ms = none;
}

unfoldable pub reset_generation : StageState → StageState
unfolding create_stage_state
reset_generation s =
    let next = create_stage_state s.timestamps.at_launcher_exec in
    record next {
      stage = editor_spawned;
      timestamps = record (next.timestamps) { at_editor_spawned = s.timestamps.at_editor_spawned };
    }

-- `if (stageOrdinal(s) > stageOrdinal(next.stage)) next.stage = s`
abbrev pub advance : Stage → Stage → Stage
advance s current = if ltb (ordinal current) (ordinal s) then s else current

-- /^\[godot-mcp\] Plugin initialized$/m
abbrev pub plugin_line : List ℕ → Bool
plugin_line l = elim (strip_prefix (codes "[godot-mcp] Plugin initialized") l) [
  | some [] ↦ true
  | _ ↦ false
]

-- /^\[godot-mcp\] Server listening on /m
abbrev pub listening_line : List ℕ → Bool
listening_line l = has_prefix (codes "[godot-mcp] Server listening on ") l

-- /^\[godot-mcp\] (?:WebSocket handshake complete|Client connected from)/m
abbrev pub handshake_line : List ℕ → Bool
handshake_line l =
    has_prefix (codes "[godot-mcp] WebSocket handshake complete") l
    || has_prefix (codes "[godot-mcp] Client connected from") l

-- /^\[godot-mcp\] TCP connection received from .* awaiting WebSocket handshake/mg, which matches at
-- most once in a line.
abbrev pub tcp_line : List ℕ → Bool
tcp_line l = elim (strip_prefix (codes "[godot-mcp] TCP connection received from ") l) [
  | none ↦ false
  | some rest ↦ contains (codes " awaiting WebSocket handshake") rest
]

-- /^\[godot-mcp\] \[stage=WS_BIND_OK\] \[t=\+(\d+)ms\]/m, on one line
abbrev pub bind_delay : List ℕ → Option ℕ
bind_delay l = elim (strip_prefix (codes "[godot-mcp] [stage=WS_BIND_OK] [t=+") l) [
  | none ↦ none
  | some rest ↦ elim (number rest) [
    | none ↦ none
    | some (n, tail) ↦ if has_prefix (codes "ms]") tail then some n else none
  ]
]

-- `re.test(slice)`, on the lines
unfoldable pub any_line : (List ℕ → Bool) → List (List ℕ) → Bool
any_line p [] = false
any_line p (l ∷ ls) = p l || any_line p ls

-- The number of matches.
unfoldable pub count_lines : (List ℕ → Bool) → List (List ℕ) → ℕ
count_lines p [] = 0
count_lines p (l ∷ ls) = (if p l then 1 else 0) + count_lines p ls

-- `slice.match(WS_BIND_OK_RE)`: the first match.
unfoldable pub first_bind : List (List ℕ) → Option ℕ
first_bind [] = none
first_bind (l ∷ ls) = elim (bind_delay l) [ none ↦ first_bind ls | some n ↦ some n ]

note_bind : List (List ℕ) → StageState → StageState
note_bind ls s = elim s.ws_bind_ok_delay_ms [
  | none ↦ record s { ws_bind_ok_delay_ms = first_bind ls }
  | some n ↦ s
]

-- One round of the loop over STAGE_PATTERNS.
note_stage : Stage → (List ℕ → Bool) → ℕ → List (List ℕ) → StageState → StageState
note_stage st p now ls s = elim (time_of st s.timestamps) [
  | some t ↦ s
  | none ↦
      if any_line p ls
      then record s { timestamps = set_time st now s.timestamps; stage = advance st s.stage }
      else s
]

-- The connections of a slice, `first` being the time of the first one seen so far.
mark_tcp : Option ℕ → ℕ → ℕ → StageState → StageState
mark_tcp (some t) now n s = record s { tcp_received_count = s.tcp_received_count + n }
mark_tcp none now n s = record s {
  timestamps = set_time tcp_connected now s.timestamps;
  stage = advance tcp_connected s.stage;
  tcp_received_count = s.tcp_received_count + n;
}

note_tcp : ℕ → ℕ → StageState → StageState
unfolding mark_tcp
note_tcp now zero s = s
note_tcp now (suc n) s = mark_tcp s.timestamps.at_tcp_connected now (suc n) s

-- The body of `scanStageLines`, on the lines of the slice.
unfoldable pub scan_lines : StageState → List (List ℕ) → ℕ → StageState
unfolding note_bind note_stage note_tcp
scan_lines s ls now =
    let bound = note_bind ls s in
    let plugged = note_stage plugin_init plugin_line now ls bound in
    let listening = note_stage server_listening listening_line now ls plugged in
    let shaken = note_stage ws_handshake handshake_line now ls listening in
    note_tcp now (count_lines tcp_line ls) shaken

unfoldable pub scan_stage_lines : StageState → List ℕ → ℕ → StageState
unfolding scan_lines lines_from
scan_stage_lines s [] now = s
scan_stage_lines s (c ∷ slice) now = scan_lines s (lines_from [] (c ∷ slice)) now

-- `HANDSHAKE_STALL_THRESHOLD_MS`
abbrev pub handshake_stall_threshold_ms : ℕ
handshake_stall_threshold_ms = 15000

pub data Substate : Type 0 where
  not_applicable pending complete stalled : Substate

-- A time in an arithmetic expression: null counts as 0.
abbrev pub or_zero : Option ℕ → ℕ
or_zero none = 0
or_zero (some t) = t

unfoldable pub handshake_substate : StageState → ℕ → Substate
handshake_substate s now =
    if ltb (ordinal s.stage) (ordinal tcp_connected)
    then not_applicable
    else if is_some s.timestamps.at_ws_handshake
    then complete
    else if ltb 1 s.tcp_received_count
    then stalled
    else if ltb handshake_stall_threshold_ms (now - or_zero s.timestamps.at_tcp_connected)
    then stalled
    else pending

unfoldable pub handshake_pending_ms : StageState → ℕ → ℕ
handshake_pending_ms s now =
    if ltb (ordinal s.stage) (ordinal tcp_connected)
    then 0
    else if is_some s.timestamps.at_ws_handshake
    then 0
    else now - or_zero s.timestamps.at_tcp_connected
