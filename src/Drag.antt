-- ===== src/Drag.antt =====
-- launch/see1240-ui-tools.mjs: the drag sugar of input sequences, and the arguments of godot_ui_inspect.
-- The arithmetic of numbers is JavaScript's and a parameter; its results are taken to be finite. The
-- answers to malformed entries carry the field that they name.
mod Window
mod Ignored
mod Tools
mod Inspect
mod Tests
use godot_mcp.Base.{
  ℕ, suc, ◌+◌, String, Bool, true, false, not, ◌&&◌, ◌||◌, Option, none, some, List, [], ◌∷◌,
  length, is_some, str_eq, non_empty, if◌then◌else◌,
}
use godot_mcp.Json.{
  Num, scaled, Json, num, str, arr, obj, Items, nil, cons, Fields, field, end, get, lookup_field,
  is_text, is_object,
}
use godot_mcp.Record.{set_field}
use godot_mcp.Message.{Message}
use godot_mcp.Router.{Expanded, malformed, expanded}
use godot_mcp.Router.Kinds.{tool_name, arguments, action}

-- `<`, `+`, `-`, `*`, `/` and `Math.round`.
pub record Arithmetic : Type 0 where
  pub below : Num → Num → Bool
  pub plus : Num → Num → Num
  pub minus : Num → Num → Num
  pub times : Num → Num → Num
  pub over : Num → Num → Num
  pub round : Num → Num

abbrev pub whole : ℕ → Num
whole n = scaled n 0

pub record Point : Type 0 where
  pub x : Num
  pub y : Num

-- `isPoint`, with the point.
abbrev pub point_of : Option Json → Option Point
point_of (some (arr (cons (num a) (cons (num b) nil)))) = some (record { x = a; y = b })
point_of _ = none

abbrev pub point_json : Point → Json
point_json p = arr (cons (num p.x) (cons (num p.y) nil))

-- The points of an array, if each of its elements is one.
unfoldable pub points_of : Items → Option (List Point)
points_of nil = some []
points_of (cons v vs) = elim (point_of (some v)) [
  | none ↦ none
  | some p ↦ elim (points_of vs) [ none ↦ none | some ps ↦ some (p ∷ ps) ]
]

-- A chain of checks, each of which may reject the entry.
pub data Checked {ℓ} (A : Type ℓ) : Type ℓ where
  fails : String → Checked A
  passes : A → Checked A

infixl 5 ◌>>=◌
abbrev pub ◌>>=◌ {ℓ κ} : {A : Type ℓ} {B : Type κ} → Checked A → (A → Checked B) → Checked B
fails why >>= f = fails why
passes a >>= f = f a

abbrev pub or_fail {ℓ} : {A : Type ℓ} → String → Option A → Checked A
or_fail why none = fails why
or_fail why (some a) = passes a

-- `d.button === undefined ? 'left' : d.button`, if it is one of the three.
abbrev pub button_of : Option Json → Option String
button_of none = some "left"
button_of (some (str b)) =
    if str_eq b "left" || str_eq b "right" || str_eq b "middle" then some b else none
button_of _ = none

-- A number that is not negative, or its default.
abbrev pub duration_of : Arithmetic → ℕ → Option Json → Option Num
duration_of a n none = some (whole n)
duration_of a n (some (num t)) = if a.below t (whole 0) then none else some t
duration_of a n _ = none

-- The waypoints: those given, or the midpoint of a drag that takes time.
unfoldable pub waypoints_of : Arithmetic → Point → Point → Num → Option Json → Option (List Point)
waypoints_of a from to dur none =
    if a.below (whole 0) dur
    then some (
        record {
          x = a.over (a.plus from.x to.x) (whole 2);
          y = a.over (a.plus from.y to.y) (whole 2);
        }
        ∷ [])
    else some []
waypoints_of a from to dur (some (arr ws)) = points_of ws
waypoints_of a from to dur _ = none

-- `{ mouse_move: p, start_ms: t, duration_ms: 0 }`
abbrev pub move_entry : Point → Num → Json
move_entry p t = obj (
    field "mouse_move" (point_json p)
      (field "start_ms" (num t) (field "duration_ms" (num (whole 0)) end)))

-- The press, with its paired release `Math.max(dur, 1)` later.
abbrev pub hold_ms : Arithmetic → Num → Num
hold_ms a dur = if a.below dur (whole 1) then whole 1 else dur

unfoldable pub press_entry : Arithmetic → Point → String → Num → Num → Json
press_entry a p button start dur = obj (
    field "mouse_button"
      (obj (field "x" (num p.x) (field "y" (num p.y) (field "button" (str button) end))))
      (field "start_ms" (num start) (field "duration_ms" (num (hold_ms a dur)) end)))

-- `t1 - 1 >= start ? t1 - 1 : start`
abbrev pub last_motion : Arithmetic → Num → Num → Num
last_motion a start t1 =
    if a.below (a.minus t1 (whole 1)) start then start else a.minus t1 (whole 1)

-- The time of the waypoint `i` of `n`.
unfoldable pub motion_time : Arithmetic → Num → Num → ℕ → ℕ → Num
motion_time a start dur i n =
    let t = a.plus start (a.round (a.over (a.times dur (whole (i + 1))) (whole (n + 1)))) in
    let bound = last_motion a start (a.plus start dur) in if a.below bound t then bound else t

-- The motion entries from the waypoint `i` on, and then the last move.
unfoldable pub motions : Arithmetic → Point → Num → Num → ℕ → ℕ → List Point → Items
motions a to start dur i n [] = cons (move_entry to (a.plus start dur)) nil
motions a to start dur i n (w ∷ ws) =
    cons (move_entry w (motion_time a start dur i n)) (motions a to start dur (suc i) n ws)

unfoldable pub timeline : Arithmetic → Point → Point → String → Num → Num → List Point → Items
timeline a from to button start dur waypoints = cons (move_entry from start) (
    cons (press_entry a from button start dur)
      (motions a to start dur 0 (length waypoints) waypoints))

-- The body of `expandDragEntry`, with the drag `d` of the entry.
unfoldable pub expand_drag : Arithmetic → Json → Json → Checked Items
expand_drag a entry d = do
  from ← or_fail "drag.from" (point_of (get "from" d))
  to ← or_fail "drag.to" (point_of (get "to" d))
  button ← or_fail "drag.button" (button_of (get "button" d))
  start ← or_fail "drag.start_ms" (duration_of a 0 (get "start_ms" entry))
  dur ← or_fail "drag.duration_ms" (duration_of a 300 (get "duration_ms" entry))
  waypoints ← or_fail "drag.waypoints" (waypoints_of a from to dur (get "waypoints" d))
  passes (timeline a from to button start dur waypoints)

-- `expandDragEntry`
unfoldable pub expand_drag_entry : Arithmetic → Json → Checked Items
expand_drag_entry a entry = elim (get "drag" entry) [
  | none ↦ fails "drag"
  | some d ↦ if is_object (some d) then expand_drag a entry d else fails "drag"
]

-- `e && typeof e === 'object' && 'drag' in e`
abbrev pub is_drag : Json → Bool
is_drag e = is_some (get "drag" e)

unfoldable pub any_drag : Items → Bool
any_drag nil = false
any_drag (cons e es) = is_drag e || any_drag es

unfoldable pub append_items : Items → Items → Items
append_items nil ys = ys
append_items (cons x xs) ys = cons x (append_items xs ys)

-- The loop over the inputs: the first malformed entry ends it.
unfoldable pub expand_inputs : Arithmetic → Items → Checked Items
expand_inputs a nil = passes nil
expand_inputs a (cons e es) =
    let rest = expand_inputs a es in
    if is_drag e
    then (expand_drag_entry a e >>= λ out. rest >>= λ more. passes (append_items out more))
    else rest >>= λ more. passes (cons e more)

-- The calls that take inputs.
unfoldable pub takes_inputs : Message → Bool
takes_inputs m =
    (is_text "godot_input" (tool_name m) && is_text "sequence" (action m))
    || (is_text "godot_game_time" (tool_name m) && is_text "step" (action m))

abbrev pub rewrite_with : Message → Fields → Fields → Checked Items → Expanded
rewrite_with m params args (fails why) = malformed why
rewrite_with m params args (passes out) = expanded (record m {
  params = some (obj (set_field "arguments" (obj (set_field "inputs" (arr out) args)) params));
})

-- The arguments, once they are an object with a list of inputs.
unfoldable pub rewrite_inputs : Arithmetic → Message → Fields → Fields → Items → Expanded
rewrite_inputs a m params args inputs =
    if takes_inputs m && any_drag inputs
    then rewrite_with m params args (expand_inputs a inputs)
    else expanded m

unfoldable pub expand_inputs_of : Arithmetic → Message → Fields → Fields → Option Json → Expanded
expand_inputs_of a m params args (some (arr inputs)) = rewrite_inputs a m params args inputs
expand_inputs_of a m params args _ = expanded m

unfoldable pub expand_arguments : Arithmetic → Message → Fields → Option Json → Expanded
expand_arguments a m params (some (obj args)) =
    expand_inputs_of a m params args (lookup_field "inputs" args)
expand_arguments a m params _ = expanded m

unfoldable pub expand_params : Arithmetic → Message → Option Json → Expanded
expand_params a m (some (obj params)) =
    expand_arguments a m params (lookup_field "arguments" params)
expand_params a m _ = expanded m

-- `expandDragInToolsCall`
unfoldable pub expand_drag_in_tools_call : Arithmetic → Message → Expanded
expand_drag_in_tools_call a m = expand_params a m m.params
