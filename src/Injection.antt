-- ===== src/Injection.antt =====
-- server/src/tools/input.ts: the injection of input into a running game, here its entries, how they
-- are compiled for the bridge of the game, and the warning about a bridge that is too old for them.
-- An entry is what its schema makes of it: the defaults are filled in, and the union's members are
-- told apart by their one key. The labels of the summary are texts and are left out.

mod Warned
mod Calls
mod Timely
mod Tests
use godot_mcp.Base.{
  ℕ, String, Bool, true, false, not, ◌&&◌, ◌||◌, Option, none, some, List, [], ◌∷◌, is_some,
  if◌then◌else◌,
}
use godot_mcp.Json.{Num}

pub data Stick : Type 0 where
  left right : Stick

pub data Axis : Type 0 where
  left_x left_y right_x right_y trigger_left trigger_right : Axis

pub data JoyButton : Type 0 where
  button_name : String → JoyButton
  button_index : ℕ → JoyButton

pub data KeyName : Type 0 where
  key_text : String → KeyName
  key_code : Num → KeyName

pub data Shape : Type 0 where
  -- With the strength.
  action_name : String → Option Num → Shape
  -- With the device, as the next two.
  joy_button : JoyButton → ℕ → Shape
  axis : Axis → Num → ℕ → Shape
  stick : Stick → Num → Num → ℕ → Shape
  -- With the flag `physical`.
  key : KeyName → Option Bool → Shape
  look mouse_move : Num → Num → Shape
  mouse_button : Num → Num → String → Shape

pub record InputEntry : Type 0 where
  pub shape : Shape
  pub start_ms : ℕ
  pub duration_ms : ℕ

abbrev pub x_axis : Stick → Axis
x_axis left = left_x
x_axis right = right_x

abbrev pub y_axis : Stick → Axis
y_axis left = left_y
y_axis right = right_y

-- A stick becomes a pair of axes.
unfoldable pub compile_entry : Shape → InputEntry → List InputEntry → List InputEntry
compile_entry (stick s x y device) e wire =
    record e { shape = axis (x_axis s) x device }
    ∷ record e { shape = axis (y_axis s) y device }
    ∷ wire
compile_entry _ e wire = e ∷ wire

unfoldable pub compile_input_entries : List InputEntry → List InputEntry
compile_input_entries [] = []
compile_input_entries (e ∷ es) = compile_entry e.shape e (compile_input_entries es)

-- `inputKinds`, by the keys that the skew test asks for.
pub record InputKinds : Type 0 where
  pub has_mouse_move : Bool
  pub has_mouse_button : Bool
  pub has_look : Bool
  pub has_key : Bool

pub data Skew : Type 0 where
  mouse_ignored look_ignored key_ignored controller_ignored : Skew

abbrev pub uses_mouse : Shape → Bool
uses_mouse (mouse_move x y) = true
uses_mouse (mouse_button x y b) = true
uses_mouse _ = false

abbrev pub uses_look : Shape → Bool
uses_look (look x y) = true
uses_look _ = false

abbrev pub uses_key : Shape → Bool
uses_key (key k p) = true
uses_key _ = false

abbrev pub uses_controller : Shape → Bool
uses_controller (action_name n strength) = is_some strength
uses_controller (joy_button b d) = true
uses_controller (axis a v d) = true
uses_controller (stick s x y d) = true
uses_controller _ = false

-- `inputs.some(…)`
unfoldable pub any_shape : (Shape → Bool) → List InputEntry → Bool
any_shape p [] = false
any_shape p (e ∷ es) = p e.shape || any_shape p es

-- Whether the bridge counts the keys; without `inputKinds` it counts none.
abbrev pub counts : (InputKinds → Bool) → Option InputKinds → Bool
counts p none = false
counts p (some k) = p k

unfoldable pub input_skew_warning : List InputEntry → Option InputKinds → Option Skew
input_skew_warning inputs kinds =
    if any_shape uses_mouse inputs
      && not (counts (λ k. k.has_mouse_move && k.has_mouse_button) kinds)
    then some mouse_ignored
    else if any_shape uses_look inputs && not (counts (λ k. k.has_look) kinds)
    then some look_ignored
    else if any_shape uses_key inputs && not (counts (λ k. k.has_key) kinds)
    then some key_ignored
    else if any_shape uses_controller inputs && not (is_some kinds)
    then some controller_ignored
    else none
