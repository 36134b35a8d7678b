-- ===== src/Drag/Tools.antt =====
-- The interface of the router, filled with the drag sugar and the pre-check of a source.
use mathlib.Core.Path.{subst}
use godot_mcp.Json.{null, bool, num, str}
use godot_mcp.Drag.{expand_inputs_of, expand_arguments, expand_params}
use godot_mcp.Base.{String, ◌≡◌, refl, Option, none, some, codes, arith}
use godot_mcp.Json.{Json, arr, obj, Items, Fields, lookup_field}
use godot_mcp.Message.{Message}
use godot_mcp.Router.{Tools, Expanded, malformed, expanded}
use godot_mcp.Exec.{Verdict, precheck_exec_source}
use godot_mcp.Drag.{
  Arithmetic, Checked, fails, passes, expand_inputs, rewrite_with, rewrite_inputs, expand_params,
  expand_drag_in_tools_call,
}

-- What an expansion keeps of its message.
abbrev Keeps : Message → Expanded → Type 0
Keeps m (malformed why) = Unit
Keeps m (expanded m') = (m'.id ≡ m.id) × (m'.method ≡ m.method)

rewrite_with-Keeps :
    (m : Message) (params args : Fields) (c : Checked Items)
    → Keeps m (rewrite_with m params args c)
rewrite_with-Keeps m params args (fails why) = tt
rewrite_with-Keeps m params args (passes out) = (refl, refl)

rewrite_inputs-Keeps :
    (a : Arithmetic) (m : Message) (params args : Fields) (inputs : Items)
    → Keeps m (rewrite_inputs a m params args inputs)
unfolding rewrite_inputs
rewrite_inputs-Keeps a m params args inputs =
    ground (arith, rewrite_with-Keeps m params args (expand_inputs a inputs))

inputs_of-Keeps :
    (a : Arithmetic) (m : Message) (params args : Fields) (v : Option Json)
    → Keeps m (expand_inputs_of a m params args v)
unfolding expand_inputs_of
inputs_of-Keeps a m params args (some (arr inputs)) = rewrite_inputs-Keeps a m params args inputs
inputs_of-Keeps a m params args none = (refl, refl)
inputs_of-Keeps a m params args (some null) = (refl, refl)
inputs_of-Keeps a m params args (some (bool b)) = (refl, refl)
inputs_of-Keeps a m params args (some (num n)) = (refl, refl)
inputs_of-Keeps a m params args (some (str t)) = (refl, refl)
inputs_of-Keeps a m params args (some (obj fs)) = (refl, refl)

arguments-Keeps :
    (a : Arithmetic) (m : Message) (params : Fields) (v : Option Json)
    → Keeps m (expand_arguments a m params v)
unfolding expand_arguments
arguments-Keeps a m params (some (obj args)) =
    inputs_of-Keeps a m params args (lookup_field "inputs" args)
arguments-Keeps a m params none = (refl, refl)
arguments-Keeps a m params (some null) = (refl, refl)
arguments-Keeps a m params (some (bool b)) = (refl, refl)
arguments-Keeps a m params (some (num n)) = (refl, refl)
arguments-Keeps a m params (some (str t)) = (refl, refl)
arguments-Keeps a m params (some (arr xs)) = (refl, refl)

params-Keeps : (a : Arithmetic) (m : Message) (v : Option Json) → Keeps m (expand_params a m v)
unfolding expand_params
params-Keeps a m (some (obj params)) = arguments-Keeps a m params (lookup_field "arguments" params)
params-Keeps a m none = (refl, refl)
params-Keeps a m (some null) = (refl, refl)
params-Keeps a m (some (bool b)) = (refl, refl)
params-Keeps a m (some (num n)) = (refl, refl)
params-Keeps a m (some (str t)) = (refl, refl)
params-Keeps a m (some (arr xs)) = (refl, refl)

kept_message :
    (a : Arithmetic) (m m' : Message)
    → expand_drag_in_tools_call a m ≡ expanded m'
    → (m'.id ≡ m.id) × (m'.method ≡ m.method)
unfolding expand_drag_in_tools_call
kept_message a m m' h = subst (λ x. Keeps m x) h (params-Keeps a m m.params)

-- The verdict on a source as the router reads it, with the answer's text.
abbrev reason_of : (Verdict → String) → Verdict → Option String
reason_of answer Verdict.passes = none
reason_of answer v = some (answer v)

-- The code's own collaborator of the router.
abbrev code_tools : Arithmetic → (Verdict → String) → Tools
code_tools a answer = record {
  expand_drag = expand_drag_in_tools_call a;
  precheck = λ source. reason_of answer (precheck_exec_source (codes source));
  expand_keeps = λ m {m'} h. kept_message a m m' h;
}
