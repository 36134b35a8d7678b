-- ===== src/Injection/Warned.antt =====
-- What the absence of the warning on a bridge's age means.
use godot_mcp.Base.{
  Bool, true, false, not, ◌&&◌, ◌||◌, Option, none, some, List, [], ◌∷◌, is_some, ◌≡◌, refl, arith,
}
use godot_mcp.Injection.{
  Shape, action_name, joy_button, axis, stick, key, look, mouse_move, mouse_button, InputEntry,
  InputKinds, counts, any_shape, uses_mouse, uses_look, uses_key, uses_controller, compile_entry,
  compile_input_entries, input_skew_warning,
}

-- A bridge that counts its inputs injects controllers and analog strengths; the newer kinds it
-- injects if it counts them; a plain action is injected by every bridge.
abbrev pub understands : Option InputKinds → Shape → Bool
understands kinds (action_name n none) = true
understands kinds (action_name n (some strength)) = is_some kinds
understands kinds (joy_button b d) = is_some kinds
understands kinds (axis a v d) = is_some kinds
-- The wire has no sticks.
understands kinds (stick s x y d) = false
understands kinds (key k p) = counts (λ k. k.has_key) kinds
understands kinds (look x y) = counts (λ k. k.has_look) kinds
understands kinds (mouse_move x y) = counts (λ k. k.has_mouse_move) kinds
understands kinds (mouse_button x y b) = counts (λ k. k.has_mouse_button) kinds

abbrev pub AllUnderstood : Option InputKinds → List InputEntry → Type 0
AllUnderstood kinds [] = Unit
AllUnderstood kinds (e ∷ es) = (understands kinds e.shape ≡ true) × AllUnderstood kinds es

-- What no warning leaves for an entry.
abbrev is_fair : Option InputKinds → Shape → Bool
is_fair kinds s =
    (not (uses_mouse s) || counts (λ k. k.has_mouse_move && k.has_mouse_button) kinds)
    && (not (uses_look s) || counts (λ k. k.has_look) kinds)
    && (not (uses_key s) || counts (λ k. k.has_key) kinds)
    && (not (uses_controller s) || is_some kinds)

compile-Understood :
    (kinds : Option InputKinds) (s : Shape) (e : InputEntry) (wire : List InputEntry)
    → e.shape ≡ s
    → is_fair kinds s ≡ true
    → AllUnderstood kinds wire
    → AllUnderstood kinds (compile_entry s e wire)
unfolding compile_entry
compile-Understood kinds s e wire h f all = ground (arith)

abbrev IsSpared : (Shape → Bool) → Bool → List InputEntry → Type 0
IsSpared p counted es = (not (any_shape p es) || counted) ≡ true

uncons-IsSpared :
    (p : Shape → Bool) (counted : Bool) (e : InputEntry) (es : List InputEntry)
    → IsSpared p counted (e ∷ es)
    → ((not (p e.shape) || counted) ≡ true) × IsSpared p counted es
unfolding any_shape
uncons-IsSpared p counted e es h = ground arith

spare-Understood :
    (kinds : Option InputKinds) (es : List InputEntry)
    → IsSpared uses_mouse (counts (λ k. k.has_mouse_move && k.has_mouse_button) kinds) es
    → IsSpared uses_look (counts (λ k. k.has_look) kinds) es
    → IsSpared uses_key (counts (λ k. k.has_key) kinds) es
    → IsSpared uses_controller (is_some kinds) es
    → AllUnderstood kinds (compile_input_entries es)
unfolding compile_input_entries
spare-Understood kinds [] m l k c = tt
spare-Understood kinds (e ∷ es) m l k c =
    let m2 =
      uncons-IsSpared uses_mouse (counts (λ k. k.has_mouse_move && k.has_mouse_button) kinds) e es
        m in
    let l2 = uncons-IsSpared uses_look (counts (λ k. k.has_look) kinds) e es l in
    let k2 = uncons-IsSpared uses_key (counts (λ k. k.has_key) kinds) e es k in
    let c2 = uncons-IsSpared uses_controller (is_some kinds) e es c in
    compile-Understood kinds e.shape e (compile_input_entries es) refl (ground arith)
      (spare-Understood kinds es m2.1 l2.1 k2.1 c2.1)

-- Where a sequence gets no warning about the age of the bridge, every entry that goes over the wire
-- is of a kind the bridge injects: no stick is left, and the bridge counts what is newer than a
-- plain action.
pub unwarned-Understood :
    (inputs : List InputEntry) (kinds : Option InputKinds)
    → input_skew_warning inputs kinds ≡ none
    → AllUnderstood kinds (compile_input_entries inputs)
unfolding input_skew_warning
unwarned-Understood inputs kinds h =
    spare-Understood kinds inputs (ground arith) (ground arith) (ground arith) (ground arith)
