-- ===== src/Drag/Tests.antt =====
-- The theorems of the drag sugar at concrete inputs: an arithmetic of whole milliseconds.
use godot_mcp.Base.{◌+◌, ◌*◌, ◌/◌, refl, [], ◌∷◌, some}
use godot_mcp.Json.{Items, num, arr, obj, nil, cons, field, end, Json, get, lookup_field, Fields}
use godot_mcp.Drag.{waypoints_of, passes, expand_drag, duration_of, timeline}
use godot_mcp.Drag.Window.{IsOrdered, StartsWithin, AllItems, expand_drag-StartsWithin}
use godot_mcp.Base.{ℕ, ◌+◌, ◌-◌, ◌*◌, ◌/◌, ◌≡◌, false, arith, ltb}
use godot_mcp.Json.{Num, scaled, negative}
use godot_mcp.Drag.{Arithmetic, whole}

-- Of a number that is whole and not negative.
abbrev ms : Num → ℕ
ms (scaled n k) = n
ms (negative n k) = 0

abbrev millis : Arithmetic
millis = record {
  below = λ a b. ltb (ms a) (ms b);
  plus = λ a b. whole (ms a + ms b);
  minus = λ a b. whole (ms a - ms b);
  times = λ a b. whole (ms a * ms b);
  over = λ a b. whole (ms a / ms b);
  round = λ a. whole (ms a);
}

irreflexive : (n : ℕ) → ltb n n ≡ false
irreflexive n = ground arith

not_below_trans : (a b c : ℕ) → ltb b a ≡ false → ltb c b ≡ false → ltb c a ≡ false
not_below_trans a b c h k = ground arith

not_below_zero : (n : ℕ) → ltb n 0 ≡ false
not_below_zero n = ground arith

not_below_add : (m n : ℕ) → ltb (m + n) m ≡ false
not_below_add m n = ground arith

not_below_sub : (n : ℕ) → ltb n (n - 1) ≡ false
not_below_sub n = ground arith

millis-IsOrdered : IsOrdered millis
millis-IsOrdered = record {
  reflexive = λ t. irreflexive (ms t);
  transitive = λ t u v. not_below_trans (ms t) (ms u) (ms v);
  plus_grows = λ t u h. not_below_add (ms t) (ms u);
  minus_falls = λ t. not_below_sub (ms t);
  times_sign = λ t n h. not_below_zero (ms t * n);
  over_sign = λ t n h. not_below_zero (ms t / (n + 1));
  whole_sign = λ n. not_below_zero n;
  round_sign = λ t h. not_below_zero (ms t);
}

abbrev point : ℕ → ℕ → Json
point x y = arr (cons (num (whole x)) (cons (num (whole y)) nil))

abbrev sweep : Fields
sweep = field "from" (point 10 20) (field "to" (point 100 200) end)

abbrev drag_entry : Json
drag_entry = obj (field "drag" (obj sweep) (field "start_ms" (num (whole 40)) end))

abbrev expansion : Items
expansion =
    timeline millis (record { x = whole 10; y = whole 20 })
      (record { x = whole 100; y = whole 200 }) "left" (whole 40) (whole 300)
      (record { x = whole 55; y = whole 110 } ∷ [])

expanded_sweep : expand_drag millis drag_entry (obj sweep) ≡ passes expansion
unfolding expand_drag waypoints_of get lookup_field
expanded_sweep = refl

expand_drag-StartsWithin_example :
    (start : Num) × (dur : Num) × (duration_of millis 0 (get "start_ms" drag_entry) ≡ some start)
    × (duration_of millis 300 (get "duration_ms" drag_entry) ≡ some dur)
    × (millis.below start (whole 0) ≡ false)
    × (millis.below dur (whole 0) ≡ false)
    × AllItems (StartsWithin millis start (millis.plus start dur)) expansion
expand_drag-StartsWithin_example =
    expand_drag-StartsWithin millis millis-IsOrdered drag_entry (obj sweep) expansion expanded_sweep
