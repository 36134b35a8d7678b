-- ===== src/Injection/Timely.antt =====
-- The time that a sequence of inputs is given.
use godot_mcp.Base.{
  ℕ, ◌+◌, ◌≤◌, ◌<◌, Option, none, some, List, [], ◌∷◌, arith, Bool-cases, inl, inr, ltb, true,
}
use godot_mcp.Json.{scaled}
use godot_mcp.Timeouts.{
  absolute_ceiling_ms, input_budget_cap_ms, ready_wait_ms, bridge_wall_slop_ms, ready_ms,
  derive_timeouts,
}
use godot_mcp.Timeouts.Ladder.{ladder_ordered, published_cap_kept}
use godot_mcp.Injection.{Shape, InputEntry, compile_entry, compile_input_entries}
use godot_mcp.Injection.Calls.{
  SequenceArgs, SequenceCommand, end_ms, last_end, last_offset, offsets_of, sequence_budget,
  sequence_command,
}

-- The wait for readiness, an entry and the bridge's slack are over before the time.
abbrev pub AllEnd : ℕ → List InputEntry → Type 0
AllEnd t [] = Unit
AllEnd t (e ∷ es) = (ready_wait_ms + end_ms e + bridge_wall_slop_ms < t) × AllEnd t es

abbrev pub AllTaken : ℕ → List ℕ → Type 0
AllTaken t [] = Unit
AllTaken t (o ∷ os) = (ready_wait_ms + o + bridge_wall_slop_ms < t) × AllTaken t os

-- What becomes of a sequence.
abbrev pub IsTimely : SequenceArgs → Option SequenceCommand → Type 0
IsTimely a none = input_budget_cap_ms < sequence_budget a
IsTimely a (some c) =
    AllEnd c.relay_timeout_ms c.inputs
    × AllTaken c.relay_timeout_ms (offsets_of c.screenshot_at_ms)
    × (c.relay_timeout_ms < c.timeout_ms)
    × (c.timeout_ms ≤ absolute_ceiling_ms)

compile_entry-AllEnd :
    (t : ℕ) (s : Shape) (e : InputEntry) (wire : List InputEntry)
    → ready_wait_ms + end_ms e + bridge_wall_slop_ms < t
    → AllEnd t wire
    → AllEnd t (compile_entry s e wire)
unfolding compile_entry
compile_entry-AllEnd t s e wire h all = ground arith

compile-AllEnd :
    (t : ℕ) (es : List InputEntry)
    → ready_wait_ms + last_end es + bridge_wall_slop_ms < t
    → AllEnd t (compile_input_entries es)
unfolding compile_input_entries last_end
compile-AllEnd t [] h = tt
compile-AllEnd t (e ∷ es) h =
    compile_entry-AllEnd t e.shape e (compile_input_entries es) (omega arith)
      (compile-AllEnd t es (omega arith))

offsets-AllTaken :
    (t : ℕ) (os : List ℕ) → ready_wait_ms + last_offset os + bridge_wall_slop_ms < t → AllTaken t os
unfolding last_offset
offsets-AllTaken t [] h = tt
offsets-AllTaken t (o ∷ os) h = (omega arith, offsets-AllTaken t os (omega arith))

within_cap :
    (n : ℕ)
    → n ≤ input_budget_cap_ms
    → let d = derive_timeouts (some (scaled n 0)) true in
      (ready_wait_ms + n + bridge_wall_slop_ms < d.relay_ms)
      × (d.relay_ms < d.server_ms)
      × (d.server_ms ≤ absolute_ceiling_ms)
unfolding derive_timeouts ready_ms
within_cap n h =
    ground (arith, ladder_ordered (some (scaled n 0)) true, published_cap_kept n true h)

-- A sequence is refused only where an entry or a capture of it is later than the cap. Any other is
-- sent with a time for the editor's relay that is longer than the wait for readiness, the end of
-- each entry that goes over the wire or the offset of each capture, and the bridge's slack together,
-- and the server's socket waits for longer than that, within the ceiling.
pub sequence_command-IsTimely : (a : SequenceArgs) → IsTimely a (sequence_command a)
unfolding sequence_command
sequence_command-IsTimely a = elim (Bool-cases (ltb input_budget_cap_ms (sequence_budget a))) [
  | inl long ↦ rw long (ground arith)
  | inr short ↦
      let relay = (derive_timeouts (some (scaled (sequence_budget a) 0)) true).relay_ms in
      let w = within_cap (sequence_budget a) (ground arith) in
      rw short (
        compile-AllEnd relay a.inputs (ground (arith, w)),
        offsets-AllTaken relay (offsets_of a.screenshot_at_ms) (ground (arith, w)),
        w.1,
        w.2,
      )
]
