-- ===== src/Recovery/Rounds.antt =====
-- The recovery rounds that fit into the window.
use godot_mcp.Base.{
  ℕ, ◌+◌, ◌-◌, ◌*◌, ◌≤◌, ◌≡◌, ◌↔◌, true, List, [], ◌∷◌, arith, length, leb→le, le→leb,
}
use godot_mcp.Recovery.{recovery_round_worst_ms, plan_recovery_budget}

-- A round may start exactly when its worst duration ends within the window.
pub can_start_iff :
    (total anchor now : ℕ)
    → anchor ≤ now
    → ((plan_recovery_budget total anchor now).can_start_round ≡ true)
      ↔ (now + recovery_round_worst_ms ≤ anchor + total)
unfolding plan_recovery_budget
can_start_iff total anchor now h = (
  λ e. omega (arith, leb→le recovery_round_worst_ms (total - (now - anchor)) e),
  λ e. le→leb recovery_round_worst_ms (total - (now - anchor)) (omega arith),
)

-- Start times of rounds that the budget admits, each a full round's worst duration after the last,
-- the first at `free` or later.
abbrev pub IsSchedule : ℕ → ℕ → ℕ → List ℕ → Type 0
IsSchedule total anchor free [] = Unit
IsSchedule total anchor free (t ∷ ts) =
    (free ≤ t)
    × ((plan_recovery_budget total anchor t).can_start_round ≡ true)
    × IsSchedule total anchor (t + recovery_round_worst_ms) ts

schedule_fits :
    (total anchor free : ℕ) (starts : List ℕ)
    → anchor ≤ free
    → IsSchedule total anchor free starts
    → length starts * recovery_round_worst_ms ≤ anchor + total - free
schedule_fits total anchor free [] h s = omega arith
schedule_fits total anchor free (t ∷ ts) h (late, ok, rest) =
    let fits = (can_start_iff total anchor t (omega arith)).0 ok in
    let later = schedule_fits total anchor (t + recovery_round_worst_ms) ts (omega arith) rest in
    omega arith

-- Rounds that each take their worst duration are no more than the plan's `max_rounds`.
pub schedule-le-max_rounds :
    (total anchor : ℕ) (starts : List ℕ)
    → IsSchedule total anchor anchor starts
    → length starts ≤ (plan_recovery_budget total anchor anchor).max_rounds
unfolding plan_recovery_budget
schedule-le-max_rounds total anchor starts s =
    ground (arith, schedule_fits total anchor anchor starts (omega arith) s)
