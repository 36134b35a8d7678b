-- ===== src/Stages/Advance.antt =====
-- What a scan of the log leaves as it was, and what it only moves forward.
use godot_mcp.Base.{
  ℕ, zero, suc, ◌≤◌, ◌≡◌, refl, Bool, Option, none, some, List, [], ◌∷◌, arith, Bool-cases,
  Option-cases, inl, inr,
}
use godot_mcp.Stages.{
  Stage, StageState, Timestamps, plugin_init, server_listening, tcp_connected, ws_handshake,
  ordinal, time_of, set_time, advance, note_bind, note_stage, note_tcp, mark_tcp, any_line,
  scan_lines, scan_stage_lines, count_lines, tcp_line, plugin_line, listening_line, handshake_line,
}

-- A later state of the same boot.
pub record Follows (s t : StageState) : Type 0 where
  pub stage_le : ordinal s.stage ≤ ordinal t.stage
  pub count_le : s.tcp_received_count ≤ t.tcp_received_count
  pub times_kept :
      (st : Stage) (n : ℕ) → time_of st s.timestamps ≡ some n → time_of st t.timestamps ≡ some n
  pub bind_kept : (n : ℕ) → s.ws_bind_ok_delay_ms ≡ some n → t.ws_bind_ok_delay_ms ≡ some n

Follows-refl : (s : StageState) → Follows s s
Follows-refl s = record {
  stage_le = omega arith;
  count_le = omega arith;
  times_kept = λ st n h. h;
  bind_kept = λ n h. h;
}

Follows-trans : {s t u : StageState} → Follows s t → Follows t u → Follows s u
Follows-trans f g = record {
  stage_le = omega arith;
  count_le = omega arith;
  times_kept = λ st n h. g.times_kept st n (f.times_kept st n h);
  bind_kept = λ n h. g.bind_kept n (f.bind_kept n h);
}

set_time_keeps :
    (at st : Stage) (now n : ℕ) (t : Timestamps)
    → time_of at t ≡ none
    → time_of st t ≡ some n
    → time_of st (set_time at now t) ≡ some n
set_time_keeps at st now n t e h = ground arith

note_bind-Follows : (ls : List (List ℕ)) (s : StageState) → Follows s (note_bind ls s)
unfolding note_bind
note_bind-Follows ls s = record {
  stage_le = ground arith;
  count_le = ground arith;
  times_kept = λ st n h. ground arith;
  bind_kept = λ n h. ground arith;
}

advance_le : (st current : Stage) → ordinal current ≤ ordinal (advance st current)
advance_le st current = ground arith

-- A milestone that is observed for the first time.
Marks-Follows :
    (at : Stage) (now count : ℕ) (s : StageState)
    → time_of at s.timestamps ≡ none
    → s.tcp_received_count ≤ count
    → Follows s (record s {
      timestamps = set_time at now s.timestamps;
      stage = advance at s.stage;
      tcp_received_count = count;
    })
Marks-Follows at now count s e h = record {
  stage_le = advance_le at s.stage;
  count_le = h;
  times_kept = λ st n k. set_time_keeps at st now n s.timestamps e k;
  bind_kept = λ n k. k;
}

note_stage-Follows :
    (st : Stage) (p : List ℕ → Bool) (now : ℕ) (ls : List (List ℕ)) (s : StageState)
    → Follows s (note_stage st p now ls s)
unfolding note_stage
note_stage-Follows st p now ls s = elim (Option-cases (time_of st s.timestamps)) [
  | inl e ↦ elim (Bool-cases (any_line p ls)) [
    | inl seen ↦
        rw (e, note_stage) (rw seen (Marks-Follows st now s.tcp_received_count s e (omega arith)))
    | inr unseen ↦ rw (e, note_stage) (rw unseen (Follows-refl s))
  ]
  | inr (t, e) ↦ rw (e, note_stage) (Follows-refl s)
]

mark_tcp-Follows :
    (first : Option ℕ) (now n : ℕ) (s : StageState)
    → s.timestamps.at_tcp_connected ≡ first
    → Follows s (mark_tcp first now n s)
unfolding mark_tcp
mark_tcp-Follows (some t) now n s e = record {
  stage_le = omega arith;
  count_le = omega arith;
  times_kept = λ st n h. h;
  bind_kept = λ n h. h;
}
mark_tcp-Follows none now n s e = Marks-Follows tcp_connected now _ s e (omega arith)

note_tcp-Follows : (now n : ℕ) (s : StageState) → Follows s (note_tcp now n s)
unfolding note_tcp
note_tcp-Follows now zero s = Follows-refl s
note_tcp-Follows now (suc n) s = mark_tcp-Follows s.timestamps.at_tcp_connected now (suc n) s refl

scan_lines-Follows :
    (s : StageState) (ls : List (List ℕ)) (now : ℕ) → Follows s (scan_lines s ls now)
unfolding scan_lines
scan_lines-Follows s ls now = Follows-trans (note_bind-Follows ls s) (
    Follows-trans (note_stage-Follows plugin_init plugin_line now ls _) (
      Follows-trans (note_stage-Follows server_listening listening_line now ls _) (
        Follows-trans (note_stage-Follows ws_handshake handshake_line now ls _)
          (note_tcp-Follows now (count_lines tcp_line ls) _))))

-- A scan never moves the stage back, never lowers the count of connections, and never changes a
-- timestamp or a bind delay that is already recorded.
pub scan_stage_lines-Follows :
    (s : StageState) (slice : List ℕ) (now : ℕ) → Follows s (scan_stage_lines s slice now)
unfolding scan_stage_lines
scan_stage_lines-Follows s [] now = Follows-refl s
scan_stage_lines-Follows s (c ∷ slice) now = scan_lines-Follows s _ now
