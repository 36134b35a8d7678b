-- ===== src/Forwarder/Restarts.antt =====
-- The restarts of the child, over every sequence of what happens to it and to its responses.
use godot_mcp.Base.{◌++◌}
use godot_mcp.Base.{
  ℕ, String, ◌≤◌, ◌≡◌, refl, Bool, Option, List, [], ◌∷◌, arith, if◌then◌else◌, is_some,
}
use godot_mcp.Forwarder.{Body, ChildResponse, ChildLine, Child, Settings}
use godot_mcp.Forwarder.ToolsCache.{maybe_refresh_tools_cache}
use godot_mcp.Forwarder.Answers.{resume_capture, handle_line}
use godot_mcp.Forwarder.Process.{
  on_stdin_closed, on_stdin_open, on_stdin_drain, on_spawn_error, note_stderr_line,
  note_stderr_lines, on_stderr, split_lines, close_child, respawn_cold, give_up, respawn_hot,
  on_exit, on_cold_timer, on_hot_timer,
}
use godot_mcp.Forwarder.Keeps.{
  hot_restarts, Same, Same-trans, open_transport-Same, start_npx-Same, handle_line-Same,
  close_response-Same,
}

pub data Event : Type 0 where
  exit_seen : ℕ → Event
  cold_timer hot_timer : ℕ → Bool → Event
  stdin_opened stdin_drained : ℕ → Event
  stdin_closed spawn_failed : Event
  stderr_read : String → List ℕ → Event
  line_read : ℕ → ChildLine → Event
  capture_enriched : ℕ → Option Body → ChildResponse → Event

unfoldable pub step : Settings → Event → Child → Child
step s (exit_seen now) k = on_exit s now k
step s (cold_timer now writable) k = on_cold_timer s now writable k
step s (hot_timer now writable) k = on_hot_timer s now writable k
step s (stdin_opened now) k = on_stdin_open s now k
step s (stdin_drained now) k = on_stdin_drain s now k
step s stdin_closed k = on_stdin_closed k
step s spawn_failed k = on_spawn_error k
step s (stderr_read id chunk) k = on_stderr s id chunk k
step s (line_read now line) k = (handle_line s now line k).0
step s (capture_enriched now spliced r) k = resume_capture s now spliced r k

unfoldable pub run : Settings → List Event → Child → Child
run s [] k = k
run s (e ∷ es) k = run s es (step s e k)

-- Every hot restart is counted, and there are three at most.
pub record IsBounded (k : Child) : Type 0 where
  pub counted : hot_restarts k.outputs ≡ k.hot_npx_restarts
  pub few : k.hot_npx_restarts ≤ 3

Same-IsBounded : (k q : Child) → Same k q → IsBounded k → IsBounded q
Same-IsBounded k q same b = ground arith

on_exit-IsBounded : (s : Settings) (now : ℕ) (k : Child) → IsBounded k → IsBounded (on_exit s now k)
unfolding on_exit close_child respawn_cold respawn_hot give_up hot_restarts
on_exit-IsBounded s now k b = ground arith

note_stderr_line-Same :
    (i : String) (line : List ℕ) (k : Child) → Same k (note_stderr_line i line k)
unfolding note_stderr_line maybe_refresh_tools_cache
note_stderr_line-Same i line k = ground arith

note_stderr_lines-Same :
    (i : String) (lines : List (List ℕ)) (k : Child) → Same k (note_stderr_lines i lines k)
unfolding note_stderr_lines
note_stderr_lines-Same i [] k = record { same_count = refl; same_outputs = refl }
note_stderr_lines-Same i (line ∷ lines) k =
    let q = note_stderr_line i line k in
    Same-trans k q (note_stderr_lines i lines q) (note_stderr_line-Same i line k)
      (note_stderr_lines-Same i lines q)

module _ (s : Settings) where
  timer-Same :
      (now : ℕ) (writable : Bool) (k : Child)
      → Same k (on_cold_timer s now writable k) × Same k (on_hot_timer s now writable k)
  unfolding on_cold_timer on_hot_timer
  timer-Same now writable k = ground (arith, start_npx-Same s now writable k)

  stdin-Same :
      (now : ℕ) (k : Child) → Same k (on_stdin_open s now k) × Same k (on_stdin_drain s now k)
  unfolding on_stdin_open on_stdin_drain
  stdin-Same now k = ground (arith, open_transport-Same s now k)

  on_stderr-Same : (i : String) (chunk : List ℕ) (k : Child) → Same k (on_stderr s i chunk k)
  unfolding on_stderr
  on_stderr-Same i chunk k =
      let cut = split_lines (k.err_buf ++ s.decode chunk) in
      let q = record k { err_buf = cut.1 } in
      Same-trans k q (note_stderr_lines i cut.0 q)
        (record { same_count = refl; same_outputs = refl }) (note_stderr_lines-Same i cut.0 q)

  resume_capture-Same :
      (now : ℕ) (spliced : Option Body) (r : ChildResponse) (k : Child)
      → Same k (resume_capture s now spliced r k)
  unfolding resume_capture
  resume_capture-Same now spliced r k =
      close_response-Same s now (if is_some spliced then record r { result = spliced } else r) k

  step-IsBounded : (e : Event) (k : Child) → IsBounded k → IsBounded (step s e k)
  unfolding step on_stdin_closed on_spawn_error
  step-IsBounded (exit_seen now) k b = on_exit-IsBounded s now k b
  step-IsBounded (cold_timer now w) k b = Same-IsBounded k _ (timer-Same now w k).0 b
  step-IsBounded (hot_timer now w) k b = Same-IsBounded k _ (timer-Same now w k).1 b
  step-IsBounded (stdin_opened now) k b = Same-IsBounded k _ (stdin-Same now k).0 b
  step-IsBounded (stdin_drained now) k b = Same-IsBounded k _ (stdin-Same now k).1 b
  step-IsBounded stdin_closed k b = ground arith
  step-IsBounded spawn_failed k b = ground arith
  step-IsBounded (stderr_read i chunk) k b = Same-IsBounded k _ (on_stderr-Same i chunk k) b
  step-IsBounded (line_read now line) k b = Same-IsBounded k _ (handle_line-Same s now line k) b
  step-IsBounded (capture_enriched now spliced r) k b =
      Same-IsBounded k _ (resume_capture-Same now spliced r k) b

  -- From a child whose hot restarts are counted and at most three, every sequence of exits, timers,
  -- events of the streams, responses and enrichments of captures leads to such a child: a child that
  -- dies under a warm editor is restarted three times at most in the life of the proxy.
  pub run-IsBounded : (es : List Event) (k : Child) → IsBounded k → IsBounded (run s es k)
  unfolding run
  run-IsBounded [] k b = b
  run-IsBounded (e ∷ es) k b = run-IsBounded es (step s e k) (step-IsBounded e k b)
