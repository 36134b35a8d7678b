-- ===== src/Takeover/Waiters.antt =====
-- What becomes of the waiters when a takeover ends.
use godot_mcp.Base.{
  ◌+◌, ◌≡◌, refl, ◌∙◌, ap, true, not, ◌&&◌, none, some, List, [], ◌∷◌, leb, if◌then◌else◌, arith,
}
use godot_mcp.Message.{CallId, Message, delete, map_get}
use godot_mcp.State.{
  Proxy, Config, Takeover, Effect, sent, written, error_answer, takeover_timeout, evict_started,
  self_heal_started,
}
use godot_mcp.Protocol.{forward_to_npx}
use godot_mcp.Takeover.{
  end_takeover, fail_waiter, fail_waiters, classify_holder, count_timeout, fail_with, fail_takeover,
  dispatch_waiter, dispatch_waiters, drain_with, drain_takeover_waiters,
}

-- The answers to waiters that have timed out, in their order, newest first.
unfoldable pub timeouts : List CallId → List Effect → List Effect
timeouts [] es = es
timeouts (i ∷ is) es = timeouts is (sent (some i) (error_answer takeover_timeout) ∷ es)

-- What a timeout starts: the classification of the holder unless one is under way, and the self-heal
-- at the threshold unless one is under way.
unfoldable pub starts : Config → Proxy → List Effect → List Effect
starts c p es =
    let classified = if p.stale_takeover_in_flight then es else evict_started ∷ es in
    if c.takeover_self_heal_enabled
      && leb c.takeover_self_heal_threshold (p.takeover_fail_streak + 1)
      && not p.takeover_self_heal_in_flight
    then self_heal_started ∷ classified
    else classified

-- What the answers leave as it is.
record Untouched (p q : Proxy) : Type 0 where
  spawning_kept : q.spawning ≡ p.spawning
  streak_kept : q.takeover_fail_streak ≡ p.takeover_fail_streak
  heal_kept : q.takeover_self_heal_in_flight ≡ p.takeover_self_heal_in_flight

fail_waiters-Untouched : (is : List CallId) (p : Proxy) → Untouched p (fail_waiters is p)
unfolding fail_waiters fail_waiter
fail_waiters-Untouched [] p = record { spawning_kept = refl; streak_kept = refl; heal_kept = refl }
fail_waiters-Untouched (i ∷ is) p =
    let u = fail_waiters-Untouched is (fail_waiter i p) in
    record { spawning_kept = u.spawning_kept; streak_kept = u.streak_kept; heal_kept = u.heal_kept }

fail_waiters-effects :
    (is : List CallId) (p : Proxy) → (fail_waiters is p).effects ≡ timeouts is p.effects
unfolding fail_waiters fail_waiter timeouts
fail_waiters-effects [] p = refl
fail_waiters-effects (i ∷ is) p = fail_waiters-effects is (fail_waiter i p)

count-effects :
    (c : Config) (p q : Proxy)
    → Untouched p q
    → (count_timeout c (classify_holder q)).effects ≡ starts c p q.effects
unfolding count_timeout classify_holder starts
count-effects c p q u =
    let s = u.spawning_kept in let k = u.streak_kept in let h = u.heal_kept in ground arith

fail_with-effects :
    (c : Config) (t : Takeover) (p : Proxy)
    → (fail_with c (some t) p).effects ≡ starts c p (timeouts t.waiters p.effects)
unfolding fail_with
fail_with-effects c t p =
    let gone = record p { takeover = none } in
    let u = fail_waiters-Untouched t.waiters gone in
    count-effects c p (fail_waiters t.waiters gone) (record {
      spawning_kept = u.spawning_kept;
      streak_kept = u.streak_kept;
      heal_kept = u.heal_kept;
    })
    ∙ ap (starts c p) (fail_waiters-effects t.waiters gone)

-- A takeover that fails answers each of its waiters with one timeout error, in the order in which
-- they came; it then starts the classification of the holder unless one is under way, and the
-- self-heal exactly when it is enabled, the streak of timeouts reaches the threshold, and none is
-- under way.
pub fail_takeover_answers :
    (c : Config) (t : Takeover) (p : Proxy)
    → p.takeover ≡ some t
    → (fail_takeover c p).effects ≡ starts c p (timeouts t.waiters p.effects)
unfolding fail_takeover
fail_takeover_answers c t p e = ap (λ o. (fail_with c o p).effects) e ∙ fail_with-effects c t p

-- The lines of waiters, in their order, written to the child, newest first.
unfoldable pub redispatched : List (CallId × Message) → List CallId → List Effect → List Effect
redispatched lines [] es = es
redispatched lines (i ∷ is) es =
    redispatched lines is (elim (map_get i lines) [ none ↦ es | some line ↦ written line ∷ es ])

-- A proxy whose child takes lines.
pub record IsPiped (p : Proxy) : Type 0 where
  pub is_open : p.npx_open ≡ true
  pub takes_lines : p.npx_stdin_ready ≡ true

record Dispatched (i : CallId) (p q : Proxy) : Type 0 where
  wrote : q.effects ≡ elim (map_get i p.tools_call_lines) [
    | none ↦ p.effects
    | some line ↦ written line ∷ p.effects
  ]
  lines_kept : q.tools_call_lines ≡ p.tools_call_lines
  piped : IsPiped q

dispatch-Dispatched : (i : CallId) (p : Proxy) → IsPiped p → Dispatched i p (dispatch_waiter i p)
unfolding dispatch_waiter forward_to_npx
dispatch-Dispatched i p h = ground arith

dispatch_waiters-effects :
    (is : List CallId) (p : Proxy)
    → IsPiped p
    → (dispatch_waiters is p).effects ≡ redispatched p.tools_call_lines is p.effects
unfolding dispatch_waiters redispatched
dispatch_waiters-effects [] p h = refl
dispatch_waiters-effects (i ∷ is) p h =
    let d = dispatch-Dispatched i p h in
    dispatch_waiters-effects is (dispatch_waiter i p) d.piped ∙ rw (d.lines_kept, d.wrote)

-- The end of a takeover leaves the trace, the lines and the pipe as they are.
end_takeover-IsPiped :
    (p : Proxy)
    → IsPiped p
    → ((end_takeover p).effects ≡ p.effects)
      × ((end_takeover p).tools_call_lines ≡ p.tools_call_lines)
      × IsPiped (end_takeover p)
unfolding end_takeover
end_takeover-IsPiped p h = ground arith

drain_with-effects :
    (ready : CallId) (t : Takeover) (p : Proxy)
    → IsPiped p
    → (drain_with ready (some t) p).effects
      ≡ redispatched p.tools_call_lines (delete ready t.waiters) p.effects
unfolding drain_with
drain_with-effects ready t p h =
    let (wrote, lines, piped) = end_takeover-IsPiped p h in
    dispatch_waiters-effects (delete ready t.waiters) (end_takeover p) piped ∙ rw (lines, wrote)

-- When a waiter's answer shows that the slot is acquired, every other waiter whose line is kept is
-- written to the child once, in the order in which they came; the child takes lines.
pub drain_redispatches :
    (ready : CallId) (t : Takeover) (p : Proxy)
    → p.takeover ≡ some t
    → IsPiped p
    → (drain_takeover_waiters ready p).effects
      ≡ redispatched p.tools_call_lines (delete ready t.waiters) p.effects
unfolding drain_takeover_waiters
drain_redispatches ready t p e h =
    ap (λ o. (drain_with ready o p).effects) e ∙ drain_with-effects ready t p h
