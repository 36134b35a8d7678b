-- ===== src/Restart/Finish.antt =====
-- The one answer of a held restart, and the calls held meanwhile.
use mathlib.Core.Path.{subst}
use godot_mcp.Base.{
  ℕ, String, ◌≡◌, ◌∙◌, ap, sym, refl, none, some, List, [], ◌∷◌, is_some, if◌then◌else◌, arith,
}
use godot_mcp.Message.{Message}
use godot_mcp.State.{
  Proxy, Config, RestartHold, RestartResult, restarted, not_restarted, restart_answer,
  restart_failed, sent, emit, Effect,
}
use godot_mcp.Queue.{drop_tools_call_id}
use godot_mcp.Queue.Rejects.{rejections}
use godot_mcp.Router.{Tools}
use godot_mcp.Router.Drains.{IsOpen, Drained, flush_queue_drains}
use godot_mcp.Restart.{fail_held, fail_all_held, release_held, finish_with, finish_restart_hold}

-- A proxy after a failed restart.
pub record Unrestarted (why : String) (hold : RestartHold) (p q : Proxy) : Type 0 where
  pub no_hold : q.restart_hold ≡ none
  pub queue_empty : q.pending_calls ≡ []
  pub answered :
      q.effects
      ≡ rejections
          (restart_failed why)
          p.pending_calls
          (sent hold.hold_id (restart_answer (not_restarted why)) ∷ p.effects)

fail_held-effects :
    (why : String) (m : Message) (p : Proxy)
    → (fail_held why m p).effects ≡ (
        if is_some m.id
        then sent m.id (godot_mcp.State.error_answer (restart_failed why)) ∷ p.effects
        else p.effects)
unfolding fail_held drop_tools_call_id
fail_held-effects why m p = ground arith

fail_held-hold :
    (why : String) (m : Message) (p : Proxy) → (fail_held why m p).restart_hold ≡ p.restart_hold
unfolding fail_held drop_tools_call_id
fail_held-hold why m p = ground arith

fail_all-effects :
    (why : String) (ms : List Message) (es : List Effect) (p : Proxy)
    → p.effects ≡ es
    → (fail_all_held why ms p).effects ≡ rejections (restart_failed why) ms es
unfolding fail_all_held rejections
fail_all-effects why [] es p e = e
fail_all-effects why (m ∷ ms) es p e =
    fail_all-effects why ms _ (fail_held why m p) (rw (← e) (fail_held-effects why m p))

fail_all-hold :
    (why : String) (ms : List Message) (p : Proxy)
    → ((fail_all_held why ms p).restart_hold ≡ p.restart_hold)
      × ((fail_all_held why ms p).pending_calls ≡ [])
unfolding fail_all_held
fail_all-hold why [] p = (refl, refl)
fail_all-hold why (m ∷ ms) p =
    let rest = fail_all-hold why ms (fail_held why m p) in (rest.0 ∙ fail_held-hold why m p, rest.1)

module _ (c : Config) (t : Tools) (now : ℕ) where
  fail_with-Unrestarted :
      (why : String) (hold : RestartHold) (p : Proxy)
      → Unrestarted why hold p (finish_with c t now (not_restarted why) (some hold) p)
  unfolding finish_with release_held
  fail_with-Unrestarted why hold p =
      let answered =
        emit (sent hold.hold_id (restart_answer (not_restarted why)))
          (record p { restart_hold = none }) in
      let kept = fail_all-hold why p.pending_calls answered in
      record {
        no_hold = kept.0;
        queue_empty = kept.1;
        answered = fail_all-effects why p.pending_calls _ answered refl;
      }

  -- A failed restart answers the held restart call first, then rejects every call held meanwhile
  -- that has an id, in their order; no hold and no held call is left.
  pub failed_restart_answers :
      (why : String) (hold : RestartHold) (p : Proxy)
      → p.restart_hold ≡ some hold
      → Unrestarted why hold p (finish_restart_hold c t now (not_restarted why) p)
  unfolding finish_restart_hold
  failed_restart_answers why hold p e =
      subst (λ o. Unrestarted why hold p (finish_with c t now (not_restarted why) o p)) (sym e)
        (fail_with-Unrestarted why hold p)

  -- A restart that is finished as failed is answered once: finishing it again, with any result,
  -- changes nothing.
  pub finish_once :
      (why : String) (hold : RestartHold) (again : RestartResult) (p : Proxy)
      → p.restart_hold ≡ some hold
      → let q = finish_restart_hold c t now (not_restarted why) p in
        finish_restart_hold c t now again q ≡ q
  unfolding finish_restart_hold finish_with
  finish_once why hold again p e =
      ap (λ o. finish_with c t now again o (finish_restart_hold c t now (not_restarted why) p))
        (failed_restart_answers why hold p e).no_hold

  done_with-Drained :
      (hold : RestartHold) (p : Proxy)
      → IsOpen p
      → Drained p.pending_calls
          (sent hold.hold_id (restart_answer restarted) ∷ p.effects)
          (finish_with c t now restarted (some hold) p)
  unfolding finish_with release_held
  done_with-Drained hold p o =
      flush_queue_drains c t now
        (emit (sent hold.hold_id (restart_answer restarted)) (record p { restart_hold = none }))
        (record {
          is_warm = o.is_warm;
          is_ready = o.is_ready;
          is_piped = o.is_piped;
          takes_lines = o.takes_lines;
        })

  -- A restart that succeeds, on a proxy that is warm, with a ready transport and an open pipe,
  -- answers the held restart call first, and then releases the calls held meanwhile, in their order.
  pub restart_releases :
      (hold : RestartHold) (p : Proxy)
      → p.restart_hold ≡ some hold
      → IsOpen p
      → Drained p.pending_calls
          (sent hold.hold_id (restart_answer restarted) ∷ p.effects)
          (finish_restart_hold c t now restarted p)
  unfolding finish_restart_hold
  restart_releases hold p e o =
      subst
        (λ x.
          Drained p.pending_calls (sent hold.hold_id (restart_answer restarted) ∷ p.effects)
            (finish_with c t now restarted x p))
        (sym e) (done_with-Drained hold p o)
