-- ===== src/Forwarder/Keeps.antt =====
-- What a response leaves of the count of restarts.
use godot_mcp.Base.{◌∙◌, refl}
use godot_mcp.Forwarder.Lines.{◌>>=◌, echo_workdir, open_response, drop_handshake}
use godot_mcp.Forwarder.Answers.{
  append_timeline, ended, settle_call, continue_opened, handle_response, close_response,
}
use godot_mcp.Base.{ℕ, ◌+◌, ◌≡◌, Bool, Option, none, some, List, [], ◌∷◌, arith}
use godot_mcp.Json.{Json}
use godot_mcp.Message.{CallId}
use godot_mcp.Forwarder.{blank, unparsed, parsed}
use godot_mcp.Forwarder.{
  ChildResponse, ChildLine, Child, Settings, Output, hot_respawn_scheduled, unparsed, parsed,
}
use godot_mcp.Forwarder.ToolsCache.{resolve_tools_cache_refresh, publish_tools, write_tools_cache}
use godot_mcp.Forwarder.Lines.{
  Step, stopped, going, awaiting, consume_internal, resolve_waiter, patch_response,
  settle_screenshot, settle_contract, hint_exec,
}
use godot_mcp.Forwarder.Answers.{
  consume_restart, answer_busy, answer_plain, answer_with, answer_call, forget_call, note_gone,
  mark_initialized, drain_if_acquired, settle_by_id, handle_line,
}
use godot_mcp.Forwarder.Process.{open_transport, spawn_child, start_npx}

-- The hot restarts that were scheduled.
unfoldable pub hot_restarts : List Output → ℕ
hot_restarts [] = 0
hot_restarts (hot_respawn_scheduled ms ∷ os) = hot_restarts os + 1
hot_restarts (o ∷ os) = hot_restarts os

pub record Same (k q : Child) : Type 0 where
  pub same_count : q.hot_npx_restarts ≡ k.hot_npx_restarts
  pub same_outputs : hot_restarts q.outputs ≡ hot_restarts k.outputs

abbrev SameStep : Child → Step → Type 0
SameStep k (stopped q) = Same k q
SameStep k (going q r) = Same k q
SameStep k (awaiting q r) = Same k q

module _ (s : Settings) (now : ℕ) where
  pub open_transport-Same : (k : Child) → Same k (open_transport s now k)
  unfolding open_transport
  open_transport-Same k = ground arith

  pub start_npx-Same : (writable : Bool) (k : Child) → Same k (start_npx s now writable k)
  unfolding start_npx spawn_child hot_restarts
  start_npx-Same writable k = ground (arith, open_transport-Same (spawn_child k))

  consume_internal-Same : (r : ChildResponse) (k : Child) → SameStep k (consume_internal s r k)
  unfolding consume_internal resolve_waiter resolve_tools_cache_refresh publish_tools
      write_tools_cache hot_restarts
  consume_internal-Same r k = ground arith

  patch_response-Same : (r : ChildResponse) (k : Child) → Same k (patch_response s r k).0
  unfolding patch_response write_tools_cache hot_restarts
  patch_response-Same r k = ground arith

  settle_screenshot-Same : (r : ChildResponse) (k : Child) → SameStep k (settle_screenshot s r k)
  unfolding settle_screenshot settle_contract
  settle_screenshot-Same r k = ground arith

  hint_exec-Same : (r : ChildResponse) (k : Child) → SameStep k (hint_exec s r k)
  unfolding hint_exec hot_restarts
  hint_exec-Same r k = ground arith

  answer_plain-Same :
      (i : CallId) (r : ChildResponse) (k : Child) → SameStep k (answer_plain s now i r k)
  unfolding answer_plain forget_call drain_if_acquired note_gone mark_initialized
  answer_plain-Same i r k = ground arith

  answer_with-Same :
      (i : CallId) (error : Option Json) (r : ChildResponse) (k : Child)
      → SameStep k (answer_with s now i error r k)
  unfolding answer_with answer_busy forget_call
  answer_with-Same i none r k = answer_plain-Same i r k
  answer_with-Same i (some error) r k = ground (arith, answer_plain-Same i r k)

  consume_restart-Same :
      (i : CallId) (r : ChildResponse) (k : Child) → Same k (consume_restart s now i r k)
  unfolding consume_restart hot_restarts
  consume_restart-Same i r k = ground arith

  settle_by_id-Same :
      (i : Option CallId) (r : ChildResponse) (k : Child) → SameStep k (settle_by_id s now i r k)
  unfolding settle_by_id answer_call
  settle_by_id-Same none r k = ground arith
  settle_by_id-Same (some i) r k =
      ground (arith, consume_restart-Same i r k, answer_with-Same i r.error r k)

pub Same-trans : (k q u : Child) → Same k q → Same q u → Same k u
Same-trans k q u a b = record {
  same_count = b.same_count ∙ a.same_count;
  same_outputs = b.same_outputs ∙ a.same_outputs;
}

SameStep-trans : (k q : Child) (st : Step) → Same k q → SameStep q st → SameStep k st
SameStep-trans k q (stopped u) a b = Same-trans k q u a b
SameStep-trans k q (going u r) a b = Same-trans k q u a b
SameStep-trans k q (awaiting u r) a b = Same-trans k q u a b

bind-Same :
    (k : Child) (st : Step) (f : Child × ChildResponse → Step)
    → SameStep k st
    → ((q : Child) (r : ChildResponse) → SameStep q (f (q, r)))
    → SameStep k (st >>= f)
bind-Same k (stopped q) f a g = a
bind-Same k (going q r) f a g = SameStep-trans k q (f (q, r)) a (g q r)
bind-Same k (awaiting q r) f a g = a

ended-Same : (k : Child) (st : Step) → SameStep k st → Same k (ended st)
unfolding hot_restarts
ended-Same k (stopped q) a = a
ended-Same k (going q r) a = ground arith
ended-Same k (awaiting q r) a = a

module _ (s : Settings) (now : ℕ) where
  echo_workdir-Same : (r : ChildResponse) (k : Child) → Same k (echo_workdir s r k).0
  unfolding echo_workdir
  echo_workdir-Same r k = ground arith

  append_timeline-Same : (r : ChildResponse) (k : Child) → Same k (append_timeline s r k).0
  unfolding append_timeline
  append_timeline-Same r k = ground arith

  settle_call-Same : (r : ChildResponse) (k : Child) → SameStep k (settle_call s now r k)
  unfolding settle_call
  settle_call-Same r k = settle_by_id-Same s now r.id r k

  timed : Child × ChildResponse → Step
  timed t = let appended = append_timeline s t.1 t.0 in going appended.0 appended.1

  timed-Same : (q : Child) (r : ChildResponse) → SameStep q (timed (q, r))
  unfolding timed
  timed-Same q r = append_timeline-Same r q

  settled : Child × ChildResponse → Step
  settled t = settle_call s now t.1 t.0 >>= timed

  settled-Same : (q : Child) (r : ChildResponse) → SameStep q (settled (q, r))
  unfolding settled
  settled-Same q r = bind-Same q (settle_call s now r q) timed (settle_call-Same r q) timed-Same

  pub close_response-Same : (r : ChildResponse) (k : Child) → Same k (close_response s now r k)
  unfolding close_response settled timed
  close_response-Same r k =
      let r' = (echo_workdir s r k).1 in
      let k' = (echo_workdir s r k).0 in
      Same-trans k k' (close_response s now r k) (echo_workdir-Same r k) (
        ended-Same k' (hint_exec s r' k' >>= settled)
          (bind-Same k' (hint_exec s r' k') settled (hint_exec-Same s now r' k') settled-Same))

  screened : Child × ChildResponse → Step
  screened t = settle_screenshot s t.1 (drop_handshake t.1.id t.0)

  screened-Same : (q : Child) (r : ChildResponse) → SameStep q (screened (q, r))
  unfolding screened drop_handshake
  screened-Same q r =
      let dropped = drop_handshake r.id q in
      SameStep-trans q dropped (settle_screenshot s r dropped)
        (record { same_count = refl; same_outputs = refl }) (settle_screenshot-Same s now r dropped)

  patched : Child × ChildResponse → Step
  patched t = let changed = patch_response s t.1 t.0 in going changed.0 changed.1 >>= screened

  patched-Same : (q : Child) (r : ChildResponse) → SameStep q (patched (q, r))
  unfolding patched
  patched-Same q r =
      let changed = patch_response s r q in
      SameStep-trans q changed.0 (screened changed) (patch_response-Same s now r q)
        (screened-Same changed.0 changed.1)

  open_response-Same : (r : ChildResponse) (k : Child) → SameStep k (open_response s r k)
  unfolding open_response patched screened
  open_response-Same r k =
      bind-Same k (consume_internal s r k) patched (consume_internal-Same s now r k) patched-Same

  continue_opened-Same :
      (k : Child) (st : Step) → SameStep k st → Same k (continue_opened s now st).0
  unfolding continue_opened
  continue_opened-Same k (stopped q) a = a
  continue_opened-Same k (going q r) a =
      Same-trans k q (close_response s now r q) a (close_response-Same r q)
  continue_opened-Same k (awaiting q r) a = a

  pub handle_line-Same : (line : ChildLine) (k : Child) → Same k (handle_line s now line k).0
  unfolding handle_line handle_response hot_restarts
  handle_line-Same blank k = ground arith
  handle_line-Same (unparsed line) k = ground arith
  handle_line-Same (parsed r) k =
      continue_opened-Same k (open_response s r k) (open_response-Same r k)
