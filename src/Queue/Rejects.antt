-- ===== src/Queue/Rejects.antt =====
-- What the rejection of the queue answers, and what it leaves.
use godot_mcp.Base.{◌≡◌, refl, List, [], ◌∷◌, is_some, if◌then◌else◌, arith}
use godot_mcp.Message.{Message}
use godot_mcp.State.{Proxy, Failure, Effect, sent, error_answer}
use godot_mcp.Observe.{note_proxy_call_summary}
use godot_mcp.Queue.{reject_call, reject_all, reject_queue}

-- The answers to the lines of a queue, in its order, newest first; a line with no id has none.
unfoldable pub rejections : Failure → List Message → List Effect → List Effect
rejections f [] es = es
rejections f (m ∷ ms) es =
    rejections f ms (if is_some m.id then sent m.id (error_answer f) ∷ es else es)

reject_call-effects :
    (f : Failure) (m : Message) (p : Proxy)
    → (reject_call f m p).effects
      ≡ (if is_some m.id then sent m.id (error_answer f) ∷ p.effects else p.effects)
unfolding reject_call note_proxy_call_summary
reject_call-effects f m p = ground arith

-- The proxy after a rejection.
pub record Rejected (f : Failure) (ms : List Message) (es : List Effect) (q : Proxy) : Type 0 where
  pub queue_empty : q.pending_calls ≡ []
  pub answered : q.effects ≡ rejections f ms es

reject_all-Rejected :
    (f : Failure) (ms : List Message) (es : List Effect) (p : Proxy)
    → p.effects ≡ es
    → Rejected f ms es (reject_all f ms p)
unfolding reject_all rejections
reject_all-Rejected f [] es p traced = record { queue_empty = refl; answered = traced }
reject_all-Rejected f (m ∷ ms) es p traced =
    let rest =
      reject_all-Rejected f ms (if is_some m.id then sent m.id (error_answer f) ∷ es else es)
        (reject_call f m p) (rw (← traced) (reject_call-effects f m p)) in
    record { queue_empty = rest.queue_empty; answered = rest.answered }

-- `rejectQueue` empties the queue, and answers each held call that has an id, once, in the order
-- in which the calls were held.
pub reject_queue_answers :
    (f : Failure) (p : Proxy) → Rejected f p.pending_calls p.effects (reject_queue f p)
unfolding reject_queue
reject_queue_answers f p = reject_all-Rejected f p.pending_calls p.effects p refl
