-- ===== src/Queue/Keeps.antt =====
-- The rejection of the queue leaves the bookkeeping of the spawn and of the warmup as it is.
use godot_mcp.Base.{◌≡◌, refl, ◌∙◌, List, [], ◌∷◌, arith}
use godot_mcp.Message.{Message}
use godot_mcp.State.{Proxy, Failure}
use godot_mcp.Observe.{note_proxy_call_summary}
use godot_mcp.Queue.{reject_call, reject_all, reject_queue}

reject_all-spawning :
    (f : Failure) (ms : List Message) (p : Proxy) → (reject_all f ms p).spawning ≡ p.spawning
unfolding reject_all reject_call note_proxy_call_summary
reject_all-spawning f [] p = refl
reject_all-spawning f (m ∷ ms) p = reject_all-spawning f ms (reject_call f m p) ∙ ground arith

pub reject_queue-spawning : (f : Failure) (p : Proxy) → (reject_queue f p).spawning ≡ p.spawning
unfolding reject_queue
reject_queue-spawning f p = reject_all-spawning f p.pending_calls p

reject_all-warmth :
    (f : Failure) (ms : List Message) (p : Proxy) → (reject_all f ms p).warmth ≡ p.warmth
unfolding reject_all reject_call note_proxy_call_summary
reject_all-warmth f [] p = refl
reject_all-warmth f (m ∷ ms) p = reject_all-warmth f ms (reject_call f m p) ∙ ground arith

pub reject_queue-warmth : (f : Failure) (p : Proxy) → (reject_queue f p).warmth ≡ p.warmth
unfolding reject_queue
reject_queue-warmth f p = reject_all-warmth f p.pending_calls p
