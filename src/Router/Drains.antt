-- ===== src/Router/Drains.antt =====
-- The loop of `flushQueue`: when it ends, and what it releases.
use godot_mcp.Base.{
  ℕ, ◌≡◌, refl, true, not, ◌&&◌, ◌∷◌, arith, if◌then◌else◌, str_eq, List, [], length, ◌∙◌, ap,
}
use godot_mcp.Message.{Message}
use godot_mcp.State.{Proxy, Config, Effect, emit, written, ui_inspect_started}
use godot_mcp.Protocol.{forward_to_npx}
use godot_mcp.Router.{Tools}
use godot_mcp.Router.Kinds.{is_ui_inspect_tools_call, is_handshake_method}
use godot_mcp.Router.Handle.{
  handle_claude_message, handle_tools_call, intercept_ui_inspect, handle_handshake,
  track_tools_call,
}
use godot_mcp.Router.Flush.{release, flush_rounds, flush_queue, release_first}

-- A proxy that can hand calls on: warm, with a ready transport and an open pipe.
pub record IsOpen (p : Proxy) : Type 0 where
  pub is_warm : p.warm ≡ true
  pub is_ready : p.npx_transport_ready ≡ true
  pub is_piped : p.npx_open ≡ true
  pub takes_lines : p.npx_stdin_ready ≡ true

-- What the release of a line does: the proxy's own tool is started, and any other line is written.
unfoldable pub release_effect : Message → Effect
release_effect m =
    if is_ui_inspect_tools_call m
      && not (is_handshake_method m.method)
      && str_eq m.method "tools/call"
    then ui_inspect_started m
    else written m

-- The proxy after a release: one effect more, and the same queue.
record Releases (m : Message) (p q : Proxy) : Type 0 where
  effects_grow : q.effects ≡ release_effect m ∷ p.effects
  queue_kept : q.pending_calls ≡ p.pending_calls
  still_open : IsOpen q

forward-Releases :
    (m : Message) (p : Proxy)
    → IsOpen p
    → release_effect m ≡ written m
    → Releases m p (forward_to_npx m p)
unfolding forward_to_npx
forward-Releases m p is_open plain = ground arith

handshake-Releases :
    (m : Message) (p : Proxy)
    → IsOpen p
    → release_effect m ≡ written m
    → Releases m p (handle_handshake m p)
unfolding handle_handshake forward_to_npx
handshake-Releases m p is_open plain = ground arith

inspect_call :
    (c : Config) (t : Tools) (now : ℕ) (m : Message) (p : Proxy)
    → is_ui_inspect_tools_call m ≡ true
    → IsOpen p
    → handle_tools_call c t now m p ≡ emit (ui_inspect_started m) (track_tools_call m p)
unfolding handle_tools_call intercept_ui_inspect
inspect_call c t now m p inspects is_open = ground arith

inspect-Releases :
    (m : Message) (p : Proxy)
    → IsOpen p
    → release_effect m ≡ ui_inspect_started m
    → Releases m p (emit (ui_inspect_started m) (track_tools_call m p))
unfolding track_tools_call
inspect-Releases m p is_open own = ground arith

release-Releases :
    (c : Config) (t : Tools) (now : ℕ) (m : Message) (p : Proxy)
    → IsOpen p
    → Releases m p (release c t now m p)
unfolding release handle_claude_message release_effect
release-Releases c t now m p is_open = ground (
  arith,
  forward-Releases m p is_open,
  handshake-Releases m p is_open,
  inspect_call c t now m p,
  inspect-Releases m p is_open,
)

shift-IsOpen : (ms : List Message) (p : Proxy) → IsOpen p → IsOpen (record p { pending_calls = ms })
shift-IsOpen ms p o = record {
  is_warm = o.is_warm;
  is_ready = o.is_ready;
  is_piped = o.is_piped;
  takes_lines = o.takes_lines;
}

-- The effects of a queue that is released in its order, newest first.
unfoldable pub release_all : List Message → List Effect → List Effect
release_all [] es = es
release_all (m ∷ ms) es = release_all ms (release_effect m ∷ es)

-- The proxy after a flush: an empty queue, and its lines released in their order.
pub record Drained (ms : List Message) (es : List Effect) (q : Proxy) : Type 0 where
  pub queue_empty : q.pending_calls ≡ []
  pub in_order : q.effects ≡ release_all ms es

module _ (c : Config) (t : Tools) (now : ℕ) where
  rounds_drain :
      (ms : List Message) (es : List Effect) (p : Proxy)
      → p.pending_calls ≡ ms
      → p.effects ≡ es
      → IsOpen p
      → Drained ms es (flush_rounds c t now (length ms) p)
  unfolding flush_rounds release_first release_all
  rounds_drain [] es p queue traced is_open = record { queue_empty = queue; in_order = traced }
  rounds_drain (m ∷ ms) es p queue traced is_open = rw queue (
      let first = record p { pending_calls = ms } in
      let released = release-Releases c t now m first (shift-IsOpen ms p is_open) in
      let rest =
        rounds_drain ms (release_effect m ∷ es) (release c t now m first) released.queue_kept
          (released.effects_grow ∙ ap (λ x. release_effect m ∷ x) traced) released.still_open in
      record { queue_empty = rest.queue_empty; in_order = rest.in_order })

  -- The loop of `flushQueue` ends on a proxy that is warm, with a ready transport and an open
  -- pipe: the queue is empty, and each held line was written, or started if it is the proxy's own
  -- tool, in the order in which it was held.
  pub flush_queue_drains :
      (p : Proxy) → IsOpen p → Drained p.pending_calls p.effects (flush_queue c t now p)
  unfolding flush_queue
  flush_queue_drains p is_open = rounds_drain p.pending_calls p.effects p refl refl is_open
