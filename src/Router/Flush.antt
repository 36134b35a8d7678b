-- ===== src/Router/Flush.antt =====
-- launch/proxy/router.mjs: the release of the held calls, and the end of their hold.
-- The loop of `flushQueue` runs on fuel; it is given the length of the queue.
use godot_mcp.Base.{ℕ, zero, suc, true, ◌||◌, List, [], ◌∷◌, length, if◌then◌else◌}
use godot_mcp.Message.{Message}
use godot_mcp.State.{Proxy, Config, queue_rejected}
use godot_mcp.Protocol.{forward_to_npx}
use godot_mcp.Queue.{reject_queue}
use godot_mcp.Router.{Tools}
use godot_mcp.Router.Kinds.{is_ui_inspect_tools_call}
use godot_mcp.Router.Handle.{handle_claude_message}

-- One round of `flushQueue`: the proxy's own tool is handled again, and any other call is forwarded.
unfoldable pub release : Config → Tools → ℕ → Message → Proxy → Proxy
release c t now m p =
    if is_ui_inspect_tools_call m then handle_claude_message c t now m p else forward_to_npx m p

-- `S.pendingCalls.shift()`, and the round for the shifted line.
unfoldable pub release_first : Config → Tools → ℕ → List Message → Proxy → Proxy
release_first c t now [] p = p
release_first c t now (m ∷ ms) p = release c t now m (record p { pending_calls = ms })

-- `flushQueue`, of at most so many rounds.
unfoldable pub flush_rounds : Config → Tools → ℕ → ℕ → Proxy → Proxy
flush_rounds c t now zero p = p
flush_rounds c t now (suc rounds) p =
    flush_rounds c t now rounds (release_first c t now p.pending_calls p)

unfoldable pub flush_queue : Config → Tools → ℕ → Proxy → Proxy
flush_queue c t now p = flush_rounds c t now (length p.pending_calls) p

-- `markNpxTransportReady`
unfoldable pub mark_npx_transport_ready : Config → Tools → ℕ → Proxy → Proxy
mark_npx_transport_ready c t now p =
    let ready = record p { npx = record (p.npx) { npx_transport_ready = true } } in
    if p.warm then flush_queue c t now ready else ready

-- `maybeRejectUnreadyHeld`
unfoldable pub maybe_reject_unready_held : Proxy → Proxy
maybe_reject_unready_held p =
    if p.npx_transport_ready || p.npx_ready_dropped
    then p
    else reject_queue (queue_rejected "unready")
        (record p { npx = record (p.npx) { npx_ready_dropped = true } })
