-- ===== src/Protocol.antt =====
-- launch/proxy/protocol.mjs: the writers to the child and to the client.
use godot_mcp.Base.{Option, List, [], ◌∷◌, ◌++◌, if◌then◌else◌}
use godot_mcp.Message.{CallId, Message}
use godot_mcp.State.{Proxy, written, dropped, sent, emit, error_answer, Failure}

-- Before the pipe opens a line is buffered; with no child it is dropped with a warning.
unfoldable pub forward_to_npx : Message → Proxy → Proxy
forward_to_npx m p =
    if p.npx_open
    then (if p.npx_stdin_ready
        then emit (written m) p
        else record p { npx = record (p.npx) { npx_write_buffer = p.npx_write_buffer ++ m ∷ [] } })
    else emit (dropped m) p

write_all : List Message → Proxy → Proxy
write_all [] p = p
write_all (m ∷ ms) p = write_all ms (emit (written m) p)

unfoldable pub flush_npx_write_buffer : Proxy → Proxy
unfolding write_all
flush_npx_write_buffer p =
    if p.npx_open
    then (if p.npx_stdin_ready
        then write_all p.npx_write_buffer
            (record p { npx = record (p.npx) { npx_write_buffer = [] } })
        else p)
    else p

forward_all : List (CallId × Message) → Proxy → Proxy
unfolding forward_to_npx
forward_all [] p = p
forward_all ((i, m) ∷ ms) p = forward_all ms (forward_to_npx m p)

-- The handshake requests that a dead child did not answer are sent again, in their order.
unfoldable pub replay_handshake : Proxy → Proxy
unfolding forward_all
replay_handshake p = forward_all p.pending_handshake p

-- `sendToClaude(makeErrorResponse(id, …))`
abbrev pub send_error : Option CallId → Failure → Proxy → Proxy
send_error i f p = emit (sent i (error_answer f)) p
