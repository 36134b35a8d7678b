-- ===== src/Queue.antt =====
-- The FIFO of held calls in launch/proxy/router.mjs: its rejection, and the trackers of one call.
pub mod Rejects
pub mod Keeps
use godot_mcp.Base.{Option, none, some, List, [], ◌∷◌, is_some, if◌then◌else◌}
use godot_mcp.Message.{CallId, Message, delete, map_delete}
use godot_mcp.State.{Proxy, Failure, rejected}
use godot_mcp.Protocol.{send_error}
use godot_mcp.Observe.{note_proxy_call_summary}

-- One round of the loop of `rejectQueue`.
unfoldable pub reject_call : Failure → Message → Proxy → Proxy
reject_call f m p =
    let noted = note_proxy_call_summary rejected m p in
    if is_some m.id then send_error m.id f noted else noted

unfoldable pub reject_all : Failure → List Message → Proxy → Proxy
reject_all f [] p = record p { pending_calls = [] }
reject_all f (m ∷ ms) p = reject_all f ms (reject_call f m p)

unfoldable pub reject_queue : Failure → Proxy → Proxy
reject_queue f p = reject_all f p.pending_calls p

-- `dropToolsCallId`
unfoldable pub drop_tools_call_id : Option CallId → Proxy → Proxy
drop_tools_call_id none p = p
drop_tools_call_id (some i) p = record p {
  calls = record (p.calls) {
    screenshot_call_ids = delete i p.screenshot_call_ids;
    exec_call_ids = delete i p.exec_call_ids;
    tools_call_ids = delete i p.tools_call_ids;
    tools_call_lines = map_delete i p.tools_call_lines;
  };
  npx = record (p.npx) { pending_handshake = map_delete i p.pending_handshake };
}
