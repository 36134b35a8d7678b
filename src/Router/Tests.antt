-- ===== src/Router/Tests.antt =====
-- The theorems of the router at concrete inputs.
use godot_mcp.Base.{◌≡◌, ◌+◌, ◌&&◌, ◌||◌, not, refl, is_some, [], ◌∷◌, false}
use godot_mcp.State.{Proxy}
use godot_mcp.Router.Kinds.{is_restart_tools_call}
use godot_mcp.Router.Gate.{gate}
use godot_mcp.Router.Handle.{handle_claude_message}
use godot_mcp.Router.Flush.{flush_queue, flush_rounds}
use godot_mcp.Router.Accounts.{settled}
use godot_mcp.Router.Settles.{handle_claude_message_settles}
use godot_mcp.Router.Hands.{handed, count, gate_hands}
use godot_mcp.Json.{get}
use godot_mcp.Router.Stuck.{IsUnready, IsInspect, flush_stuck}
use godot_mcp.Router.Drains.{IsOpen, Drained, flush_queue_drains}
use godot_mcp.Samples.{config, fresh, warmed, node_call, inspect_call, plain_tools}

handle_claude_message_settles_example :
    settled (handle_claude_message config plain_tools 50 node_call fresh) ≡ settled fresh + 1
handle_claude_message_settles_example =
    handle_claude_message_settles config plain_tools 50 node_call fresh refl

gate_hands_example :
    handed (gate config 50 node_call warmed)
    ≡ handed warmed
      + count (
          warmed.warm
          && not (is_some warmed.restart_hold)
          && (is_restart_tools_call node_call || warmed.npx_transport_ready))
gate_hands_example = gate_hands config 50 node_call warmed

abbrev holding : Proxy
holding = record warmed { pending_calls = node_call ∷ inspect_call ∷ [] }

holding-IsOpen : IsOpen holding
holding-IsOpen = record { is_warm = refl; is_ready = refl; is_piped = refl; takes_lines = refl }

flush_queue_drains_example :
    Drained (node_call ∷ inspect_call ∷ []) [] (flush_queue config plain_tools 50 holding)
flush_queue_drains_example = flush_queue_drains config plain_tools 50 holding holding-IsOpen

abbrev unready : Proxy
unready = record holding {
  npx = record (holding.npx) { npx_transport_ready = false };
  pending_calls = inspect_call ∷ [];
}

unready-IsUnready : IsUnready unready
unready-IsUnready = record { is_warm = refl; unready = refl; no_restart = refl }

inspect_call-IsInspect : IsInspect inspect_call
unfolding get
inspect_call-IsInspect = record { called = refl; inspects = refl }

flush_stuck_example :
    (flush_rounds config plain_tools 50 9 unready).pending_calls ≡ inspect_call ∷ []
flush_stuck_example =
    flush_stuck inspect_call inspect_call-IsInspect config plain_tools 50 refl 9 unready
      unready-IsUnready refl
