-- ===== src/Router/Stuck.antt =====
-- A held call of the proxy's own tool, while the transport is not ready.
use godot_mcp.Base.{
  str_eq, ℕ, zero, suc, ◌≡◌, refl, true, false, some, none, List, [], ◌∷◌, ◌++◌, arith,
}
use godot_mcp.Json.{str}
use godot_mcp.Message.{Message, add}
use godot_mcp.State.{Proxy, Config}
use godot_mcp.Router.{Tools, expanded, go}
use godot_mcp.Router.Gate.{gate, warm_gate}
use godot_mcp.Router.Handle.{
  handle_claude_message, handle_tools_call, intercept_ui_inspect, expand_call, expand_with,
  handle_expanded, track_screenshot, screen_exec, track_call, track_exec, track_get_info,
  track_clocks, track_tools_call,
}
use godot_mcp.Router.Flush.{release, release_first, flush_rounds}
use godot_mcp.Router.Kinds.{
  tool_name, is_ui_inspect_tools_call, is_screenshot_tools_call, is_exec_tools_call,
  is_restart_tools_call, is_handshake_method,
}

-- A call of `godot_ui_inspect`.
pub record IsInspect (m : Message) : Type 0 where
  pub called : m.method ≡ "tools/call"
  pub inspects : tool_name m ≡ some (str "godot_ui_inspect")

-- A warm proxy whose transport is not ready, with no restart under way.
pub record IsUnready (p : Proxy) : Type 0 where
  pub is_warm : p.warm ≡ true
  pub unready : p.npx_transport_ready ≡ false
  pub no_restart : p.restart_hold ≡ none

emptied : (p : Proxy) → IsUnready p → IsUnready (record p { pending_calls = [] })
emptied p u = record { is_warm = u.is_warm; unready = u.unready; no_restart = u.no_restart }

module _ (m : Message) (call : IsInspect m) where
  inspect_is_ui : is_ui_inspect_tools_call m ≡ true
  unfolding is_ui_inspect_tools_call
  inspect_is_ui = rw call.inspects refl

  inspect_no_screenshot : is_screenshot_tools_call m ≡ false
  unfolding is_screenshot_tools_call
  inspect_no_screenshot = rw call.inspects refl

  inspect_no_exec : is_exec_tools_call m ≡ false
  unfolding is_exec_tools_call
  inspect_no_exec = rw call.inspects refl

  inspect_no_restart : is_restart_tools_call m ≡ false
  unfolding is_restart_tools_call
  inspect_no_restart = rw call.inspects refl

  inspect_no_handshake : is_handshake_method m.method ≡ false
  unfolding is_handshake_method
  inspect_no_handshake = rw call.called refl

  inspect_is_call : str_eq m.method "tools/call" ≡ true
  inspect_is_call = rw call.called refl

  inspect_passes_screenshot : (now : ℕ) (p : Proxy) → track_screenshot now m p ≡ go p
  unfolding track_screenshot
  inspect_passes_screenshot now p = let plain = inspect_no_screenshot in ground arith

  inspect_passes_exec : (t : Tools) (p : Proxy) → screen_exec t m p ≡ go p
  unfolding screen_exec
  inspect_passes_exec t p = let plain = inspect_no_exec in ground arith

  -- The call's id among those that are answered once warm.
  abbrev marked : Proxy → Proxy
  marked p = elim m.id [
    | none ↦ p
    | some i ↦ record p {
      calls = record (p.calls) { ui_inspect_call_ids = add i p.ui_inspect_call_ids };
    }
  ]

  inspect_passes_intercept : (p : Proxy) → IsUnready p → intercept_ui_inspect m p ≡ go (marked p)
  unfolding intercept_ui_inspect
  inspect_passes_intercept p u = let own = inspect_is_ui in ground arith

  -- A proxy that is still unready, with a queue.
  abbrev Holds : List Message → Proxy → Type 0
  Holds ms q = IsUnready q × (q.pending_calls ≡ ms)

  marked-Holds : (ms : List Message) (p : Proxy) → Holds ms p → Holds ms (marked p)
  marked-Holds ms p h = ground arith

  tracked-Holds :
      (now : ℕ) (ms : List Message) (p : Proxy) → Holds ms p → Holds ms (track_call now m p)
  unfolding track_call track_exec track_get_info track_clocks track_tools_call
  tracked-Holds now ms p h = ground arith

  gate-Holds :
      (c : Config) (now : ℕ) (ms : List Message) (p : Proxy)
      → Holds ms p
      → Holds (ms ++ m ∷ []) (gate c now m p)
  unfolding gate warm_gate
  gate-Holds c now ms p h = let plain = inspect_no_restart in ground arith

  expanded-Holds :
      (c : Config) (t : Tools) (now : ℕ) (ms : List Message) (p : Proxy)
      → Holds ms p
      → Holds (ms ++ m ∷ []) (handle_expanded c t now m p)
  unfolding handle_expanded
  expanded-Holds c t now ms p h =
      rw (inspect_passes_screenshot now p, inspect_passes_exec t p)
        (gate-Holds c now ms (track_call now m p) (tracked-Holds now ms p h))

  module _ (c : Config) (t : Tools) (now : ℕ) (plain : t.expand_drag m ≡ expanded m) where
    call-Holds :
        (ms : List Message) (p : Proxy)
        → Holds ms p
        → Holds (ms ++ m ∷ []) (handle_tools_call c t now m p)
    unfolding handle_tools_call expand_call expand_with
    call-Holds ms p h =
        rw (inspect_passes_intercept p h.0, plain)
          (expanded-Holds c t now ms (marked p) (marked-Holds ms p h))

    release-Holds :
        (ms : List Message) (p : Proxy) → Holds ms p → Holds (ms ++ m ∷ []) (release c t now m p)
    unfolding release handle_claude_message
    release-Holds ms p h =
        rw (inspect_is_ui, inspect_no_handshake, inspect_is_call) (call-Holds ms p h)

    -- The loop of `flushQueue` does not end on a held call of the proxy's own tool while the
    -- transport is not ready: after any number of rounds the queue is the same. The proxy is warm,
    -- no restart is under way, and the call has no drag entries to expand.
    pub flush_stuck :
        (rounds : ℕ) (p : Proxy)
        → IsUnready p
        → p.pending_calls ≡ m ∷ []
        → (flush_rounds c t now rounds p).pending_calls ≡ m ∷ []
    unfolding flush_rounds release_first
    flush_stuck zero p u h = h
    flush_stuck (suc rounds) p u h =
        let q = release c t now m (record p { pending_calls = [] }) in
        let held = release-Holds [] (record p { pending_calls = [] }) (emptied p u, refl) in
        rw h (flush_stuck rounds q held.0 held.1)
