-- ===== src/Router/Settles.antt =====
-- The whole of `handleClaudeMessage` against the account of calls.
use godot_mcp.Base.{
  String, ℕ, ◌+◌, ◌≡◌, ◌∙◌, ap, true, Option, none, some, refl, is_some, arith, str_eq,
  length-append, ◌∷◌, [],
}
use godot_mcp.Message.{CallId, Message}
use godot_mcp.State.{exec_rejected, drag_malformed, Proxy, Config}
use godot_mcp.Router.{Tools, Expanded, malformed, expanded, go, ◌>>=◌, result}
use godot_mcp.Protocol.{forward_to_npx}
use godot_mcp.Json.{get_in, text_of}
use godot_mcp.Router.Kinds.{arguments, CaptureMode, is_handshake_method}
use godot_mcp.Router.Handle.{
  handle_claude_message, track_tools_call, intercept_ui_inspect, expand_call, expand_with, contract,
  track_capture, track_screenshot, screen_exec, reject_source, track_exec, track_get_info,
  track_clocks, track_call, handle_expanded, handle_tools_call, handle_handshake,
}
use godot_mcp.Router.Accounts.{
  settled, Passes, Passes-then, if_settles, forward_settles, gate_settles, refuse_settles,
}

track_tools_call_settles : (m : Message) (p : Proxy) → settled (track_tools_call m p) ≡ settled p
unfolding settled track_tools_call
track_tools_call_settles m p = ground arith

track_call_settles : (now : ℕ) (m : Message) (p : Proxy) → settled (track_call now m p) ≡ settled p
unfolding settled track_call track_exec track_get_info track_clocks track_tools_call
track_call_settles now m p = ground arith

intercept-Passes : (m : Message) (p : Proxy) → Passes (intercept_ui_inspect m p) (settled p)
unfolding settled intercept_ui_inspect track_tools_call
intercept-Passes m p = ground arith

capture-Passes :
    (now : ℕ) (i : CallId) (m : Message) (k : CaptureMode) (p : Proxy)
    → Passes (track_capture now i m k p) (settled p)
unfolding settled track_capture contract
capture-Passes now i m k p = ground arith

screenshot-Passes :
    (now : ℕ) (m : Message) (p : Proxy) → Passes (track_screenshot now m p) (settled p)
unfolding settled track_screenshot track_capture contract
screenshot-Passes now m p = ground arith

module _ (m : Message) (named : is_some m.id ≡ true) where
  reject-Passes : (o : Option String) (p : Proxy) → Passes (reject_source m o p) (settled p)
  unfolding reject_source
  reject-Passes none p = refl
  reject-Passes (some why) p = refuse_settles m (exec_rejected why) p named

  source-Passes :
      (t : Tools) (o : Option String) (p : Proxy)
      → Passes
          (elim o [ none ↦ go p | some source ↦ reject_source m (t.precheck source) p ])
          (settled p)
  source-Passes t none p = refl
  source-Passes t (some source) p = reject-Passes (t.precheck source) p

exec-Passes :
    (t : Tools) (m : Message) (p : Proxy)
    → is_some m.id ≡ true
    → Passes (screen_exec t m p) (settled p)
unfolding settled screen_exec
exec-Passes t m p named =
    ground (arith, source-Passes m named t (text_of (get_in "source" (arguments m))) p)

module _ (c : Config) (t : Tools) (now : ℕ) where
  handle_expanded_settles :
      (m : Message) (p : Proxy)
      → is_some m.id ≡ true
      → settled (handle_expanded c t now m p) ≡ settled p + 1
  unfolding handle_expanded
  handle_expanded_settles m p named =
      Passes-then (track_screenshot now m p) _ (settled p) (settled p) (screenshot-Passes now m p)
        refl
        λ captured e.
          Passes-then (screen_exec t m captured) _ (settled captured) (settled p)
            (exec-Passes t m captured named) e
            λ screened e.
              gate_settles c now m named (track_call now m screened)
              ∙ ap (λ n. n + 1) (track_call_settles now m screened ∙ e)

  expand_settles :
      (m : Message) (x : Expanded) (p : Proxy)
      → t.expand_drag m ≡ x
      → is_some m.id ≡ true
      → settled (result (expand_with m x p >>= λ m'. go (handle_expanded c t now m' p)))
        ≡ settled p + 1
  unfolding expand_with
  expand_settles m (malformed why) p h named = refuse_settles m (drag_malformed why) p named
  expand_settles m (expanded m') p h named =
      handle_expanded_settles m' p (ap (λ i. is_some i) ((t.expand_keeps m h).0) ∙ named)

  handle_tools_call_settles :
      (m : Message) (p : Proxy)
      → is_some m.id ≡ true
      → settled (handle_tools_call c t now m p) ≡ settled p + 1
  unfolding handle_tools_call expand_call
  handle_tools_call_settles m p named =
      Passes-then (intercept_ui_inspect m p) _ (settled p) (settled p) (intercept-Passes m p) refl
        λ routed e. expand_settles m (t.expand_drag m) routed refl named ∙ ap (λ n. n + 1) e

  handle_handshake_settles :
      (m : Message) (p : Proxy) → settled (handle_handshake m p) ≡ settled p + 1
  unfolding settled handle_handshake forward_to_npx
  handle_handshake_settles m p = ground (arith, length-append p.npx_write_buffer (m ∷ []))

  -- For a message with an id, the handler adds one to the answers given or started, the lines handed
  -- to the child, or dropped for want of one, and the lines queued, whichever branch it takes.
  pub handle_claude_message_settles :
      (m : Message) (p : Proxy)
      → is_some m.id ≡ true
      → settled (handle_claude_message c t now m p) ≡ settled p + 1
  unfolding handle_claude_message
  handle_claude_message_settles m p named =
      if_settles (is_handshake_method m.method) _ _ _ (handle_handshake_settles m p) (
        if_settles (str_eq m.method "tools/call") _ _ _ (handle_tools_call_settles m p named)
          (forward_settles m p))
