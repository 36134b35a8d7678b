-- ===== src/Takeover/Cleared.antt =====
-- What the steps of a takeover leave of it.
use godot_mcp.Base.{ℕ, ◌≡◌, refl, ◌∙◌, Option, none, some, List, [], ◌∷◌, arith}
use godot_mcp.Message.{CallId, Message, delete}
use godot_mcp.State.{Proxy, Config, Takeover}
use godot_mcp.Protocol.{forward_to_npx}
use godot_mcp.Takeover.{
  fail_with, drain_with, end_takeover, fail_waiter, fail_waiters, classify_holder, count_timeout,
  fail_takeover, send_probe, dispatch_waiter, dispatch_waiters, drain_takeover_waiters,
}

pub fail_waiters-takeover :
    (is : List CallId) (p : Proxy) → (fail_waiters is p).takeover ≡ p.takeover
unfolding fail_waiters fail_waiter
fail_waiters-takeover [] p = refl
fail_waiters-takeover (i ∷ is) p = fail_waiters-takeover is (fail_waiter i p)

pub count-takeover :
    (c : Config) (p : Proxy) → (count_timeout c (classify_holder p)).takeover ≡ p.takeover
unfolding count_timeout classify_holder
count-takeover c p = ground arith

pub fail_with-takeover :
    (c : Config) (o : Option Takeover) (p : Proxy)
    → p.takeover ≡ o
    → (fail_with c o p).takeover ≡ none
unfolding fail_with
fail_with-takeover c none p h = h
fail_with-takeover c (some t) p h =
    count-takeover c (fail_waiters t.waiters (record p { takeover = none }))
    ∙ fail_waiters-takeover t.waiters (record p { takeover = none })

pub fail-takeover : (c : Config) (p : Proxy) → (fail_takeover c p).takeover ≡ none
unfolding fail_takeover
fail-takeover c p = fail_with-takeover c p.takeover p refl

pub end-takeover : (p : Proxy) → (end_takeover p).takeover ≡ none
unfolding end_takeover
end-takeover p = ground arith

pub send-takeover :
    (now : ℕ) (i : CallId) (line : Message) (t : Takeover) (p : Proxy)
    → (send_probe now i line t p).takeover ≡ some (record t { probe_id = some i; probe_at = now })
unfolding send_probe forward_to_npx
send-takeover now i line t p = ground arith

pub dispatch-takeover : (i : CallId) (p : Proxy) → (dispatch_waiter i p).takeover ≡ p.takeover
unfolding dispatch_waiter forward_to_npx
dispatch-takeover i p = ground arith

pub dispatch_waiters-takeover :
    (is : List CallId) (p : Proxy) → (dispatch_waiters is p).takeover ≡ p.takeover
unfolding dispatch_waiters
dispatch_waiters-takeover [] p = refl
dispatch_waiters-takeover (i ∷ is) p =
    dispatch_waiters-takeover is (dispatch_waiter i p) ∙ dispatch-takeover i p

pub drain_with-takeover :
    (i : CallId) (o : Option Takeover) (p : Proxy)
    → p.takeover ≡ o
    → (drain_with i o p).takeover ≡ none
unfolding drain_with
drain_with-takeover i none p h = h
drain_with-takeover i (some t) p h =
    dispatch_waiters-takeover (delete i t.waiters) (end_takeover p) ∙ end-takeover p

pub drain-takeover : (i : CallId) (p : Proxy) → (drain_takeover_waiters i p).takeover ≡ none
unfolding drain_takeover_waiters
drain-takeover i p = drain_with-takeover i p.takeover p refl
