-- ===== src/Takeover/Driven.antt =====
-- A takeover is driven by exactly one of its timer and its probe.
use mathlib.Core.Path.{subst}
use godot_mcp.Base.{
  ℕ, ◌≡◌, refl, Bool, true, false, not, ◌&&◌, Option, none, some, List, [], ◌∷◌, ◌++◌, leb,
  if◌then◌else◌, arith,
}
use godot_mcp.Message.{CallId, null_id, number, text, Message, add, delete, map_get}
use godot_mcp.State.{Proxy, Config, Takeover}
use godot_mcp.Takeover.Cleared.{fail-takeover, end-takeover, send-takeover, drain-takeover}
use godot_mcp.Takeover.{
  busy_with, attempt_with, probe_line, probe_waiters, keep, in_flight, is_probe, armed_for,
  enter_takeover_waiter, probe_first, attempt_probe, attempt_takeover_probe, fire_timer,
  drain_takeover_waiters, lose_probe, receive_busy,
}

-- An id that is not null.
unfoldable pub is_named : CallId → Bool
is_named null_id = false
is_named (number n) = true
is_named (text s) = true

unfoldable pub all_named : List CallId → Bool
all_named [] = true
all_named (i ∷ is) = is_named i && all_named is

-- The timer is to fire exactly when no probe is in flight, it then has its handle, and no waiter is
-- the null id.
pub record IsDrivenBy (t : Takeover) : Type 0 where
  pub driven : t.timer_pending ≡ not (in_flight t.probe_id)
  pub handled : t.timer_pending ≡ true → t.timer_set ≡ true
  pub named : all_named t.waiters ≡ true

unfoldable pub IsDriven : Option Takeover → Type 0
IsDriven none = Unit
IsDriven (some t) = IsDrivenBy t

all_named-append :
    (is : List CallId) (i : CallId)
    → all_named is ≡ true
    → is_named i ≡ true
    → all_named (is ++ i ∷ []) ≡ true
unfolding all_named
all_named-append [] i h n = ground arith
all_named-append (j ∷ is) i h n = let rest = all_named-append is i in ground arith

all_named-add :
    (i : CallId) (is : List CallId)
    → all_named is ≡ true
    → is_named i ≡ true
    → all_named (add i is) ≡ true
unfolding add
all_named-add i is h n = ground (arith, all_named-append is i h n)

all_named-delete :
    (i : CallId) (is : List CallId) → all_named is ≡ true → all_named (delete i is) ≡ true
unfolding all_named delete
all_named-delete i [] h = refl
all_named-delete i (j ∷ is) h = let rest = all_named-delete i is in ground arith

armed-IsDrivenBy :
    (c : Config) (now : ℕ) (t : Option Takeover) → IsDriven t → IsDrivenBy (armed_for c now t)
unfolding armed_for IsDriven in_flight all_named
armed-IsDrivenBy c now none h = record { driven = refl; handled = λ e. refl; named = refl }
armed-IsDrivenBy c now (some t) h =
    let d = h.driven in let k = h.handled in let n = h.named in ground arith

enter-IsDriven :
    (c : Config) (now : ℕ) (i : CallId) (p : Proxy)
    → is_named i ≡ true
    → IsDriven p.takeover
    → IsDriven (enter_takeover_waiter c now i p).takeover
unfolding enter_takeover_waiter IsDriven
enter-IsDriven c now i p n h =
    let t = armed_for c now p.takeover in
    let d = armed-IsDrivenBy c now p.takeover h in
    record { driven = d.driven; handled = d.handled; named = all_named-add i t.waiters d.named n }

named_in_flight : (i : CallId) → is_named i ≡ true → in_flight (some i) ≡ true
unfolding is_named in_flight
named_in_flight null_id h = cc
named_in_flight (number n) h = refl
named_in_flight (text s) h = refl

if_IsDriven :
    (b : Bool) (x y : Proxy)
    → IsDriven x.takeover
    → IsDriven y.takeover
    → IsDriven (if b then x else y).takeover
if_IsDriven true x y h k = h
if_IsDriven false x y h k = k

-- A takeover whose timer has fired, with no probe in flight.
record IsFired (t : Takeover) : Type 0 where
  spent : t.timer_pending ≡ false
  idle : in_flight t.probe_id ≡ false
  all : all_named t.waiters ≡ true

none-IsDriven : (o : Option Takeover) → o ≡ none → IsDriven o
unfolding IsDriven
none-IsDriven o h = rw h tt

some-IsDriven : (o : Option Takeover) (t : Takeover) → o ≡ some t → IsDrivenBy t → IsDriven o
unfolding IsDriven
some-IsDriven o t h d = rw h d

line-IsDriven :
    (now : ℕ) (i : CallId) (o : Option Message) (t : Takeover) (p : Proxy)
    → IsFired t
    → is_named i ≡ true
    → IsDriven (probe_line now i o t p).takeover
unfolding probe_line
line-IsDriven now i none t p f n = some-IsDriven _ _ refl (record {
  driven = ground (arith, f.idle);
  handled = λ e. refl;
  named = all_named-delete i t.waiters f.all;
})
line-IsDriven now i (some line) t p f n = some-IsDriven _ _ (send-takeover now i line t p) (record {
  driven = ground (arith, f.spent, named_in_flight i n);
  handled = λ e. ground (arith, f.spent);
  named = f.all;
})

waiters-IsDriven :
    (now : ℕ) (is : List CallId) (t : Takeover) (p : Proxy)
    → IsFired t
    → all_named is ≡ true
    → IsDriven (probe_waiters now is t p).takeover
unfolding probe_waiters all_named
waiters-IsDriven now [] t p f n = none-IsDriven _ (end-takeover p)
waiters-IsDriven now (i ∷ is) t p f n =
    line-IsDriven now i (map_get i p.tools_call_lines) t p f (ground arith)

first-IsDriven :
    (now : ℕ) (t : Takeover) (p : Proxy) → IsFired t → IsDriven (probe_first now t p).takeover
unfolding probe_first
first-IsDriven now t p f = waiters-IsDriven now t.waiters t p f f.all

-- The firing of the timer finds no probe in flight.
fired :
    (t : Takeover)
    → IsDrivenBy t
    → t.timer_pending ≡ true
    → IsFired (record t { timer_pending = false })
fired t d h = record { spent = refl; idle = ground (arith, d.driven); all = d.named }

attempt-IsDriven :
    (c : Config) (now : ℕ) (t : Takeover) (p : Proxy)
    → IsFired t
    → IsDriven (attempt_probe c now t p).takeover
unfolding attempt_probe
attempt-IsDriven c now t p f = rw f.idle (
    if_IsDriven (leb t.takeover_deadline now) _ _ (none-IsDriven _ (fail-takeover c p))
      (first-IsDriven now t p f))

fire_timer-IsDriven :
    (c : Config) (now : ℕ) (t : Takeover) (p : Proxy)
    → IsDrivenBy t
    → t.timer_pending ≡ true
    → IsDriven (fire_timer c now t p).takeover
unfolding fire_timer attempt_takeover_probe attempt_with
fire_timer-IsDriven c now t p d h =
    attempt-IsDriven c now (record t { timer_pending = false })
      (keep (record t { timer_pending = false }) p) (fired t d h)

lose-IsDriven :
    (c : Config) (now : ℕ) (t : Takeover) (p : Proxy)
    → IsDrivenBy t
    → IsDriven (lose_probe c now t p).takeover
unfolding lose_probe in_flight
lose-IsDriven c now t p d =
    if_IsDriven (leb t.takeover_deadline now) _ _ (none-IsDriven _ (fail-takeover c _))
      (some-IsDriven _ _ refl (record { driven = refl; handled = λ e. refl; named = d.named }))

busy-IsDriven :
    (c : Config) (now : ℕ) (i : CallId) (o : Option Takeover) (p : Proxy)
    → is_named i ≡ true
    → p.takeover ≡ o
    → IsDriven o
    → IsDriven (busy_with c now i o p).takeover
unfolding busy_with IsDriven
busy-IsDriven c now i none p n e d = enter-IsDriven c now i p n (none-IsDriven _ e)
busy-IsDriven c now i (some t) p n e d =
    if_IsDriven (is_probe i t) _ _ (lose-IsDriven c now t p d)
      (enter-IsDriven c now i p n (some-IsDriven _ t e d))

receive_busy-IsDriven :
    (c : Config) (now : ℕ) (i : CallId) (p : Proxy)
    → is_named i ≡ true
    → IsDriven p.takeover
    → IsDriven (receive_busy c now i p).takeover
unfolding receive_busy
receive_busy-IsDriven c now i p n d = busy-IsDriven c now i p.takeover _ n refl d

-- The states of a takeover: none, and those that busy responses to named calls, the firing of a
-- pending timer, answers that end the wait, and steps of other parts of the proxy lead to.
pub data Reached (c : Config) : Proxy → Type 0 where
  idle : (p : Proxy) → p.takeover ≡ none → Reached c p
  busy :
      (p : Proxy) (now : ℕ) (i : CallId)
      → is_named i ≡ true
      → Reached c p
      → Reached c (receive_busy c now i p)
  timed :
      (p : Proxy) (now : ℕ) (t : Takeover)
      → p.takeover ≡ some t
      → t.timer_pending ≡ true
      → Reached c p
      → Reached c (fire_timer c now t p)
  elsewhere : (p q : Proxy) → q.takeover ≡ p.takeover → Reached c p → Reached c q
  drained : (p : Proxy) (i : CallId) → Reached c p → Reached c (drain_takeover_waiters i p)

by_IsDriven : (o : Option Takeover) (t : Takeover) → o ≡ some t → IsDriven o → IsDrivenBy t
unfolding IsDriven
by_IsDriven o t e d = subst IsDriven e d

Reached-IsDriven : (c : Config) {p : Proxy} → Reached c p → IsDriven p.takeover
Reached-IsDriven c (idle p e) = none-IsDriven _ e
Reached-IsDriven c (busy p now i n r) = receive_busy-IsDriven c now i p n (Reached-IsDriven c r)
Reached-IsDriven c (timed p now t e h r) =
    fire_timer-IsDriven c now t p (by_IsDriven p.takeover t e (Reached-IsDriven c r)) h
Reached-IsDriven c (elsewhere p q e r) = rw e (Reached-IsDriven c r)
Reached-IsDriven c (drained p i r) = none-IsDriven _ (drain-takeover i p)

-- While a takeover waits, either its timer is still to fire or a probe is in flight, and never both:
-- the states are those that busy responses, timer firings, answers and steps of other parts
-- reach, for calls whose id is not null.
pub timer_or_probe :
    (c : Config) {p : Proxy} (t : Takeover)
    → Reached c p
    → p.takeover ≡ some t
    → t.timer_pending ≡ not (in_flight t.probe_id)
timer_or_probe c {p} t r e = (by_IsDriven p.takeover t e (Reached-IsDriven c r)).driven
