-- ===== src/Spawn/Failures.antt =====
-- The streak of failures in one bucket, and what a failure leaves behind.
use godot_mcp.Base.{
  if◌then◌else◌, Bool, ℕ, ◌+◌, ◌≡◌, refl, ◌∙◌, true, false, arith, List, [], ◌∷◌, String, leb,
}
use godot_mcp.State.{Proxy, Config, SpawnError, queue_rejected, Failure}
use godot_mcp.Message.{Message}
use godot_mcp.Observe.{record_proxy_transition}
use godot_mcp.Queue.{reject_call, reject_all, reject_queue}
use godot_mcp.Spawn.{
  give_up_and_rearm, spawn_backoff_ms, start_render_stable_monitor, record_state, bucket_of,
  exhaust_streak, arm_backoff, handle_spawn_failure, maybe_escalate_dead_holder_evict,
  count_failure, is_bucket,
}
use godot_mcp.Queue.Keeps.{reject_queue-spawning}

reject_all-pending :
    (f : Failure) (ms : List Message) (p : Proxy) → (reject_all f ms p).pending_calls ≡ []
unfolding reject_all
reject_all-pending f [] p = refl
reject_all-pending f (m ∷ ms) p = reject_all-pending f ms (reject_call f m p)

reject_queue-pending : (f : Failure) (p : Proxy) → (reject_queue f p).pending_calls ≡ []
unfolding reject_queue
reject_queue-pending f p = reject_all-pending f p.pending_calls p

give_up-streak :
    (c : Config) (now : ℕ) (e : SpawnError) (p : Proxy)
    → (give_up_and_rearm c now e p).spawn_failed_streak ≡ p.spawn_failed_streak
unfolding give_up_and_rearm record_proxy_transition record_state start_render_stable_monitor
give_up-streak c now e p = ground arith

-- A give-up: the cooldown runs from now, and no round is under way.
pub record GivenUp (now : ℕ) (p q : Proxy) : Type 0 where
  pub armed : q.give_up_armed_at ≡ now
  pub counted : q.give_up_count ≡ p.give_up_count + 1
  pub not_terminal : q.spawn_terminal ≡ false
  pub not_triggered : q.spawn_triggered ≡ false
  pub not_in_flight : q.spawn_in_flight ≡ false

-- A backoff: the next attempt waits, and no round is under way.
pub record BackedOff (c : Config) (now : ℕ) (p q : Proxy) : Type 0 where
  pub waits : q.spawn_backoff_until ≡ now + spawn_backoff_ms c q.spawn_failed_streak
  pub count_kept : q.give_up_count ≡ p.give_up_count
  pub terminal_kept : q.spawn_terminal ≡ p.spawn_terminal
  pub not_triggered : q.spawn_triggered ≡ false
  pub not_in_flight : q.spawn_in_flight ≡ false

give_up-GivenUp :
    (c : Config) (now : ℕ) (e : SpawnError) (p : Proxy)
    → GivenUp now p (give_up_and_rearm c now e p)
unfolding give_up_and_rearm record_proxy_transition record_state start_render_stable_monitor
give_up-GivenUp c now e p = ground arith

give_up-keeps :
    (c : Config) (now : ℕ) (e : SpawnError) (p : Proxy)
    → let q = give_up_and_rearm c now e p in
      (q.pending_calls ≡ p.pending_calls)
      × (q.spawn_last_failed ≡ true)
      × (q.spawn_failed_streak ≡ p.spawn_failed_streak)
unfolding give_up_and_rearm record_proxy_transition record_state start_render_stable_monitor
give_up-keeps c now e p = ground arith

-- A proxy that has handled a failure in a streak: nothing is held, and the next call gets the
-- diagnostic.
pub record Settled (streak : ℕ) (q : Proxy) : Type 0 where
  pub queue_empty : q.pending_calls ≡ []
  pub diagnosed : q.spawn_last_failed ≡ true
  pub streak_kept : q.spawn_failed_streak ≡ streak

exhaust-Settled :
    (c : Config) (now : ℕ) (e : SpawnError) (p : Proxy)
    → Settled p.spawn_failed_streak (exhaust_streak c now e p)
unfolding exhaust_streak record_proxy_transition
exhaust-Settled c now e p =
    let f = queue_rejected "FAILED_CLEAN" in
    ground (
      arith,
      reject_queue-spawning f p,
      reject_queue-pending f p,
      give_up-keeps c now (record { bucket = bucket_of e; detail = e.detail }) (reject_queue f p),
    )

arm-Settled :
    (c : Config) (now : ℕ) (e : SpawnError) (p : Proxy)
    → Settled p.spawn_failed_streak (arm_backoff c now e p)
      × BackedOff c now p (arm_backoff c now e p)
unfolding arm_backoff
arm-Settled c now e p =
    let armed = record p {
      spawning = record (p.spawning) {
        spawn_backoff_until = now + spawn_backoff_ms c p.spawn_failed_streak;
        spawn_last_failed = true;
      };
    } in
    let f = queue_rejected "spawn_failed" in
    ground (arith, reject_queue-spawning f armed, reject_queue-pending f armed)

escalate-keeps :
    (b : String) (n : ℕ) (p : Proxy)
    → let q = maybe_escalate_dead_holder_evict b n p in
      (q.spawn_failed_streak ≡ p.spawn_failed_streak)
      × (q.give_up_count ≡ p.give_up_count)
      × (q.spawn_terminal ≡ p.spawn_terminal)
unfolding maybe_escalate_dead_holder_evict
escalate-keeps b n p = ground arith

-- The streak after one more failure.
abbrev pub next_streak : SpawnError → Proxy → ℕ
next_streak err p =
    if is_bucket (bucket_of err) p.spawn_failed_bucket then p.spawn_failed_streak + 1 else 1

counted-keeps :
    (e : SpawnError) (p : Proxy)
    → let q = count_failure e p in
      (q.spawn_failed_streak ≡ next_streak e p)
      × (q.give_up_count ≡ p.give_up_count)
      × (q.spawn_terminal ≡ p.spawn_terminal)
unfolding count_failure
counted-keeps e p = ground arith

if_Settled :
    (b : Bool) (x y : Proxy) (n : ℕ) → Settled n x → Settled n y → Settled n (if b then x else y)
if_Settled true x y n h k = h
if_Settled false x y n h k = k

-- A failure, whatever it is, leaves no call held, shows its diagnostic to the next call, and
-- counts one more in a streak of its own bucket, or one in a new bucket.
pub handle_spawn_failure-Settled :
    (c : Config) (now : ℕ) (e : SpawnError) (p : Proxy)
    → Settled (next_streak e p) (handle_spawn_failure c now e p)
unfolding handle_spawn_failure
handle_spawn_failure-Settled c now e p =
    let counted = count_failure e p in
    let escalated =
      maybe_escalate_dead_holder_evict (bucket_of e) counted.spawn_failed_streak counted in
    let exhausted = exhaust-Settled c now e escalated in
    let armed = (arm-Settled c now e escalated).0 in
    let streak : escalated.spawn_failed_streak ≡ next_streak e p =
      (escalate-keeps (bucket_of e) counted.spawn_failed_streak counted).0
      ∙ (counted-keeps e p).0 in
    if_Settled (leb c.spawn_max_attempts escalated.spawn_failed_streak) _ _ _
      (rw (← streak) exhausted) (rw (← streak) armed)
