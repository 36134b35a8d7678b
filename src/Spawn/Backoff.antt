-- ===== src/Spawn/Backoff.antt =====
-- The waits between spawn attempts and between give-ups.
use godot_mcp.Base.{
  false, if◌then◌else◌, ◌==◌, ℕ, zero, suc, ◌+◌, ◌-◌, ◌*◌, ◌^◌, ◌≤◌, ◌≡◌, sym, ap, ◌∙◌, false, min,
  arith,
}
use native.Mathlib.Numerals.{add-one}
use native.Mathlib.Nat.{pow-suc, mul_assoc, pow-le-pow_right, mul-le-mul_left}
use godot_mcp.State.{Proxy, Config, SpawnError}
use godot_mcp.Observe.{record_proxy_transition}
use godot_mcp.Spawn.{spawn_backoff_ms, give_up_and_rearm, start_render_stable_monitor, record_state}

-- A longer streak waits no shorter, and no wait is longer than the cap.
pub spawn_backoff_monotone :
    (c : Config) (a b : ℕ)
    → a ≤ b
    → (spawn_backoff_ms c a ≤ spawn_backoff_ms c b)
      × (spawn_backoff_ms c b ≤ c.giveup_max_cooldown_ms)
unfolding spawn_backoff_ms
spawn_backoff_monotone c a b h =
    let powers : 2 ^ (a - 1) ≤ 2 ^ (b - 1) = pow-le-pow_right (omega arith) (omega arith) in
    let products : c.spawn_retry_backoff_ms * 2 ^ (a - 1) ≤ c.spawn_retry_backoff_ms * 2 ^ (b - 1) =
      mul-le-mul_left c.spawn_retry_backoff_ms powers in
    omega arith

-- The cooldown of the n-th give-up, for n from 1.
abbrev pub cooldown : Config → ℕ → ℕ
cooldown c n = min (c.giveup_base_cooldown_ms * 2 ^ (n - 1)) c.giveup_max_cooldown_ms

-- The bookkeeping of give-ups: the kept cooldown is that of their count.
unfoldable pub IsCooled : Config → Proxy → Type 0
IsCooled c p = 1 ≤ p.give_up_count → p.give_up_backoff_ms ≡ cooldown c p.give_up_count

doubled : (a m n : ℕ) → min (min (a * 2 ^ n) m * 2) m ≡ min (a * 2 ^ (n + 1)) m
doubled a m n =
    let product : a * 2 ^ (n + 1) ≡ a * 2 ^ n * 2 =
      rw (add-one, pow-suc) (sym (mul_assoc a (2 ^ n) 2)) in
    omega arith

give_up-count :
    (c : Config) (now : ℕ) (e : SpawnError) (p : Proxy)
    → (give_up_and_rearm c now e p).give_up_count ≡ p.give_up_count + 1
unfolding give_up_and_rearm record_proxy_transition record_state start_render_stable_monitor
give_up-count c now e p = ground arith

give_up-backoff :
    (c : Config) (now : ℕ) (e : SpawnError) (p : Proxy)
    → (give_up_and_rearm c now e p).give_up_backoff_ms ≡ (
        if (p.give_up_count + 1) == 1
        then c.giveup_base_cooldown_ms
        else min (p.give_up_backoff_ms * 2) c.giveup_max_cooldown_ms)
unfolding give_up_and_rearm record_proxy_transition record_state start_render_stable_monitor
give_up-backoff c now e p = ground arith

next_cooldown :
    (c : Config) (k b : ℕ)
    → c.giveup_base_cooldown_ms ≤ c.giveup_max_cooldown_ms
    → (1 ≤ k → b ≡ cooldown c k)
    → (if (k + 1) == 1 then c.giveup_base_cooldown_ms else min (b * 2) c.giveup_max_cooldown_ms)
      ≡ cooldown c (k + 1)
next_cooldown c zero b fits kept = omega arith
next_cooldown c (suc k) b fits kept =
    let later : ((suc k + 1) == 1) ≡ false = ground arith in
    let index : suc k + 1 - 1 ≡ k + 1 = omega arith in
    let prior : suc k - 1 ≡ k = omega arith in
    let before : b ≡ min (c.giveup_base_cooldown_ms * 2 ^ k) c.giveup_max_cooldown_ms =
      kept (omega arith)
      ∙ ap (λ (x : ℕ). min (c.giveup_base_cooldown_ms * 2 ^ x) c.giveup_max_cooldown_ms) prior in
    rw (later, before, index) (doubled c.giveup_base_cooldown_ms c.giveup_max_cooldown_ms k)

-- The cooldowns kept by doubling are those of the closed form: where the n-th give-up, if any,
-- waits the base cooldown doubled n - 1 times and capped, the next one does too. The base is at
-- most the cap.
pub give_up_and_rearm-IsCooled :
    (c : Config) (now : ℕ) (e : SpawnError) (p : Proxy)
    → c.giveup_base_cooldown_ms ≤ c.giveup_max_cooldown_ms
    → IsCooled c p
    → IsCooled c (give_up_and_rearm c now e p)
unfolding IsCooled
give_up_and_rearm-IsCooled c now e p fits cooled one =
    give_up-backoff c now e p
    ∙ next_cooldown c p.give_up_count p.give_up_backoff_ms fits cooled
    ∙ sym (ap (cooldown c) (give_up-count c now e p))
