-- ===== src/Warmup/Liveness.antt =====
-- The probe of a warm editor that answers no more.
use godot_mcp.Base.{◌∙◌, ◌+◌, ◌<◌, ◌≡◌, ℕ, zero, suc, true, false, none, arith, refl}
use godot_mcp.State.{Proxy}
use godot_mcp.Spawn.{begin_warm_editor_respawn, record_state}
use godot_mcp.Warmup.{Settings}
use godot_mcp.Warmup.Rounds.{warm_liveness_probe}

-- A warm editor that the probe watches.
pub record IsWatched (s : Settings) (p : Proxy) : Type 0 where
  pub running : p.shutdown_requested ≡ false
  pub not_terminal : p.spawn_terminal ≡ false
  pub is_warm : p.warm ≡ true
  pub not_dead : p.warm_editor_dead ≡ false
  pub enabled : s.warm_liveness_enabled ≡ true
  pub not_held : p.restart_hold ≡ none
  pub not_connected : p.npx_cli_connected ≡ false

-- So many probes in a row that fail.
unfoldable pub fail_probes : Settings → ℕ → Proxy → Proxy
fail_probes s zero p = p
fail_probes s (suc n) p = fail_probes s n (warm_liveness_probe s false p)

-- The probe below the threshold.
record Counted (s : Settings) (n : ℕ) (p q : Proxy) : Type 0 where
  watched : IsWatched s q
  failures : q.warm_probe_failures ≡ p.warm_probe_failures + n
  respawn_kept : q.warm_respawn_in_flight ≡ p.warm_respawn_in_flight
  effects_kept : q.effects ≡ p.effects

probe-Counted :
    (s : Settings) (p : Proxy)
    → IsWatched s p
    → p.warm_probe_failures + 1 < s.warm_liveness_failures
    → Counted s 1 p (warm_liveness_probe s false p)
unfolding warm_liveness_probe
probe-Counted s p watched few = ground (arith, watched, few)

fail_probes-Counted :
    (s : Settings) (n : ℕ) (p : Proxy)
    → IsWatched s p
    → p.warm_probe_failures + n < s.warm_liveness_failures
    → Counted s n p (fail_probes s n p)
unfolding fail_probes
fail_probes-Counted s zero p watched few = ground (arith, watched)
fail_probes-Counted s (suc n) p watched few =
    let first = probe-Counted s p watched (omega arith) in
    let rest =
      fail_probes-Counted s n (warm_liveness_probe s false p) first.watched
        (omega (arith, first.failures)) in
    ground (arith, first, rest)

fail_probes-last :
    (s : Settings) (n : ℕ) (p : Proxy)
    → fail_probes s (suc n) p ≡ warm_liveness_probe s false (fail_probes s n p)
unfolding fail_probes
fail_probes-last s zero p = refl
fail_probes-last s (suc n) p = fail_probes-last s n (warm_liveness_probe s false p)

dies :
    (s : Settings) (p : Proxy)
    → IsWatched s p
    → p.warm_probe_failures + 1 ≡ s.warm_liveness_failures
    → p.warm_respawn_in_flight ≡ false
    → ((warm_liveness_probe s false p).warm ≡ false)
      × ((warm_liveness_probe s false p).warm_editor_dead ≡ true)
      × ((warm_liveness_probe s false p).spawn_triggered ≡ false)
unfolding warm_liveness_probe begin_warm_editor_respawn record_state
dies s p watched last idle = ground (arith, watched, last, idle)

-- As many probes in a row as the threshold that all fail, from no failure on, find the editor dead:
-- it is no longer warm, and the next call spawns another; fewer leave it warm and touch nothing.
-- No respawn is under way.
pub failures_respawn :
    (s : Settings) (n : ℕ) (p : Proxy)
    → IsWatched s p
    → p.warm_probe_failures ≡ 0
    → p.warm_respawn_in_flight ≡ false
    → suc n ≡ s.warm_liveness_failures
    → ((fail_probes s n p).warm ≡ true)
      × ((fail_probes s n p).effects ≡ p.effects)
      × ((fail_probes s (suc n) p).warm ≡ false)
      × ((fail_probes s (suc n) p).warm_editor_dead ≡ true)
      × ((fail_probes s (suc n) p).spawn_triggered ≡ false)
failures_respawn s n p watched fresh idle all =
    let counted = fail_probes-Counted s n p watched (omega arith) in
    let dead =
      dies s (fail_probes s n p) counted.watched (omega (arith, counted.failures))
        (counted.respawn_kept ∙ idle) in
    ground (arith, counted, dead, fail_probes-last s n p)
