-- ===== src/Screenshot/Freshness.antt =====
-- When a captured frame is stale.
use godot_mcp.Base.{◌<◌, ◌≡◌, ◌↔◌, ◌⊎◌, true, false, arith}
use godot_mcp.Screenshot.{Captured, frame_age_verdict, latency_of}

-- A frame is stale exactly when no step was made for it, and either a mutation came after the last
-- advance of a frame or its latency is over the threshold.
stale_iff :
    (c : Captured)
    → ((frame_age_verdict c).stale ≡ true) ↔ (
        (c.auto_stepped ≡ false)
        × (((0 < c.mutation_before_capture_ms)
              × (c.last_frame_advance_ms < c.mutation_before_capture_ms))
            ⊎ (c.threshold_ms < latency_of c.latency)))
unfolding frame_age_verdict
stale_iff c = ground arith
