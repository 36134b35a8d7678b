-- ===== src/Handoff/Decisions.antt =====
-- Which record a handoff reclaims, and which it never touches.
use godot_mcp.Base.{
  str_eq_exclusive, refl, inr, if◌then◌else◌, ℕ, String, ◌≡◌, ◌↔◌, ◌⊎◌, true, false, ◌&&◌, Option,
  arith, eq_iff, inr,
}
use godot_mcp.Handoff.{
  StateDoc, HolderProxy, readable, reclaim_dead, handoff_warm, editor_busy, is_proxy_alive,
  heartbeat_fresh, decide_warm, decide_in_flight, dispatch, decide_handoff_action,
}

module _ (date_parse : String → Option ℕ) (st : StateDoc) (holder : Option HolderProxy)
    (now max_age : ℕ) where
  -- A readable record is reclaimed as dead exactly when it is warm and its proxy is not alive, or
  -- when it is warming or recovering and its proxy is not alive or its heartbeat is not fresh. So a
  -- warming or recovering record with a stale heartbeat is reclaimed though its proxy is alive, which
  -- the guard in the header comment of see1338-handoff.mjs rules out.
  pub reclaim_iff :
      ((decide_handoff_action date_parse (readable st) holder now max_age).action ≡ reclaim_dead)
      ↔ (((st.state ≡ "WARM") × (is_proxy_alive holder ≡ false))
          ⊎ (((st.state ≡ "WARMING") ⊎ (st.state ≡ "RECOVERING"))
              × ((is_proxy_alive holder && heartbeat_fresh date_parse st.heartbeat_at now max_age)
                  ≡ false)))
  unfolding decide_handoff_action dispatch decide_warm decide_in_flight
  reclaim_iff = (
    λ h.
        ground
          (arith, eq_iff st.state "WARM", eq_iff st.state "WARMING", eq_iff st.state "RECOVERING"),
    λ h. ground (
      arith,
      eq_iff st.state "WARM",
      eq_iff st.state "WARMING",
      eq_iff st.state "RECOVERING",
      str_eq_exclusive st.state "WARM" "WARMING" refl,
      str_eq_exclusive st.state "WARM" "RECOVERING" refl,
    ),
  )

  -- A warm record whose proxy is alive is handed over when its heartbeat is fresh, and is busy
  -- otherwise: it is neither reclaimed nor started cold.
  pub warm_owner_kept :
      st.state ≡ "WARM"
      → is_proxy_alive holder ≡ true
      → ((decide_handoff_action date_parse (readable st) holder now max_age).action ≡ (
          if heartbeat_fresh date_parse st.heartbeat_at now max_age
          then handoff_warm
          else editor_busy))
  unfolding decide_handoff_action dispatch decide_warm
  warm_owner_kept w a = ground (arith, eq_iff st.state "WARM")

  -- A warming or recovering record whose proxy is alive, but whose heartbeat is not fresh, is
  -- reclaimed as dead.
  pub live_stale_reclaimed :
      (st.state ≡ "WARMING") ⊎ (st.state ≡ "RECOVERING")
      → is_proxy_alive holder ≡ true
      → heartbeat_fresh date_parse st.heartbeat_at now max_age ≡ false
      → (decide_handoff_action date_parse (readable st) holder now max_age).action ≡ reclaim_dead
  live_stale_reclaimed lane a stale = reclaim_iff.1 (inr (lane, ground arith))
