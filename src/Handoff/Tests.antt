-- ===== src/Handoff/Tests.antt =====
-- The theorems of the handoff at concrete inputs.
use godot_mcp.Base.{ℕ, String, ◌≡◌, ◌↔◌, ◌⊎◌, ◌&&◌, refl, true, false, some, none, Option}
use godot_mcp.Handoff.{
  StateDoc, HolderProxy, readable, reclaim_dead, is_proxy_alive, heartbeat_fresh,
  decide_handoff_action,
}
use godot_mcp.Handoff.Decisions.{reclaim_iff}

-- A parser that reads every time as 100.
abbrev at_100 : String → Option ℕ
at_100 s = some 100

abbrev owner : Option HolderProxy
owner = some (record { pid = 42; verified = some true; alive = none })

abbrev warm : StateDoc
warm = record { state = "WARM"; heartbeat_at = "t" }

reclaim_iff_example :
    ((decide_handoff_action at_100 (readable warm) none 150 60).action ≡ reclaim_dead) ↔ (
      ((warm.state ≡ "WARM") × (is_proxy_alive none ≡ false))
      ⊎ (((warm.state ≡ "WARMING") ⊎ (warm.state ≡ "RECOVERING"))
          × ((is_proxy_alive none && heartbeat_fresh at_100 "t" 150 60) ≡ false)))
reclaim_iff_example = reclaim_iff at_100 warm none 150 60

owner_alive : is_proxy_alive owner ≡ true
unfolding is_proxy_alive
owner_alive = refl

stale_beat : heartbeat_fresh at_100 "t" 900 60 ≡ false
unfolding heartbeat_fresh
stale_beat = refl
