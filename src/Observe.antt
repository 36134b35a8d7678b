-- ===== src/Observe.antt =====
-- launch/proxy/proxy-state.mjs: the coarse state, and the capped histories of the snapshot.
-- The publication of the snapshot is file output and is left out.
mod History
use godot_mcp.Base.{ℕ, String, ◌-◌, ◌||◌, List, [], ◌∷◌, ◌++◌, ltb, if◌then◌else◌, length, drop}
use godot_mcp.Message.{Message}
use godot_mcp.State.{Proxy, SummaryKind}

pub data Coarse : Type 0 where
  failed_exit recovering warm warming cold_idle : Coarse

-- `proxyCoarseState`
unfoldable pub proxy_coarse_state : Proxy → Coarse
proxy_coarse_state p =
    if p.warmup_timed_out || p.spawn_terminal || ltb 0 p.give_up_armed_at
    then failed_exit
    else if p.recovering
    then recovering
    else if p.warm
    then warm
    else if p.spawn_triggered || p.spawn_in_flight
    then warming
    else cold_idle

-- `TRANSITION_HISTORY_MAX` and `RECENT_CALL_HISTORY_MAX`
abbrev pub history_max : ℕ
history_max = 10

-- `list.push(x); if (list.length > max) list.splice(0, list.length - max)`
unfoldable pub push_capped {ℓ} : {A : Type ℓ} → A → List A → List A
push_capped x xs =
    let grown = xs ++ x ∷ [] in
    if ltb history_max (length grown) then drop (length grown - history_max) grown else grown

abbrev pub coarse_name : Coarse → String
coarse_name failed_exit = "failed_exit"
coarse_name recovering = "recovering"
coarse_name warm = "warm"
coarse_name warming = "warming"
coarse_name cold_idle = "cold_idle"

-- The detail and the time of a transition are left out.
unfoldable pub record_proxy_transition : String → Proxy → Proxy
unfolding push_capped proxy_coarse_state
record_proxy_transition trigger p = record p {
  last_transitions =
      push_capped (record { trigger = trigger; state = coarse_name (proxy_coarse_state p) })
        p.last_transitions;
}

-- A summary is kept as the message; the snapshot shows only its tool, keys and lengths.
unfoldable pub note_proxy_call_summary : SummaryKind → Message → Proxy → Proxy
unfolding push_capped
note_proxy_call_summary kind m p = record p {
  recent_proxy_calls = push_capped (kind, m) p.recent_proxy_calls;
}
