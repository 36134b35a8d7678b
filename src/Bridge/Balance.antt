-- ===== src/Bridge/Balance.antt =====
-- Every operation of a connection keeps the balance of its requests.
use godot_mcp.Connection.{note, issued, refused, rejected, send_threw}
use godot_mcp.Connection.{Waiter, not_connected, diagnostic_message, is_connected, timed_out}
use godot_mcp.Base.{
  ap, sym, ◌∙◌, eq_iff, Option-cases, Option, true, refl, false, ◌∷◌, ℕ, arith, String, ◌≡◌, none,
  some, if◌then◌else◌, str_eq, Bool-cases, inl, inr,
}
use godot_mcp.Json.{Json}
use godot_mcp.Connection.{Connection, PendingRequest, Env}
use godot_mcp.Bridge.Entries.{times_pending-find}
use godot_mcp.Bridge.Requests.{
  timed_out_handshake, set_request, reject_request, issue, send_command, expire, find_request,
  delete_request,
}
use godot_mcp.Bridge.Timers.{cleanup, stop_ping_interval, clear_pong_timeout, close_code_of}
use godot_mcp.Bridge.Steps.{times_issued, times_called, times_pending, IsFresh}
use godot_mcp.Bridge.Ledger.{
  IsBalanced, IsCalled, reject_request-IsCalled, reject_requests-IsCalled, wake-trace, wake-pending,
}
use godot_mcp.Bridge.Entries.{times_pending-set}

-- An entry is taken out and its continuation called.
pub taken-IsBalanced :
    (i j : String) (r : PendingRequest) (c b d : Connection)
    → find_request j c.pending_requests ≡ some r
    → b.trace ≡ c.trace
    → b.pending_requests ≡ delete_request j c.pending_requests
    → IsCalled i (if str_eq r.id i then 1 else 0) b d
    → IsBalanced i c
    → IsBalanced i d
taken-IsBalanced i j r c b d found same_trace same_rest call h =
    ground (arith, times_pending-find i j c.pending_requests r found, h, call)

pub cleanup-IsBalanced : (i : String) (c : Connection) → IsBalanced i c → IsBalanced i (cleanup c)
unfolding times_pending cleanup stop_ping_interval clear_pong_timeout
cleanup-IsBalanced i c h =
    let stopped = record (stop_ping_interval c) {
      handshake_result = none;
      reconnect_timeout = none;
      pending_close_code = none;
    } in
    ground (
      arith,
      h,
      reject_requests-IsCalled i (close_code_of c.pending_close_code) c.pending_requests stopped,
    )

pub issue-IsBalanced :
    (i : String) (e : Env) (r : PendingRequest) (params : Json) (c : Connection)
    → IsFresh r.id c
    → IsBalanced r.id c
    → IsBalanced i c
    → IsBalanced i (issue e r params c)
unfolding issue times_issued times_called
issue-IsBalanced i e r params c fresh own h =
    let dead : PendingRequest = record r { live = false } in
    let told : Connection = note (refused r.id send_threw) (record c {
      pending_requests = set_request dead c.pending_requests;
      trace = issued r.id ∷ c.trace;
    }) in
    let none_before : times_pending r.id c.pending_requests ≡ 0 =
      omega (arith, fresh, own.balanced) in
    let set_dead = times_pending-set i dead c.pending_requests none_before in
    let set_live = times_pending-set i r c.pending_requests none_before in
    let traced = wake-trace r (rejected send_threw) told in
    let pended = wake-pending r (rejected send_threw) told in
    elim (Bool-cases (str_eq r.id i)) [
      | inl same ↦
          let here : times_issued i c.trace ≡ 0 =
            ap (λ k. times_issued k c.trace) (sym ((eq_iff r.id i).0 same)) ∙ fresh in
          ground (arith, same, here, set_dead, set_live, traced, pended, h)
      | inr other ↦ ground (arith, other, set_dead, set_live, traced, pended, h)
    ]

pub send_command-IsBalanced :
    (i : String) (e : Env) (w : Waiter) (j command : String) (params : Json) (timeout : Option ℕ)
    (c : Connection)
    → IsFresh j c
    → IsBalanced j c
    → IsBalanced i c
    → IsBalanced i (send_command e w j command params timeout c)
unfolding send_command times_issued times_called
send_command-IsBalanced i e w j command params timeout c fresh own h =
    let r : PendingRequest = record {
      id = j;
      waiter = w;
      command = command;
      timeout_ms = elim timeout [ some ms ↦ ms | none ↦ e.quick_timeout_ms ];
      live = true;
    } in
    let why = not_connected (diagnostic_message e c) in
    elim (Bool-cases (is_connected c)) [
      | inl on ↦ ground (arith, issue-IsBalanced i e r params c fresh own h)
      | inr off ↦
          let told = note (refused j why) c in
          ground (arith, h, wake-trace r (rejected why) told, wake-pending r (rejected why) told)
    ]

pub expire-IsBalanced : (i j : String) (c : Connection) → IsBalanced i c → IsBalanced i (expire j c)
unfolding expire
expire-IsBalanced i j c h = elim (Option-cases (find_request j c.pending_requests)) [
  | inl absent ↦ ground (arith, h)
  | inr (r, found) ↦
      let why = timed_out r.command r.timeout_ms in
      let gone : Connection = record c { pending_requests = delete_request j c.pending_requests } in
      let noted : Connection = record gone { handshake_result = some timed_out_handshake } in
      ground (
        arith,
        found,
        taken-IsBalanced i j r c gone (reject_request r why gone) found refl refl
            (reject_request-IsCalled i r why gone) h,
        taken-IsBalanced i j r c noted (reject_request r why noted) found refl refl
            (reject_request-IsCalled i r why noted) h,
      )
]
