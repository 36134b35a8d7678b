-- ===== src/Bridge/Replies.antt =====
-- A message from the editor keeps the balance of the requests.
use godot_mcp.Bridge.Events.{id_of}
use godot_mcp.Wire.{success, failure, parse_response}
use godot_mcp.Connection.{command_error, malformed_response}
use godot_mcp.Base.{
  some, none, Option, Option-cases, inl, inr, arith, refl, String, Option, Option-cases, some, inl,
  inr,
}
use godot_mcp.Connection.{Connection, Env, malformed_response}
use godot_mcp.Wire.{Response}
use godot_mcp.Bridge.Requests.{find_request, delete_request, resolve_request, reject_request}
use godot_mcp.Bridge.Events.{handle_message, refuse_message, take_response}
use godot_mcp.Bridge.Steps.{times_issued, times_called}
use godot_mcp.Bridge.Ledger.{IsBalanced, reject_request-IsCalled, resolve_request-IsCalled}
use godot_mcp.Bridge.Balance.{taken-IsBalanced}

refuse_message-IsBalanced :
    (i : String) (named : Option String) (c : Connection)
    → IsBalanced i c
    → IsBalanced i (refuse_message named c)
unfolding refuse_message times_issued times_called
refuse_message-IsBalanced i none c h = ground (arith, h)
refuse_message-IsBalanced i (some s) c h = elim (Option-cases (find_request s c.pending_requests)) [
  | inl absent ↦ ground (arith, h, absent)
  | inr (r, found) ↦
      let gone : Connection = record c { pending_requests = delete_request s c.pending_requests } in
      ground (
        arith,
        found,
        h,
        taken-IsBalanced i s r c gone (reject_request r malformed_response gone) found refl refl
            (reject_request-IsCalled i r malformed_response gone) h,
      )
]

take_response-IsBalanced :
    (i : String) (e : Env) (res : Response) (c : Connection)
    → IsBalanced i c
    → IsBalanced i (take_response e res c)
unfolding take_response
take_response-IsBalanced i e (success j result) c h =
    elim (Option-cases (find_request j c.pending_requests)) [
      | inl absent ↦ ground (arith, h, absent)
      | inr (r, found) ↦
          let gone : Connection = record c {
            pending_requests = delete_request j c.pending_requests;
          } in
          let call = resolve_request-IsCalled i e r result gone in
          ground (
            arith,
            found,
            taken-IsBalanced i j r c gone (resolve_request e r result gone) found refl refl call h,
          )
    ]
take_response-IsBalanced i e (failure j body) c h =
    elim (Option-cases (find_request j c.pending_requests)) [
      | inl absent ↦ ground (arith, h, absent)
      | inr (r, found) ↦
          let gone : Connection = record c {
            pending_requests = delete_request j c.pending_requests;
          } in
          let why = command_error body.code body.message body.detail in
          let call = reject_request-IsCalled i r why gone in
          ground (
            arith,
            found,
            taken-IsBalanced i j r c gone (reject_request r why gone) found refl refl call h,
          )
    ]

pub handle_message-IsBalanced :
    (i : String) (e : Env) (text : String) (c : Connection)
    → IsBalanced i c
    → IsBalanced i (handle_message e text c)
unfolding handle_message times_issued times_called
handle_message-IsBalanced i e text c h = elim (Option-cases (e.parse text)) [
  | inl bad ↦ ground (arith, bad, h)
  | inr (v, good) ↦ elim (Option-cases (parse_response v)) [
    | inl refused ↦ ground (arith, good, refused, refuse_message-IsBalanced i (id_of e v) c h)
    | inr (res, ok) ↦ ground (arith, good, ok, take_response-IsBalanced i e res c h)
  ]
]
