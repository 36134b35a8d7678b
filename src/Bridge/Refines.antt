-- ===== src/Bridge/Refines.antt =====
-- A connection's requests as a partial function from their identifiers, and each step as one change
-- of it.
use mathlib.Core.Path.{subst}
use godot_mcp.Connection.{note, pinged, heartbeat}
use godot_mcp.Bridge.Events.{refuse_message, take_response, handle_message, on_close, id_of}
use godot_mcp.Bridge.Timers.{cleanup, ping_tick, schedule_reconnect}
use godot_mcp.Wire.{Response, success, failure, parse_response}
use godot_mcp.Base.{
  refl, sym, non_empty, not, ◌&&◌, true, arith, ◌≡◌, some, none, Option, inl, inr, if◌then◌else◌,
  str_eq, String, ◌∙◌, Bool-cases, ap, false, ℕ, Option-cases,
}
use godot_mcp.Json.{Json, obj, end}
use godot_mcp.Connection.{Connection, PendingRequest, Env, Outcome, Waiter, is_connected}
use godot_mcp.Bridge.Requests.{
  wake, find_request, delete_request, issue, send_command, resolve_request, expire, take_handshake,
  reject_request,
}
use godot_mcp.Bridge.Entries.{find-set, find-delete}

abbrev pub View : Type 0
View = String → Option PendingRequest

-- The requests that wait for an answer.
abbrev pub view : Connection → View
view c i = find_request i c.pending_requests

-- One change of the requests that wait: none, one more under a new identifier, one less, or all
-- gone at once.
pub data Change (v w : View) : Type 0 where
  stays : ((j : String) → w j ≡ v j) → Change v w
  adds :
      (i : String) (r : PendingRequest)
      → v i ≡ none
      → ((j : String) → w j ≡ (if str_eq i j then some r else v j))
      → Change v w
  removes :
      (i : String) (r : PendingRequest)
      → v i ≡ some r
      → ((j : String) → w j ≡ (if str_eq i j then none else v j))
      → Change v w
  clears : ((j : String) → w j ≡ none) → Change v w

pub same_entries :
    (c d : Connection) → d.pending_requests ≡ c.pending_requests → Change (view c) (view d)
same_entries c d h = stays (λ j. ap (find_request j) h)

-- Only the entries count.
Change-same :
    (c d f : Connection)
    → f.pending_requests ≡ d.pending_requests
    → Change (view c) (view d)
    → Change (view c) (view f)
Change-same c d f h = subst (λ rs. Change (view c) (λ j. find_request j rs)) (sym h)

wake-entries :
    (r : PendingRequest) (o : Outcome) (c : Connection)
    → (wake r o c).pending_requests ≡ c.pending_requests
unfolding wake
wake-entries r o c = ground arith

removed_entry :
    (i : String) (r : PendingRequest) (c d : Connection)
    → find_request i c.pending_requests ≡ some r
    → d.pending_requests ≡ delete_request i c.pending_requests
    → Change (view c) (view d)
removed_entry i r c d found gone =
    removes i r found (λ j. ap (find_request j) gone ∙ find-delete j i c.pending_requests)

pub issue-Change :
    (e : Env) (r : PendingRequest) (params : Json) (c : Connection)
    → find_request r.id c.pending_requests ≡ none
    → Change (view c) (view (issue e r params c))
unfolding issue wake
issue-Change e r params c absent = elim (Bool-cases (e.send_throws c.socket)) [
  | inl throws ↦
      let dead : PendingRequest = record r { live = false } in
      adds r.id dead absent (λ j. ground (arith, throws, find-set j dead c.pending_requests))
  | inr sends ↦ adds r.id r absent (λ j. ground (arith, sends, find-set j r c.pending_requests))
]

pub send_command-Change :
    (e : Env) (w : Waiter) (i command : String) (params : Json) (timeout : Option ℕ)
    (c : Connection)
    → find_request i c.pending_requests ≡ none
    → Change (view c) (view (send_command e w i command params timeout c))
unfolding send_command wake
send_command-Change e w i command params timeout c absent = elim (Bool-cases (is_connected c)) [
  | inl on ↦
      let r : PendingRequest = record {
        id = i;
        waiter = w;
        command = command;
        timeout_ms = elim timeout [ some ms ↦ ms | none ↦ e.quick_timeout_ms ];
        live = true;
      } in
      Change-same c (issue e r params c) (send_command e w i command params timeout c)
        (ground (arith, on)) (issue-Change e r params c absent)
  | inr off ↦ same_entries c (send_command e w i command params timeout c) (ground (arith, off))
]

pub expire-Change : (i : String) (c : Connection) → Change (view c) (view (expire i c))
unfolding expire reject_request wake
expire-Change i c = elim (Option-cases (find_request i c.pending_requests)) [
  | inl absent ↦ same_entries c (expire i c) (ground (arith, absent))
  | inr (r, found) ↦ removed_entry i r c (expire i c) found (ground (arith, found))
]

refuse_message-Change :
    (named : Option String) (c : Connection) → Change (view c) (view (refuse_message named c))
unfolding refuse_message reject_request wake
refuse_message-Change none c = same_entries c (refuse_message none c) refl
refuse_message-Change (some s) c =
    elim (Option-cases (if non_empty s then find_request s c.pending_requests else none)) [
      | inl absent ↦ same_entries c (refuse_message (some s) c) (ground (arith, absent))
      | inr (r, found) ↦
          removed_entry s r c (refuse_message (some s) c) (ground (arith, found))
            (ground (arith, found))
    ]

resolve_request-entries :
    (e : Env) (r : PendingRequest) (result : Option Json) (c : Connection)
    → (resolve_request e r result c).pending_requests ≡ c.pending_requests
unfolding resolve_request take_handshake wake
resolve_request-entries e r result c = ground arith

take_response-Change :
    (e : Env) (res : Response) (c : Connection) → Change (view c) (view (take_response e res c))
unfolding take_response reject_request wake
take_response-Change e (success i result) c =
    elim (Option-cases (find_request i c.pending_requests)) [
      | inl absent ↦ same_entries c (take_response e (success i result) c) (ground (arith, absent))
      | inr (r, found) ↦
          let gone : Connection = record c {
            pending_requests = delete_request i c.pending_requests;
          } in
          removed_entry i r c (take_response e (success i result) c) found
            (ground (arith, found, resolve_request-entries e r result gone))
    ]
take_response-Change e (failure i body) c =
    elim (Option-cases (find_request i c.pending_requests)) [
      | inl absent ↦ same_entries c (take_response e (failure i body) c) (ground (arith, absent))
      | inr (r, found) ↦
          removed_entry i r c (take_response e (failure i body) c) found (ground (arith, found))
    ]

pub handle_message-Change :
    (e : Env) (text : String) (c : Connection) → Change (view c) (view (handle_message e text c))
unfolding handle_message
handle_message-Change e text c = elim (Option-cases (e.parse text)) [
  | inl bad ↦ same_entries c (handle_message e text c) (ground (arith, bad))
  | inr (v, good) ↦ elim (Option-cases (parse_response v)) [
    | inl refused ↦
        Change-same c (refuse_message (id_of e v) c) (handle_message e text c)
          (ground (arith, good, refused)) (refuse_message-Change (id_of e v) c)
    | inr (res, ok) ↦
        Change-same c (take_response e res c) (handle_message e text c) (ground (arith, good, ok))
          (take_response-Change e res c)
  ]
]

pub ping_tick-Change :
    (e : Env) (i : String) (c : Connection)
    → find_request i c.pending_requests ≡ none
    → Change (view c) (view (ping_tick e i c))
unfolding ping_tick
ping_tick-Change e i c absent = elim (Bool-cases (is_connected c && not c.heartbeat_pending)) [
  | inl asks ↦
      let asking : Connection = record (note pinged (record c { pong_timeout = true })) {
        heartbeat_pending = true;
      } in
      Change-same c (send_command e heartbeat i "heartbeat" (obj end) none asking) (ping_tick e i c)
        (ground (arith, asks))
        (send_command-Change e heartbeat i "heartbeat" (obj end) none asking absent)
  | inr rests ↦ same_entries c (ping_tick e i c) (ground (arith, rests))
]

pub on_close-Change :
    (e : Env) (code : ℕ) (c d : Connection) → Change (view d) (view (on_close e code c))
unfolding on_close cleanup schedule_reconnect find_request
on_close-Change e code c d = clears (λ j. ground arith)
