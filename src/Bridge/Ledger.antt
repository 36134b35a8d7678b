-- ===== src/Bridge/Ledger.antt =====
-- Every request that is issued is either pending or had its continuation called, and once only.
use godot_mcp.Json.{Json}
use godot_mcp.Bridge.Requests.{handshake_of}
use godot_mcp.Connection.{ev_version_mismatch, emitted, resolved, uncaught}
use godot_mcp.Json.{is_text}
use godot_mcp.Base.{
  Bool-cases, inl, inr, some, none, [], ◌∷◌, ℕ, arith, ◌≡◌, String, ◌+◌, List, ◌∷◌, Option,
  if◌then◌else◌, ◌≤◌, str_eq,
}
use godot_mcp.Connection.{
  Connection, PendingRequest, Outcome, closed_with, CloseCode, Rejection, Env, note, called,
  rejected,
}
use godot_mcp.Bridge.Requests.{wake, reject_request, resolve_request, take_handshake}
use godot_mcp.Bridge.Timers.{reject_requests}
use godot_mcp.Bridge.Steps.{times_issued, times_called, times_pending}

-- The pending entries and the calls of one request make up its issues, of which there is at most one.
pub record IsBalanced (i : String) (c : Connection) : Type 0 where
  pub balanced :
      times_issued i c.trace ≡ times_pending i c.pending_requests + times_called i c.trace
  pub once : times_issued i c.trace ≤ 1

pub wake-trace : (r : PendingRequest) (o : Outcome) (c : Connection) → (wake r o c).trace ≡ c.trace
unfolding wake
wake-trace r o c = ground arith

pub wake-pending :
    (r : PendingRequest) (o : Outcome) (c : Connection)
    → (wake r o c).pending_requests ≡ c.pending_requests
unfolding wake
wake-pending r o c = ground arith

-- What one call of an entry's continuation does to the counts of a request.
pub record IsCalled (i : String) (n : ℕ) (c d : Connection) : Type 0 where
  pub entries : d.pending_requests ≡ c.pending_requests
  pub same_issues : times_issued i d.trace ≡ times_issued i c.trace
  pub more_calls : times_called i d.trace ≡ times_called i c.trace + n

wake-IsCalled :
    (i : String) (r : PendingRequest) (o : Outcome) (c : Connection)
    → IsCalled i (if str_eq r.id i then 1 else 0) c (wake r o (note (called r.id o) c))
unfolding times_issued times_called
wake-IsCalled i r o c =
    let told = note (called r.id o) c in ground (arith, wake-trace r o told, wake-pending r o told)

pub reject_request-IsCalled :
    (i : String) (r : PendingRequest) (why : Rejection) (c : Connection)
    → IsCalled i (if str_eq r.id i then 1 else 0) c (reject_request r why c)
unfolding reject_request
reject_request-IsCalled i r why c = wake-IsCalled i r (rejected why) c

uncaught-IsCalled :
    (i : String) (r : PendingRequest) (c : Connection)
    → IsCalled i (if str_eq r.id i then 1 else 0) c (note (uncaught r.id) c)
unfolding times_issued times_called
uncaught-IsCalled i r c = ground arith

take_handshake-IsCalled :
    (i : String) (e : Env) (r : PendingRequest) (v : Json) (c : Connection)
    → IsCalled i (if str_eq r.id i then 1 else 0) c (take_handshake e r v c)
unfolding take_handshake times_issued times_called
take_handshake-IsCalled i e r v c =
    elim (Bool-cases (is_text e.server_version (some (handshake_of v).addon_version))) [
      | inl same ↦
          let kept = record c { handshake_result = some (handshake_of v) } in
          ground (arith, wake-IsCalled i r (resolved (some v)) kept)
      | inr other ↦
          let kept = record c { handshake_result = some (handshake_of v) } in
          let event =
            ev_version_mismatch (handshake_of v).addon_version (handshake_of v).project_path in
          ground (arith, wake-IsCalled i r (resolved (some v)) (note (emitted event) kept))
    ]

pub resolve_request-IsCalled :
    (i : String) (e : Env) (r : PendingRequest) (result : Option Json) (c : Connection)
    → IsCalled i (if str_eq r.id i then 1 else 0) c (resolve_request e r result c)
unfolding resolve_request
resolve_request-IsCalled i e r none c =
    ground (arith, uncaught-IsCalled i r c, wake-IsCalled i r (resolved none) c)
resolve_request-IsCalled i e r (some v) c = ground (
  arith,
  uncaught-IsCalled i r c,
  wake-IsCalled i r (resolved (some v)) c,
  take_handshake-IsCalled i e r v c,
)

-- The rejection of all entries calls each of them.
pub reject_requests-IsCalled :
    (i : String) (code : CloseCode) (rs : List PendingRequest) (c : Connection)
    → IsCalled i (times_pending i rs) c (reject_requests code rs c)
unfolding reject_requests times_pending
reject_requests-IsCalled i code [] c = ground arith
reject_requests-IsCalled i code (r ∷ rs) c =
    let first = reject_request-IsCalled i r (closed_with code) c in
    let rest = reject_requests-IsCalled i code rs (reject_request r (closed_with code) c) in
    ground (arith, first, rest)
