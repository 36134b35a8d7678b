-- ===== src/Forwarder/Delivery.antt =====
-- What becomes of a response of the child.
use godot_mcp.Base.{sym, ap, ◌∙◌, ◌⊎◌, inr}
use godot_mcp.Forwarder.Lines.{◌>>=◌, echo_workdir, hint_exec, awaiting}
use godot_mcp.Forwarder.Answers.{append_timeline, ended, settle_call, close_response}
use godot_mcp.Base.{refl}
use godot_mcp.Base.{
  ◌≡◌, Bool, true, false, not, ◌&&◌, ◌||◌, Option, none, some, List, [], ◌∷◌, ltb, if◌then◌else◌, ℕ,
  arith, Bool-cases, inl, inr,
}
use godot_mcp.Json.{Json, null}
use godot_mcp.Message.{CallId, has}
use godot_mcp.State.{Proxy}
use godot_mcp.Forwarder.{ChildResponse, Child, Settings, Output, forwarded}
use godot_mcp.Forwarder.Errors.{is_editor_busy_error}
use godot_mcp.Forwarder.Augment.{hint_error}
use godot_mcp.Forwarder.Lines.{has_id, Step, stopped, going, awaiting}
use godot_mcp.Forwarder.Answers.{
  answer_with, settle_by_id, answers_hold, consume_restart, answer_busy, answer_call, answer_plain,
  forget_call, drain_if_acquired, note_gone, mark_initialized,
}

-- The responses of the child that are forwarded to the client, newest first.
unfoldable pub forwards : List Output → List ChildResponse
forwards [] = []
forwards (forwarded r ∷ os) = r ∷ forwards os
forwards (o ∷ os) = forwards os

-- The error of a call, once the hints are on it.
unfoldable pub judged : Settings → ChildResponse → Child → Option Json
judged s r k = elim r.error [
  | none ↦ none
  | some error ↦ if has_id r.id k.proxy.exec_call_ids then hint_error s error else some error
]

abbrev is_busy : Option Json → Bool
is_busy none = false
is_busy (some error) = is_editor_busy_error error

abbrev holds_id : Option CallId → Proxy → Bool
holds_id none p = false
holds_id (some i) p = answers_hold i p

-- An answer to godot_exec with a null error, at which the handler throws.
abbrev is_null_error : ChildResponse → Child → Bool
is_null_error r k = elim r.error [
  | none ↦ false
  | some error ↦ elim error [ null ↦ has_id r.id k.proxy.exec_call_ids | _ ↦ false ]
]

-- A tracked call is kept from the client if it is the held restart, or if its editor is busy and
-- takeover is enabled.
unfoldable pub is_withheld : Settings → ChildResponse → Child → Bool
is_withheld s r k =
    not (is_null_error r k)
    && has_id r.id k.proxy.tools_call_ids
    && (holds_id r.id k.proxy || (is_busy (judged s r k) && ltb 0 s.config.takeover_timeout_ms))

-- What a step leaves, by whether the response is withheld.
abbrev Ends : ChildResponse → Child → Step → Bool → Type 0
Ends r k (stopped q) b = (b ≡ true) × (forwards q.outputs ≡ forwards k.outputs)
Ends r k (going q r') b = (b ≡ false) × (r'.id ≡ r.id) × (q.outputs ≡ k.outputs)
Ends r k (awaiting q r') b = ⊥

module _ (s : Settings) (now : ℕ) (r : ChildResponse) (k : Child) where
  consume_restart-forwards :
      (i : CallId) → forwards (consume_restart s now i r k).outputs ≡ forwards k.outputs
  unfolding consume_restart forwards
  consume_restart-forwards i = ground arith

  answer_busy-Ends :
      (i : CallId) (error : Json)
      → Ends r k (answer_busy s now i error r k) (ltb 0 s.config.takeover_timeout_ms)
  unfolding answer_busy forget_call
  answer_busy-Ends i error = elim (Bool-cases (ltb 0 s.config.takeover_timeout_ms)) [
    | inl enabled ↦ rw enabled (refl, refl)
    | inr disabled ↦ rw disabled (refl, refl, refl)
  ]

  answer_plain-Ends : (i : CallId) → Ends r k (answer_plain s now i r k) false
  unfolding answer_plain forget_call drain_if_acquired note_gone mark_initialized
  answer_plain-Ends i = ground arith

  answer_with-Ends :
      (i : CallId) (error : Option Json)
      → Ends r k
          (answer_with s now i error r k)
          (is_busy error && ltb 0 s.config.takeover_timeout_ms)
  unfolding answer_with
  answer_with-Ends i none = answer_plain-Ends i
  answer_with-Ends i (some error) = elim (Bool-cases (is_editor_busy_error error)) [
    | inl busy ↦ rw busy (answer_busy-Ends i error)
    | inr plain ↦ rw plain (answer_plain-Ends i)
  ]

  settle_by_id-Ends :
      (i : Option CallId)
      → Ends r k (settle_by_id s now i r k) (
          has_id i k.proxy.tools_call_ids
          && (holds_id i k.proxy || (is_busy r.error && ltb 0 s.config.takeover_timeout_ms)))
  unfolding settle_by_id answer_call
  settle_by_id-Ends none = (refl, refl, refl)
  settle_by_id-Ends (some i) = elim (Bool-cases (has i k.proxy.tools_call_ids)) [
    | inr unknown ↦ rw unknown (refl, refl, refl)
    | inl known ↦ elim (Bool-cases (answers_hold i k.proxy)) [
      | inl held ↦ rw (known, held) (refl, consume_restart-forwards i)
      | inr free ↦ rw (known, free) (answer_with-Ends i r.error)
    ]
  ]

-- What becomes of a response of the child: it is withheld, and nothing more is forwarded, or one
-- response is forwarded, with its identifier.
abbrev pub Delivered : ChildResponse → Child → Child → Bool → Type 0
Delivered r k q withheld =
    ((withheld ≡ true) × (forwards q.outputs ≡ forwards k.outputs))
    ⊎ ((withheld ≡ false)
        × ((r' : ChildResponse) × (r'.id ≡ r.id) × (q.outputs ≡ forwarded r' ∷ k.outputs)))

record SameCall (r : ChildResponse) (k : Child) (r' : ChildResponse) (k' : Child) : Type 0 where
  same_id : r'.id ≡ r.id
  same_tools : k'.proxy.tools_call_ids ≡ k.proxy.tools_call_ids
  same_hold : k'.proxy.restart_hold ≡ k.proxy.restart_hold
  same_outputs : k'.outputs ≡ k.outputs

Delivered-SameCall :
    (r r' : ChildResponse) (k k' q : Child) (b c : Bool)
    → r'.id ≡ r.id
    → k'.outputs ≡ k.outputs
    → b ≡ c
    → Delivered r' k' q b
    → Delivered r k q c
Delivered-SameCall r r' k k' q b c i o e (inl (w, f)) = inl (sym e ∙ w, f ∙ ap forwards o)
Delivered-SameCall r r' k k' q b c i o e (inr (w, (x, j, f))) =
    inr (sym e ∙ w, (x, j ∙ i, f ∙ ap (λ os. forwarded x ∷ os) o))

module _ (s : Settings) (r : ChildResponse) (k : Child) where
  timeline-keeps :
      ((append_timeline s r k).1.id ≡ r.id) × ((append_timeline s r k).0.outputs ≡ k.outputs)
  unfolding append_timeline
  timeline-keeps = ground arith

  echo-SameCall : SameCall r k (echo_workdir s r k).1 (echo_workdir s r k).0
  unfolding echo_workdir
  echo-SameCall = ground arith

  echo-judges :
      ((echo_workdir s r k).1.error ≡ r.error)
      × ((echo_workdir s r k).0.proxy.exec_call_ids ≡ k.proxy.exec_call_ids)
  unfolding echo_workdir
  echo-judges = ground arith

timed : Settings → Child × ChildResponse → Step
timed s t = let with_line = append_timeline s t.1 t.0 in going with_line.0 with_line.1

settled : Settings → ℕ → Child × ChildResponse → Step
unfolding timed
settled s now t = settle_call s now t.1 t.0 >>= timed s

passed_on :
    (s : Settings) (r : ChildResponse) (k q : Child) (r' : ChildResponse)
    → (append_timeline s r' q).1.id ≡ r.id
    → (append_timeline s r' q).0.outputs ≡ k.outputs
    → (x : ChildResponse) × (x.id ≡ r.id)
      × ((forwarded (append_timeline s r' q).1 ∷ (append_timeline s r' q).0.outputs)
          ≡ forwarded x ∷ k.outputs)
passed_on s r k q r' i o =
    ((append_timeline s r' q).1, i, ap (λ os. forwarded (append_timeline s r' q).1 ∷ os) o)

step-Delivered :
    (s : Settings) (r : ChildResponse) (k : Child) (st : Step) (b : Bool)
    → Ends r k st b
    → Delivered r k (ended (st >>= timed s)) b
unfolding timed
step-Delivered s r k (stopped q) b e = inl e
step-Delivered s r k (going q r') b (w, i, o) =
    let kept = timeline-keeps s r' q in inr (w, passed_on s r k q r' (kept.0 ∙ i) (kept.1 ∙ o))
step-Delivered s r k (awaiting q r') b e = absurd e

-- What the hints leave of a response.
abbrev Hinted : Settings → ChildResponse → Child → Step → Type 0
Hinted s r k (stopped q) = (is_null_error r k ≡ true) × (q.outputs ≡ forwarded r ∷ k.outputs)
Hinted s r k (going q r') =
    (is_null_error r k ≡ false) × (r'.error ≡ judged s r k) × SameCall r k r' q
Hinted s r k (awaiting q r') = ⊥

hint_exec-Hinted : (s : Settings) (r : ChildResponse) (k : Child) → Hinted s r k (hint_exec s r k)
unfolding hint_exec judged hint_error
hint_exec-Hinted s r k = ground arith

-- The call's own test, once the hints are on the response.
abbrev settles_withheld : Settings → ChildResponse → Child → Bool
settles_withheld s r k =
    has_id r.id k.proxy.tools_call_ids
    && (holds_id r.id k.proxy || (is_busy r.error && ltb 0 s.config.takeover_timeout_ms))

holds_id_cong :
    (i j : Option CallId) (p q : Proxy)
    → j ≡ i
    → q.restart_hold ≡ p.restart_hold
    → holds_id j q ≡ holds_id i p
unfolding answers_hold
holds_id_cong none none p q e h = refl
holds_id_cong none (some j) p q e h = cc
holds_id_cong (some i) none p q e h = cc
holds_id_cong (some i) (some j) p q e h = ground arith

Hinted-withheld :
    (s : Settings) (r r' : ChildResponse) (k q : Child)
    → is_null_error r k ≡ false
    → r'.error ≡ judged s r k
    → SameCall r k r' q
    → settles_withheld s r' q ≡ is_withheld s r k
unfolding is_withheld
Hinted-withheld s r r' k q n e same =
    let held = holds_id_cong r.id r'.id k.proxy q.proxy same.same_id same.same_hold in
    rw (n, held, e, same.same_id, same.same_tools)

withheld-null :
    (s : Settings) (r : ChildResponse) (k : Child)
    → is_null_error r k ≡ true
    → is_withheld s r k ≡ false
unfolding is_withheld
withheld-null s r k n = rw n

settle_call-Ends :
    (s : Settings) (now : ℕ) (r : ChildResponse) (k : Child)
    → Ends r k (settle_call s now r k) (settles_withheld s r k)
unfolding settle_call
settle_call-Ends s now r k = settle_by_id-Ends s now r k r.id

Hinted-Delivered :
    (s : Settings) (now : ℕ) (r : ChildResponse) (k : Child) (st : Step)
    → Hinted s r k st
    → Delivered r k (ended (st >>= settled s now)) (is_withheld s r k)
unfolding settled
Hinted-Delivered s now r k (stopped q) (n, o) = inr (withheld-null s r k n, (r, refl, o))
Hinted-Delivered s now r k (going q r') (n, e, same) =
    Delivered-SameCall r r' k q (ended (settle_call s now r' q >>= timed s))
      (settles_withheld s r' q) (is_withheld s r k) same.same_id same.same_outputs
      (Hinted-withheld s r r' k q n e same)
      (step-Delivered s r' q (settle_call s now r' q) (settles_withheld s r' q)
        (settle_call-Ends s now r' q))
Hinted-Delivered s now r k (awaiting q r') e = absurd e

echo-withheld :
    (s : Settings) (r : ChildResponse) (k : Child)
    → is_withheld s (echo_workdir s r k).1 (echo_workdir s r k).0 ≡ is_withheld s r k
unfolding is_withheld judged echo_workdir answers_hold
echo-withheld s r k = ground arith

-- The steps after the wait forward a response of the child once, with its identifier, or withhold
-- it, and then they forward no response of the child; what the proxy itself answers, as it does to a
-- held restart that failed, is not counted. The response is withheld exactly when its call is tracked
-- and is the held restart, or has failed with a busy editor while takeover is enabled; an answer to
-- godot_exec with a null error is forwarded in any case.
pub close_response_delivers :
    (s : Settings) (now : ℕ) (r : ChildResponse) (k : Child)
    → Delivered r k (close_response s now r k) (is_withheld s r k)
unfolding close_response settled timed
close_response_delivers s now r k =
    let same = echo-SameCall s r k in
    let r' = (echo_workdir s r k).1 in
    let k' = (echo_workdir s r k).0 in
    Delivered-SameCall r r' k k' (close_response s now r k) (is_withheld s r' k')
      (is_withheld s r k) same.same_id same.same_outputs (echo-withheld s r k)
      (Hinted-Delivered s now r' k' (hint_exec s r' k') (hint_exec-Hinted s r' k'))
