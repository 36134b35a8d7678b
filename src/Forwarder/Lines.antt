-- ===== src/Forwarder/Lines.antt =====
-- launch/proxy/npx.mjs: the handler of a line of the child's stdout, in the order of its steps.
-- The enrichment of a capture waits, so that the rest of the steps is a handler of its own.
use godot_mcp.Base.{String, Bool, false, Option, none, some, List, if◌then◌else◌}
use godot_mcp.Json.{str, arr, lookup_field, text_starts}
use godot_mcp.Message.{CallId, text, has, delete, map_get, map_delete}
use godot_mcp.Forwarder.{
  body, ChildResponse, Child, Settings, forwarded, waiter_resolved, output, with_proxy,
}
use godot_mcp.Forwarder.Errors.{augment_screenshot_error}
use godot_mcp.Forwarder.ToolsCache.{
  has_godot_tool, patch_tools_list, patch_items, write_tools_cache, resolve_tools_cache_refresh,
}
use godot_mcp.Forwarder.Augment.{text_item, push_content, augment_exec_result, hint_error}

-- A handler that has returned, that goes on, or that waits for the enrichment of a capture.
pub data Step : Type 0 where
  stopped : Child → Step
  going awaiting : Child → ChildResponse → Step

infixl 5 ◌>>=◌
abbrev pub ◌>>=◌ : Step → (Child × ChildResponse → Step) → Step
stopped k >>= f = stopped k
going k r >>= f = f (k, r)
awaiting k r >>= f = awaiting k r

abbrev pub has_id : Option CallId → List CallId → Bool
has_id none is = false
has_id (some i) is = has i is

abbrev pub delete_id : Option CallId → List CallId → List CallId
delete_id none is = is
delete_id (some i) is = delete i is

abbrev pub map_delete_id {ℓ} : {V : Type ℓ} → Option CallId → List (CallId × V) → List (CallId × V)
map_delete_id none m = m
map_delete_id (some i) m = map_delete i m

abbrev pub map_get_id {ℓ} : {V : Type ℓ} → Option CallId → List (CallId × V) → Option V
map_get_id none m = none
map_get_id (some i) m = map_get i m

-- `typeof id === 'string' && id.startsWith(prefix)`
unfoldable pub id_starts : String → Option CallId → Bool
id_starts p (some (text s)) = text_starts p (some (str s))
id_starts p _ = false

unfoldable pub is_cache_id : Option CallId → Bool
is_cache_id i = id_starts "see1244-tools-cache-" i

unfoldable pub is_inspect_id : Option CallId → Bool
is_inspect_id i = id_starts "see1240-ui-inspect-" i

-- The waiter of an internal call, once.
unfoldable pub resolve_waiter : CallId → ChildResponse → Child → Child
resolve_waiter i r k =
    if has i k.internal_exec_waiters
    then output (waiter_resolved i r) (record k {
      internal_exec_waiters = delete i k.internal_exec_waiters;
      internal_exec_timers = delete i k.internal_exec_timers;
    })
    else k

abbrev with_id : Option CallId → (CallId → Child → Child) → Child → Child
with_id none f k = k
with_id (some i) f k = f i k

-- The responses to the proxy's own calls are consumed.
unfoldable pub consume_internal : Settings → ChildResponse → Child → Step
consume_internal s r k =
    if is_cache_id r.id
    then stopped (with_id r.id (λ i k'. resolve_tools_cache_refresh s i r k') k)
    else if is_inspect_id r.id
    then stopped (with_id r.id (λ i k'. resolve_waiter i r k') k)
    else going k r

-- A list of tools is patched, and written to the cache.
unfoldable pub patch_response : Settings → ChildResponse → Child → Child × ChildResponse
patch_response s r k = elim r.result [
  | some (body result) ↦ elim (lookup_field "tools" result) [
    | some (arr ts) ↦
        if has_godot_tool ts
        then (
          write_tools_cache (patch_items s ts) k,
          record r { result = some (body (patch_tools_list s result)) },
        )
        else (k, r)
    | _ ↦ (k, r)
  ]
  | _ ↦ (k, r)
]

-- `S.pendingHandshake.delete(msg.id)`
unfoldable pub drop_handshake : Option CallId → Child → Child
drop_handshake i k =
    with_proxy
      (record (k.proxy) {
        npx = record (k.proxy.npx) {
          pending_handshake = map_delete_id i k.proxy.pending_handshake;
        };
      })
      k

abbrev keep_screenshots : List CallId → Child → Child
keep_screenshots is k =
    with_proxy (record (k.proxy) { calls = record (k.proxy.calls) { screenshot_call_ids = is } }) k

-- `S.screenshotContract.get(msg.id)`, deleted where it is there.
unfoldable pub settle_contract : ChildResponse → Child → Step
settle_contract r k = elim (map_get_id r.id k.proxy.screenshot_contract) [
  | none ↦ going k r
  | some info ↦
      awaiting
        (with_proxy
          (record (k.proxy) {
            calls = record (k.proxy.calls) {
              screenshot_contract = map_delete_id r.id k.proxy.screenshot_contract;
            };
          })
          k)
        r
]

-- A capture: an error gets its hint, and the success of one under the contract is enriched.
unfoldable pub settle_screenshot : Settings → ChildResponse → Child → Step
settle_screenshot s r k =
    if has_id r.id k.proxy.screenshot_call_ids
    then (let dropped = keep_screenshots (delete_id r.id k.proxy.screenshot_call_ids) k in
        elim r.error [
          | some error ↦
              going dropped
                (record r { error = some (augment_screenshot_error s.conversions error) })
          | none ↦ settle_contract r dropped
        ])
    else going k r

-- The steps before the wait.
unfoldable pub open_response : Settings → ChildResponse → Child → Step
open_response s r k = do
  (k1, r1) ← consume_internal s r k
  (k2, r2) ← (let patched = patch_response s r1 k1 in going patched.0 patched.1)
  settle_screenshot s r2 (drop_handshake r2.id k2)

-- The snapshot that an answer to get_info carries.
unfoldable pub echo_workdir : Settings → ChildResponse → Child → Child × ChildResponse
echo_workdir s r k =
    if has_id r.id k.proxy.get_info_call_ids
    then (let dropped =
          with_proxy
            (record (k.proxy) {
              calls = record (k.proxy.calls) {
                get_info_call_ids = delete_id r.id k.proxy.get_info_call_ids;
              };
            })
            k in
        elim r.result [
          | some (body result) ↦ (
            dropped,
            record r { result = some (body (push_content (text_item s.workdir_echo) result)) },
          )
          | _ ↦ (dropped, r)
        ])
    else (k, r)

-- `process.stdout.write(out)`
abbrev pub forward : Child → ChildResponse → Step
forward k r = stopped (output (forwarded r) k)

-- The hints on an answer to godot_exec. An error that is null throws, and the line is forwarded.
unfoldable pub hint_exec : Settings → ChildResponse → Child → Step
hint_exec s r k =
    if has_id r.id k.proxy.exec_call_ids
    then (let dropped =
          with_proxy
            (record (k.proxy) {
              calls = record (k.proxy.calls) {
                exec_call_ids = delete_id r.id k.proxy.exec_call_ids;
              };
            })
            k in
        elim r.error [
          | some error ↦ elim (hint_error s error) [
            | none ↦ forward dropped r
            | some hinted ↦ going dropped (record r { error = some hinted })
          ]
          | none ↦ elim r.result [
            | some (body result) ↦ elim (augment_exec_result s result) [
              | none ↦ going dropped r
              | some hinted ↦ going dropped (record r { result = some (body hinted) })
            ]
            | _ ↦ going dropped r
          ]
        ])
    else going k r
