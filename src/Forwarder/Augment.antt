-- ===== src/Forwarder/Augment.antt =====
-- launch/proxy/npx.mjs and exec.mjs: what is added to a response on its way to the client.
use Prim.Native.String.{◌++◌ as append}
use godot_mcp.Base.{
  String, Bool, false, ◌&&◌, ◌||◌, Option, none, some, non_empty, is_some, if◌then◌else◌,
}
use godot_mcp.Json.{
  Json, null, str, arr, obj, Items, nil, cons, Fields, field, end, get, lookup_field, is_text,
  text_of,
}
use godot_mcp.Record.{set_field, fields_of}
use godot_mcp.Forwarder.{Child, Settings}
use godot_mcp.Forwarder.Errors.{Context, message_of}
use godot_mcp.Forwarder.ToolsCache.{push_item}

abbrev pub context_of : Settings → Child → Context
context_of s k = record {
  conversions = s.conversions;
  godot_host = s.godot_host;
  godot_port = s.godot_port;
  progress_on = s.progress_on;
  stage = k.proxy.stages.stage;
  lease_exit_detected = k.lease_exit_detected;
}

-- `{ type: 'text', text: t }`
abbrev pub text_item : String → Json
text_item t = obj (field "type" (str "text") (field "text" (str t) end))

-- `{ ...result, content: [...content, item] }`, where no array counts as an empty one.
unfoldable pub push_content : Json → Fields → Fields
push_content item result = elim (lookup_field "content" result) [
  | some (arr xs) ↦ set_field "content" (arr (push_item item xs)) result
  | _ ↦ set_field "content" (arr (cons item nil)) result
]

-- The item of a content with hints, or none where it stays.
unfoldable pub hint_item : Settings → Json → Option Json
hint_item s item =
    if is_text "text" (get "type" item)
    then elim (text_of (get "text" item)) [
      | none ↦ none
      | some t ↦
          if non_empty (s.exec_hints_for_text t)
          then some (
              obj (
                set_field "text" (str (append t (s.exec_hints_for_text t)))
                  (fields_of s.conversions item)))
          else none
    ]
    else none

abbrev pub item_or : Json → Option Json → Json
item_or item none = item
item_or item (some item') = item'

unfoldable pub hint_items : Settings → Items → Items
hint_items s nil = nil
hint_items s (cons x xs) = cons (item_or x (hint_item s x)) (hint_items s xs)

unfoldable pub any_hinted : Settings → Items → Bool
any_hinted s nil = false
any_hinted s (cons x xs) = is_some (hint_item s x) || any_hinted s xs

-- `augmentExecResult`: none where nothing was touched.
unfoldable pub augment_exec_result : Settings → Fields → Option Fields
augment_exec_result s result = elim (lookup_field "content" result) [
  | some (arr xs) ↦
      if any_hinted s xs then some (set_field "content" (arr (hint_items s xs)) result) else none
  | _ ↦ none
]

-- The hints on an error of godot_exec. `none`: reading the message of null throws.
unfoldable pub hint_error : Settings → Json → Option Json
hint_error s null = none
hint_error s error =
    if non_empty (message_of error) && non_empty (s.exec_hints_for_text (message_of error))
    then some (
        obj (
          set_field "message"
            (str (append (message_of error) (s.exec_hints_for_text (message_of error))))
            (fields_of s.conversions error)))
    else some error
