-- ===== src/Forwarder/ToolsCache.antt =====
-- launch/proxy/tools-cache.mjs: the patched list of tools, and its refresh for the launcher's cache.
-- The write of the cache is an output; its failure is ignored by the source.
use godot_mcp.Base.{
  String, Bool, true, false, not, ◌||◌, Option, none, some, List, [], ◌∷◌, if◌then◌else◌,
}
use godot_mcp.Json.{
  Json, arr, obj, str, Items, nil, cons, Fields, get, lookup_field, is_text, text_of, text_starts,
}
use godot_mcp.Message.{CallId, text, has, add, delete}
use godot_mcp.Protocol.{forward_to_npx}
use godot_mcp.Record.{set_field, fields_of}
use godot_mcp.Forwarder.{
  Body, body, ChildResponse, Child, DescriptionPatch, Settings, output, cache_written, list_changed,
}

-- `tools.some((t) => t && t.name === name)`
unfoldable pub has_tool : String → Items → Bool
has_tool name nil = false
has_tool name (cons t ts) = is_text name (get "name" t) || has_tool name ts

-- `t.name.startsWith('godot_')` of some tool.
unfoldable pub has_godot_tool : Items → Bool
has_godot_tool nil = false
has_godot_tool (cons t ts) = text_starts "godot_" (get "name" t) || has_godot_tool ts

unfoldable pub push_item : Json → Items → Items
push_item v nil = cons v nil
push_item v (cons x xs) = cons x (push_item v xs)

-- One patch of one tool, by its description: what is not matched stays.
unfoldable pub patch_tool : Settings → DescriptionPatch → String → Json → Json
patch_tool s patch description t =
    if s.includes description patch.anchor
    then obj (
        set_field "description" (str (s.replace_first description patch.anchor patch.replacement))
          (fields_of s.conversions t))
    else t

-- The first tool of the patch's name that has a description is patched.
unfoldable pub apply_patch : Settings → DescriptionPatch → Items → Items
apply_patch s patch nil = nil
apply_patch s patch (cons t ts) =
    let later = cons t (apply_patch s patch ts) in
    if is_text patch.tool (get "name" t)
    then elim (text_of (get "description" t)) [
      | none ↦ later
      | some description ↦ cons (patch_tool s patch description t) ts
    ]
    else later

unfoldable pub apply_patches : Settings → List DescriptionPatch → Items → Items
apply_patches s [] ts = ts
apply_patches s (patch ∷ patches) ts = apply_patches s patches (apply_patch s patch ts)

-- The tool is appended unless it is there.
unfoldable pub append_tool : Settings → Items → Items
append_tool s ts = if has_tool "godot_ui_inspect" ts then ts else push_item s.ui_inspect_tool ts

unfoldable pub patch_items : Settings → Items → Items
patch_items s ts = apply_patches s s.description_patches (append_tool s ts)

-- `patchToolsList`
unfoldable pub patch_tools_list : Settings → Fields → Fields
patch_tools_list s result = elim (lookup_field "tools" result) [
  | some (arr ts) ↦ set_field "tools" (arr (patch_items s ts)) result
  | _ ↦ result
]

unfoldable pub write_tools_cache : Items → Child → Child
write_tools_cache nil k = k
write_tools_cache (cons t ts) k = output (cache_written (cons t ts)) k

-- `maybeRefreshToolsCache`, with the fresh identifier of its request.
unfoldable pub maybe_refresh_tools_cache : String → Child → Child
maybe_refresh_tools_cache internal_id k =
    if not k.proxy.warm || not k.proxy.npx_cli_connected
    then k
    else if k.tools_cache_refresh_in_flight || k.tools_cache_refreshed_for_spawn
    then k
    else record k {
      tools_cache_refresh_in_flight = true;
      tools_cache_waiters = add (text internal_id) k.tools_cache_waiters;
      proxy =
          forward_to_npx
            (record { id = some (text internal_id); method = "tools/list"; params = none }) k.proxy;
    }

-- `abortToolsCacheRefresh`, the timer's.
unfoldable pub abort_tools_cache_refresh : CallId → Child → Child
abort_tools_cache_refresh i k =
    if has i k.tools_cache_waiters
    then record k {
      tools_cache_waiters = delete i k.tools_cache_waiters;
      tools_cache_refresh_in_flight = false;
      tools_cache_refreshed_for_spawn = false;
    }
    else k

-- The patched list to the cache, and the notification; a result with no list of tools throws.
unfoldable pub publish_tools : Settings → Option Body → Child → Child
publish_tools s (some (body result)) k = elim (lookup_field "tools" result) [
  | some (arr ts) ↦ output list_changed (write_tools_cache (patch_items s ts) k)
  | _ ↦ k
]
publish_tools s _ k = k

-- `resolveToolsCacheRefresh`
unfoldable pub resolve_tools_cache_refresh : Settings → CallId → ChildResponse → Child → Child
resolve_tools_cache_refresh s i r k =
    if has i k.tools_cache_waiters
    then publish_tools s r.result (record k {
      tools_cache_waiters = delete i k.tools_cache_waiters;
      tools_cache_refresh_in_flight = false;
      tools_cache_refreshed_for_spawn = true;
    })
    else k
