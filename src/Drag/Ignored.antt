-- ===== src/Drag/Ignored.antt =====
-- Where a drag's times are read.
use godot_mcp.Base.{String, ◌≡◌, refl, false, some, str_eq, if◌then◌else◌, sym, ◌∙◌, ap, arith}
use godot_mcp.Json.{Json, obj, Fields, get, lookup_field}
use godot_mcp.Record.{set_field}
use godot_mcp.Record.Merge.{lookup_field-set}
use godot_mcp.Drag.{Arithmetic, expand_drag, expand_drag_entry}

-- The entry with the drag `d`.
abbrev pub entry_of : Fields → Json → Fields
entry_of es d = set_field "drag" d es

abbrev pub start_key : String
start_key = "start_ms"

abbrev pub duration_key : String
duration_key = "duration_ms"

-- A key that the expansion does not read from the drag.
record IsUnread (k : String) : Type 0 where
  not_from : str_eq k "from" ≡ false
  not_to : str_eq k "to" ≡ false
  not_button : str_eq k "button" ≡ false
  not_waypoints : str_eq k "waypoints" ≡ false

lookup_field-set_other :
    (k j : String) (v : Json) (fs : Fields)
    → str_eq k j ≡ false
    → lookup_field j (set_field k v fs) ≡ lookup_field j fs
lookup_field-set_other k j v fs h =
    lookup_field-set j k v fs ∙ ap (λ b. if b then some v else lookup_field j fs) h

expand_drag-unread :
    (a : Arithmetic) (e e' : Json) (k : String) (v : Json) (ds : Fields)
    → IsUnread k
    → get "start_ms" e' ≡ get "start_ms" e
    → get "duration_ms" e' ≡ get "duration_ms" e
    → expand_drag a e' (obj (set_field k v ds)) ≡ expand_drag a e (obj ds)
unfolding expand_drag get
expand_drag-unread a e e' k v ds u s t = rw (
  lookup_field-set_other k "from" v ds u.not_from,
  lookup_field-set_other k "to" v ds u.not_to,
  lookup_field-set_other k "button" v ds u.not_button,
  lookup_field-set_other k "waypoints" v ds u.not_waypoints,
  s,
  t,
)

expand_drag_entry-object :
    (a : Arithmetic) (e : Json) (ds : Fields)
    → get "drag" e ≡ some (obj ds)
    → expand_drag_entry a e ≡ expand_drag a e (obj ds)
unfolding expand_drag_entry
expand_drag_entry-object a e ds h = ground arith

unread_entry :
    (a : Arithmetic) (es ds : Fields) (k : String) (v : Json)
    → IsUnread k
    → expand_drag_entry a (obj (entry_of es (obj (set_field k v ds))))
      ≡ expand_drag_entry a (obj (entry_of es (obj ds)))
unfolding get
unread_entry a es ds k v u =
    let kept : Fields = set_field k v ds in
    let set = λ (d : Json). lookup_field-set "drag" "drag" d es in
    let start = λ (d : Json). lookup_field-set_other "drag" "start_ms" d es refl in
    let dur = λ (d : Json). lookup_field-set_other "drag" "duration_ms" d es refl in
    expand_drag_entry-object a (obj (entry_of es (obj kept))) kept (set (obj kept))
    ∙ expand_drag-unread a (obj (entry_of es (obj ds))) (obj (entry_of es (obj kept))) k v ds u
        (start (obj kept) ∙ sym (start (obj ds))) (dur (obj kept) ∙ sym (dur (obj ds)))
    ∙ sym (expand_drag_entry-object a (obj (entry_of es (obj ds))) ds (set (obj ds)))

-- The start and the duration that a drag itself gives are not read: an entry whose drag has them, as
-- the texts of the code's own errors ask for, is expanded like the entry without them.
pub drag_times_ignored :
    (a : Arithmetic) (es ds : Fields) (v : Json)
    → (expand_drag_entry a (obj (entry_of es (obj (set_field start_key v ds))))
        ≡ expand_drag_entry a (obj (entry_of es (obj ds))))
      × (expand_drag_entry a (obj (entry_of es (obj (set_field duration_key v ds))))
          ≡ expand_drag_entry a (obj (entry_of es (obj ds))))
drag_times_ignored a es ds v = (
  unread_entry a es ds start_key v
      (record { not_from = refl; not_to = refl; not_button = refl; not_waypoints = refl }),
  unread_entry a es ds duration_key v
      (record { not_from = refl; not_to = refl; not_button = refl; not_waypoints = refl }),
)
