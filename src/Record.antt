-- ===== src/Record.antt =====
-- launch/proxy/state-file.mjs: the record of a runtime on disk, its validation and its merge.
-- A file is absent, has no JSON in it, or holds a value; the write publishes a whole value. `Number`,
-- `String` and what `Object.assign` copies of a text or an array are parameters, as is the time.
pub mod Merge
mod Liveness
mod Tests
use godot_mcp.Base.{
  ℕ, String, Bool, true, false, not, ◌&&◌, ◌||◌, Option, none, some, str_eq, non_empty, ◌==◌, List,
  [], ◌∷◌, if◌then◌else◌,
}
use godot_mcp.Json.{
  negative, Json, null, bool, num, str, arr, obj, Num, scaled, Fields, end, field, get,
  lookup_field,
}

-- JavaScript's conversions.
pub record Conversions : Type 0 where
  pub number_of : Option Json → Option ℕ
  pub text_of_value : Json → String
  pub indexed : Json → Fields

pub data File : Type 0 where
  absent unparseable : File
  holds : Json → File

abbrev pub state_schema_version : ℕ
state_schema_version = 3

abbrev pub is_valid_state : String → Bool
is_valid_state s =
    str_eq s "COLD"
    || str_eq s "WARMING"
    || str_eq s "WARM"
    || str_eq s "RECOVERING"
    || str_eq s "FAILED_CLEAN"

abbrev pub is_pid_source : String → Bool
is_pid_source s = str_eq s "wsl" || str_eq s "windows" || str_eq s "pending"

-- The truth value of a value that may be undefined.
abbrev pub is_truthy : Option Json → Bool
is_truthy none = false
is_truthy (some null) = false
is_truthy (some (bool b)) = b
is_truthy (some (num (scaled n k))) = not (n == 0)
is_truthy (some (num (negative n k))) = not (n == 0)
is_truthy (some (str s)) = non_empty s
is_truthy (some _) = true

-- `VALID_STATES.has(v)`
abbrev pub has_state : Option Json → Bool
has_state (some (str s)) = is_valid_state s
has_state _ = false

abbrev pub is_version : Option ℕ → Bool
is_version none = false
is_version (some n) = n == state_schema_version

-- No source, or one of those that are known.
abbrev pub is_known_source : Conversions → Option Json → Bool
is_known_source c none = true
is_known_source c (some v) = not (is_truthy (some v)) || is_pid_source (c.text_of_value v)

pub data Read : Type 0 where
  no_runtime_id no_file unparsed not_object schema_mismatch unknown_state : Read
  unknown_editor_pid_source : Read
  accepted : Json → Read

-- `validateStateDoc`, of a value that is an object.
unfoldable pub validate_object : Conversions → Json → Read
validate_object c o =
    if not (is_version (c.number_of (get "schema_version" o)))
    then schema_mismatch
    else if not (has_state (get "state" o))
    then unknown_state
    else if not (is_known_source c (get "editor_pid_source" o))
    then unknown_editor_pid_source
    else accepted o

unfoldable pub validate_state_doc : Conversions → Json → Read
validate_state_doc c (obj fs) = validate_object c (obj fs)
validate_state_doc c (arr xs) = validate_object c (arr xs)
validate_state_doc c _ = not_object

unfoldable pub read_runtime_state : Conversions → String → File → Read
read_runtime_state c runtime_id file =
    if non_empty runtime_id
    then elim file [ absent ↦ no_file | unparseable ↦ unparsed | holds v ↦ validate_state_doc c v ]
    else no_runtime_id

unfoldable pub set_field : String → Json → Fields → Fields
set_field k v end = field k v end
set_field k v (field j w fs) =
    let rest = set_field k v fs in if str_eq j k then field j v fs else field j w rest

unfoldable pub delete_field : String → Fields → Fields
delete_field k end = end
delete_field k (field j w fs) =
    let rest = delete_field k fs in if str_eq j k then rest else field j w rest

-- What a value gives to `Object.assign`. `null` is read as `{}`, as its property cannot be read.
unfoldable pub fields_of : Conversions → Json → Fields
fields_of c (obj fs) = fs
fields_of c (arr xs) = c.indexed (arr xs)
fields_of c (str s) = c.indexed (str s)
fields_of c _ = end

unfoldable pub read_state_doc_or_empty : Conversions → File → Fields
read_state_doc_or_empty c (holds v) = fields_of c v
read_state_doc_or_empty c _ = end

-- A patch in its order, where `none` is `undefined`: such a key is deleted in the end.
unfoldable pub assign_patch : List (String × Option Json) → Fields → Fields
assign_patch [] fs = fs
assign_patch ((k, none) ∷ ps) fs = assign_patch ps (delete_field k fs)
assign_patch ((k, some v) ∷ ps) fs = assign_patch ps (set_field k v fs)

unfoldable pub merge_state_doc : String → List (String × Option Json) → Fields → Fields
merge_state_doc now patch doc =
    set_field "updated_at" (str now)
      (set_field "schema_version" (num (scaled state_schema_version 0)) (assign_patch patch doc))

-- `writeRuntimeState`, with the time; its audit event is left out.
unfoldable pub write_runtime_state :
    Conversions → String → String → List (String × Option Json) → File → File
write_runtime_state c runtime_id now patch file =
    if non_empty runtime_id
    then holds (obj (merge_state_doc now patch (read_state_doc_or_empty c file)))
    else file
