-- ===== src/Record/Merge.antt =====
-- What a write of the record keeps, and what the next read finds.
use godot_mcp.Base.{
  String, ◌≡◌, true, false, Option, none, some, str_eq, non_empty, List, [], ◌∷◌, ◌∙◌,
  if◌then◌else◌, arith, refl, eq_iff, Bool-cases, inl, inr, ap,
}
use godot_mcp.Json.{Json, num, str, obj, scaled, Fields, end, field, get, lookup_field}
use godot_mcp.Record.{
  is_version, Conversions, File, accepted, state_schema_version, has_state, is_known_source,
  set_field, delete_field, assign_patch, merge_state_doc, read_state_doc_or_empty,
  write_runtime_state, read_runtime_state, validate_state_doc, validate_object,
}

pub lookup_field-set :
    (k j : String) (v : Json) (fs : Fields)
    → lookup_field k (set_field j v fs) ≡ (if str_eq j k then some v else lookup_field k fs)
unfolding lookup_field set_field
lookup_field-set k j v end = refl
lookup_field-set k j v (field i w fs) = elim (Bool-cases (str_eq i j)) [
  | inl same ↦ let named = (eq_iff i j).0 same in ground (arith, named, lookup_field-set k j v fs)
  | inr other ↦
      ground
        (arith, other, (eq_iff i k).0, (eq_iff j k).0, (eq_iff i j).1, lookup_field-set k j v fs)
]

lookup_field-delete :
    (k j : String) (fs : Fields)
    → lookup_field k (delete_field j fs) ≡ (if str_eq j k then none else lookup_field k fs)
unfolding lookup_field delete_field
lookup_field-delete k j end = ground arith
lookup_field-delete k j (field i w fs) = elim (Bool-cases (str_eq i j)) [
  | inl same ↦ let named = (eq_iff i j).0 same in ground (arith, named, lookup_field-delete k j fs)
  | inr other ↦
      ground
        (arith, other, (eq_iff i k).0, (eq_iff j k).0, (eq_iff i j).1, lookup_field-delete k j fs)
]

-- The value of a key after a patch, where it had `old` before: that of the key's last entry.
abbrev pub patched : String → List (String × Option Json) → Option Json → Option Json
patched k [] old = old
patched k ((j, v) ∷ ps) old = patched k ps (if str_eq j k then v else old)

lookup_field-assign :
    (k : String) (ps : List (String × Option Json)) (fs : Fields)
    → lookup_field k (assign_patch ps fs) ≡ patched k ps (lookup_field k fs)
unfolding assign_patch
lookup_field-assign k [] fs = refl
lookup_field-assign k ((j, none) ∷ ps) fs =
    lookup_field-assign k ps (delete_field j fs) ∙ ap (patched k ps) (lookup_field-delete k j fs)
lookup_field-assign k ((j, some v) ∷ ps) fs =
    lookup_field-assign k ps (set_field j v fs) ∙ ap (patched k ps) (lookup_field-set k j v fs)

lookup_field-merge :
    (now k : String) (ps : List (String × Option Json)) (doc : Fields)
    → str_eq "updated_at" k ≡ false
    → str_eq "schema_version" k ≡ false
    → lookup_field k (merge_state_doc now ps doc) ≡ patched k ps (lookup_field k doc)
unfolding merge_state_doc
lookup_field-merge now k ps doc not_time not_version =
    let stamped =
      set_field "schema_version" (num (scaled state_schema_version 0)) (assign_patch ps doc) in
    let time = lookup_field-set k "updated_at" (str now) stamped in
    let version =
      lookup_field-set k "schema_version" (num (scaled state_schema_version 0))
        (assign_patch ps doc) in
    ground (arith, not_time, not_version, time, version, lookup_field-assign k ps doc)

lookup_field-version :
    (now : String) (ps : List (String × Option Json)) (doc : Fields)
    → lookup_field "schema_version" (merge_state_doc now ps doc)
      ≡ some (num (scaled state_schema_version 0))
unfolding merge_state_doc
lookup_field-version now ps doc =
    lookup_field-set "schema_version" "updated_at" (str now) _
    ∙ lookup_field-set "schema_version" "schema_version" _ (assign_patch ps doc)

validate_object-accepts :
    (c : Conversions) (fs : Fields)
    → is_version (c.number_of (lookup_field "schema_version" fs)) ≡ true
    → has_state (lookup_field "state" fs) ≡ true
    → is_known_source c (lookup_field "editor_pid_source" fs) ≡ true
    → validate_object c (obj fs) ≡ accepted (obj fs)
unfolding validate_object get
validate_object-accepts c fs version state source = ground (arith, version, state, source)

-- A write under a runtime id whose patched state is valid and whose patched source of the editor's
-- pid is absent or known, and then a read: the record is accepted, whatever the file held before,
-- and each of its keys but the version and the time has the patch's value, or else the old one.
-- `Number` takes the version's number to itself.
pub write_then_read :
    (c : Conversions) (runtime_id now : String) (ps : List (String × Option Json)) (file : File)
    (k : String)
    → c.number_of (some (num (scaled state_schema_version 0))) ≡ some state_schema_version
    → non_empty runtime_id ≡ true
    → has_state (patched "state" ps (lookup_field "state" (read_state_doc_or_empty c file))) ≡ true
    → is_known_source c (
        patched "editor_pid_source" ps
          (lookup_field "editor_pid_source" (read_state_doc_or_empty c file)))
      ≡ true
    → str_eq "updated_at" k ≡ false
    → str_eq "schema_version" k ≡ false
    → (fs : Fields) × (read_runtime_state c runtime_id
          (write_runtime_state c runtime_id now ps file)
        ≡ accepted (obj fs))
      × (lookup_field k fs ≡ patched k ps (lookup_field k (read_state_doc_or_empty c file)))
unfolding read_runtime_state write_runtime_state validate_state_doc
write_then_read c runtime_id now ps file k numbers named valid known not_time not_version =
    let doc = read_state_doc_or_empty c file in
    let fs = merge_state_doc now ps doc in
    let passed =
      validate_object-accepts c fs
        (ap (λ v. is_version (c.number_of v)) (lookup_field-version now ps doc)
          ∙ ap is_version numbers)
        (ap has_state (lookup_field-merge now "state" ps doc refl refl) ∙ valid)
        (ap (is_known_source c) (lookup_field-merge now "editor_pid_source" ps doc refl refl)
          ∙ known) in
    (fs, ground (arith, named, passed), lookup_field-merge now k ps doc not_time not_version)
