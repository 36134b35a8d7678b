-- ===== src/Record/Tests.antt =====
-- The theorem of the record at a concrete input, and runs of the probe of an editor.
use godot_mcp.Record.{is_known_source}
use godot_mcp.Base.{codes, true, false, strip_prefix}
use godot_mcp.Base.Patterns.{trim_end}
use godot_mcp.Record.Liveness.{read_count, first_line, split_word}
use godot_mcp.Base.{ap, ℕ, String, ◌≡◌, Option, none, some, List, [], ◌∷◌, refl}
use godot_mcp.Json.{Json, str, obj, num, scaled, Fields, field, end, null, lookup_field}
use godot_mcp.Record.{
  Conversions, File, holds, accepted, read_runtime_state, write_runtime_state,
  read_state_doc_or_empty, fields_of,
}
use godot_mcp.Record.Merge.{patched, write_then_read}

-- `Number` of a whole number, of an absent value, and of any other as if it were 0.
abbrev whole : Option Json → Option ℕ
whole none = none
whole (some (num (scaled n k))) = some n
whole (some v) = some 0

abbrev conversions : Conversions
conversions = record { number_of = whole; text_of_value = λ v. "wsl"; indexed = λ v. end }

-- A record that is about to become warm, and whose last error is cleared.
abbrev warming : File
warming = holds (obj (field "state" (str "WARMING") (field "last_error" (str "late") end)))

abbrev warm_patch : List (String × Option Json)
warm_patch = ("state", some (str "WARM")) ∷ ("last_error", some null) ∷ ("detail", none) ∷ []

warming-source :
    lookup_field "editor_pid_source" (read_state_doc_or_empty conversions warming) ≡ none
unfolding read_state_doc_or_empty fields_of lookup_field
warming-source = refl

write_then_read_example :
    (fs : Fields) × (read_runtime_state conversions "rt"
        (write_runtime_state conversions "rt" "2026-01-01T00:00:00Z" warm_patch warming)
      ≡ accepted (obj fs))
    × (lookup_field "last_error" fs
        ≡ patched "last_error" warm_patch
            (lookup_field "last_error" (read_state_doc_or_empty conversions warming)))
write_then_read_example =
    write_then_read conversions "rt" "2026-01-01T00:00:00Z" warm_patch warming "last_error" refl
      refl refl (ap (is_known_source conversions) warming-source) refl refl

-- What PowerShell prints of a pid.
reads_editor : read_count (codes "1 Godot_v4.5\r\n") ≡ true
unfolding read_count first_line split_word trim_end strip_prefix
reads_editor = refl

reads_reused : read_count (codes "1 notepad\r\n") ≡ false
unfolding read_count first_line split_word trim_end strip_prefix
reads_reused = refl

reads_unnamed : read_count (codes "1 \r\n") ≡ true
unfolding read_count first_line split_word trim_end strip_prefix
reads_unnamed = refl
