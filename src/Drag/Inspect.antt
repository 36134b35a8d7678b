-- ===== src/Drag/Inspect.antt =====
-- launch/see1240-ui-tools.mjs: the arguments of godot_ui_inspect, and the path that the snippets of
-- the game look up. A path is the list of its units.
use godot_mcp.Base.{
  ℕ, String, Bool, true, false, not, ◌||◌, Option, none, some, List, [], ◌∷◌, ◌++◌, codes, contains,
  has_prefix, strip_prefix, non_empty, if◌then◌else◌, ◌==◌, refl, ◌≡◌, arith, Bool-cases, inl, inr,
  ◌&&◌,
}
use godot_mcp.Json.{Json, get_in, text_of, is_text}

-- `{ ok: true, action, nodePath }`, or the message of the error.
pub data Inspection : Type 0 where
  inspect_node_at ui_tree_at : String → Inspection
  needs_node_path unknown_action : Inspection

abbrev non_empty_text : Option Json → Option String
non_empty_text v = elim (text_of v) [ none ↦ none | some p ↦ if non_empty p then some p else none ]

unfoldable pub validate_ui_inspect_args : Option Json → Inspection
validate_ui_inspect_args args =
    let action = get_in "action" args in
    if is_text "inspect_node" action
    then elim (non_empty_text (get_in "node_path" args)) [
      | none ↦ needs_node_path
      | some p ↦ inspect_node_at p
    ]
    else if is_text "ui_tree" action
    then elim (non_empty_text (get_in "root_path" args)) [
      | none ↦ ui_tree_at "/root"
      | some p ↦ ui_tree_at p
    ]
    else unknown_action

abbrev slash : ℕ
slash = 47

abbrev dot : ℕ
dot = 46

abbrev root_path : List ℕ
root_path = codes "/root"

abbrev is_slash : List ℕ → Bool
is_slash (c ∷ []) = c == slash
is_slash _ = false

abbrev is_empty : List ℕ → Bool
is_empty [] = true
is_empty _ = false

-- `.replace(/\/+$/, '')`
unfoldable pub strip_slashes : List ℕ → List ℕ
strip_slashes [] = []
strip_slashes (c ∷ cs) =
    let rest = strip_slashes cs in if c == slash && is_empty rest then [] else c ∷ rest

abbrev strip_slash : List ℕ → List ℕ → List ℕ
strip_slash p [] = p
strip_slash p (c ∷ cs) = if c == slash then cs else p

-- `.replace(/^\.?\//, '')`
abbrev strip_start : List ℕ → List ℕ
strip_start [] = []
strip_start (c ∷ cs) = if c == dot then strip_slash (c ∷ cs) cs else strip_slash (c ∷ cs) (c ∷ cs)

abbrev is_exactly : List ℕ → List ℕ → Bool
is_exactly t p = has_prefix t p && has_prefix p t

unfoldable pub normalize_node_path : List ℕ → List ℕ
normalize_node_path p =
    if is_exactly root_path p || is_slash p
    then root_path
    else if has_prefix (root_path ++ slash ∷ []) p
    then p
    else if has_prefix (slash ∷ []) p
    then p
    else if is_exactly (dot ∷ []) p || not (contains (slash ∷ []) p)
    then strip_slashes (root_path ++ slash ∷ p)
    else root_path ++ slash ∷ strip_start p

abbrev is_absolute : List ℕ → Bool
is_absolute p = has_prefix (slash ∷ []) p

rooted-absolute :
    (p : List ℕ) → has_prefix (root_path ++ slash ∷ []) p ≡ true → is_absolute p ≡ true
unfolding strip_prefix
rooted-absolute [] h = ground arith
rooted-absolute (c ∷ cs) h = ground arith

stripped-absolute : (p : List ℕ) → is_absolute (strip_slashes (root_path ++ slash ∷ p)) ≡ true
unfolding strip_slashes strip_prefix
stripped-absolute p = refl

started-absolute : (p : List ℕ) → is_absolute (root_path ++ slash ∷ p) ≡ true
unfolding strip_prefix
started-absolute p = refl

root_path-absolute : is_absolute root_path ≡ true
unfolding strip_prefix
root_path-absolute = refl

-- Whatever the caller's path is, the path that is looked up is absolute.
normalize_node_path-absolute : (p : List ℕ) → is_absolute (normalize_node_path p) ≡ true
unfolding normalize_node_path
normalize_node_path-absolute p = elim (Bool-cases (is_exactly root_path p || is_slash p)) [
  | inl alias ↦ rw alias root_path-absolute
  | inr other ↦ rw other elim (Bool-cases (has_prefix (root_path ++ slash ∷ []) p)) [
    | inl rooted ↦ rw rooted (rooted-absolute p rooted)
    | inr unrooted ↦ rw unrooted elim (Bool-cases (is_absolute p)) [
      | inl absolute ↦ rw absolute absolute
      | inr relative ↦
          rw relative elim (Bool-cases (is_exactly (dot ∷ []) p || not (contains (slash ∷ []) p))) [
            | inl bare ↦ rw bare (stripped-absolute p)
            | inr nested ↦ rw nested (started-absolute (strip_start p))
          ]
    ]
  ]
]
