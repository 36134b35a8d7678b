-- ===== src/Base/Patterns.antt =====
-- The regular expressions of the code as tests of a text, by what follows them. A test reads the
-- code unit before the place where it stands, and the text from there on.
use Prim.Native.Nat.{ℕ, zero, suc, ◌+◌}
use mathlib.Core.Bool.{Bool, true, false, not, ◌||◌, ◌&&◌}
use mathlib.Core.Option.{Option, none, some}
use mathlib.Core.List.{List, [], ◌∷◌}
use Prim.Native.String.{String}
use godot_mcp.Base.Tests.{◌==◌, leb, if◌then◌else◌}
use godot_mcp.Base.Texts.{codes, is_digit}

abbrev pub Test : Type 0
Test = Option ℕ → List ℕ → Bool

-- The `i` flag, for a pattern of ASCII letters: no other code unit is folded to one of them.
abbrev pub fold_case : ℕ → ℕ
fold_case c = if leb b'A' c && leb c b'Z' then c + 32 else c

-- A literal, without regard to case.
unfoldable pub literal : List ℕ → Test → Test
literal [] next prev text = next prev text
literal (c ∷ p) next prev [] = false
literal (c ∷ p) next prev (d ∷ text) =
    let rest = literal p next (some d) text in if fold_case c == fold_case d then rest else false

-- `(?:a|b|…)`
unfoldable pub one_of : List String → Test → Test
one_of [] next prev text = false
one_of (s ∷ ss) next prev text = literal (codes s) next prev text || one_of ss next prev text

-- `[…]?`
unfoldable pub at_most_one : (ℕ → Bool) → Test → Test
at_most_one p next prev [] = next prev []
at_most_one p next prev (c ∷ text) = next prev (c ∷ text) || (p c && next (some c) text)

-- `[…]{0,n}`
unfoldable pub at_most : ℕ → (ℕ → Bool) → Test → Test
at_most zero p next prev text = next prev text
at_most (suc n) p next prev [] = next prev []
at_most (suc n) p next prev (c ∷ text) =
    let rest = at_most n p next (some c) text in next prev (c ∷ text) || (p c && rest)

-- `\w`
abbrev pub is_word_unit : ℕ → Bool
is_word_unit c = is_digit c || (leb b'a' c && leb c b'z') || (leb b'A' c && leb c b'Z') || c == b'_'

abbrev pub is_word_at : Option ℕ → Bool
is_word_at none = false
is_word_at (some c) = is_word_unit c

abbrev pub first_unit : List ℕ → Option ℕ
first_unit [] = none
first_unit (c ∷ text) = some c

-- `\b`
unfoldable pub boundary : Test → Test
boundary next prev text =
    if is_word_at prev
    then not (is_word_at (first_unit text)) && next prev text
    else is_word_at (first_unit text) && next prev text

abbrev pub matched : Test
matched prev text = true

unfoldable pub search_from : Test → Option ℕ → List ℕ → Bool
search_from t prev [] = t prev []
search_from t prev (c ∷ text) = t prev (c ∷ text) || search_from t (some c) text

-- `re.test(text)`
unfoldable pub occurs : Test → String → Bool
unfolding search_from
occurs t text = search_from t none (codes text)

-- `\s`
abbrev pub is_space : ℕ → Bool
is_space c =
    (leb 9 c && leb c 13)
    || c == 32
    || c == 0xa0
    || c == 0x1680
    || (leb 0x2000 c && leb c 0x200a)
    || c == 0x2028
    || c == 0x2029
    || c == 0x202f
    || c == 0x205f
    || c == 0x3000
    || c == 0xfeff

-- `.trim()`, from the left.
abbrev pub drop_spaces : List ℕ → List ℕ
drop_spaces [] = []
drop_spaces (c ∷ cs) = let rest = drop_spaces cs in if is_space c then rest else c ∷ cs

-- `.trim()`, from the right.
unfoldable pub trim_end : List ℕ → List ℕ
trim_end [] = []
trim_end (c ∷ cs) = elim (trim_end cs) [
  | [] ↦ if is_space c then [] else c ∷ []
  | d ∷ ds ↦ c ∷ d ∷ ds
]
