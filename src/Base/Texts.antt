-- ===== src/Base/Texts.antt =====
-- Texts as lists of UTF-16 code units, with the regular-expression steps that the code uses.
use Prim.Native.Char.{code}
use Prim.Native.String.{String}
use Prim.Native.Nat.{ℕ, ◌+◌, ◌*◌, ◌-◌}
use mathlib.Core.Bool.{Bool, ◌||◌, ◌&&◌}
use mathlib.Core.Option.{Option, none, some}
use mathlib.Core.List.{List, [], ◌∷◌, ◌++◌}
use godot_mcp.Base.Tests.{◌==◌, leb, if◌then◌else◌, is_some}

-- The code units of a text of the basic plane.
abbrev pub codes : String → List ℕ
codes String.[] = []
codes (String.◌∷◌ c s) = code c ∷ codes s

-- JavaScript's line terminators, at which `^` and `$` hold under the `m` flag.
abbrev pub is_terminator : ℕ → Bool
is_terminator c = c == 10 || c == 13 || c == 0x2028 || c == 0x2029

-- The lines of a text, its first line apart: `line` holds what stands before the text.
unfoldable pub lines_from : List ℕ → List ℕ → List (List ℕ)
lines_from line [] = line ∷ []
lines_from line (c ∷ text) =
    let closed = line ∷ lines_from [] text in
    let longer = lines_from (line ++ c ∷ []) text in if is_terminator c then closed else longer

-- What follows the prefix `p`.
unfoldable pub strip_prefix : List ℕ → List ℕ → Option (List ℕ)
strip_prefix [] text = some text
strip_prefix (c ∷ p) [] = none
strip_prefix (c ∷ p) (d ∷ text) = if c == d then strip_prefix p text else none

abbrev pub has_prefix : List ℕ → List ℕ → Bool
has_prefix p text = is_some (strip_prefix p text)

unfoldable pub contains : List ℕ → List ℕ → Bool
unfolding strip_prefix
contains p [] = has_prefix p []
contains p (c ∷ text) = has_prefix p (c ∷ text) || contains p text

abbrev pub is_digit : ℕ → Bool
is_digit c = leb b'0' c && leb c b'9'

-- `\d*` from the left: the value of the digits after `acc`, and the rest.
unfoldable pub take_digits : ℕ → List ℕ → ℕ × List ℕ
take_digits acc [] = (acc, [])
take_digits acc (c ∷ text) =
    let rest = take_digits (acc * 10 + (c - b'0')) text in
    if is_digit c then rest else (acc, c ∷ text)

-- `(\d+)`
unfoldable pub number : List ℕ → Option (ℕ × List ℕ)
unfolding take_digits
number [] = none
number (c ∷ text) = if is_digit c then some (take_digits 0 (c ∷ text)) else none
