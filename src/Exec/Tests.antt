-- ===== src/Exec/Tests.antt =====
-- The theorems of the pre-check at concrete inputs, and its verdicts on some sources.
use godot_mcp.Exec.{newline, hash}
use godot_mcp.Exec.Lexing.{times, lex_strip_keeps_lines}
use godot_mcp.Base.{ℕ, ◌≡◌, refl, List, [], ◌∷◌, ◌++◌, codes, strip_prefix}
use godot_mcp.Exec.{
  passes, no_code, denied_token, normalize, lex_code, lex_step, lex_from, lex_strip, is_blank,
  join_continued, close_dots, matches, violations, judge, precheck_exec_source,
}
use godot_mcp.Exec.Contents.{contents_ignored}

-- `OS . execute("x")`
spaced : precheck_exec_source (codes "OS . execute(1)") ≡ denied_token ("OS.execute" ∷ [])
unfolding precheck_exec_source judge violations matches close_dots join_continued is_blank lex_strip
    lex_from lex_step lex_code normalize strip_prefix
spaced = refl

longer :
    precheck_exec_source (codes "OS.execute_with_pipe") ≡ denied_token ("OS.execute_with_pipe" ∷ [])
unfolding precheck_exec_source judge violations matches close_dots join_continued is_blank lex_strip
    lex_from lex_step lex_code normalize strip_prefix
longer = refl

commented : precheck_exec_source (codes "x # await") ≡ passes
unfolding precheck_exec_source judge violations matches close_dots join_continued is_blank lex_strip
    lex_from lex_step lex_code normalize strip_prefix
commented = refl

bare : precheck_exec_source (codes "# x") ≡ no_code
unfolding precheck_exec_source judge is_blank lex_strip lex_from lex_step lex_code normalize
    strip_prefix
bare = refl

abbrev quote : ℕ
quote = 34

abbrev tail : List ℕ
tail = codes ".length()"

-- "await" and "x", both followed by `.length()`.
contents_ignored_example :
    judge (lex_strip (quote ∷ codes "await" ++ quote ∷ tail))
    ≡ judge (lex_strip (quote ∷ codes "x" ++ quote ∷ tail))
contents_ignored_example =
    contents_ignored quote b'a' b'x' (codes "wait") (codes "") tail refl
      (refl, (refl, (refl, (refl, (refl, tt))))) (refl, tt)

-- A string over a line end.
abbrev broken : List ℕ
broken = quote ∷ codes "#" ++ 92 ∷ 10 ∷ quote ∷ codes " # x"

lex_strip_keeps_lines_example :
    (times newline (lex_strip broken) ≡ times newline broken) × (times hash (lex_strip broken) ≡ 0)
lex_strip_keeps_lines_example = lex_strip_keeps_lines broken
