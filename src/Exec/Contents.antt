-- ===== src/Exec/Contents.antt =====
-- The contents of a string do not reach the verdict of the pre-check.
use godot_mcp.Base.{
  ℕ, ◌==◌, ◌≡◌, true, false, ◌||◌, List, [], ◌∷◌, ◌++◌, arith, All, ap, sym, ◌∙◌, strip_prefix,
}
use godot_mcp.Exec.{
  newline, backslash, is_quote, in_code, in_text, lex_code, lex_text, lex_step, lex_from, lex_strip,
  judge,
}

-- A code unit that neither ends a string begun by `q` nor means anything else in it.
abbrev pub IsPlain : ℕ → ℕ → Type 0
IsPlain q c = ((c == q) || (c == newline) || (c == backslash)) ≡ false

text-skips :
    (q : ℕ) (body rest : List ℕ)
    → All (IsPlain q) body
    → is_quote q ≡ true
    → lex_from (in_text q false) 0 (body ++ q ∷ rest) ≡ q ∷ lex_from in_code 0 rest
unfolding lex_from lex_step lex_text strip_prefix
text-skips q [] rest plain h = ground (arith, h)
text-skips q (c ∷ cs) rest plain h = ground (arith, plain.0, text-skips q cs rest plain.1 h)

-- One quote before another code unit begins a string.
lex_code-opens :
    (q c : ℕ) (cs : List ℕ)
    → is_quote q ≡ true
    → IsPlain q c
    → lex_code q (c ∷ cs) ≡ record { appended = q ∷ []; mode = in_text q false; passed = 0 }
unfolding lex_code strip_prefix
lex_code-opens q c cs h plain = ground (arith, h, plain)

lex-literal :
    (q c : ℕ) (body rest : List ℕ)
    → is_quote q ≡ true
    → All (IsPlain q) (c ∷ body)
    → lex_strip (q ∷ (c ∷ body) ++ q ∷ rest) ≡ q ∷ q ∷ lex_strip rest
unfolding lex_strip lex_from lex_step
lex-literal q c body rest h plain =
    ap (λ s. s.appended ++ lex_from s.mode s.passed (c ∷ (body ++ q ∷ rest)))
      (lex_code-opens q c (body ++ q ∷ rest) h plain.0)
    ∙ ap (λ xs. q ∷ xs) (text-skips q (c ∷ body) rest plain h)

-- Two sources that differ in the contents of the string that they begin with, which is not empty
-- and holds no quote of its kind, line end or backslash, have the same verdict.
pub contents_ignored :
    (q c d : ℕ) (body other rest : List ℕ)
    → is_quote q ≡ true
    → All (IsPlain q) (c ∷ body)
    → All (IsPlain q) (d ∷ other)
    → judge (lex_strip (q ∷ (c ∷ body) ++ q ∷ rest))
      ≡ judge (lex_strip (q ∷ (d ∷ other) ++ q ∷ rest))
contents_ignored q c d body other rest h plain as_plain =
    ap judge (lex-literal q c body rest h plain ∙ sym (lex-literal q d other rest h as_plain))
