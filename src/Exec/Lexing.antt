-- ===== src/Exec/Lexing.antt =====
-- What the lexer of the pre-check keeps of a source: every line end, and nothing of a comment.
use godot_mcp.Base.{
  Bool-cases, inl, inr, ℕ, zero, suc, ◌+◌, ◌==◌, ◌≡◌, Bool, true, false, List, [], ◌∷◌, ◌++◌,
  has_prefix, strip_prefix, if◌then◌else◌, arith, refl,
}
use godot_mcp.Exec.{
  newline, hash, is_quote, Mode, in_code, in_comment, in_text, quote_of, Lexed, lex_code, lex_text,
  lex_strip, starts_newline, quote_rest, lex_step, lex_from,
}

-- How often a code unit stands in a text.
unfoldable pub times : ℕ → List ℕ → ℕ
times x [] = 0
times x (c ∷ cs) = let rest = times x cs in if c == x then suc rest else rest

-- The same, in its first `k` code units.
unfoldable pub times_within : ℕ → ℕ → List ℕ → ℕ
times_within x zero cs = 0
times_within x (suc k) [] = 0
times_within x (suc k) (c ∷ cs) =
    let rest = times_within x k cs in if c == x then suc rest else rest

times-append : (x : ℕ) (xs ys : List ℕ) → times x (xs ++ ys) ≡ times x xs + times x ys
unfolding times
times-append x [] ys = omega arith
times-append x (c ∷ cs) ys = ground (arith, times-append x cs ys)

-- A mode whose string began with a quote.
abbrev pub IsQuoted : Mode → Type 0
IsQuoted in_code = Unit
IsQuoted in_comment = Unit
IsQuoted (in_text q long) = is_quote q ≡ true

-- One round keeps the line end that it reads and those that it passes over.
record Keeps (c : ℕ) (cs : List ℕ) (s : Lexed) : Type 0 where
  lines :
      times newline s.appended ≡ (if c == newline then 1 else 0) + times_within newline s.passed cs
  no_hash : times hash s.appended ≡ 0
  quoted : IsQuoted s.mode

quote_of-times :
    (x q : ℕ) (long : Bool) → is_quote q ≡ true → is_quote x ≡ false → times x (quote_of q long) ≡ 0
unfolding times
quote_of-times x q false h n = ground (arith, h, n)
quote_of-times x q true h n = ground (arith, h, n)

-- The quotes that a string's quote passes over are no line ends.
quotes-within :
    (q : ℕ) (cs : List ℕ)
    → is_quote q ≡ true
    → has_prefix (q ∷ q ∷ []) cs ≡ true
    → times_within newline 2 cs ≡ 0
unfolding times_within strip_prefix
quotes-within q [] h long = ground (arith, long)
quotes-within q (a ∷ []) h long = ground (arith, h, long)
quotes-within q (a ∷ b ∷ cs) h long = ground (arith, h, long)

within_zero : (cs : List ℕ) → times_within newline 0 cs ≡ 0
unfolding times_within
within_zero cs = refl

lex_code-Keeps : (c : ℕ) (cs : List ℕ) → Keeps c cs (lex_code c cs)
unfolding lex_code times
lex_code-Keeps c cs = elim (Bool-cases (has_prefix (c ∷ c ∷ []) cs)) [
  | inl long ↦ ground (
    arith,
    long,
    quotes-within c cs,
    within_zero cs,
    quote_of-times newline c true,
    quote_of-times hash c true,
  )
  | inr short ↦
      ground
        (arith, short, within_zero cs, quote_of-times newline c false, quote_of-times hash c false)
]

-- A code unit that is passed over.
within_one : (cs : List ℕ) → times_within newline 1 cs ≡ (if starts_newline cs then 1 else 0)
unfolding times_within
within_one [] = refl
within_one (c ∷ cs) = ground arith

-- The string's own quote, where it ends.
ends-within :
    (q : ℕ) (long : Bool) (c : ℕ) (cs : List ℕ)
    → is_quote q ≡ true
    → has_prefix (quote_of q long) (c ∷ cs) ≡ true
    → times_within newline (quote_rest long) cs ≡ 0
unfolding strip_prefix
ends-within q false c cs h end = within_zero cs
ends-within q true c cs h end = quotes-within q cs h (ground (arith, end))

lex_text-Keeps :
    (q : ℕ) (long : Bool) (c : ℕ) (cs : List ℕ)
    → is_quote q ≡ true
    → Keeps c cs (lex_text q long c cs)
unfolding lex_text times
lex_text-Keeps q long c cs h = ground (
  arith,
  h,
  within_zero cs,
  within_one cs,
  ends-within q long c cs h,
  quote_of-times newline q long h,
  quote_of-times hash q long h,
)

lex_step-Keeps : (m : Mode) (c : ℕ) (cs : List ℕ) → IsQuoted m → Keeps c cs (lex_step m c cs)
unfolding lex_step times
lex_step-Keeps in_code c cs h = lex_code-Keeps c cs
lex_step-Keeps in_comment c cs h = ground (arith, within_zero cs)
lex_step-Keeps (in_text q long) c cs h = lex_text-Keeps q long c cs h

lex_from-lines :
    (m : Mode) (k : ℕ) (cs : List ℕ)
    → IsQuoted m
    → times newline (lex_from m k cs) + times_within newline k cs ≡ times newline cs
unfolding lex_from times times_within
lex_from-lines m zero [] h = omega arith
lex_from-lines m (suc k) [] h = omega arith
lex_from-lines m (suc k) (c ∷ cs) h = ground (arith, lex_from-lines m k cs h)
lex_from-lines m zero (c ∷ cs) h =
    let s = lex_step m c cs in
    let kept = lex_step-Keeps m c cs h in
    let rest = lex_from-lines s.mode s.passed cs kept.quoted in
    ground (arith, kept.lines, rest, times-append newline s.appended (lex_from s.mode s.passed cs))

lex_from-no_hash : (m : Mode) (k : ℕ) (cs : List ℕ) → IsQuoted m → times hash (lex_from m k cs) ≡ 0
unfolding lex_from times
lex_from-no_hash m zero [] h = refl
lex_from-no_hash m (suc k) [] h = refl
lex_from-no_hash m (suc k) (c ∷ cs) h = lex_from-no_hash m k cs h
lex_from-no_hash m zero (c ∷ cs) h =
    let s = lex_step m c cs in
    let kept = lex_step-Keeps m c cs h in
    let rest = lex_from-no_hash s.mode s.passed cs kept.quoted in
    ground (arith, kept.no_hash, rest, times-append hash s.appended (lex_from s.mode s.passed cs))

-- Whatever the source, the lexer keeps every line end, in code, comments and strings and behind a
-- backslash, and leaves no mark of a comment, in comments or in strings.
pub lex_strip_keeps_lines :
    (source : List ℕ)
    → (times newline (lex_strip source) ≡ times newline source)
      × (times hash (lex_strip source) ≡ 0)
unfolding lex_strip
lex_strip_keeps_lines source = (
  omega (arith, lex_from-lines in_code 0 source tt, within_zero source),
  lex_from-no_hash in_code 0 source tt,
)
