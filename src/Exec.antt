-- ===== src/Exec.antt =====
-- launch/see1240-exec-constraints.mjs: the pre-check of a source that is to run in the game.
-- A source is the list of its UTF-16 code units. The texts of the messages are left out.
mod Lexing
mod Contents
mod Tests
use godot_mcp.Base.Patterns.{is_space}
use godot_mcp.Base.{
  ℕ, zero, suc, String, ◌==◌, Bool, true, false, not, ◌&&◌, ◌||◌, leb, List, [], ◌∷◌, ◌++◌, Option,
  none, some, codes, has_prefix, strip_prefix, if◌then◌else◌,
}

abbrev pub newline : ℕ
newline = 10

abbrev pub carriage_return : ℕ
carriage_return = 13

abbrev pub backslash : ℕ
backslash = 92

abbrev pub hash : ℕ
hash = 35

abbrev pub is_quote : ℕ → Bool
is_quote c = c == 34 || c == 39

-- `normalize`: each line end becomes one newline.
unfoldable pub normalize : List ℕ → List ℕ
normalize [] = []
normalize (c ∷ []) = (if c == carriage_return then newline else c) ∷ []
normalize (c ∷ d ∷ cs) =
    let rest = normalize (d ∷ cs) in
    if c == carriage_return then (if d == newline then rest else newline ∷ rest) else c ∷ rest

-- Where `lexStrip` stands: in code, in a comment, or in a string, with the code unit of its quote
-- and whether three of them end it.
pub data Mode : Type 0 where
  in_code in_comment : Mode
  in_text : ℕ → Bool → Mode

-- `c` or `c.repeat(3)`
abbrev pub quote_of : ℕ → Bool → List ℕ
quote_of q false = q ∷ []
quote_of q true = q ∷ q ∷ q ∷ []

-- The code units of a quote behind its first.
abbrev pub quote_rest : Bool → ℕ
quote_rest false = 0
quote_rest true = 2

-- What one round of the loop appends, where it then stands, and how many code units it passes over
-- behind the one that it reads.
pub record Lexed : Type 0 where
  pub appended : List ℕ
  pub mode : Mode
  pub passed : ℕ

abbrev pub starts_newline : List ℕ → Bool
starts_newline [] = false
starts_newline (c ∷ cs) = c == newline

unfoldable pub lex_code : ℕ → List ℕ → Lexed
lex_code c cs =
    if c == hash
    then record { appended = []; mode = in_comment; passed = 0 }
    else if is_quote c
    then (let long = has_prefix (c ∷ c ∷ []) cs in
        record { appended = quote_of c long; mode = in_text c long; passed = quote_rest long })
    else record { appended = c ∷ []; mode = in_code; passed = 0 }

unfoldable pub lex_text : ℕ → Bool → ℕ → List ℕ → Lexed
lex_text q long c cs =
    if c == newline
    then record { appended = newline ∷ []; mode = in_text q long; passed = 0 }
    else if c == backslash
    then record {
      appended = if starts_newline cs then newline ∷ [] else [];
      mode = in_text q long;
      passed = 1;
    }
    else if has_prefix (quote_of q long) (c ∷ cs)
    then record { appended = quote_of q long; mode = in_code; passed = quote_rest long }
    else record { appended = []; mode = in_text q long; passed = 0 }

unfoldable pub lex_step : Mode → ℕ → List ℕ → Lexed
lex_step in_code c cs = lex_code c cs
lex_step in_comment c cs =
    if c == newline
    then record { appended = newline ∷ []; mode = in_code; passed = 0 }
    else record { appended = []; mode = in_comment; passed = 0 }
lex_step (in_text q long) c cs = lex_text q long c cs

-- The loop of `lexStrip`, with the code units that it has still to pass over.
unfoldable pub lex_from : Mode → ℕ → List ℕ → List ℕ
lex_from m k [] = []
lex_from m (suc k) (c ∷ cs) = lex_from m k cs
lex_from m zero (c ∷ cs) = let s = lex_step m c cs in s.appended ++ lex_from s.mode s.passed cs

unfoldable pub lex_strip : List ℕ → List ℕ
lex_strip source = lex_from in_code 0 source

-- `\s`, in the basic plane.
-- `.trim().length === 0`
unfoldable pub is_blank : List ℕ → Bool
is_blank [] = true
is_blank (c ∷ cs) = is_space c && is_blank cs

-- `.replace(/\\\n/g, '')`
unfoldable pub join_continued : List ℕ → List ℕ
join_continued [] = []
join_continued (c ∷ []) = c ∷ []
join_continued (c ∷ d ∷ cs) =
    let shorter = join_continued cs in
    let rest = join_continued (d ∷ cs) in
    if c == backslash && d == newline then shorter else c ∷ rest

-- `.replace(/\s*\.\s*/g, '.')`: `held` is the white space before, and `after` tells that a dot was
-- the last code unit that was kept.
unfoldable pub close_dots : Bool → List ℕ → List ℕ → List ℕ
close_dots after held [] = held
close_dots after held (c ∷ cs) =
    let space = is_space c in
    let is_dot = c == 46 in
    let next_held = if space then (if after then [] else held ++ c ∷ []) else [] in
    let kept = if space then [] else if is_dot then c ∷ [] else held ++ c ∷ [] in
    kept ++ close_dots (is_dot || (space && after)) next_held cs

-- `\w`
abbrev pub is_word : ℕ → Bool
is_word c =
    (leb b'0' c && leb c b'9')
    || (leb b'A' c && leb c b'Z')
    || (leb b'a' c && leb c b'z')
    || c == 95

abbrev pub starts_word : List ℕ → Bool
starts_word [] = false
starts_word (c ∷ cs) = is_word c

abbrev pub ends_at_boundary : Option (List ℕ) → Bool
ends_at_boundary none = false
ends_at_boundary (some rest) = not (starts_word rest)

-- `tokenRe(token).test(text)`, for a token that begins and ends with a `\w`; `inside` tells that a
-- `\w` stands before.
unfoldable pub matches : List ℕ → Bool → List ℕ → Bool
matches token inside [] = false
matches token inside (c ∷ cs) =
    let rest = matches token (is_word c) cs in
    (not inside && ends_at_boundary (strip_prefix token (c ∷ cs))) || rest

-- The tokens of `EXEC_CONSTRAINTS`.
abbrev pub exec_constraints : List String
exec_constraints =
    "OS.execute" ∷ "OS.execute_with_pipe" ∷ "OS.create_process" ∷ "OS.create_instance" ∷ "OS.kill"
    ∷ "OS.shell_open" ∷ "OS.shell_show_in_file_manager" ∷ "OS.move_to_trash" ∷ "DirAccess"
    ∷ "FileAccess.WRITE" ∷ "FileAccess.READ_WRITE" ∷ "FileAccess.WRITE_READ" ∷ "ResourceSaver"
    ∷ "ProjectSettings.save" ∷ "ProjectSettings.save_custom" ∷ "EditorInterface" ∷ []

pub data Verdict : Type 0 where
  passes no_code sync_only : Verdict
  denied_token : List String → Verdict

unfoldable pub violations : List String → List ℕ → List String
violations [] text = []
violations (token ∷ ts) text =
    let rest = violations ts text in if matches (codes token) false text then token ∷ rest else rest

abbrev pub deny : List String → Verdict
deny [] = passes
deny (t ∷ ts) = denied_token (t ∷ ts)

-- The verdict on what the lexer leaves of a source.
unfoldable pub judge : List ℕ → Verdict
judge stripped =
    let text = close_dots false [] (join_continued stripped) in
    if is_blank stripped
    then no_code
    else if matches (codes "await") false text
    then sync_only
    else deny (violations exec_constraints text)

-- `precheckExecSource`
unfoldable pub precheck_exec_source : List ℕ → Verdict
precheck_exec_source [] = no_code
precheck_exec_source (c ∷ cs) = judge (lex_strip (normalize (c ∷ cs)))
