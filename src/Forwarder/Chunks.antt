-- ===== src/Forwarder/Chunks.antt =====
-- The child's stderr comes in chunks of bytes, each of which is decoded on its own.
use godot_mcp.Forwarder.ToolsCache.{maybe_refresh_tools_cache}
use godot_mcp.Forwarder.Process.{on_stderr}
use godot_mcp.Base.{arith, ◌<◌}
use mathlib.Core.List.{append_assoc}
use godot_mcp.Base.{
  ℕ, String, ◌≡◌, refl, sym, ap, ◌∙◌, List, [], ◌∷◌, ◌++◌, ◌==◌, Bool-cases, inl, inr, false,
}
use godot_mcp.Forwarder.{Child, Settings}
use godot_mcp.Forwarder.Process.{add_unit, split_lines, note_stderr_line, note_stderr_lines}

-- The lines of a text and of what comes after it.
abbrev join_lines : List (List ℕ) × List ℕ → List ℕ → List (List ℕ) × List ℕ
join_lines cut text = let later = split_lines (cut.1 ++ text) in (cut.0 ++ later.0, later.1)

add_unit-join_lines :
    (c : ℕ) (cut : List (List ℕ) × List ℕ) (text : List ℕ)
    → (c == 10) ≡ false
    → join_lines (add_unit c cut) text ≡ add_unit c (join_lines cut text)
unfolding split_lines
add_unit-join_lines c ([], rest) text h = rw h
add_unit-join_lines c (line ∷ lines, rest) text h = refl

split_lines-append : (a b : List ℕ) → split_lines (a ++ b) ≡ join_lines (split_lines a) b
unfolding split_lines
split_lines-append [] b = refl
split_lines-append (c ∷ a) b = elim (Bool-cases (c == 10)) [
  | inl ends ↦
      rw ends (ap (λ (cut : List (List ℕ) × List ℕ). ([] ∷ cut.0, cut.1)) (split_lines-append a b))
  | inr goes ↦ rw goes (
      ap (add_unit c) (split_lines-append a b) ∙ sym (add_unit-join_lines c (split_lines a) b goes))
]

note_stderr_lines-append :
    (i : String) (xs ys : List (List ℕ)) (k : Child)
    → note_stderr_lines i (xs ++ ys) k ≡ note_stderr_lines i ys (note_stderr_lines i xs k)
unfolding note_stderr_lines
note_stderr_lines-append i [] ys k = refl
note_stderr_lines-append i (x ∷ xs) ys k = note_stderr_lines-append i xs ys (note_stderr_line i x k)

abbrev buffer : List ℕ → Child → Child
buffer text k = record k { err_buf = text }

note_stderr_line-buffer :
    (i : String) (line text : List ℕ) (k : Child)
    → note_stderr_line i line (buffer text k) ≡ buffer text (note_stderr_line i line k)
unfolding note_stderr_line maybe_refresh_tools_cache
note_stderr_line-buffer i line text k = ground arith

note_stderr_lines-buffer :
    (i : String) (lines : List (List ℕ)) (text : List ℕ) (k : Child)
    → note_stderr_lines i lines (buffer text k) ≡ buffer text (note_stderr_lines i lines k)
unfolding note_stderr_lines
note_stderr_lines-buffer i [] text k = refl
note_stderr_lines-buffer i (line ∷ lines) text k =
    ap (note_stderr_lines i lines) (note_stderr_line-buffer i line text k)
    ∙ note_stderr_lines-buffer i lines text (note_stderr_line i line k)

-- The lines of a cut text, with its rest kept.
abbrev read_cut : String → List (List ℕ) × List ℕ → Child → Child
read_cut i cut k = note_stderr_lines i cut.0 (buffer cut.1 k)

read_cut-join_lines :
    (s : Settings) (i : String) (cut : List (List ℕ) × List ℕ) (b : List ℕ) (k : Child)
    → read_cut i (join_lines cut (s.decode b)) k ≡ on_stderr s i b (read_cut i cut k)
unfolding on_stderr
read_cut-join_lines s i cut b k =
    let later : List (List ℕ) × List ℕ = split_lines (cut.1 ++ s.decode b) in
    note_stderr_lines-append i cut.0 later.0 (buffer later.1 k)
    ∙ ap (note_stderr_lines i later.0) (note_stderr_lines-buffer i cut.0 later.1 k)
    ∙ sym (ap (on_stderr s i b) (note_stderr_lines-buffer i cut.0 cut.1 k))

-- A cut at which the text is that of the two chunks is not seen.
decoded_cut :
    (s : Settings) (i : String) (a b ab : List ℕ) (k : Child)
    → s.decode ab ≡ s.decode a ++ s.decode b
    → on_stderr s i b (on_stderr s i a k) ≡ on_stderr s i ab k
unfolding on_stderr
decoded_cut s i a b ab k parts = sym (
    ap (λ text. read_cut i (split_lines (k.err_buf ++ text)) k) parts
    ∙ ap (λ text. read_cut i (split_lines text) k)
        (sym (append_assoc k.err_buf (s.decode a) (s.decode b)))
    ∙ ap (λ cut. read_cut i cut k) (split_lines-append (k.err_buf ++ s.decode a) (s.decode b))
    ∙ read_cut-join_lines s i (split_lines (k.err_buf ++ s.decode a)) b k)

-- What the decoding of UTF-8 promises: no character, and no replacement of a broken one, reaches
-- over a byte below 128, which is a character of its own.
pub record IsUtf8 (decode : List ℕ → List ℕ) : Type 0 where
  pub of_nothing : decode [] ≡ []
  pub at_ascii : (a b : List ℕ) (c : ℕ) → c < 128 → decode (a ++ c ∷ b) ≡ decode a ++ c ∷ decode b

-- The stderr of the child is read alike wherever it is cut beside a byte of ASCII, before it or
-- after it: over any decoding with the promise of UTF-8, two chunks in a row leave the state that
-- their concatenation leaves, with the connection's mark, the refresh of the tools cache and the rest
-- of the last line, whatever was buffered before. A cut inside a longer character is not covered: its
-- halves are decoded apart.
pub ascii_cuts_are_invisible :
    (s : Settings)
    → IsUtf8 s.decode
    → (i : String) (a b : List ℕ) (c : ℕ) (k : Child) → c < 128
    → (on_stderr s i (c ∷ b) (on_stderr s i a k) ≡ on_stderr s i (a ++ c ∷ b) k)
      × (on_stderr s i b (on_stderr s i (a ++ c ∷ []) k) ≡ on_stderr s i (a ++ c ∷ b) k)
ascii_cuts_are_invisible s utf8 i a b c k ascii =
    let whole = utf8.at_ascii a b c ascii in
    let head = utf8.at_ascii [] b c ascii ∙ ap (λ t. t ++ c ∷ s.decode b) utf8.of_nothing in
    let last = utf8.at_ascii a [] c ascii ∙ ap (λ t. s.decode a ++ c ∷ t) utf8.of_nothing in
    (
      decoded_cut s i a (c ∷ b) (a ++ c ∷ b) k (whole ∙ sym (ap (λ t. s.decode a ++ t) head)),
      decoded_cut s i (a ++ c ∷ []) b (a ++ c ∷ b) k (
          whole
          ∙ sym (append_assoc (s.decode a) (c ∷ []) (s.decode b))
          ∙ sym (ap (λ t. t ++ s.decode b) last)),
    )
