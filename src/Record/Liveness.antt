-- ===== src/Record/Liveness.antt =====
-- launch/proxy/state-file.mjs: whether the proxy and the editor of a record are alive. What the
-- system answers is an input: the signal 0, the links and times of /proc, and PowerShell. A pid is
-- `none` where it is not a positive integer; times are whole ticks, with a number of ticks to a
-- millisecond; `none` in the place of a time is NaN.
use godot_mcp.Base.{refl}
use godot_mcp.Base.{
  ℕ, ◌+◌, ◌-◌, ◌*◌, ◌==◌, String, Bool, true, false, not, ◌&&◌, ◌||◌, Option, none, some, List, [],
  ◌∷◌, map, codes, contains, has_prefix, str_eq, leb, ltb, if◌then◌else◌, ◌≡◌, ◌≤◌, arith,
}
use godot_mcp.Base.Patterns.{fold_case, drop_spaces, trim_end}

-- `process.kill(pid, 0)`
pub data Signal : Type 0 where
  taken not_permitted not_found : Signal

-- What /proc says of a process: the link of its program, and the time of its directory.
pub record Process : Type 0 where
  pub exe : Option (List ℕ)
  pub started : Option ℕ

abbrev is_taken : Signal → Bool
is_taken taken = true
is_taken _ = false

abbrev is_far : ℕ → ℕ → ℕ → Bool
is_far limit a b = ltb (limit + b) a || ltb (limit + a) b

-- The start that is recorded: `none` for null, `some none` for NaN, which is far from nothing.
unfoldable pub starts_match : ℕ → Option (Option ℕ) → Option ℕ → Bool
starts_match per_ms none started = true
starts_match per_ms (some recorded) none = false
starts_match per_ms (some none) (some at) = true
starts_match per_ms (some (some t)) (some at) = not (is_far (5000 * per_ms) at t)

abbrev runs_node : Option (List ℕ) → Bool
runs_node none = false
runs_node (some exe) = contains (codes "node") exe

unfoldable pub proxy_alive : ℕ → Option ℕ → Option (Option ℕ) → Signal → Process → Bool
proxy_alive per_ms none recorded signal p = false
proxy_alive per_ms (some pid) recorded signal p =
    is_taken signal && runs_node p.exe && starts_match per_ms recorded p.started

-- A run of one candidate for PowerShell.
pub data Shell : Type 0 where
  unresolved failed : Shell
  printed : List ℕ → Shell

-- The first candidate that is resolved; `none` where there is none or it fails.
unfoldable pub first_output : List Shell → Option (List ℕ)
first_output [] = none
first_output (unresolved ∷ cs) = first_output cs
first_output (failed ∷ cs) = none
first_output (printed out ∷ cs) = some out

-- `.split(/\r?\n/)[0]`
unfoldable pub first_line : List ℕ → List ℕ
first_line [] = []
first_line (c ∷ cs) =
    let rest = first_line cs in
    if c == 10 || has_prefix (13 ∷ 10 ∷ []) (c ∷ cs) then [] else c ∷ rest

-- `line.split(' ')`: the first part, and the rest.
unfoldable pub split_word : List ℕ → List ℕ × List ℕ
split_word [] = ([], [])
split_word (c ∷ cs) = let rest = split_word cs in if c == 32 then ([], cs) else (c ∷ rest.0, rest.1)

abbrev trim : List ℕ → List ℕ
trim text = trim_end (drop_spaces text)

abbrev is_one : List ℕ → Bool
is_one (c ∷ []) = c == 49
is_one _ = false

-- `/^godot/i`, or a name that is empty.
abbrev is_godot_name : List ℕ → Bool
is_godot_name [] = true
is_godot_name name = has_prefix (codes "godot") (map fold_case name)

unfoldable pub read_count : List ℕ → Bool
read_count out =
    let word = split_word (first_line (trim out)) in is_one word.0 && is_godot_name (trim word.1)

-- `none` is null: the probe is unavailable.
unfoldable pub windows_pid_alive : List Shell → Option Bool
windows_pid_alive cs = elim (first_output cs) [ none ↦ none | some out ↦ some (read_count out) ]

abbrev is_alive_signal : Signal → Bool
is_alive_signal not_found = false
is_alive_signal _ = true

unfoldable pub editor_pid_alive : Option ℕ → String → Signal → List Shell → Option Bool
editor_pid_alive none source signal cs = some false
editor_pid_alive (some pid) source signal cs =
    if str_eq source "wsl"
    then some (is_alive_signal signal)
    else if str_eq source "windows"
    then windows_pid_alive cs
    else some false

-- `heartbeatFresh`, by the time that Date.parse reads.
unfoldable pub heartbeat_fresh_at : ℕ → ℕ → Option ℕ → Bool
heartbeat_fresh_at now max_age none = false
heartbeat_fresh_at now max_age (some t) = leb (now - t) max_age

-- A candidate for PowerShell that is resolved completes before one fails, with what it prints; the
-- candidates before it are unresolved.
pub data Completes : List Shell → List ℕ → Type 0 where
  here : (out : List ℕ) (cs : List Shell) → Completes (printed out ∷ cs) out
  later : (cs : List Shell) (out : List ℕ) → Completes cs out → Completes (unresolved ∷ cs) out

Completes-windows_pid_alive :
    (cs : List Shell) (out : List ℕ)
    → Completes cs out
    → windows_pid_alive cs ≡ some (read_count out)
unfolding windows_pid_alive first_output
Completes-windows_pid_alive _ _ (here out cs) = refl
Completes-windows_pid_alive _ _ (later cs out c) = Completes-windows_pid_alive cs out c

windows_pid_alive-Completes :
    (cs : List Shell) (b : Bool)
    → windows_pid_alive cs ≡ some b
    → (out : List ℕ) × Completes cs out × (read_count out ≡ b)
unfolding windows_pid_alive first_output
windows_pid_alive-Completes [] b h = ground arith
windows_pid_alive-Completes (unresolved ∷ cs) b h =
    let found = windows_pid_alive-Completes cs b h in (found.0, later cs found.0 found.1, found.2)
windows_pid_alive-Completes (failed ∷ cs) b h = ground arith
windows_pid_alive-Completes (printed out ∷ cs) b h = (out, here out cs, ground arith)

-- A pid is unknown, and not dead, only where it is one of Windows.
unknown_is_windows :
    (pid : Option ℕ) (source : String) (signal : Signal) (cs : List Shell)
    → editor_pid_alive pid source signal cs ≡ none
    → (str_eq source "windows" ≡ true) × (windows_pid_alive cs ≡ none)
unfolding editor_pid_alive
unknown_is_windows none source signal cs h = ground arith
unknown_is_windows (some pid) source signal cs h = ground arith

near_start :
    (per_ms t at : ℕ) (started : Option ℕ)
    → started ≡ some at
    → starts_match per_ms (some (some t)) started ≡ true
    → (at ≤ t + 5000 * per_ms) × (t ≤ at + 5000 * per_ms)
unfolding starts_match
near_start per_ms t at none e h = ground arith
near_start per_ms t at (some u) e h = ground arith

-- A proxy whose start was recorded is alive only where the process at its pid started within five
-- seconds of it.
reused_is_dead :
    (per_ms pid t at : ℕ) (signal : Signal) (p : Process)
    → p.started ≡ some at
    → proxy_alive per_ms (some pid) (some (some t)) signal p ≡ true
    → (at ≤ t + 5000 * per_ms) × (t ≤ at + 5000 * per_ms)
unfolding proxy_alive
reused_is_dead per_ms pid t at signal p s h = near_start per_ms t at p.started s (ground arith)
