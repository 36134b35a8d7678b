-- ===== src/LaunchConfig.antt =====
-- launch/config-validate.mjs: the validation of a launch's configuration, and its command line.
-- Node's functions on paths, the files that exist and the environment are parameters; the texts of
-- diagnostics are left out. The result is `none` where `path.relative` throws on an undefined path.
mod Paths
mod Verdicts
mod Tests
use text.Mathlib.Text.{starts_with}
use mathlib.Core.Option
use godot_mcp.Base.{
  ℕ, String, Bool, true, false, not, ◌&&◌, ◌||◌, Option, none, some, List, [], ◌∷◌, str_eq,
  non_empty, or_empty, truthy, if◌then◌else◌,
}

pub record Node : Type 0 where
  pub relative : String → String → String
  pub resolve : String → String
  pub join : List String → String
  pub is_absolute : String → Bool
  pub exists : String → Bool

-- The input of `validateLaunchConfig`; a path that was not given is undefined.
pub record LaunchInput : Type 0 where
  pub repo_root : Option String
  pub script_path : Option String
  pub launcher_path : Option String
  pub fork_cli : Option String
  pub godot_mcp_home : Option String
  pub home : Option String
  pub shared_master : String
  pub allow_drvfs_paths : Bool

unfoldable pub is_under : Node → String → String → Bool
is_under n child parent =
    let rel = n.relative parent child in
    str_eq rel "" || (not (starts_with rel "..") && not (n.is_absolute rel))

unfoldable pub is_drdfs : Option String → Bool
is_drdfs none = false
is_drdfs (some p) = starts_with p "/mnt/"

pub record Signature : Type 0 where
  pub has_project : Bool
  pub has_env_file : Bool
  pub outside_shared_master : Bool

-- `input.repoRoot && fs.existsSync(path.join(input.repoRoot, …))`
abbrev pub has_file : Node → List String → Option String → Bool
has_file n parts none = false
has_file n parts (some root) = non_empty root && n.exists (n.join (root ∷ parts))

-- `outsideSharedMaster`: it throws where a shared master is there, but no path of a script.
unfoldable pub is_outside_master : Node → LaunchInput → Option Bool
is_outside_master n input =
    if non_empty input.shared_master && n.exists input.shared_master
    then Option.map (λ script. not (is_under n script input.shared_master)) input.script_path
    else some true

unfoldable pub detect_kol_signature : Node → LaunchInput → Option Signature
detect_kol_signature n input =
    Option.map
      (λ outside. record {
        has_project = has_file n ("project.godot" ∷ []) input.repo_root;
        has_env_file = has_file n (".dev" ∷ "env" ∷ "kol-mcp.env" ∷ []) input.repo_root;
        outside_shared_master = outside;
      })
      (is_outside_master n input)

unfoldable pub is_kol : Signature → Bool
is_kol s = s.has_project && s.has_env_file && s.outside_shared_master

-- `path.join(home, '.config', 'godot-mcp')`
abbrev pub neutral_home : Node → String → String
neutral_home n home = n.join (home ∷ ".config" ∷ "godot-mcp" ∷ [])

unfoldable pub is_healthy_under : Node → String → String → Bool
is_healthy_under n home user =
    if not (is_under n home user)
    then false
    else not (str_eq (n.resolve home) (n.resolve (neutral_home n user)))

unfoldable pub home_health : Node → LaunchInput → Option Bool
home_health n input =
    let home = or_empty input.godot_mcp_home in
    if not (non_empty home) then some false else Option.map (is_healthy_under n home) input.home

pub data Reason : Type 0 where
  non_kol drdfs_exec_path home_health_unsafe kol_healthy : Reason

pub record LaunchVerdict : Type 0 where
  pub ok : Bool
  pub rc : ℕ
  pub reason : Reason
  pub escape : Bool

-- An execution path on the shared drive.
unfoldable pub runs_on_drdfs : LaunchInput → Bool
runs_on_drdfs input = is_drdfs input.launcher_path || is_drdfs input.fork_cli

-- The last test of the validation, on the health of the home.
abbrev pub judge_home : Bool → Bool → LaunchVerdict
judge_home drdfs healthy =
    if not healthy
    then record { ok = false; rc = 2; reason = home_health_unsafe; escape = drdfs }
    else record { ok = true; rc = 0; reason = kol_healthy; escape = drdfs }

-- The validation, once the signature is known.
unfoldable pub judge_launch : Node → LaunchInput → Signature → Option LaunchVerdict
judge_launch n input sig =
    let drdfs = runs_on_drdfs input in
    if not (is_kol sig)
    then some (record { ok = true; rc = 0; reason = non_kol; escape = false })
    else if drdfs && not input.allow_drvfs_paths
    then some (record { ok = false; rc = 2; reason = drdfs_exec_path; escape = false })
    else Option.map (judge_home drdfs) (home_health n input)

unfoldable pub validate_launch_config : Node → LaunchInput → Option LaunchVerdict
validate_launch_config n input = elim (detect_kol_signature n input) [
  | none ↦ none
  | some sig ↦ judge_launch n input sig
]

-- The arguments of the command line, by name.
pub record Flags : Type 0 where
  pub allow_drvfs : Bool
  pub values : List (String × String)

-- `arg[k] = v`
unfoldable pub set_value : String → String → List (String × String) → List (String × String)
set_value k v [] = (k, v) ∷ []
set_value k v ((j, w) ∷ vs) = if str_eq j k then (j, v) ∷ vs else (j, w) ∷ set_value k v vs

unfoldable pub value_of : String → List (String × String) → Option String
value_of k [] = none
value_of k ((j, w) ∷ vs) = if str_eq j k then some w else value_of k vs

abbrev with_value : String → String → Flags → Flags
with_value k v f = record f { values = set_value k v f.values }

-- The loop of `main`; a flag with no value after it gets an empty one.
unfoldable pub read_flags : List String → Flags → Flags
read_flags [] f = f
read_flags (k ∷ []) f =
    if str_eq k "--allow-drvfs"
    then record f { allow_drvfs = true }
    else if starts_with k "--"
    then with_value k "" f
    else f
read_flags (k ∷ v ∷ rest) f =
    let flagged = read_flags (v ∷ rest) (record f { allow_drvfs = true }) in
    let valued = read_flags rest (with_value k v f) in
    let skipped = read_flags (v ∷ rest) f in
    if str_eq k "--allow-drvfs" then flagged else if starts_with k "--" then valued else skipped

-- The part of the environment that `main` reads.
pub record Environment : Type 0 where
  pub env_home : Option String
  pub env_allow_drvfs : Bool

-- `o || d`
abbrev or_else : Option String → Option String → Option String
or_else d o = if truthy o then o else d

-- A flag is kept with its dashes.
unfoldable pub input_of : Environment → Flags → LaunchInput
input_of e f = record {
  repo_root = value_of "--repo-root" f.values;
  script_path = value_of "--shim" f.values;
  launcher_path = value_of "--launcher" f.values;
  fork_cli = value_of "--fork-cli" f.values;
  godot_mcp_home = value_of "--godot-mcp-home" f.values;
  home = or_else e.env_home (value_of "--home" f.values);
  shared_master = or_empty (value_of "--shared-master" f.values);
  allow_drvfs_paths = f.allow_drvfs || e.env_allow_drvfs;
}

-- The exit code of the command line; an exception that nothing catches ends it with Node's 1.
unfoldable pub main : Node → Environment → List String → ℕ
main n e argv =
    let input = input_of e (read_flags argv (record { allow_drvfs = false; values = [] })) in
    elim (validate_launch_config n input) [
      | none ↦ 1
      | some verdict ↦ if verdict.ok then 0 else verdict.rc
    ]
