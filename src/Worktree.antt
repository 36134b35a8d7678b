-- ===== src/Worktree.antt =====
-- launch/proxy/worktree.mjs: the worktree that the editor is started in. The disk is an input, as it
-- stands before and after the prune of a bare repository; so are Node's functions on paths. The
-- content of a file is the list of its code units.
mod Anchored
mod Tests
use text.Mathlib.Text.{starts_with}
use godot_mcp.Base.{
  ℕ, zero, suc, String, Bool, true, false, not, ◌&&◌, ◌||◌, Option, none, some, List, [], ◌∷◌, ◌++◌,
  str_eq, non_empty, is_some, if◌then◌else◌, codes, strip_prefix, has_prefix, is_terminator,
}
use godot_mcp.Base.Patterns.{drop_spaces, trim_end}

pub record Paths : Type 0 where
  pub dirname : String → String
  pub join : List String → String

-- What stat and readdir find, and the content of a file that can be read.
pub record Disk : Type 0 where
  pub found : String → Bool
  pub is_directory : String → Bool
  pub entries_of : String → Option (List String)
  pub content_of : String → Option (List ℕ)

-- The environment: the two anchors, each `GODOT_MCP_… || KOL_…`, and where the proxy runs.
pub record Anchors : Type 0 where
  pub project_godot : String
  pub worktree : String
  pub cwd : String
  pub script_dir : String

pub data PruneDiag : Type 0 where
  bare_repo_unresolved already_pruned : PruneDiag
  attempted : List ℕ → PruneDiag

-- The part of `S`, with the repositories that were pruned.
pub record Pruning : Type 0 where
  pub has_pruned_bare_repo : Bool
  pub last_bare_repo_prune_diag : Option PruneDiag
  pub pruned : List (List ℕ)

abbrev one_line : List ℕ → Bool
one_line [] = true
one_line (c ∷ cs) = not (is_terminator c) && one_line cs

-- What stands before the last '/worktrees/'.
unfoldable pub before_last : List ℕ → List ℕ → Option (List ℕ)
before_last mark [] = none
before_last mark (c ∷ cs) = elim (before_last mark cs) [
  | some before ↦ some (c ∷ before)
  | none ↦ if has_prefix mark (c ∷ cs) then some [] else none
]

abbrev is_whole : List ℕ → List ℕ → Bool
is_whole mark text = elim (strip_prefix mark text) [ some [] ↦ true | _ ↦ false ]

-- `text.endsWith(mark)`
unfoldable pub ends_with : List ℕ → List ℕ → Bool
ends_with mark [] = is_whole mark []
ends_with mark (c ∷ cs) = is_whole mark (c ∷ cs) || ends_with mark cs

-- `/^gitdir:\s*(.+)$/` on the trimmed content.
unfoldable pub gitdir_of : List ℕ → Option (List ℕ)
gitdir_of raw = elim (strip_prefix (codes "gitdir:") (trim_end (drop_spaces raw))) [
  | none ↦ none
  | some rest ↦ elim (drop_spaces rest) [
    | [] ↦ none
    | c ∷ cs ↦ if one_line (c ∷ cs) then some (c ∷ cs) else none
  ]
]

-- The bare repository of a gitdir: an index of 0 does not count.
unfoldable pub bare_repo_of : List ℕ → Option (List ℕ)
bare_repo_of gitdir = elim (before_last (codes "/worktrees/") gitdir) [
  | some (c ∷ cs) ↦ some (c ∷ cs)
  | _ ↦ if ends_with (codes ".git") gitdir then some gitdir else none
]

abbrev and_then {ℓ κ} : {A : Type ℓ} {B : Type κ} → Option A → (A → Option B) → Option B
and_then none f = none
and_then (some a) f = f a

-- `dir && dir !== path.dirname(dir)`
abbrev pub goes_up : Paths → String → Bool
goes_up ps dir = non_empty dir && not (str_eq dir (ps.dirname dir))

-- The loop of `deriveBareRepoFromAnchor`, of at most so many rounds.
unfoldable pub derive_from : Paths → Disk → ℕ → String → Option (List ℕ)
derive_from ps disk zero dir = none
derive_from ps disk (suc rounds) dir =
    let rest = derive_from ps disk rounds (ps.dirname dir) in
    let here =
      and_then (and_then (disk.content_of (ps.join (dir ∷ ".git" ∷ []))) gitdir_of) bare_repo_of in
    if goes_up ps dir then (if is_some here then here else rest) else none

unfoldable pub derive_bare_repo_from_anchor : Paths → Disk → String → Option (List ℕ)
derive_bare_repo_from_anchor ps disk anchor = derive_from ps disk 5 anchor

-- `tryPruneBareRepo`; how the prune ends is in the disk that it leaves.
unfoldable pub try_prune_bare_repo : Option (List ℕ) → Pruning → Pruning
try_prune_bare_repo none s = record s { last_bare_repo_prune_diag = some bare_repo_unresolved }
try_prune_bare_repo (some repo) s =
    if s.has_pruned_bare_repo
    then record s { last_bare_repo_prune_diag = some already_pruned }
    else record s {
      has_pruned_bare_repo = true;
      last_bare_repo_prune_diag = some (attempted repo);
      pruned = repo ∷ s.pruned;
    }

-- `pruneThenRestat`: whether the anchor is there afterwards.
unfoldable pub prune_then_restat : Paths → Disk → Disk → String → Pruning → Bool × Pruning
prune_then_restat ps disk later anchor s =
    (later.found anchor, try_prune_bare_repo (derive_bare_repo_from_anchor ps disk anchor) s)

-- An anchor that is mandatory: its worktree, or none.
unfoldable pub resolve_anchor :
    Paths → Disk → Disk → String → String → Pruning → Option String × Pruning
resolve_anchor ps disk later anchor worktree s =
    if disk.found anchor
    then (some worktree, s)
    else let restat = prune_then_restat ps disk later anchor s in
      (if restat.0 then some worktree else none, restat.1)

-- `isGodotWorktree`
unfoldable pub is_godot_worktree : Paths → Disk → String → Bool
is_godot_worktree ps disk dir =
    disk.found (ps.join (dir ∷ "project.godot" ∷ []))
    && (disk.found (ps.join (dir ∷ "launch" ∷ []))
        || disk.found (ps.join (dir ∷ ".dev" ∷ "godot-mcp" ∷ "launch" ∷ []))
        || disk.found (ps.join (dir ∷ "addons" ∷ "godot_mcp" ∷ "launch" ∷ [])))

-- The search below the current directory.
unfoldable pub search_entries : Paths → Disk → String → List String → Option String
search_entries ps disk cwd [] = none
search_entries ps disk cwd (entry ∷ rest) =
    let later = search_entries ps disk cwd rest in
    let sub = ps.join (cwd ∷ entry ∷ []) in
    if not (starts_with entry ".")
      && disk.found sub
      && disk.is_directory sub
      && is_godot_worktree ps disk sub
    then some sub
    else later

-- The walk up from the script's directory, of at most so many rounds.
unfoldable pub walk_up : Paths → Disk → ℕ → String → Option String
walk_up ps disk zero dir = none
walk_up ps disk (suc rounds) dir =
    let rest = walk_up ps disk rounds (ps.dirname dir) in
    if goes_up ps dir then (if is_godot_worktree ps disk dir then some dir else rest) else none

abbrev pub or_walk : Option String → Option String → Option String
or_walk none walked = walked
or_walk (some sub) walked = some sub

unfoldable pub search_below : Paths → Disk → String → Option (List String) → Option String
search_below ps disk cwd none = none
search_below ps disk cwd (some names) = search_entries ps disk cwd names

unfoldable pub discover : Paths → Disk → Anchors → Option String
discover ps disk a =
    or_walk (search_below ps disk a.cwd (disk.entries_of a.cwd)) (walk_up ps disk 16 a.script_dir)

-- `resolveWorktreeForSpawn`
unfoldable pub resolve_worktree_for_spawn :
    Paths → Disk → Disk → Anchors → Pruning → Option String × Pruning
resolve_worktree_for_spawn ps disk later a s =
    if non_empty a.project_godot
    then resolve_anchor ps disk later a.project_godot (ps.dirname a.project_godot) s
    else if non_empty a.worktree
    then resolve_anchor ps disk later a.worktree a.worktree s
    else (discover ps disk a, s)

-- `buildHelperArgs`
unfoldable pub build_helper_args : String → String → List String → List String
build_helper_args agent_name port extra =
    let ported = "--port" ∷ port ∷ extra in
    if non_empty agent_name then agent_name ∷ ported else ported
