-- ===== src/Worktree/Anchored.antt =====
-- Where the worktree comes from.
use godot_mcp.Base.{
  ℕ, zero, suc, ◌≤◌, ◌≡◌, ◌⊎◌, String, true, Option, none, some, List, [], ◌∷◌, length, arith,
  false,
}
use godot_mcp.Worktree.{
  search_below, or_walk, discover, resolve_worktree_for_spawn, try_prune_bare_repo,
  prune_then_restat, resolve_anchor, derive_bare_repo_from_anchor, Anchors,
}
use godot_mcp.Base.{non_empty, ◌≡◌, ◌≤◌, ◌⊎◌, length, ◌||◌, if◌then◌else◌}
use godot_mcp.Worktree.{Paths, Disk, Pruning, is_godot_worktree, search_entries, walk_up}

-- A repository is pruned once at most, and the latch tells whether.
pub record PrunesOnce (s : Pruning) : Type 0 where
  pub few : length s.pruned ≤ 1
  pub latched : (s.has_pruned_bare_repo ≡ true) ⊎ (length s.pruned ≡ 0)

abbrev IsWorktree : Paths → Disk → Option String → Type 0
IsWorktree ps disk none = Unit
IsWorktree ps disk (some dir) = is_godot_worktree ps disk dir ≡ true

module _ (ps : Paths) (disk : Disk) where
  search_entries-IsWorktree :
      (cwd : String) (names : List String) → IsWorktree ps disk (search_entries ps disk cwd names)
  unfolding search_entries
  search_entries-IsWorktree cwd [] = tt
  search_entries-IsWorktree cwd (entry ∷ rest) = ground (arith, search_entries-IsWorktree cwd rest)

  walk_up-IsWorktree : (rounds : ℕ) (dir : String) → IsWorktree ps disk (walk_up ps disk rounds dir)
  unfolding walk_up
  walk_up-IsWorktree zero dir = tt
  walk_up-IsWorktree (suc rounds) dir = ground (arith, walk_up-IsWorktree rounds (ps.dirname dir))

-- A worktree that is found by a search is one; that of an anchor is there before the prune or after.
abbrev pub Anchored : Disk → Disk → String → String → Option String → Type 0
Anchored disk later anchor worktree result =
    result ≡ (if disk.found anchor || later.found anchor then some worktree else none)

abbrev pub Resolved : Paths → Disk → Disk → Anchors → Option String → Type 0
Resolved ps disk later a result =
    ((non_empty a.project_godot ≡ true)
      × Anchored disk later a.project_godot (ps.dirname a.project_godot) result)
    ⊎ ((non_empty a.project_godot ≡ false)
        × (non_empty a.worktree ≡ true)
        × Anchored disk later a.worktree a.worktree result)
    ⊎ ((non_empty a.project_godot ≡ false)
        × (non_empty a.worktree ≡ false)
        × IsWorktree ps disk result)

module _ (ps : Paths) (disk later : Disk) where
  resolve_anchor-Anchored :
      (anchor worktree : String) (s : Pruning)
      → Anchored disk later anchor worktree (resolve_anchor ps disk later anchor worktree s).0
  unfolding resolve_anchor prune_then_restat
  resolve_anchor-Anchored anchor worktree s = ground arith

  or_walk-IsWorktree :
      (below walked : Option String)
      → IsWorktree ps disk below
      → IsWorktree ps disk walked
      → IsWorktree ps disk (or_walk below walked)
  or_walk-IsWorktree none walked b w = w
  or_walk-IsWorktree (some sub) walked b w = b

  below-IsWorktree :
      (cwd : String) (names : Option (List String))
      → IsWorktree ps disk (search_below ps disk cwd names)
  unfolding search_below
  below-IsWorktree cwd none = tt
  below-IsWorktree cwd (some names) = search_entries-IsWorktree ps disk cwd names

  discover-IsWorktree : (a : Anchors) → IsWorktree ps disk (discover ps disk a)
  unfolding discover
  discover-IsWorktree a =
      or_walk-IsWorktree (search_below ps disk a.cwd (disk.entries_of a.cwd))
        (walk_up ps disk 16 a.script_dir) (below-IsWorktree a.cwd (disk.entries_of a.cwd))
        (walk_up-IsWorktree ps disk 16 a.script_dir)

  resolve-Resolved :
      (a : Anchors) (s : Pruning)
      → Resolved ps disk later a (resolve_worktree_for_spawn ps disk later a s).0
  unfolding resolve_worktree_for_spawn
  resolve-Resolved a s = ground (
    arith,
    resolve_anchor-Anchored a.project_godot (ps.dirname a.project_godot) s,
    resolve_anchor-Anchored a.worktree a.worktree s,
    discover-IsWorktree a,
  )

  try_prune-PrunesOnce :
      (repo : Option (List ℕ)) (s : Pruning)
      → PrunesOnce s
      → PrunesOnce (try_prune_bare_repo repo s)
  unfolding try_prune_bare_repo
  try_prune-PrunesOnce none s h = ground arith
  try_prune-PrunesOnce (some repo) s h = ground arith

  resolve-PrunesOnce :
      (a : Anchors) (s : Pruning)
      → PrunesOnce s
      → PrunesOnce (resolve_worktree_for_spawn ps disk later a s).1
  unfolding resolve_worktree_for_spawn resolve_anchor prune_then_restat
  resolve-PrunesOnce a s h = ground (
    arith,
    try_prune-PrunesOnce (derive_bare_repo_from_anchor ps disk a.project_godot) s,
    try_prune-PrunesOnce (derive_bare_repo_from_anchor ps disk a.worktree) s,
  )

  -- The worktree never drifts from its anchor: where an anchor is set, the project file's first, the
  -- result is that anchor's worktree if the anchor is on the disk before the prune or after it, and
  -- none otherwise; without an anchor, a result is a worktree of a Godot project with the launch
  -- tools. And if one repository at most was pruned before, with the latch set by it, so it is
  -- afterwards.
  pub worktree_never_drifts :
      (a : Anchors) (s : Pruning)
      → PrunesOnce s
      → Resolved ps disk later a (resolve_worktree_for_spawn ps disk later a s).0
        × PrunesOnce (resolve_worktree_for_spawn ps disk later a s).1
  worktree_never_drifts a s h = (resolve-Resolved a s, resolve-PrunesOnce a s h)
