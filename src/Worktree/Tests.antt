-- ===== src/Worktree/Tests.antt =====
-- The theorem of the worktree at a concrete input, and the bare repository of a marker.
use godot_mcp.Base.{strip_prefix}
use godot_mcp.Base.{◌≡◌, inr, refl, false, none, some, [], codes, arith}
use godot_mcp.Base.Patterns.{trim_end}
use godot_mcp.Worktree.{before_last}
use godot_mcp.Worktree.{
  Paths, Disk, Anchors, Pruning, resolve_worktree_for_spawn, gitdir_of, bare_repo_of,
}
use godot_mcp.Worktree.Anchored.{PrunesOnce, Resolved, worktree_never_drifts}

abbrev paths : Paths
paths = record { dirname = λ p. "/w"; join = λ parts. "/w/.git" }

abbrev empty_disk : Disk
empty_disk = record {
  found = λ p. false;
  is_directory = λ p. false;
  entries_of = λ p. none;
  content_of = λ p. some (codes "gitdir: /b/repo.git/worktrees/slot\n");
}

abbrev anchors : Anchors
anchors = record { project_godot = "/w/project.godot"; worktree = ""; cwd = "/"; script_dir = "/" }

abbrev unpruned : Pruning
unpruned = record { has_pruned_bare_repo = false; last_bare_repo_prune_diag = none; pruned = [] }

unpruned-PrunesOnce : PrunesOnce unpruned
unpruned-PrunesOnce = record { few = omega arith; latched = inr refl }

worktree_never_drifts_example :
    Resolved paths empty_disk empty_disk anchors
      (resolve_worktree_for_spawn paths empty_disk empty_disk anchors unpruned).0
    × PrunesOnce (resolve_worktree_for_spawn paths empty_disk empty_disk anchors unpruned).1
worktree_never_drifts_example =
    worktree_never_drifts paths empty_disk empty_disk anchors unpruned unpruned-PrunesOnce

bare_repo_of_marker :
    gitdir_of (codes "gitdir: /b/repo.git/worktrees/slot\n")
    ≡ some (codes "/b/repo.git/worktrees/slot")
unfolding gitdir_of trim_end strip_prefix
bare_repo_of_marker = refl

bare_repo_of_gitdir : bare_repo_of (codes "/b/repo.git/worktrees/slot") ≡ some (codes "/b/repo.git")
unfolding bare_repo_of before_last strip_prefix
bare_repo_of_gitdir = refl
