-- ===== src/LaunchConfig/Tests.antt =====
-- The theorem of the launch configuration at a concrete input, and runs of the command line.
use godot_mcp.LaunchConfig.{read_flags, input_of, set_value, value_of, is_drdfs, is_under}
use godot_mcp.Base.{if◌then◌else◌}
use godot_mcp.Base.{String, ◌≡◌, ◌⊎◌, ◌↔◌, refl, true, false, none, some, List, [], ◌∷◌, str_eq}
use godot_mcp.LaunchConfig.{
  Node, LaunchInput, is_kol, detect_kol_signature, runs_on_drdfs, home_health,
  validate_launch_config, main, Environment, LaunchVerdict, judge_launch, is_outside_master,
  is_healthy_under,
}
use godot_mcp.LaunchConfig.Paths.{IsDeployed, IsOnDrive, IsHealthy}
use godot_mcp.LaunchConfig.Verdicts.{launch_ok_iff}

-- Every file exists, and no path leads from one directory to another.
abbrev node : Node
node = record {
  relative = λ from to. if str_eq from to then "" else "../x";
  resolve = λ p. p;
  join = λ parts. "/joined";
  is_absolute = λ p. false;
  exists = λ p. true;
}

abbrev input : LaunchInput
input = record {
  repo_root = some "/repo";
  script_path = some "/repo/shim";
  launcher_path = some "/mnt/d/launcher";
  fork_cli = none;
  godot_mcp_home = some "/home/u";
  home = some "/home/u";
  shared_master = "";
  allow_drvfs_paths = false;
}

launch_ok_iff_example :
    (v : LaunchVerdict) × (validate_launch_config node input ≡ some v)
    × ((v.ok ≡ true) ↔ (
        (¬ IsDeployed node input "/repo/shim")
        ⊎ (((¬ (IsOnDrive (some "/mnt/d/launcher") ⊎ IsOnDrive none)) ⊎ (false ≡ true))
            × IsHealthy node input "/home/u")))
    × ((v.rc ≡ 0) ↔ (v.ok ≡ true))
launch_ok_iff_example = launch_ok_iff node input "/repo/shim" "/home/u" refl refl

abbrev environment : Environment
environment = record { env_home = some "/home/u"; env_allow_drvfs = false }

abbrev command_line : List String
command_line =
    "--repo-root" ∷ "/repo" ∷ "--launcher" ∷ "/mnt/d/launcher" ∷ "--godot-mcp-home" ∷ "/home/u" ∷ []

refused_on_drdfs : main node environment command_line ≡ 2
unfolding main judge_launch is_outside_master is_healthy_under validate_launch_config read_flags
    input_of set_value value_of detect_kol_signature is_kol runs_on_drdfs is_drdfs home_health
    is_under
refused_on_drdfs = refl

escaped_on_drdfs : main node environment ("--allow-drvfs" ∷ command_line) ≡ 0
unfolding main judge_launch is_outside_master is_healthy_under validate_launch_config read_flags
    input_of set_value value_of detect_kol_signature is_kol runs_on_drdfs is_drdfs home_health
    is_under
escaped_on_drdfs = refl

-- A shared master with no path of a script: `path.relative` throws.
abbrev unscripted : List String
unscripted = "--shared-master" ∷ "/master" ∷ command_line

throws_unscripted : main node environment unscripted ≡ 1
unfolding main validate_launch_config read_flags input_of set_value value_of detect_kol_signature
    is_outside_master
throws_unscripted = refl
