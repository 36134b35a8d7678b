-- ===== src/LaunchConfig/Verdicts.antt =====
-- When a launch is allowed, described by the paths that it is given.
use godot_mcp.Base.{
  ◌≡◌, ◌⊎◌, ◌↔◌, ◌&&◌, ◌∙◌, String, true, false, some, arith, refl, inl, inr, not, Bool-cases,
}
use godot_mcp.LaunchConfig.{
  drdfs_exec_path, non_kol, judge_home, Node, LaunchInput, runs_on_drdfs, detect_kol_signature,
  judge_launch, validate_launch_config, Signature, LaunchVerdict, is_kol,
}
use godot_mcp.LaunchConfig.Paths.{
  IsOnDrive, IsDeployed, IsHealthy, runs_on_drdfs_iff, IsHealthy-iff, IsDeployed-iff,
}

judge_launch_ok_iff :
    (n : Node) (input : LaunchInput) (user : String) (sig : Signature)
    → input.home ≡ some user
    → (v : LaunchVerdict) × (judge_launch n input sig ≡ some v)
      × ((v.ok ≡ true) ↔ (
          (is_kol sig ≡ false)
          ⊎ (((runs_on_drdfs input ≡ false) ⊎ (input.allow_drvfs_paths ≡ true))
              × IsHealthy n input user)))
      × ((v.rc ≡ 0) ↔ (v.ok ≡ true))
unfolding judge_launch
judge_launch_ok_iff n input user sig known =
    let (b, healthy, health) = IsHealthy-iff n input user known in
    elim (Bool-cases (is_kol sig)) [
      | inr plain ↦ (
        record { ok = true; rc = 0; reason = non_kol; escape = false },
        rw plain refl,
        ground (arith, plain),
        ground arith,
      )
      | inl kol ↦ elim (Bool-cases (runs_on_drdfs input && not input.allow_drvfs_paths)) [
        | inl drive ↦ (
          record { ok = false; rc = 2; reason = drdfs_exec_path; escape = false },
          rw (kol, drive) refl,
          ground (arith, kol, drive),
          ground arith,
        )
        | inr free ↦ (
          judge_home (runs_on_drdfs input) b,
          rw (kol, free, healthy) refl,
          ground (arith, kol, free, health),
          ground arith,
        )
      ]
    ]

ok_by_paths :
    (n : Node) (input : LaunchInput) (script user : String) (sig : Signature) (v : LaunchVerdict)
    → (is_kol sig ≡ true) ↔ IsDeployed n input script
    → (v.ok ≡ true) ↔ (
        (is_kol sig ≡ false)
        ⊎ (((runs_on_drdfs input ≡ false) ⊎ (input.allow_drvfs_paths ≡ true))
            × IsHealthy n input user))
    → (v.ok ≡ true) ↔ (
        (¬ IsDeployed n input script)
        ⊎ (((¬ (IsOnDrive input.launcher_path ⊎ IsOnDrive input.fork_cli))
              ⊎ (input.allow_drvfs_paths ≡ true))
            × IsHealthy n input user))
ok_by_paths n input script user sig v deployed ok =
    ground (arith, deployed, ok, runs_on_drdfs_iff input)

validated :
    (n : Node) (input : LaunchInput) (sig : Signature)
    → detect_kol_signature n input ≡ some sig
    → validate_launch_config n input ≡ judge_launch n input sig
unfolding validate_launch_config
validated n input sig signed = rw (validate_launch_config, signed) refl

-- Where the paths of the script and of the user's home are given, a launch has a verdict. It is
-- allowed exactly when the deployment's signature is not on the disk, or when the home is healthy
-- and no execution path is on the shared drive unless the escape is set; and its exit code is 0
-- exactly when it is allowed. The signature, the drive and the health of the home are told by the
-- paths alone: the two files of the repository and a script outside of the shared master, a prefix
-- /mnt/, and a home that is given, in the user's home, and not the built-in one.
pub launch_ok_iff :
    (n : Node) (input : LaunchInput) (script user : String)
    → input.script_path ≡ some script
    → input.home ≡ some user
    → (v : LaunchVerdict) × (validate_launch_config n input ≡ some v)
      × ((v.ok ≡ true) ↔ (
          (¬ IsDeployed n input script)
          ⊎ (((¬ (IsOnDrive input.launcher_path ⊎ IsOnDrive input.fork_cli))
                ⊎ (input.allow_drvfs_paths ≡ true))
              × IsHealthy n input user)))
      × ((v.rc ≡ 0) ↔ (v.ok ≡ true))
launch_ok_iff n input script user given known =
    let (sig, signed, deployed) = IsDeployed-iff n input script given in
    let (v, judged, ok, code) = judge_launch_ok_iff n input user sig known in
    (
      v,
      validated n input sig signed ∙ judged,
      ok_by_paths n input script user sig v deployed ok,
      code,
    )
