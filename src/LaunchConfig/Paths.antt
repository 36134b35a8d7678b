-- ===== src/LaunchConfig/Paths.antt =====
-- The signature of a deployment, its drive and the health of its home, described by the paths that
-- are given.
use text.Mathlib.Text.{starts_with}
use godot_mcp.Base.{
  ◌≡◌, ◌⊎◌, ◌↔◌, ◌&&◌, ◌∷◌, [], List, String, Bool, Option, true, false, none, some, arith, refl,
  inl, inr, not, str_eq, eq_iff, non_empty, or_empty, Bool-cases,
}
use godot_mcp.LaunchConfig.{
  has_file, Node, LaunchInput, runs_on_drdfs, is_under, is_drdfs, is_outside_master,
  is_healthy_under, detect_kol_signature, Signature, home_health, is_kol,
}

-- A path that leads down from another, or is that other.
abbrev IsUnder : Node → String → String → Type 0
IsUnder n child parent =
    (n.relative parent child ≡ "")
    ⊎ ((starts_with (n.relative parent child) ".." ≡ false)
        × (n.is_absolute (n.relative parent child) ≡ false))

-- A path on the shared drive.
abbrev pub IsOnDrive : Option String → Type 0
IsOnDrive none = ⊥
IsOnDrive (some p) = starts_with p "/mnt/" ≡ true

-- A script that is not in the shared master, or a shared master that is not there.
abbrev IsOutside : Node → LaunchInput → String → Type 0
IsOutside n input script =
    (non_empty input.shared_master ≡ false)
    ⊎ (n.exists input.shared_master ≡ false)
    ⊎ (¬ IsUnder n script input.shared_master)

-- The signature of the deployment: the two files in the repository, and a script that is not in the
-- shared master, where there is one.
pub record IsDeployed (n : Node) (input : LaunchInput) (script : String) : Type 0 where
  pub root : String
  pub rooted : input.repo_root ≡ some root
  pub named : non_empty root ≡ true
  pub project : n.exists (n.join (root ∷ "project.godot" ∷ [])) ≡ true
  pub env_file : n.exists (n.join (root ∷ ".dev" ∷ "env" ∷ "kol-mcp.env" ∷ [])) ≡ true
  pub outside : IsOutside n input script

-- A home of the bridge in the user's home, other than the built-in one.
pub record IsHealthy (n : Node) (input : LaunchInput) (user : String) : Type 0 where
  pub home : String
  pub given : input.godot_mcp_home ≡ some home
  pub named : non_empty home ≡ true
  pub under : IsUnder n home user
  pub not_built_in :
      str_eq (n.resolve home) (n.resolve (n.join (user ∷ ".config" ∷ "godot-mcp" ∷ []))) ≡ false

is_under_iff :
    (n : Node) (child parent : String) → (is_under n child parent ≡ true) ↔ IsUnder n child parent
unfolding is_under
is_under_iff n child parent = ground (arith, eq_iff (n.relative parent child) "")

IsOnDrive-iff : (p : Option String) → (is_drdfs p ≡ true) ↔ IsOnDrive p
unfolding is_drdfs
IsOnDrive-iff none = ground arith
IsOnDrive-iff (some p) = ground arith

pub runs_on_drdfs_iff :
    (input : LaunchInput)
    → (runs_on_drdfs input ≡ true) ↔ (IsOnDrive input.launcher_path ⊎ IsOnDrive input.fork_cli)
unfolding runs_on_drdfs
runs_on_drdfs_iff input =
    ground (arith, IsOnDrive-iff input.launcher_path, IsOnDrive-iff input.fork_cli)

IsOutside-iff :
    (n : Node) (input : LaunchInput) (script : String)
    → input.script_path ≡ some script
    → (b : Bool) × (is_outside_master n input ≡ some b) × ((b ≡ true) ↔ IsOutside n input script)
unfolding is_outside_master
IsOutside-iff n input script given =
    elim (Bool-cases (non_empty input.shared_master && n.exists input.shared_master)) [
      | inr missing ↦ rw missing (true, refl, ground (arith, missing))
      | inl there ↦
          rw (there, given)
            (
              not (is_under n script input.shared_master),
              refl,
              ground (arith, there, is_under_iff n script input.shared_master),
            )
    ]

is_healthy_under_iff :
    (n : Node) (input : LaunchInput) (home user : String)
    → input.godot_mcp_home ≡ some home
    → non_empty home ≡ true
    → (is_healthy_under n home user ≡ true) ↔ IsHealthy n input user
unfolding is_healthy_under
is_healthy_under_iff n input home user given named = (
  λ h. record {
    home = home;
    given = given;
    named = named;
    under = ground (arith, is_under_iff n home user);
    not_built_in = ground arith;
  },
  λ h. ground (arith, h, is_under_iff n home user),
)

unnamed-unhealthy :
    (n : Node) (input : LaunchInput) (user : String)
    → non_empty (or_empty input.godot_mcp_home) ≡ false
    → (false ≡ true) ↔ IsHealthy n input user
unnamed-unhealthy n input user unnamed = (λ h. cc, λ h. ground (arith, h, h.given, h.named))

given_home : (o : Option String) → non_empty (or_empty o) ≡ true → o ≡ some (or_empty o)
given_home none h = absurd (ground arith)
given_home (some home) h = refl

pub IsHealthy-iff :
    (n : Node) (input : LaunchInput) (user : String)
    → input.home ≡ some user
    → (b : Bool) × (home_health n input ≡ some b) × ((b ≡ true) ↔ IsHealthy n input user)
unfolding home_health
IsHealthy-iff n input user known = elim (Bool-cases (non_empty (or_empty input.godot_mcp_home))) [
  | inr unnamed ↦ rw unnamed (false, refl, unnamed-unhealthy n input user unnamed)
  | inl named ↦ (
    is_healthy_under n (or_empty input.godot_mcp_home) user,
    rw (named, known) refl,
    is_healthy_under_iff n input (or_empty input.godot_mcp_home) user (given_home _ named) named,
  )
]

rooted_file :
    (n : Node) (parts : List String) (root : Option String)
    → has_file n parts root ≡ true
    → (r : String) × (root ≡ some r) × (non_empty r ≡ true) × (n.exists (n.join (r ∷ parts)) ≡ true)
rooted_file n parts none h = absurd (ground arith)
rooted_file n parts (some r) h = (r, refl, ground arith, ground arith)

files-IsDeployed :
    (n : Node) (input : LaunchInput) (script : String)
    → IsOutside n input script
    → has_file n ("project.godot" ∷ []) input.repo_root ≡ true
    → has_file n (".dev" ∷ "env" ∷ "kol-mcp.env" ∷ []) input.repo_root ≡ true
    → IsDeployed n input script
files-IsDeployed n input script outside project env_file =
    let (root, rooted, named, found) =
      rooted_file n ("project.godot" ∷ []) input.repo_root project in
    record {
      root = root;
      rooted = rooted;
      named = named;
      project = found;
      env_file = ground (arith, rooted, env_file);
      outside = outside;
    }

pub IsDeployed-iff :
    (n : Node) (input : LaunchInput) (script : String)
    → input.script_path ≡ some script
    → (sig : Signature) × (detect_kol_signature n input ≡ some sig)
      × ((is_kol sig ≡ true) ↔ IsDeployed n input script)
unfolding detect_kol_signature is_kol
IsDeployed-iff n input script given =
    let (b, found, outside) = IsOutside-iff n input script given in
    let sig : Signature = record {
      has_project = has_file n ("project.godot" ∷ []) input.repo_root;
      has_env_file = has_file n (".dev" ∷ "env" ∷ "kol-mcp.env" ∷ []) input.repo_root;
      outside_shared_master = b;
    } in
    (
      sig,
      rw found refl,
      (
        λ h.
            files-IsDeployed n input script (outside.0 (ground arith)) (ground arith)
              (ground arith),
        λ h. ground (arith, h, outside.1 h.outside, h.rooted, h.named, h.project, h.env_file),
      ),
    )
