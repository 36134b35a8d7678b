-- ===== src/Lock.antt =====
-- launch/proxy/state-file.mjs: the lock of a runtime, a directory that names its owner.
-- A call sees the directory at one moment. Whether the disk does what it is told is an argument.
-- The owner file holds a pid, a natural number, or is garbled, or is absent.
mod Exclusion
mod Tests
use godot_mcp.Base.{ℕ, Bool, true, false, not, ◌&&◌, Option, none, some, ltb, ◌==◌, if◌then◌else◌}

pub data OwnerFile : Type 0 where
  absent garbled : OwnerFile
  owned_by : ℕ → OwnerFile

-- The directory, if there is one.
abbrev pub LockDir : Type 0
LockDir = Option OwnerFile

pub record Verdict : Type 0 where
  pub locked : Bool
  pub holder : Option ℕ

-- Whether the directory is made, the owner is written, and the directory is removed.
pub record Disk : Type 0 where
  pub makes : Bool
  pub writes : Bool
  pub removes : Bool

abbrev refused : Option ℕ → Option Verdict
refused holder = some (record { locked = false; holder = holder })

-- `owner > 0 && owner !== ownerPid && !pidAlive(owner)`
unfoldable pub is_stale : (ℕ → Bool) → ℕ → ℕ → Bool
is_stale lives owner ours = ltb 0 owner && not (owner == ours) && not (lives owner)

-- The directory after the look, and the rejection if there is one.
unfoldable pub resolve_lock_contention : (ℕ → Bool) → Disk → LockDir → ℕ → LockDir × Option Verdict
resolve_lock_contention lives disk none ours = (none, none)
resolve_lock_contention lives disk (some absent) ours = (some absent, refused none)
resolve_lock_contention lives disk (some garbled) ours = (some garbled, refused none)
resolve_lock_contention lives disk (some (owned_by owner)) ours =
    if is_stale lives owner ours
    then (if disk.removes then (none, none) else (some (owned_by owner), refused none))
    else if not (owner == ours)
    then (some (owned_by owner), refused (some owner))
    else (some (owned_by owner), none)

-- The directory that is made and written, or what is left of it.
unfoldable pub take_lock : Disk → LockDir → ℕ → LockDir × Verdict
take_lock disk dir ours =
    if disk.makes
    then (
      if disk.writes
          then some (owned_by ours)
          else elim dir [ none ↦ some absent | some f ↦ some f ],
      record { locked = true; holder = some ours },
    )
    else (dir, record { locked = false; holder = none })

unfoldable pub settle_contention : Disk → ℕ → LockDir × Option Verdict → LockDir × Verdict
settle_contention disk ours (dir, some verdict) = (dir, verdict)
settle_contention disk ours (dir, none) = take_lock disk dir ours

unfoldable pub acquire_runtime_lock : (ℕ → Bool) → Disk → LockDir → ℕ → LockDir × Verdict
acquire_runtime_lock lives disk dir ours =
    settle_contention disk ours (resolve_lock_contention lives disk dir ours)

-- Another's pid keeps the lock; an absent or garbled owner does not.
unfoldable pub is_others : LockDir → ℕ → Bool
is_others (some (owned_by owner)) ours = not (owner == ours)
is_others _ ours = false

unfoldable pub release_runtime_lock : Disk → LockDir → ℕ → LockDir × Bool
release_runtime_lock disk dir ours =
    if is_others dir ours then (dir, false) else if disk.removes then (none, true) else (dir, false)
