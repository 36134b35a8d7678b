-- ===== src/Lock/Exclusion.antt =====
-- Who gets the lock, and who frees it.
use godot_mcp.Base.{ℕ, ◌<◌, ◌≡◌, ◌≢◌, ◌↔◌, ◌⊎◌, Bool, true, false, none, some, arith}
use godot_mcp.Lock.{
  owned_by, absent, garbled, LockDir, Verdict, Disk, is_stale, resolve_lock_contention, take_lock,
  settle_contention, acquire_runtime_lock, is_others, release_runtime_lock,
}

-- What the lock of a live owner does to a call by another process.
pub record IsRefused (owner : ℕ) (r : LockDir × Verdict) : Type 0 where
  pub lock_kept : r.0 ≡ some (owned_by owner)
  pub not_locked : r.1.locked ≡ false
  pub holder_named : r.1.holder ≡ some owner

-- A lock that is taken bears the pid of its owner.
taken :
    (lives : ℕ → Bool) (disk : Disk) (dir : LockDir) (ours : ℕ)
    → disk.writes ≡ true
    → (acquire_runtime_lock lives disk dir ours).1.locked ≡ true
    → (acquire_runtime_lock lives disk dir ours).0 ≡ some (owned_by ours)
unfolding acquire_runtime_lock resolve_lock_contention settle_contention take_lock is_stale
taken lives disk none ours w l = ground arith
taken lives disk (some absent) ours w l = ground arith
taken lives disk (some garbled) ours w l = ground arith
taken lives disk (some (owned_by o)) ours w l = ground arith

-- A live owner keeps out another process.
live_owner-IsRefused :
    (lives : ℕ → Bool) (disk : Disk) (owner theirs : ℕ)
    → lives owner ≡ true
    → theirs ≢ owner
    → IsRefused owner (acquire_runtime_lock lives disk (some (owned_by owner)) theirs)
unfolding acquire_runtime_lock resolve_lock_contention settle_contention take_lock is_stale
live_owner-IsRefused lives disk owner theirs a d = ground arith

-- The owner frees its lock, and another process does not.
owner_releases :
    (disk : Disk) (ours theirs : ℕ)
    → disk.removes ≡ true
    → theirs ≢ ours
    → ((release_runtime_lock disk (some (owned_by ours)) ours).0 ≡ none)
      × ((release_runtime_lock disk (some (owned_by ours)) theirs).0 ≡ some (owned_by ours))
unfolding is_others release_runtime_lock
owner_releases disk ours theirs r d = ground arith

-- After a call has taken the lock and written its pid, a call by another process is refused, is told
-- that pid, and leaves the lock, as long as the owner is alive.
pub acquire_excludes :
    (lives : ℕ → Bool) (disk disk' : Disk) (dir : LockDir) (ours theirs : ℕ)
    → disk.writes ≡ true
    → (acquire_runtime_lock lives disk dir ours).1.locked ≡ true
    → lives ours ≡ true
    → theirs ≢ ours
    → IsRefused ours
        (acquire_runtime_lock lives disk' (acquire_runtime_lock lives disk dir ours).0 theirs)
acquire_excludes lives disk disk' dir ours theirs w l a d =
    rw (taken lives disk dir ours w l) (live_owner-IsRefused lives disk' ours theirs a d)

-- On a disk that makes and removes directories, a lock that names an owner is taken exactly when the owner is
-- this process, or its pid is positive and it is not alive.
pub take_over_iff :
    (lives : ℕ → Bool) (disk : Disk) (owner ours : ℕ)
    → disk.makes ≡ true
    → disk.removes ≡ true
    → ((acquire_runtime_lock lives disk (some (owned_by owner)) ours).1.locked ≡ true)
      ↔ ((owner ≡ ours) ⊎ ((0 < owner) × (lives owner ≡ false)))
unfolding acquire_runtime_lock resolve_lock_contention settle_contention take_lock is_stale
take_over_iff lives disk owner ours m r = (λ h. ground arith, λ h. ground arith)

-- A release frees the lock that the same process has just taken, and leaves that of another process.
pub release_frees :
    (lives : ℕ → Bool) (disk : Disk) (dir : LockDir) (ours theirs : ℕ)
    → disk.writes ≡ true
    → disk.removes ≡ true
    → (acquire_runtime_lock lives disk dir ours).1.locked ≡ true
    → theirs ≢ ours
    → let held = (acquire_runtime_lock lives disk dir ours).0 in
      ((release_runtime_lock disk held ours).0 ≡ none)
      × ((release_runtime_lock disk held theirs).0 ≡ some (owned_by ours))
release_frees lives disk dir ours theirs w r l d =
    rw (taken lives disk dir ours w l) (owner_releases disk ours theirs r d)
