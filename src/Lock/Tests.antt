-- ===== src/Lock/Tests.antt =====
-- The theorems of the lock at concrete inputs.
use godot_mcp.Base.{ℕ, ◌≡◌, ◌≢◌, refl, Bool, true, none, arith}
use godot_mcp.Lock.{
  LockDir, Disk, acquire_runtime_lock, resolve_lock_contention, settle_contention, take_lock,
}
use godot_mcp.Lock.Exclusion.{IsRefused, acquire_excludes}

abbrev disk : Disk
disk = record { makes = true; writes = true; removes = true }

abbrev everyone : ℕ → Bool
everyone pid = true

abbrev after : LockDir
after = (acquire_runtime_lock everyone disk none 7).0

locks : (acquire_runtime_lock everyone disk none 7).1.locked ≡ true
unfolding acquire_runtime_lock resolve_lock_contention settle_contention take_lock
locks = refl

differs : (◌≢◌ {A = ℕ} 9 7)
differs e = absurd (omega arith)

acquire_excludes_example : IsRefused 7 (acquire_runtime_lock everyone disk after 9)
acquire_excludes_example = acquire_excludes everyone disk disk none 7 9 refl locks refl differs
