-- ===== src/Utils/Locks.antt =====
-- pkg/utils/locks.go: the lock on a cache directory, over the lock library.
pub mod Refines
use podman_bootc.Base.{Bool, Text, lit, [], ◌∷◌, ◌++◌}
use podman_bootc.Go.Path.{join, base}
use podman_bootc.World.Calls.{System, try_lock, try_rlock}
use podman_bootc.World.Calls.{unlock as unlock_call}
use podman_bootc.World.Exec.{M, test, act}

pub data AccessMode : Type 0 where
  exclusive shared : AccessMode

-- `CacheLock`: its `flock.Flock` is known by the path of the lock file.
pub record CacheLock : Type 0 where
  pub path : Text

-- `NewCacheLock(lockDir, cacheDir)`.
unfoldable pub new_cache_lock : Text → Text → CacheLock
new_cache_lock lock_dir cache_dir = record {
  path = join (lock_dir ∷ (base cache_dir ++ lit ".lock") ∷ []);
}

module _ (sys : System) where
  -- `(l CacheLock) TryLock(mode)`.
  unfoldable pub try_lock_in : CacheLock → AccessMode → M Bool
  try_lock_in l exclusive = test sys (try_lock l.path)
  try_lock_in l shared = test sys (try_rlock l.path)

  -- `(l CacheLock) Unlock()`.
  unfoldable pub unlock : CacheLock → M (Unit {0})
  unlock l = act sys (unlock_call l.path)
