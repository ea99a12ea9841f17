-- ===== src/Vm/Cache.antt =====
-- pkg/vm/vm.go: `GetVMCachePath`, which finds the directory of a VM by a prefix of its id, and
-- `lockVM`, which locks it.
use podman_bootc.Base.{
  Bool, not, ◌&&◌, List, [], ◌∷◌, ◌++◌, Text, lit, length, has_prefix, is_empty, ◌==◌,
  if◌then◌else◌,
}
use podman_bootc.Go.Errors.{leaf, vm_in_use, new_error, wrap}
use podman_bootc.Go.Path.{join}
use podman_bootc.User.{User, cache_dir, run_dir}
use podman_bootc.Utils.Files.{file_exists}
use podman_bootc.Utils.Locks.{CacheLock, new_cache_lock, try_lock_in, unlock}
use podman_bootc.Vm.{NewVmParameters, BootcVmCommon}
use podman_bootc.World.Calls.{System, Entry, remove_all}
use podman_bootc.World.Exec.{M, pure, fail, if_nil, context, ignore, ◌>>=◌, ◌>>◌, read_dir, act}

-- The test on an entry of the cache directory.
unfoldable pub is_match : Text → Entry → Bool
is_match image_id f = f.is_dir && (length f.name == 64) && has_prefix f.name image_id

-- The loop of `GetVMCachePath`: the last entry that passes the test stays.
unfoldable pub find_full_id : Text → List Entry → Text → Text
unfolding is_match
find_full_id image_id [] full = full
find_full_id image_id (f ∷ files) full =
    find_full_id image_id files (if is_match image_id f then f.name else full)

module _ (sys : System) where
  -- `GetVMCachePath(imageId, user)`.
  unfoldable pub get_vm_cache_path : Text → User → M (Text × Text)
  get_vm_cache_path image_id user = do
    files ← read_dir sys (cache_dir user)
    let full = find_full_id image_id files []
    if is_empty full
        then fail (new_error (lit "local installation '" ++ (image_id ++ lit "' does not exists")))
        else pure (full, join (cache_dir user ∷ full ∷ []))

  -- What `lockVM` does once the lock is taken: it checks that the directory is still there.
  unfoldable pub check_cache_dir : NewVmParameters → Text → CacheLock → M CacheLock
  check_cache_dir params dir lock = do
    (exists, problem) ← file_exists sys dir
    if_nil problem
        (if not exists
          then (do
            ignore (unlock sys lock)
            fail (new_error (lit "'" ++ (params.image_id ++ lit "' does not exists"))))
          else pure lock)
        (λ e. do ignore (unlock sys lock); fail (wrap (lit "unable to check cache path") e))

  -- `lockVM(params, cacheDir)`.
  unfoldable pub lock_vm : NewVmParameters → Text → M CacheLock
  lock_vm params dir = do
    let lock = new_cache_lock (run_dir sys params.user) dir
    locked ← context (lit "unable to lock the VM cache path") (try_lock_in sys lock params.locking)
    if not locked
        then fail (leaf vm_in_use (lit "VM already in use"))
        else check_cache_dir params dir lock

  -- `(v *BootcVMCommon) DeleteFromCache()`.
  unfoldable pub delete_from_cache : BootcVmCommon → M (Unit {0})
  delete_from_cache v = act sys (remove_all v.cache_dir)
