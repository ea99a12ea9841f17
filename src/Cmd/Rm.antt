-- ===== src/Cmd/Rm.antt =====
-- cmd/rm.go: `podman-bootc rm ID`, `rm --force ID` and `rm --all`.
use podman_bootc.Base.{Bool, not, ◌&&◌, ◌==◌, Text, lit, List, ◌++◌, first, length, if◌then◌else◌}
use podman_bootc.Base.Int.{pos}
use podman_bootc.Cmd.Stop.{close_vm}
use podman_bootc.Config.{libvirt_uri_default}
use podman_bootc.Go.Decimal.{format_int}
use podman_bootc.Go.Errors.{Result, ok, err, new_error, message}
use podman_bootc.User.{new_user, cache_dir}
use podman_bootc.Utils.Locks.{exclusive}
use podman_bootc.Vm.Cache.{delete_from_cache}
use podman_bootc.Vm.Platform.{BootcVm}
use podman_bootc.World.Calls.{System, Entry}
use podman_bootc.World.Exec.{
  M, pure, fail, for_each, or_crash, on_error, ignore, deferring, ◌>>=◌, ◌>>◌, read_dir,
}

-- `oneOrAll()`: the test of the arguments against `--all`.
unfoldable pub one_or_all : Bool → List Text → Result (Unit {0})
one_or_all remove_all args =
    if not (length args == 1) && not remove_all
    then err (new_error (lit "accepts 1 arg(s), received " ++ format_int (pos (length args))))
    else if not (length args == 0) && remove_all
    then err (new_error (lit "accepts 0 arg(s), received " ++ format_int (pos (length args))))
    else ok tt

module _ {V : Type 0} (sys : System) (vm : BootcVm V) where
  -- `killVM(bootcVM)`.
  unfoldable pub kill_vm : V → M (Unit {0})
  kill_vm v = do
    running ←
        on_error (vm.is_running v)
          (λ e. fail (new_error (lit "unable to check if VM is running: " ++ message e)))
    if running
        then fail (new_error (lit "VM is currently running. Stop it first or use the -f flag."))
        else (do vm.delete v; delete_from_cache sys (vm.common v))

  -- `forceKillVM(bootcVM)`.
  unfoldable pub force_kill_vm : V → M (Unit {0})
  force_kill_vm v = do vm.delete v; delete_from_cache sys (vm.common v)

  -- `prune(id)`, with the flag `--force`.
  unfoldable pub prune : Bool → Text → M (Unit {0})
  prune force id = do
    user ← new_user sys
    v ←
        on_error
          (vm.new_vm (record {
            image_id = id;
            user = user;
            libvirt_uri = libvirt_uri_default;
            locking = exclusive;
          }))
          (λ e. fail (new_error (lit "unable to get VM " ++ (id ++ (lit ": " ++ message e)))))
    deferring (close_vm sys vm v) (
        if force
        then on_error (force_kill_vm v) (λ _. fail (new_error (lit "unable to force kill " ++ id)))
        else on_error (kill_vm v) (λ _. fail (new_error (lit "unable to kill " ++ id))))

  -- The loop of `pruneAll`: an error of one VM is logged, and the next one is tried.
  unfoldable pub prune_entries : Bool → List Entry → M (Unit {0})
  prune_entries force files =
      for_each files (pure tt)
        (λ f again. if f.is_dir then (do ignore (prune force f.name); again) else again)

  -- `pruneAll()`.
  unfoldable pub prune_all : Bool → M (Unit {0})
  prune_all force = do
    user ← new_user sys
    files ← read_dir sys (cache_dir user)
    prune_entries force files

  -- `doRemove`, with the flags `--all` and `--force`.
  unfoldable pub do_remove : Bool → Bool → List Text → M (Unit {0})
  do_remove remove_all force args =
      if remove_all then prune_all force else (do id ← or_crash (first args); prune force id)
