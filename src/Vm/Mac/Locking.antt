-- ===== src/Vm/Mac/Locking.antt =====
-- pkg/vm/vm_darwin.go: the lock that `NewVM` holds when it returns.
use podman_bootc.Base.{◌+◌, ◌≤◌, ◌≡◌, refl, Text, length, is_empty, slice_to, slice_to-long}
use podman_bootc.Utils.Locks.{CacheLock}
use podman_bootc.Vm.{NewVmParameters}
use podman_bootc.Vm.Locking.{
  path_of, lock_vm-Acquires, get_vm_cache_path-Does, get_vm_cache_path-length,
}
use podman_bootc.Vm.Mac.{BootcVmMac, initial_vm, new_vm}
use podman_bootc.World.Brackets.{Acquires, Acquires-if, Acquires-fail, Balances-Does, gained}
use podman_bootc.World.Returns.{Returns-context}
use podman_bootc.World.Calls.{System, Trace}
use podman_bootc.World.Events.{Does-context, Does-or_crash}
use podman_bootc.World.Exec.{or_crash, pure, ◌>>=◌}
use podman_bootc.World.Locks.{held}
use podman_bootc.World.Settles.{
  Acquires-bind-Returns, Acquires-then, Settles, Settles-bind, Settles-pure, Succeeds-or_crash,
}

abbrev pub lock_path : BootcVmMac → Text
lock_path b = b.cache_dir_lock.path

module _ (sys : System) (params : NewVmParameters) where
  initial_vm-Settles :
      (id dir : Text) (lock : CacheLock)
      → 12 ≤ length id
      → Settles
          (path_of lock)
          lock_path
          (or_crash (slice_to 12 id) >>= λ s. pure (initial_vm params id dir lock s))
  initial_vm-Settles id dir lock long =
      Settles-bind _ _ (Does-or_crash _) (Succeeds-or_crash _ (slice_to-long 12 id long))
        (λ s. Settles-pure _ _ _ refl)

  new_vm-Acquires : Acquires lock_path (new_vm sys params)
  unfolding new_vm
  new_vm-Acquires = Acquires-if lock_path (is_empty params.image_id) (Acquires-fail lock_path _) (
      Acquires-bind-Returns lock_path (λ r. 12 ≤ length r.0)
        (Balances-Does (Does-context _ (get_vm_cache_path-Does sys params.image_id params.user)))
        (Returns-context _ _ (get_vm_cache_path-length sys params.image_id params.user))
        (λ (id, dir) long.
          Acquires-then path_of lock_path (lock_vm-Acquires sys params dir)
            (λ lock t e. initial_vm-Settles id dir lock long)))

-- For every system, parameters, history and lock file: when `NewVM` on macOS has ended, this process
-- holds the lock of the file once more than before if a VM was returned whose lock this is, and as
-- often as before in every other case; an `Unlock` counts as giving the lock back whatever it answers.
pub new_vm-locks :
    (sys : System) (params : NewVmParameters) (l : Text) (t : Trace)
    → held l (new_vm sys params t).1 ≡ held l t + gained lock_path l (new_vm sys params t).0
new_vm-locks sys params l t = (new_vm-Acquires sys params).at l t
