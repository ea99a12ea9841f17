-- ===== src/Cmd/Harmless.antt =====
-- cmd and pkg/vm: the parts of a command that destroy nothing.
use podman_bootc.Vm.Platform.{linux_vm}
use podman_bootc.Base.{◌≡◌, Text}
use podman_bootc.Cmd.Stop.{close_vm}
use podman_bootc.User.{User, new_user}
use podman_bootc.Utils.Files.{file_exists}
use podman_bootc.Utils.Locks.{CacheLock, AccessMode, exclusive, shared, try_lock_in, unlock}
use podman_bootc.Vm.{NewVmParameters}
use podman_bootc.Vm.Cache.{get_vm_cache_path, check_cache_dir, lock_vm}
use podman_bootc.Vm.Linux.{
  BootcVmLinux, load_existing_domain, open_locked, new_vm, close_libvirt, unlock_vm,
}
use podman_bootc.World.Calls.{
  System, Event, Action, acted, remove_all, destroy_domain, undefine_domain_nvram, undefine_domain,
  signal_process,
}
use podman_bootc.World.Events.{Does, does_rules}

-- A call that destroys nothing: no directory is removed, no domain destroyed or undefined, and no
-- process gets a signal but the signal 0, which asks if it lives.
abbrev pub IsHarmlessAction : Action → Type 0
IsHarmlessAction (remove_all d) = ⊥
IsHarmlessAction (destroy_domain d) = ⊥
IsHarmlessAction (undefine_domain_nvram d) = ⊥
IsHarmlessAction (undefine_domain d) = ⊥
IsHarmlessAction (signal_process pid s) = s ≡ 0
IsHarmlessAction _ = Unit

abbrev pub IsHarmless : Event → Type 0
IsHarmless (acted c r) = IsHarmlessAction c
IsHarmless _ = Unit

module _ (sys : System) where
  pub new_user-IsHarmless : Does IsHarmless (new_user sys)
  unfolding new_user
  new_user-IsHarmless = search does_rules depth 20

  pub try_lock_in-IsHarmless :
      (lock : CacheLock) (mode : AccessMode) → Does IsHarmless (try_lock_in sys lock mode)
  unfolding try_lock_in
  try_lock_in-IsHarmless lock exclusive = search does_rules
  try_lock_in-IsHarmless lock shared = search does_rules

  pub lock_vm-IsHarmless :
      (params : NewVmParameters) (dir : Text) → Does IsHarmless (lock_vm sys params dir)
  unfolding lock_vm check_cache_dir unlock file_exists
  lock_vm-IsHarmless params dir = search (does_rules, try_lock_in-IsHarmless) depth 20

  pub load_existing_domain-IsHarmless :
      (v : BootcVmLinux) → Does IsHarmless (load_existing_domain sys v)
  unfolding load_existing_domain
  load_existing_domain-IsHarmless v = search does_rules depth 20

  pub open_locked-IsHarmless :
      (params : NewVmParameters) (id dir : Text) (lock : CacheLock)
      → Does IsHarmless (open_locked sys params id dir lock)
  unfolding open_locked unlock
  open_locked-IsHarmless params id dir lock =
      search (does_rules, load_existing_domain-IsHarmless) depth 20

  pub get_vm_cache_path-IsHarmless :
      (id : Text) (u : User) → Does IsHarmless (get_vm_cache_path sys id u)
  unfolding get_vm_cache_path
  get_vm_cache_path-IsHarmless id u = search does_rules depth 20

  pub new_vm-IsHarmless : (params : NewVmParameters) → Does IsHarmless (new_vm sys params)
  unfolding new_vm
  new_vm-IsHarmless params =
      search (does_rules, get_vm_cache_path-IsHarmless, lock_vm-IsHarmless, open_locked-IsHarmless)
        depth 20

  pub close_vm-IsHarmless : (v : BootcVmLinux) → Does IsHarmless (close_vm sys (linux_vm sys) v)
  unfolding close_vm close_libvirt unlock_vm unlock
  close_vm-IsHarmless v = search does_rules depth 20
