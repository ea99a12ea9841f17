-- ===== src/Cmd/Guards.antt =====
-- cmd/stop.go and cmd/rm.go: the locks that are held when something is destroyed.
use podman_bootc.Vm.Platform.{linux_vm}
use podman_bootc.Base.{◌≤◌, ℕ, Bool, ◌≡◌, ap, sym, ◌∙◌, some, List, ◌∷◌, [], Text}
use podman_bootc.Cmd.Guarded.{Guards, do_stop-DoesBy, do_remove-DoesBy}
use podman_bootc.Cmd.Harmless.{
  IsHarmless, IsHarmlessAction, new_user-IsHarmless, new_vm-IsHarmless, close_vm-IsHarmless,
}
use podman_bootc.Cmd.Rm.{do_remove}
use podman_bootc.Cmd.Stop.{do_stop}
use podman_bootc.Cmd.Within.{
  IsWithin, IsWithinAction, within-IsNeutral, delete-IsWithin, kill_vm-IsWithin,
  force_kill_vm-IsWithin,
}
use podman_bootc.Go.Path.{join}
use podman_bootc.User.{User, cache_dir}
use podman_bootc.Vm.Domains.{IsDomainOf, IsDomainOf-later}
use podman_bootc.Vm.Linux.{BootcVmLinux}
use podman_bootc.Vm.Locking.{lock_path}
use podman_bootc.Vm.Exclusive.{lock_file, lock_file_same, Holds-at, IsLocked, new_vm-Ensures}
use podman_bootc.World.Calls.{
  System, Event, Trace, Action, acted, tested, remove_all, unlock, destroy_domain,
  undefine_domain_nvram, undefine_domain,
}
use podman_bootc.World.Ensures.{Any}
use podman_bootc.World.Judged.{DoesBy, DoesBy-Does, ExtendsBy-kept}
use podman_bootc.World.Events.{Does, does_rules}
use podman_bootc.World.Exec.{M}
use podman_bootc.World.Locks.{held_exclusive, held_exclusive-neutral}

-- The domain is one that libvirt returned under the VM name of an id, and the lock file of the
-- directory of this id is held exclusively.
pub record IsGuardedDomain (sys : System) (t : Trace) (d : ℕ) : Type 0 where
  pub user : User
  pub full_id : Text
  pub is_locked : 1 ≤ held_exclusive (lock_file sys user (join (cache_dir user ∷ full_id ∷ []))) t
  pub its_domain : IsDomainOf full_id d t

-- What must be true before a call that destroys: a directory is removed only while its lock file is
-- held exclusively, and a domain is destroyed or undefined only if it is guarded.
abbrev GuardedAction : System → Trace → Action → Type 0
GuardedAction sys t (remove_all dir) = (u : User) → 1 ≤ held_exclusive (lock_file sys u dir) t
GuardedAction sys t (destroy_domain d) = IsGuardedDomain sys t d
GuardedAction sys t (undefine_domain_nvram d) = IsGuardedDomain sys t d
GuardedAction sys t (undefine_domain d) = IsGuardedDomain sys t d
GuardedAction sys t _ = Unit

abbrev pub IsGuarded : System → Trace → Event → Type 0
IsGuarded sys t (acted c r) = GuardedAction sys t c
IsGuarded sys t _ = Unit

module _ (sys : System) where
  harmless_action : (t : Trace) (c : Action) → IsHarmlessAction c → GuardedAction sys t c
  harmless_action t (remove_all d) h = elim h [ ]
  harmless_action t (destroy_domain d) h = elim h [ ]
  harmless_action t (undefine_domain_nvram d) h = elim h [ ]
  harmless_action t (undefine_domain d) h = elim h [ ]
  harmless_action t _ h = tt

  harmless : (t : Trace) (e : Event) → IsHarmless e → IsGuarded sys t e
  harmless t (acted c r) h = harmless_action t c h
  harmless t (tested c r) h = tt
  harmless t _ h = tt

  -- The lock file of the directory of a locked VM is held, whoever the user.
  IsLocked-held :
      (u w : User) (v : BootcVmLinux) (dir : Text) (t : Trace)
      → IsLocked sys u v t
      → v.cache_dir ≡ dir
      → 1 ≤ held_exclusive (lock_file sys w dir) t
  IsLocked-held u w v dir t locked e =
      Holds-at _ _ t (locked.its_file ∙ (ap (lock_file sys u) e ∙ lock_file_same sys u w dir))
        locked.is_held

  IsLocked-guards :
      (u : User) (v : BootcVmLinux) (t : Trace) (d : ℕ)
      → IsLocked sys u v t
      → v.domain ≡ some d
      → IsGuardedDomain sys t d
  IsLocked-guards u v t d locked e = record {
    user = u;
    full_id = locked.full_id;
    is_locked = IsLocked-held u u v _ t locked locked.its_dir;
    its_domain = locked.its_domain d e;
  }

  within_action :
      (u : User) (v : BootcVmLinux) (t : Trace) (c : Action)
      → IsWithinAction v.cache_dir v.domain c
      → IsLocked sys u v t
      → GuardedAction sys t c
  within_action u v t (unlock k) e locked = elim e [ ]
  within_action u v t (remove_all d) e locked = λ w. IsLocked-held u w v d t locked (sym e)
  within_action u v t (destroy_domain d) e locked = IsLocked-guards u v t d locked e
  within_action u v t (undefine_domain_nvram d) e locked = IsLocked-guards u v t d locked e
  within_action u v t (undefine_domain d) e locked = IsLocked-guards u v t d locked e
  within_action u v t _ e locked = tt

  within :
      (u : User) (v : BootcVmLinux) (t : Trace) (e : Event)
      → IsWithin v.cache_dir v.domain e
      → IsLocked sys u v t
      → IsGuarded sys t e
  within u v t (acted c r) k locked = within_action u v t c k locked
  within u v t (tested c r) k locked = elim k [ ]
  within u v t _ k locked = tt

  IsLocked-keeps :
      (u : User) (v : BootcVmLinux) (t : Trace) (e : Event)
      → IsWithin v.cache_dir v.domain e
      → IsLocked sys u v t
      → IsLocked sys u v (e ∷ t)
  IsLocked-keeps u v t e k locked = record {
    its_file = locked.its_file;
    is_held =
        rw (held_exclusive-neutral (lock_path v) e t (within-IsNeutral v.cache_dir v.domain e k))
          locked.is_held;
    full_id = locked.full_id;
    its_dir = locked.its_dir;
    its_domain = λ d same. IsDomainOf-later e (locked.its_domain d same);
  }

  -- What is done to a VM that is locked exclusively, within its directory and domain, is guarded.
  IsLocked-DoesBy :
      {A : Type 0} (u : User) (v : BootcVmLinux) {m : M A}
      → Does (IsWithin v.cache_dir v.domain) m
      → DoesBy (IsLocked sys u v) (IsGuarded sys) m
  IsLocked-DoesBy u v h = record {
    on = λ t locked.
        (ExtendsBy-kept (IsLocked sys u v) (IsLocked-keeps u v) (within u v) locked (h.on t)).1;
  }

  harmless-DoesBy : {A : Type 0} {m : M A} → Does IsHarmless m → DoesBy Any (IsGuarded sys) m
  harmless-DoesBy h = DoesBy-Does IsHarmless Any harmless h

  linux-Guards : Guards sys (linux_vm sys) (IsGuarded sys) (IsLocked sys)
  linux-Guards = record {
    user = harmless-DoesBy (new_user-IsHarmless sys);
    listed = λ dir. harmless-DoesBy (search does_rules);
    opened = λ params. harmless-DoesBy (new_vm-IsHarmless sys params);
    locked = new_vm-Ensures sys;
    closed = λ v. harmless-DoesBy (close_vm-IsHarmless sys v);
    deleted = λ u v. IsLocked-DoesBy u v (delete-IsWithin sys v v.cache_dir);
    killed = λ u v. IsLocked-DoesBy u v (kill_vm-IsWithin sys v);
    force_killed = λ u v. IsLocked-DoesBy u v (force_kill_vm-IsWithin sys v);
  }

  pub stop-IsGuarded :
      (args : List Text) → DoesBy Any (IsGuarded sys) (do_stop sys (linux_vm sys) args)
  stop-IsGuarded args =
      do_stop-DoesBy sys (linux_vm sys) (IsGuarded sys) (IsLocked sys) linux-Guards args

  pub remove-IsGuarded :
      (everything force : Bool) (args : List Text)
      → DoesBy Any (IsGuarded sys) (do_remove sys (linux_vm sys) everything force args)
  remove-IsGuarded everything force args =
      do_remove-DoesBy sys (linux_vm sys) (IsGuarded sys) (IsLocked sys) linux-Guards everything
        force args
