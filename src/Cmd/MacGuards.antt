-- ===== src/Cmd/MacGuards.antt =====
-- cmd/stop.go and cmd/rm.go on macOS: the locks that are held when something is destroyed.
use podman_bootc.Base.{◌≤◌, Bool, not, ◌≡◌, ◌∙◌, List, Text, ◌⊎◌, inl, inr}
use podman_bootc.Base.Int.{ℤ}
use podman_bootc.Cmd.Guarded.{Guards, do_stop-DoesBy, do_remove-DoesBy}
use podman_bootc.Cmd.Harmless.{
  IsHarmless, IsHarmlessAction, new_user-IsHarmless, lock_vm-IsHarmless,
}
use podman_bootc.Cmd.Rm.{kill_vm, force_kill_vm, do_remove}
use podman_bootc.Cmd.Stop.{close_vm, do_stop}
use podman_bootc.User.{User}
use podman_bootc.Utils.Files.{read_pid_file, file_exists}
use podman_bootc.Utils.Locks.{unlock}
use podman_bootc.Utils.Process.{sigint, is_process_alive}
use podman_bootc.Vm.{NewVmParameters}
use podman_bootc.Vm.Cache.{get_vm_cache_path, delete_from_cache}
use podman_bootc.Vm.Exclusive.{lock_file, lock_file_same, Holds-at}
use podman_bootc.Vm.Mac.{
  BootcVmMac, new_vm, is_running, runs_as, delete, close_connection, unlock_vm,
}
use podman_bootc.Vm.Mac.Exclusive.{
  IsLocked, IsReadFrom, IsReadFrom-later, run_pid, read_pid_file-Ensures, new_vm-Ensures,
}
use podman_bootc.Vm.Mac.Locking.{lock_path}
use podman_bootc.Vm.Platform.{mac_vm}
use podman_bootc.Vm.Platform.Locks.{
  mac_is_running-IsNeutral, mac_delete-IsNeutral, read_pid_file-IsNeutral,
}
use podman_bootc.World.Answers.{DoesBy-act}
use podman_bootc.World.Calls.{
  System, Event, Trace, Action, acted, remove_all, find_process, signal_process,
}
use podman_bootc.World.Ensures.{Ensures, Any, Ensures-context}
use podman_bootc.World.Events.{Does, does_rules}
use podman_bootc.World.Exec.{M, act}
use podman_bootc.World.Judged.{
  DoesBy, ExtendsBy, DoesBy-Does, DoesBy-bind, DoesBy-context, DoesBy-if,
}
use podman_bootc.World.Locks.{IsNeutral, held_exclusive, held_exclusive-Extends}

-- The process id was read from the pid file in a directory whose lock file is held exclusively.
pub record IsGuardedProcess (sys : System) (t : Trace) (pid : ℤ) : Type 0 where
  pub cache_dir : Text
  pub is_locked : (u : User) → 1 ≤ held_exclusive (lock_file sys u cache_dir) t
  pub its_pid : IsReadFrom (run_pid cache_dir) pid t

-- What must be true before a call that destroys: a directory is removed only while its lock file is
-- held exclusively, and a process gets a signal, other than the signal 0 that asks if it lives, only if
-- it is guarded.
abbrev GuardedAction : System → Trace → Action → Type 0
GuardedAction sys t (remove_all dir) = (u : User) → 1 ≤ held_exclusive (lock_file sys u dir) t
GuardedAction sys t (signal_process pid s) = (s ≡ 0) ⊎ IsGuardedProcess sys t pid
GuardedAction sys t _ = Unit

abbrev pub IsGuarded : System → Trace → Event → Type 0
IsGuarded sys t (acted c r) = GuardedAction sys t c
IsGuarded sys t _ = Unit

module _ (sys : System) where
  harmless_action : (t : Trace) (c : Action) → IsHarmlessAction c → GuardedAction sys t c
  harmless_action t (remove_all d) h = elim h [ ]
  harmless_action t (signal_process pid s) h = inl h
  harmless_action t _ h = tt

  harmless : (t : Trace) (e : Event) → IsHarmless e → IsGuarded sys t e
  harmless t (acted c r) h = harmless_action t c h
  harmless t _ h = tt

  harmless-DoesBy :
      {A : Type 0} {m : M A} (R : Trace → Type 0) → Does IsHarmless m → DoesBy R (IsGuarded sys) m
  harmless-DoesBy R h = DoesBy-Does IsHarmless R harmless h

  new_vm-IsHarmless : (params : NewVmParameters) → Does IsHarmless (new_vm sys params)
  unfolding new_vm get_vm_cache_path
  new_vm-IsHarmless params = search (does_rules, lock_vm-IsHarmless) depth 24

  close_vm-IsHarmless : (v : BootcVmMac) → Does IsHarmless (close_vm sys (mac_vm sys) v)
  unfolding close_vm close_connection unlock_vm unlock
  close_vm-IsHarmless v = search does_rules depth 20

  read_pid_file-IsHarmless : (path : Text) → Does IsHarmless (read_pid_file sys path)
  unfolding read_pid_file
  read_pid_file-IsHarmless path = search does_rules depth 20

  is_running-IsHarmless : (v : BootcVmMac) → Does IsHarmless (is_running sys v)
  unfolding is_running runs_as is_process_alive file_exists
  is_running-IsHarmless v = search (does_rules, read_pid_file-IsHarmless) depth 20

  IsLocked-held :
      (u w : User) (v : BootcVmMac) (t : Trace)
      → IsLocked sys u v t
      → 1 ≤ held_exclusive (lock_file sys w v.cache_dir) t
  IsLocked-held u w v t locked =
      Holds-at _ _ t (locked.its_file ∙ lock_file_same sys u w v.cache_dir) locked.is_held

  -- What touches no lock leaves a locked VM locked.
  IsLocked-kept :
      {A : Type 0} (u : User) (v : BootcVmMac) {m : M A}
      → Does IsNeutral m
      → Ensures (IsLocked sys u v) m (λ _. IsLocked sys u v)
  IsLocked-kept u v h = record {
    at = λ t locked a e. record {
      its_file = locked.its_file;
      is_held = rw (held_exclusive-Extends (lock_path v) (h.on t)) locked.is_held;
      its_pid_file = locked.its_pid_file;
    };
  }

  -- What `delete` knows of the process id that it read.
  abbrev Known : User → BootcVmMac → ℤ → Trace → Type 0
  Known u v pid t = IsLocked sys u v t × IsReadFrom v.pid_file pid t

  read-Known :
      (u : User) (v : BootcVmMac)
      → Ensures (IsLocked sys u v) (read_pid_file sys v.pid_file) (Known u v)
  read-Known u v = record {
    at = λ t locked pid e. (
      (IsLocked-kept u v (read_pid_file-IsNeutral sys v.pid_file)).at t locked pid e,
      (read_pid_file-Ensures sys v.pid_file).at t tt pid e,
    );
  }

  find-Known :
      (u : User) (v : BootcVmMac) (pid : ℤ)
      → Ensures (Known u v pid) (act sys (find_process pid)) (λ _. Known u v pid)
  unfolding act
  find-Known u v pid = record {
    at = λ t (locked, its) a e. (
      (IsLocked-kept u v {m = act sys (find_process pid)} (search does_rules)).at t locked a e,
      IsReadFrom-later _ its,
    );
  }

  Known-guarded :
      (u : User) (v : BootcVmMac) (pid : ℤ) (t : Trace)
      → Known u v pid t
      → IsGuardedProcess sys t pid
  Known-guarded u v pid t (locked, its) = record {
    cache_dir = v.cache_dir;
    is_locked = λ w. IsLocked-held u w v t locked;
    its_pid = rw (← locked.its_pid_file) its;
  }

  delete-DoesBy :
      (u : User) (v : BootcVmMac) → DoesBy (IsLocked sys u v) (IsGuarded sys) (delete sys v)
  unfolding delete
  delete-DoesBy u v =
      DoesBy-bind _ (λ _. IsLocked sys u v)
        (DoesBy-context _ (harmless-DoesBy _ (is_running-IsHarmless v)))
        (Ensures-context _ _ _ (IsLocked-kept u v (mac_is_running-IsNeutral sys v)))
        λ running. DoesBy-if (not running) (harmless-DoesBy _ (search does_rules)) (
          DoesBy-bind _ (Known u v)
            (DoesBy-context _ (harmless-DoesBy _ (read_pid_file-IsHarmless v.pid_file)))
            (Ensures-context _ _ _ (read-Known u v))
            λ pid.
              DoesBy-bind _ (λ _. Known u v pid)
                (DoesBy-context _ (harmless-DoesBy _ (search does_rules)))
                (Ensures-context _ _ _ (find-Known u v pid))
                λ _.
                  DoesBy-act sys _ (IsGuarded sys) (signal_process pid sigint)
                    (λ t r known. inr (Known-guarded u v pid t known)))

  force_kill_vm-DoesBy :
      (u : User) (v : BootcVmMac)
      → DoesBy (IsLocked sys u v) (IsGuarded sys) (force_kill_vm sys (mac_vm sys) v)
  unfolding force_kill_vm delete_from_cache
  force_kill_vm-DoesBy u v =
      DoesBy-bind _ (λ _. IsLocked sys u v) (delete-DoesBy u v)
        (IsLocked-kept u v (mac_delete-IsNeutral sys v))
        λ _.
          DoesBy-act sys _ (IsGuarded sys) (remove_all v.cache_dir)
            (λ t r locked w. IsLocked-held u w v t locked)

  kill_vm-DoesBy :
      (u : User) (v : BootcVmMac)
      → DoesBy (IsLocked sys u v) (IsGuarded sys) (kill_vm sys (mac_vm sys) v)
  unfolding kill_vm force_kill_vm
  kill_vm-DoesBy u v =
      DoesBy-bind _ (λ _. IsLocked sys u v)
        (harmless-DoesBy _ (search (does_rules, is_running-IsHarmless) depth 10))
        (IsLocked-kept u v (search (does_rules, mac_is_running-IsNeutral) depth 10))
        λ running.
          DoesBy-if running (harmless-DoesBy _ (search does_rules)) (force_kill_vm-DoesBy u v)

  mac-Guards : Guards sys (mac_vm sys) (IsGuarded sys) (IsLocked sys)
  mac-Guards = record {
    user = harmless-DoesBy Any (new_user-IsHarmless sys);
    listed = λ dir. harmless-DoesBy Any (search does_rules);
    opened = λ params. harmless-DoesBy Any (new_vm-IsHarmless params);
    locked = new_vm-Ensures sys;
    closed = λ v. harmless-DoesBy Any (close_vm-IsHarmless v);
    deleted = delete-DoesBy;
    killed = kill_vm-DoesBy;
    force_killed = force_kill_vm-DoesBy;
  }

-- On macOS, for every system, setting of `--all` and `--force`, argument list and history: each
-- signal that `rm` sends to a process, other than the signal 0, goes to a process id that was read
-- from the pid file in a directory whose lock file this process then holds exclusively; each
-- removal of a directory is made while it holds exclusively the lock file of that directory.
pub do_remove-IsGuarded_on_mac :
    (sys : System) (everything force : Bool) (args : List Text) (t : Trace)
    → ExtendsBy (IsGuarded sys) t (do_remove sys (mac_vm sys) everything force args t).1
do_remove-IsGuarded_on_mac sys everything force args t =
    (do_remove-DoesBy sys (mac_vm sys) (IsGuarded sys) (IsLocked sys) (mac-Guards sys) everything
        force args).on
      t tt

-- On macOS, for every system, argument list and history: each signal that `stop` sends to a
-- process, other than the signal 0, goes to a process id that was read from the pid file in a
-- directory whose lock file this process then holds exclusively; each removal of a directory is
-- made while it holds exclusively the lock file of that directory.
pub do_stop-IsGuarded_on_mac :
    (sys : System) (args : List Text) (t : Trace)
    → ExtendsBy (IsGuarded sys) t (do_stop sys (mac_vm sys) args t).1
do_stop-IsGuarded_on_mac sys args t =
    (do_stop-DoesBy sys (mac_vm sys) (IsGuarded sys) (IsLocked sys) (mac-Guards sys) args).on t tt
