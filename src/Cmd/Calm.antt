-- ===== src/Cmd/Calm.antt =====
-- cmd/ssh.go and cmd/list.go: panics.
use podman_bootc.Vm.Platform.{linux_vm}
use podman_bootc.Base.{
  ℕ, ◌≤◌, ◌≡◌, refl, ◌≢◌, true, Option, none, some, is_some, List, ◌∷◌, Text, length, is_empty,
}
use podman_bootc.Base.Int.{ℤ}
use podman_bootc.Cmd.List.{get_vm_info, collect_entries, collect_vm_list, do_list}
use podman_bootc.Cmd.Ssh.{exit_with, ssh_exit, do_ssh}
use podman_bootc.Cmd.Stop.{close_vm}
use podman_bootc.Go.Errors.{Error, panic}
use podman_bootc.User.{User, new_user}
use podman_bootc.Utils.Calm.{try_lock_in-Calm}
use podman_bootc.Utils.Files.{file_exists}
use podman_bootc.Utils.Locks.{CacheLock, unlock}
use podman_bootc.Vm.{NewVmParameters, BootcVmCommon}
use podman_bootc.Vm.Cache.{get_vm_cache_path, check_cache_dir, lock_vm}
use podman_bootc.Vm.Config.{load_config_file}
use podman_bootc.Vm.Linux.{
  BootcVmLinux, vm_name_of, initial_vm, open_locked, new_vm, is_running, get_config, close_libvirt,
  unlock_vm,
}
use podman_bootc.Vm.Locking.{
  vm_name_of-long, load_existing_domain-ne-panic, get_vm_cache_path-length, new_vm-connected,
}
use podman_bootc.Vm.Ssh.{set_user, run_ssh}
use podman_bootc.World.Returns.{Returns-context}
use podman_bootc.World.Calls.{System, Trace, close_connection}
use podman_bootc.World.Calm.{
  Calm, Calm-ne-panic, Calm-pure, Calm-fail, Calm-then, Calm-bind, Calm-if, Calm-context,
  Calm-on_error, Calm-deferring, calm_rules, of_ne_panic, Calm-ignore, Calm-act, Calm-or_crash,
}
use podman_bootc.World.Exec.{M, or_crash, deferring, ignore, act, ◌>>=◌, ◌>>◌}

module _ (sys : System) where
  pub new_user-Calm : Calm (new_user sys)
  unfolding new_user
  new_user-Calm = search calm_rules depth 10

  lock_vm-Calm : (params : NewVmParameters) (dir : Text) → Calm (lock_vm sys params dir)
  unfolding lock_vm check_cache_dir unlock file_exists
  lock_vm-Calm params dir = search (calm_rules, try_lock_in-Calm) depth 20

  get_vm_cache_path-Calm : (id : Text) (u : User) → Calm (get_vm_cache_path sys id u)
  unfolding get_vm_cache_path
  get_vm_cache_path-Calm id u = search calm_rules depth 20

  open_locked-Calm :
      (params : NewVmParameters) (id dir : Text) (lock : CacheLock)
      → 12 ≤ length id
      → Calm (open_locked sys params id dir lock)
  unfolding open_locked unlock
  open_locked-Calm params id dir lock long =
      Calm-bind (Calm-or_crash (vm_name_of id) (vm_name_of-long sys id long)) λ name.
        Calm-on_error
          (of_ne_panic λ t.
            load_existing_domain-ne-panic sys (initial_vm sys params id dir lock name) t refl long)
          (λ e. search calm_rules depth 10)

  pub new_vm-Calm : (params : NewVmParameters) → Calm (new_vm sys params)
  unfolding new_vm
  new_vm-Calm params = Calm-if (is_empty params.image_id) (Calm-fail _) (
      Calm-if (is_empty params.libvirt_uri) (Calm-fail _) (
        Calm-then _ (Calm-context _ (get_vm_cache_path-Calm params.image_id params.user))
          (Returns-context _ _ (get_vm_cache_path-length sys params.image_id params.user))
          λ (id, dir) long.
            Calm-bind (lock_vm-Calm params dir) λ lock. open_locked-Calm params id dir lock long))

  closing-Calm :
      (conn : Option ℕ) (p : M (Unit {0}))
      → is_some conn ≡ true
      → Calm p
      → Calm ((do c ← or_crash conn; ignore (act sys (close_connection c))) >> ignore p)
  closing-Calm conn p h hp =
      Calm-bind (Calm-bind (Calm-or_crash conn h) (λ c. Calm-ignore (Calm-act sys _)))
        (λ _. Calm-ignore hp)

  pub close_vm-Calm :
      (v : BootcVmLinux)
      → is_some v.libvirt_connection ≡ true
      → Calm (close_vm sys (linux_vm sys) v)
  unfolding close_vm close_libvirt unlock_vm unlock
  close_vm-Calm v h = closing-Calm v.libvirt_connection _ h (Calm-act sys _)

  pub with_vm-Calm :
      {A : Type 0} (params : NewVmParameters) {f : BootcVmLinux → M A}
      → ((v : BootcVmLinux) → Calm (f v))
      → Calm (new_vm sys params >>= λ v. deferring (close_vm sys (linux_vm sys) v) (f v))
  with_vm-Calm params h =
      Calm-then _ (new_vm-Calm params) (new_vm-connected sys params)
        λ v connected. Calm-deferring (close_vm-Calm v connected) (h v)

  pub load_config_file-Calm : (v : BootcVmCommon) → Calm (load_config_file sys v)
  unfolding load_config_file
  load_config_file-Calm v = search calm_rules depth 20

  get_config-Calm : (v : BootcVmLinux) → Calm (get_config sys v)
  unfolding get_config is_running
  get_config-Calm v = search (calm_rules, load_config_file-Calm) depth 20

  get_vm_info-Calm : (u : User) (uri id : Text) → Calm (get_vm_info sys (linux_vm sys) u uri id)
  unfolding get_vm_info
  get_vm_info-Calm u uri id = with_vm-Calm _ get_config-Calm

  list-Calm : Calm (do_list sys (linux_vm sys))
  unfolding do_list collect_vm_list collect_entries
  list-Calm = search (calm_rules, new_user-Calm, get_vm_info-Calm) depth 20

  exit_with-Calm : (r : ℤ × Option Error) → Calm (exit_with r)
  exit_with-Calm (code, none) = Calm-pure code
  exit_with-Calm (code, some e) = Calm-fail e

  pub ssh_exit-Calm :
      (v : BootcVmLinux) (cmd : List Text) → Calm (ssh_exit sys (linux_vm sys) v cmd)
  unfolding ssh_exit run_ssh
  ssh_exit-Calm v cmd = search (calm_rules, load_config_file-Calm, exit_with-Calm) depth 20

  set_user-Calm : (v : BootcVmCommon) (user : Text) → Calm (set_user v user)
  unfolding set_user
  set_user-Calm v user = search calm_rules depth 10

  ssh-Calm : (user id : Text) (args : List Text) → Calm (do_ssh sys (linux_vm sys) user (id ∷ args))
  unfolding do_ssh
  ssh-Calm user id args = Calm-bind new_user-Calm λ u.
      Calm-bind (Calm-or_crash (some id) refl)
        λ id'. with_vm-Calm _ (λ v. search (calm_rules, ssh_exit-Calm, set_user-Calm) depth 10)

-- On Linux, for every system and history: `list` does not panic.
pub do_list-ne-panic : (sys : System) (t : Trace) → (do_list sys (linux_vm sys) t).0 ≢ panic
do_list-ne-panic sys t = Calm-ne-panic (list-Calm sys) t

-- On Linux, for every system, user, first argument, further arguments and history: `ssh` does not
-- panic.
pub do_ssh-ne-panic :
    (sys : System) (user id : Text) (args : List Text) (t : Trace)
    → (do_ssh sys (linux_vm sys) user (id ∷ args) t).0 ≢ panic
do_ssh-ne-panic sys user id args t = Calm-ne-panic (ssh-Calm sys user id args) t
