-- ===== src/Cmd/Locks.antt =====
-- cmd: the locks of each command, from its start to its end.
use podman_bootc.Base.{ℕ, Bool, true, ◌≡◌, List, [], ◌∷◌, Text, Option, none, some, rest_of}
use podman_bootc.Cmd.List.{get_vm_info, collect_entries, collect_vm_list, do_list}
use podman_bootc.Cmd.Rm.{kill_vm, force_kill_vm, prune, prune_entries, prune_all, do_remove}
use podman_bootc.Cmd.Run.{OsVmConfig, attach, start_vm, do_run}
use podman_bootc.Cmd.Ssh.{exit_with, ssh_exit, do_ssh}
use podman_bootc.Cmd.Stop.{close_vm, do_stop}
use podman_bootc.Credentials.{generate_keys}
use podman_bootc.Disk.{BootcDisk, DiskImageConfig}
use podman_bootc.Disk.Neutral.{install-Balances}
use podman_bootc.Go.Errors.{Error}
use podman_bootc.User.{User, new_user}
use podman_bootc.Utils.Machine.{
  get_machine_context, get_machine_info, get_pv4_machine_info, get_pv5_machine_info,
  info_of_inspect,
}
use podman_bootc.Base.Int.{ℤ}
use podman_bootc.Utils.Net.{get_free_local_tcp_port}
use podman_bootc.Vm.{NewVmParameters, BootcVmCommon}
use podman_bootc.Vm.Platform.{BootcVm}
use podman_bootc.Vm.Platform.Locks.{KeepsLocks}
use podman_bootc.Vm.Neutral.{
  delete_from_cache-IsNeutral, write_config-IsNeutral, wait_for_ssh_to_be_ready-IsNeutral,
  run_ssh-IsNeutral,
}
use podman_bootc.Vm.Ssh.{set_user}
use podman_bootc.World.Calls.{System, Entry, MachineInspect}
use podman_bootc.World.Exec.{M, deferring, ◌>>=◌}
use podman_bootc.World.Events.{Does, Does-pure, Does-fail, does_rules}
use podman_bootc.World.Locks.{IsNeutral}
use podman_bootc.World.Brackets.{
  Acquires-context, Balances-context, Acquires-on_error, Acquires-fail, Balances-for_each,
  Balances-if, Balances-ignore, Balances-branch, Balances, Balances-Does, Balances-bind,
  Balances-bracket, GivesBack,
}
use podman_bootc.World.Returns.{Returns-context, Returns-on_error, Returns-fail}

module _ (sys : System) where
  pub new_user-IsNeutral : Does IsNeutral (new_user sys)
  unfolding new_user
  new_user-IsNeutral = search does_rules depth 20

  exit_with-IsNeutral : (r : ℤ × Option Error) → Does IsNeutral (exit_with r)
  exit_with-IsNeutral (code, none) = Does-pure code
  exit_with-IsNeutral (code, some e) = Does-fail e

  set_user-IsNeutral : (v : BootcVmCommon) (user : Text) → Does IsNeutral (set_user v user)
  unfolding set_user
  set_user-IsNeutral v user = search does_rules depth 20

  generate_keys-IsNeutral : (dir : Text) → Does IsNeutral (generate_keys sys dir)
  unfolding generate_keys
  generate_keys-IsNeutral dir = search does_rules depth 20

  info_of_inspect-IsNeutral : (l : List MachineInspect) → Does IsNeutral (info_of_inspect sys l)
  unfolding info_of_inspect
  info_of_inspect-IsNeutral [] = Does-fail _
  info_of_inspect-IsNeutral (m ∷ l) = Does-pure _

  pub get_machine_context-IsNeutral : Does IsNeutral (get_machine_context sys)
  unfolding get_machine_context get_machine_info get_pv4_machine_info get_pv5_machine_info
  get_machine_context-IsNeutral = search (does_rules, info_of_inspect-IsNeutral) depth 20

-- For a platform that keeps the laws of locks.
module _ {V : Type 0} (sys : System) (vm : BootcVm V) (laws : KeepsLocks vm) where
  abbrev lock_path : V → Text
  lock_path v = (vm.common v).cache_dir_lock.path

  -- The deferred function gives the lock back.
  close_vm-GivesBack : (v : V) → laws.is_open v ≡ true → GivesBack (lock_path v) (close_vm sys vm v)
  unfolding close_vm
  close_vm-GivesBack v h = laws.close-GivesBack v h

  -- A command that opens a VM, and defers its closing, leaves the locks as they were.
  with_vm-Balances :
      {A : Type 0} (params : NewVmParameters) {f : V → M A}
      → ((v : V) → Does IsNeutral (f v))
      → Balances (vm.new_vm params >>= λ v. deferring (close_vm sys vm v) (f v))
  with_vm-Balances params h =
      Balances-bracket lock_path _ (laws.new_vm-Acquires params) (laws.new_vm-open params)
        close_vm-GivesBack h

  pub do_stop-Balances : (args : List Text) → Balances (do_stop sys vm args)
  unfolding do_stop
  do_stop-Balances args = Balances-bind (Balances-Does (new_user-IsNeutral sys)) λ user.
      Balances-bind (Balances-Does (search does_rules))
        λ id. with_vm-Balances _ (laws.delete-IsNeutral)

  ssh_exit-IsNeutral : (v : V) (cmd : List Text) → Does IsNeutral (ssh_exit sys vm v cmd)
  unfolding ssh_exit
  ssh_exit-IsNeutral v cmd = search (does_rules, run_ssh-IsNeutral, exit_with-IsNeutral) depth 20

  pub do_ssh-Balances : (user : Text) (args : List Text) → Balances (do_ssh sys vm user args)
  unfolding do_ssh
  do_ssh-Balances user args = Balances-bind (Balances-Does (new_user-IsNeutral sys)) λ u.
      Balances-bind (Balances-Does (search does_rules)) λ id.
        with_vm-Balances _
          (λ v. search (does_rules, ssh_exit-IsNeutral, set_user-IsNeutral) depth 20)

  kill_vm-IsNeutral : (v : V) → Does IsNeutral (kill_vm sys vm v)
  unfolding kill_vm
  kill_vm-IsNeutral v =
      search
        (does_rules, laws.is_running-IsNeutral, laws.delete-IsNeutral, delete_from_cache-IsNeutral)
        depth 20

  force_kill_vm-IsNeutral : (v : V) → Does IsNeutral (force_kill_vm sys vm v)
  unfolding force_kill_vm
  force_kill_vm-IsNeutral v =
      search (does_rules, laws.delete-IsNeutral, delete_from_cache-IsNeutral) depth 20

  prune-Balances : (force : Bool) (id : Text) → Balances (prune sys vm force id)
  unfolding prune
  prune-Balances force id = Balances-bind (Balances-Does (new_user-IsNeutral sys)) λ u.
      Balances-bracket lock_path _
        (Acquires-on_error lock_path (laws.new_vm-Acquires _) (λ e. Acquires-fail lock_path _))
        (Returns-on_error _ (laws.new_vm-open _) (λ e. Returns-fail _ _)) close_vm-GivesBack
        (λ v. search (does_rules, kill_vm-IsNeutral, force_kill_vm-IsNeutral) depth 20)

  prune_entries-Balances :
      (force : Bool) (files : List Entry) → Balances (prune_entries sys vm force files)
  unfolding prune_entries
  prune_entries-Balances force files =
      Balances-for_each files (Balances-Does (Does-pure tt)) λ f again h.
        Balances-if f.is_dir
          (Balances-bind (Balances-ignore (prune-Balances force f.name)) (λ _. h)) h

  prune_all-Balances : (force : Bool) → Balances (prune_all sys vm force)
  unfolding prune_all
  prune_all-Balances force = Balances-bind (Balances-Does (new_user-IsNeutral sys)) λ u.
      Balances-bind (Balances-Does (search does_rules)) λ files. prune_entries-Balances force files

  pub do_remove-Balances :
      (remove_all force : Bool) (args : List Text)
      → Balances (do_remove sys vm remove_all force args)
  unfolding do_remove
  do_remove-Balances remove_all force args =
      Balances-if remove_all (prune_all-Balances force)
        (Balances-bind (Balances-Does (search does_rules)) (prune-Balances force))

  get_vm_info-Balances : (u : User) (uri id : Text) → Balances (get_vm_info sys vm u uri id)
  unfolding get_vm_info
  get_vm_info-Balances u uri id = with_vm-Balances _ (laws.get_config-IsNeutral)

  collect_entries-Balances :
      (u : User) (uri : Text) (files : List Entry) → Balances (collect_entries sys vm u uri files)
  unfolding collect_entries
  collect_entries-Balances u uri files =
      Balances-for_each files (Balances-Does (Does-pure [])) λ f again h.
        Balances-if f.is_dir
          (Balances-branch (get_vm_info-Balances u uri f.name)
            (λ cfg. Balances-bind h (λ cfgs. Balances-Does (Does-pure _))) (λ e. h))
          h

  pub do_list-Balances : Balances (do_list sys vm)
  unfolding do_list collect_vm_list
  do_list-Balances = Balances-bind (Balances-Does (new_user-IsNeutral sys)) λ u.
      Balances-bind (Balances-Does (search does_rules)) λ files. collect_entries-Balances u _ files

  attach-IsNeutral :
      (config : OsVmConfig) (v : V) (cmd : List Text) → Does IsNeutral (attach sys vm config v cmd)
  unfolding attach
  attach-IsNeutral config v cmd =
      search
        (does_rules, wait_for_ssh_to_be_ready-IsNeutral, ssh_exit-IsNeutral, laws.delete-IsNeutral)
        depth 20

  start_vm-IsNeutral :
      (config : OsVmConfig) (disk : BootcDisk) (v : V) (port : ℕ) (cmd : List Text)
      → Does IsNeutral (start_vm sys vm config disk v port cmd)
  unfolding start_vm
  start_vm-IsNeutral config disk v port cmd =
      search
        (
          does_rules, generate_keys-IsNeutral, laws.run-IsNeutral, write_config-IsNeutral,
          attach-IsNeutral,
        )
        depth 20

  pub do_run-Balances :
      (config : OsVmConfig) (disk_config : DiskImageConfig) (args : List Text)
      → Balances (do_run sys vm config disk_config args)
  unfolding do_run get_free_local_tcp_port
  do_run-Balances config disk_config args =
      Balances-bind (Balances-context _ (Balances-Does (new_user-IsNeutral sys))) λ u.
        Balances-bind (Balances-Does (get_machine_context-IsNeutral sys)) λ _.
          Balances-bind (Balances-Does (search does_rules)) λ name.
            Balances-bind (Balances-context _ (install-Balances sys _ disk_config)) λ disk.
              Balances-bind (Balances-Does (search does_rules depth 20)) λ port.
                Balances-bracket lock_path _ (Acquires-context lock_path _ (laws.new_vm-Acquires _))
                  (Returns-context _ _ (laws.new_vm-open _)) close_vm-GivesBack
                  (λ v. start_vm-IsNeutral config disk v port (rest_of args))
