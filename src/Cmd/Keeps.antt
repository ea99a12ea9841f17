-- ===== src/Cmd/Keeps.antt =====
-- cmd/run.go: the events that remove a directory.
use podman_bootc.Vm.Platform.{linux_vm}
use podman_bootc.Base.{ℕ, Text, List, [], ◌∷◌, Option, none, some}
use podman_bootc.Base.Int.{ℤ}
use podman_bootc.Cmd.Harmless.{
  IsHarmless, IsHarmlessAction, new_user-IsHarmless, try_lock_in-IsHarmless, new_vm-IsHarmless,
  close_vm-IsHarmless,
}
use podman_bootc.Cmd.Run.{OsVmConfig, attach, start_vm, do_run}
use podman_bootc.Cmd.Ssh.{exit_with, ssh_exit}
use podman_bootc.Cmd.Stop.{close_vm}
use podman_bootc.Credentials.{generate_keys}
use podman_bootc.Disk.{BootcDisk, DiskImageConfig, pull_image, pull_and_inspect, get_size}
use podman_bootc.Disk.Install.{
  requested_size, run_install_container, fill_disk, bootc_install_image_to_disk, check_digest,
  get_or_install_image_to_disk, install,
}
use podman_bootc.Go.Errors.{Error}
use podman_bootc.User.{new_user}
use podman_bootc.Utils.Locks.{CacheLock, AccessMode, try_lock_in, unlock}
use podman_bootc.Utils.Machine.{
  get_machine_context, get_machine_info, get_pv4_machine_info, get_pv5_machine_info,
  info_of_inspect,
}
use podman_bootc.Utils.Net.{get_free_local_tcp_port}
use podman_bootc.Vm.{NewVmParameters, RunVmParameters, BootcVmCommon}
use podman_bootc.Vm.CloudInit.{create_ci_data_iso, parse_cloud_init}
use podman_bootc.Vm.Config.{write_config, load_config_file}
use podman_bootc.Vm.Linux.{
  BootcVmLinux, is_running, any_named, exists, shutdown, undefine, delete, new_vm, poll_rounds,
  wait_for_vm_to_be_running, clear_stopped, run,
}
use podman_bootc.Vm.Oem.{tmp_file_ssh_key, oem_string_systemd_credential, oem_string}
use podman_bootc.Vm.Ssh.{dial_rounds, wait_for_ssh_to_be_ready, run_ssh}
use podman_bootc.Vm.Template.{smbios_of, parse_domain_template}
use podman_bootc.World.Calls.{
  System, Answer, MachineInspect, Event, Trace, Action, acted, remove_all,
}
use podman_bootc.World.Events.{Does-mono, Extends, Does, Does-pure, Does-fail, does_rules}

abbrev IsNoRemovalAction : Action → Type 0
IsNoRemovalAction (remove_all d) = ⊥
IsNoRemovalAction _ = Unit

-- An event that is not the removal of a directory.
abbrev pub IsNoRemoval : Event → Type 0
IsNoRemoval (acted c r) = IsNoRemovalAction c
IsNoRemoval _ = Unit

harmless_action_keeps : (c : Action) → IsHarmlessAction c → IsNoRemovalAction c
harmless_action_keeps (remove_all d) h = h
harmless_action_keeps _ h = tt

harmless_keeps : (e : Event) → IsHarmless e → IsNoRemoval e
harmless_keeps (acted c r) h = harmless_action_keeps c h
harmless_keeps _ h = tt

module _ (sys : System) where
  new_user-IsNoRemoval : Does IsNoRemoval (new_user sys)
  new_user-IsNoRemoval = Does-mono harmless_keeps (new_user-IsHarmless sys)

  info_of_inspect-IsNoRemoval : (l : List MachineInspect) → Does IsNoRemoval (info_of_inspect sys l)
  unfolding info_of_inspect
  info_of_inspect-IsNoRemoval [] = Does-fail _
  info_of_inspect-IsNoRemoval (m ∷ l) = Does-pure _

  get_machine_context-IsNoRemoval : Does IsNoRemoval (get_machine_context sys)
  unfolding get_machine_context get_machine_info get_pv4_machine_info get_pv5_machine_info
  get_machine_context-IsNoRemoval = search (does_rules, info_of_inspect-IsNoRemoval) depth 20

  try_lock_in-IsNoRemoval :
      (lock : CacheLock) (mode : AccessMode) → Does IsNoRemoval (try_lock_in sys lock mode)
  try_lock_in-IsNoRemoval lock mode =
      Does-mono harmless_keeps (try_lock_in-IsHarmless sys lock mode)

  bootc_install-IsNoRemoval :
      (p : BootcDisk) (config : DiskImageConfig)
      → Does IsNoRemoval (bootc_install_image_to_disk sys p config)
  unfolding bootc_install_image_to_disk requested_size fill_disk run_install_container
  bootc_install-IsNoRemoval p config = search does_rules depth 24

  check_digest-IsNoRemoval :
      (p : BootcDisk) (config : DiskImageConfig) (meta : Answer Text)
      → Does IsNoRemoval (check_digest sys p config meta)
  unfolding check_digest
  check_digest-IsNoRemoval p config meta = search (does_rules, bootc_install-IsNoRemoval) depth 20

  install-IsNoRemoval :
      (p : BootcDisk) (config : DiskImageConfig) → Does IsNoRemoval (install sys p config)
  unfolding install pull_image pull_and_inspect unlock get_or_install_image_to_disk
  install-IsNoRemoval p config =
      search
        (does_rules, try_lock_in-IsNoRemoval, bootc_install-IsNoRemoval, check_digest-IsNoRemoval)
        depth 24

  new_vm-IsNoRemoval : (params : NewVmParameters) → Does IsNoRemoval (new_vm sys params)
  new_vm-IsNoRemoval params = Does-mono harmless_keeps (new_vm-IsHarmless sys params)

  close_vm-IsNoRemoval : (v : BootcVmLinux) → Does IsNoRemoval (close_vm sys (linux_vm sys) v)
  close_vm-IsNoRemoval v = Does-mono harmless_keeps (close_vm-IsHarmless sys v)

  delete-IsNoRemoval : (v : BootcVmLinux) → Does IsNoRemoval (delete sys v)
  unfolding delete shutdown exists any_named undefine is_running
  delete-IsNoRemoval v = search does_rules depth 24

  parse_domain_template-IsNoRemoval :
      (v : BootcVmCommon) → Does IsNoRemoval (parse_domain_template sys v)
  unfolding parse_domain_template smbios_of oem_string oem_string_systemd_credential
      tmp_file_ssh_key parse_cloud_init create_ci_data_iso
  parse_domain_template-IsNoRemoval v = search does_rules depth 24

  clear_stopped-IsNoRemoval : (v : BootcVmLinux) → Does IsNoRemoval (clear_stopped sys v)
  unfolding clear_stopped is_running
  clear_stopped-IsNoRemoval v = search (does_rules, delete-IsNoRemoval) depth 20

  wait-IsNoRemoval : (d : ℕ) → Does IsNoRemoval (wait_for_vm_to_be_running sys d)
  unfolding wait_for_vm_to_be_running poll_rounds
  wait-IsNoRemoval d = search does_rules depth 20

  run-IsNoRemoval :
      (v : BootcVmLinux) (params : RunVmParameters) → Does IsNoRemoval (run sys v params)
  unfolding run
  run-IsNoRemoval v params =
      search
        (does_rules, clear_stopped-IsNoRemoval, parse_domain_template-IsNoRemoval, wait-IsNoRemoval)
        depth 24

  exit_with-IsNoRemoval : (r : ℤ × Option Error) → Does IsNoRemoval (exit_with r)
  exit_with-IsNoRemoval (code, none) = Does-pure code
  exit_with-IsNoRemoval (code, some e) = Does-fail e

  attach-IsNoRemoval :
      (config : OsVmConfig) (v : BootcVmLinux) (cmd : List Text)
      → Does IsNoRemoval (attach sys (linux_vm sys) config v cmd)
  unfolding attach ssh_exit run_ssh load_config_file wait_for_ssh_to_be_ready dial_rounds
  attach-IsNoRemoval config v cmd =
      search (does_rules, exit_with-IsNoRemoval, delete-IsNoRemoval) depth 24

  start_vm-IsNoRemoval :
      (config : OsVmConfig) (disk : BootcDisk) (v : BootcVmLinux) (port : ℕ) (cmd : List Text)
      → Does IsNoRemoval (start_vm sys (linux_vm sys) config disk v port cmd)
  unfolding start_vm generate_keys write_config get_size
  start_vm-IsNoRemoval config disk v port cmd =
      search (does_rules, run-IsNoRemoval, attach-IsNoRemoval) depth 24

  run_command-IsNoRemoval :
      (config : OsVmConfig) (disk_config : DiskImageConfig) (args : List Text)
      → Does IsNoRemoval (do_run sys (linux_vm sys) config disk_config args)
  unfolding do_run get_free_local_tcp_port
  run_command-IsNoRemoval config disk_config args =
      search
        (
          does_rules, new_user-IsNoRemoval, get_machine_context-IsNoRemoval, install-IsNoRemoval,
          new_vm-IsNoRemoval, close_vm-IsNoRemoval, start_vm-IsNoRemoval,
        )
        depth 24

-- On Linux, for every system, setting of the flags (`--rm` among them), configuration of the disk,
-- argument list and history: `run` makes no call that removes a directory.
pub do_run-IsNoRemoval :
    (sys : System) (config : OsVmConfig) (disk_config : DiskImageConfig) (args : List Text)
    (t : Trace)
    → Extends IsNoRemoval t (do_run sys (linux_vm sys) config disk_config args t).1
do_run-IsNoRemoval sys config disk_config args t =
    (run_command-IsNoRemoval sys config disk_config args).on t
