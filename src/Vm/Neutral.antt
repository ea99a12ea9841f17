-- ===== src/Vm/Neutral.antt =====
-- pkg/vm between `NewVM` and `Unlock`: which events touch a lock.
use podman_bootc.Base.{ℕ, List, Text}
use podman_bootc.Disk.{BootcDisk, get_size}
use podman_bootc.Vm.{BootcVmCommon, RunVmParameters}
use podman_bootc.Vm.Cache.{delete_from_cache}
use podman_bootc.Vm.CloudInit.{create_ci_data_iso, parse_cloud_init}
use podman_bootc.Vm.Config.{write_config, load_config_file}
use podman_bootc.Vm.Linux.{
  BootcVmLinux, is_running, get_config, any_named, exists, shutdown, undefine, delete, poll_rounds,
  wait_for_vm_to_be_running, clear_stopped, run,
}
use podman_bootc.Vm.Oem.{tmp_file_ssh_key, oem_string_systemd_credential, oem_string}
use podman_bootc.Vm.Ssh.{dial_rounds, wait_for_ssh_to_be_ready, run_ssh}
use podman_bootc.Vm.Template.{smbios_of, parse_domain_template}
use podman_bootc.World.Calls.{System}
use podman_bootc.World.Events.{Does, does_rules}
use podman_bootc.World.Locks.{IsNeutral}

module _ (sys : System) where
  pub is_running-IsNeutral : (v : BootcVmLinux) → Does IsNeutral (is_running sys v)
  unfolding is_running
  is_running-IsNeutral v = search does_rules depth 20

  pub load_config_file-IsNeutral : (v : BootcVmCommon) → Does IsNeutral (load_config_file sys v)
  unfolding load_config_file
  load_config_file-IsNeutral v = search does_rules depth 20

  pub get_config-IsNeutral : (v : BootcVmLinux) → Does IsNeutral (get_config sys v)
  unfolding get_config
  get_config-IsNeutral v =
      search (does_rules, is_running-IsNeutral, load_config_file-IsNeutral) depth 20

  any_named-IsNeutral :
      (name : Text) (domains : List ℕ) → Does IsNeutral (any_named sys name domains)
  unfolding any_named
  any_named-IsNeutral name domains = search does_rules depth 20

  exists-IsNeutral : (v : BootcVmLinux) → Does IsNeutral (exists sys v)
  unfolding exists
  exists-IsNeutral v = search (does_rules, any_named-IsNeutral) depth 20

  shutdown-IsNeutral : (v : BootcVmLinux) → Does IsNeutral (shutdown sys v)
  unfolding shutdown
  shutdown-IsNeutral v = search (does_rules, is_running-IsNeutral) depth 20

  undefine-IsNeutral : (d : ℕ) → Does IsNeutral (undefine sys d)
  unfolding undefine
  undefine-IsNeutral d = search does_rules depth 20

  pub delete-IsNeutral : (v : BootcVmLinux) → Does IsNeutral (delete sys v)
  unfolding delete
  delete-IsNeutral v =
      search (does_rules, shutdown-IsNeutral, exists-IsNeutral, undefine-IsNeutral) depth 20

  pub delete_from_cache-IsNeutral : (v : BootcVmCommon) → Does IsNeutral (delete_from_cache sys v)
  unfolding delete_from_cache
  delete_from_cache-IsNeutral v = search does_rules depth 20

  poll_rounds-IsNeutral : (rounds d : ℕ) → Does IsNeutral (poll_rounds sys rounds d)
  unfolding poll_rounds
  poll_rounds-IsNeutral rounds d = search does_rules depth 20

  clear_stopped-IsNeutral : (v : BootcVmLinux) → Does IsNeutral (clear_stopped sys v)
  unfolding clear_stopped
  clear_stopped-IsNeutral v = search (does_rules, is_running-IsNeutral, delete-IsNeutral) depth 20

  oem_string-IsNeutral : (v : BootcVmCommon) → Does IsNeutral (oem_string sys v)
  unfolding oem_string oem_string_systemd_credential tmp_file_ssh_key
  oem_string-IsNeutral v = search does_rules depth 20

  parse_cloud_init-IsNeutral : (v : BootcVmCommon) → Does IsNeutral (parse_cloud_init sys v)
  unfolding parse_cloud_init create_ci_data_iso
  parse_cloud_init-IsNeutral v = search does_rules depth 20

  parse_domain_template-IsNeutral :
      (v : BootcVmCommon) → Does IsNeutral (parse_domain_template sys v)
  unfolding parse_domain_template smbios_of
  parse_domain_template-IsNeutral v =
      search (does_rules, oem_string-IsNeutral, parse_cloud_init-IsNeutral) depth 20

  pub run-IsNeutral :
      (v : BootcVmLinux) (params : RunVmParameters) → Does IsNeutral (run sys v params)
  unfolding run wait_for_vm_to_be_running
  run-IsNeutral v params =
      search
        (
          does_rules, clear_stopped-IsNeutral, parse_domain_template-IsNeutral,
          poll_rounds-IsNeutral,
        )
        depth 20

  pub write_config-IsNeutral :
      (v : BootcVmCommon) (disk : BootcDisk) → Does IsNeutral (write_config sys v disk)
  unfolding write_config get_size
  write_config-IsNeutral v disk = search does_rules depth 20

  dial_rounds-IsNeutral :
      (rounds : ℕ) (user : Text) (port : ℕ) → Does IsNeutral (dial_rounds sys rounds user port)
  unfolding dial_rounds
  dial_rounds-IsNeutral rounds user port = search does_rules depth 20

  pub wait_for_ssh_to_be_ready-IsNeutral :
      (v : BootcVmCommon) → Does IsNeutral (wait_for_ssh_to_be_ready sys v)
  unfolding wait_for_ssh_to_be_ready
  wait_for_ssh_to_be_ready-IsNeutral v = search (does_rules, dial_rounds-IsNeutral) depth 20

  pub run_ssh-IsNeutral : (v : BootcVmCommon) (cmd : List Text) → Does IsNeutral (run_ssh sys v cmd)
  unfolding run_ssh
  run_ssh-IsNeutral v cmd = search (does_rules, load_config_file-IsNeutral) depth 20
