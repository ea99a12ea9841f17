-- ===== src/Cmd/Starts.antt =====
-- cmd/run.go: panics.
use podman_bootc.Base.{ℕ, ◌≢◌, List, ◌∷◌, Text}
use podman_bootc.Cmd.Calm.{new_user-Calm, new_vm-Calm, close_vm-Calm, ssh_exit-Calm}
use podman_bootc.Cmd.Run.{OsVmConfig, attach, start_vm, do_run}
use podman_bootc.Credentials.{generate_keys}
use podman_bootc.Disk.{BootcDisk, DiskImageConfig}
use podman_bootc.Disk.Calm.{install-Calm}
use podman_bootc.Go.Errors.{panic}
use podman_bootc.Utils.Calm.{get_machine_context-Calm}
use podman_bootc.Utils.Net.{get_free_local_tcp_port}
use podman_bootc.Vm.{BootcVmCommon}
use podman_bootc.Vm.Calm.{
  IsReady, IsStarted, delete-Calm, run-Calm, run-Started, new_vm-Ready, write_config-Calm,
}
use podman_bootc.Vm.Linux.{BootcVmLinux}
use podman_bootc.Vm.Platform.{linux_vm}
use podman_bootc.Vm.Ssh.{dial_rounds, wait_for_ssh_to_be_ready}
use podman_bootc.World.Returns.{Returns-context}
use podman_bootc.World.Calls.{System, Trace}
use podman_bootc.World.Calm.{
  Calm, Calm-ne-panic, Calm-bind, Calm-then, Calm-context, Calm-if, Calm-some, Calm-pure,
  Calm-deferring, calm_rules,
}

module _ (sys : System) where
  wait-Calm : (v : BootcVmCommon) → Calm (wait_for_ssh_to_be_ready sys v)
  unfolding wait_for_ssh_to_be_ready dial_rounds
  wait-Calm v = search calm_rules depth 20

  attach-Calm :
      (config : OsVmConfig) (v : BootcVmLinux) (cmd : List Text)
      → IsStarted v
      → Calm (attach sys (linux_vm sys) config v cmd)
  unfolding attach
  attach-Calm config v cmd h = Calm-bind (Calm-context _ (wait-Calm v.common)) λ _.
      Calm-bind (search calm_rules depth 6) λ _.
        Calm-bind (Calm-context _ (ssh_exit-Calm sys v cmd)) λ code.
          Calm-if _ (Calm-bind (Calm-context _ (delete-Calm sys v h)) (λ _. Calm-pure code))
            (Calm-pure code)

  generate_keys-Calm : (dir : Text) → Calm (generate_keys sys dir)
  unfolding generate_keys
  generate_keys-Calm dir = search calm_rules depth 20

  start_vm-Calm :
      (config : OsVmConfig) (disk : BootcDisk) (v : BootcVmLinux) (port : ℕ) (cmd : List Text)
      → IsReady v
      → Calm (start_vm sys (linux_vm sys) config disk v port cmd)
  unfolding start_vm
  start_vm-Calm config disk v port cmd h =
      Calm-bind (Calm-context _ (generate_keys-Calm v.cache_dir)) λ identity.
        Calm-then _ (Calm-context _ (run-Calm sys v _ h))
          (Returns-context _ _ (run-Started sys v _ h))
          λ w started.
            Calm-bind (write_config-Calm sys w.common disk started.ready.long_id)
              λ _. Calm-if config.background (Calm-pure _) (attach-Calm config w cmd started)

  run_command-Calm :
      (config : OsVmConfig) (disk_config : DiskImageConfig) (image : Text) (cmd : List Text)
      → Calm (do_run sys (linux_vm sys) config disk_config (image ∷ cmd))
  unfolding do_run get_free_local_tcp_port
  run_command-Calm config disk_config image cmd =
      Calm-bind (Calm-context _ (new_user-Calm sys)) λ user.
        Calm-bind (get_machine_context-Calm sys) λ _. Calm-some image _ (
          Calm-bind (Calm-context _ (install-Calm sys _ disk_config)) λ disk.
            Calm-bind (search calm_rules depth 10) λ port.
              Calm-then _ (Calm-context _ (new_vm-Calm sys _))
                (Returns-context _ _ (new_vm-Ready sys _))
                λ v ready.
                  Calm-deferring (close_vm-Calm sys v ready.connected)
                    (start_vm-Calm config disk v port cmd ready))

-- For every system, setting of the flags, configuration of the disk, image, command to run in the
-- VM and history: `run` on Linux does not panic.
pub do_run-ne-panic :
    (sys : System) (config : OsVmConfig) (disk_config : DiskImageConfig) (image : Text)
    (cmd : List Text) (t : Trace)
    → (do_run sys (linux_vm sys) config disk_config (image ∷ cmd) t).0 ≢ panic
do_run-ne-panic sys config disk_config image cmd t =
    Calm-ne-panic (run_command-Calm sys config disk_config image cmd) t
