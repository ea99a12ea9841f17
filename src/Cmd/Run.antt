-- ===== src/Cmd/Run.antt =====
-- cmd/run.go: `podman-bootc run IMAGE [COMMAND]`. The goroutine that prints the console of the VM only
-- reads from libvirt, and is left out.
use podman_bootc.Base.{
  ℕ, Bool, true, false, not, ◌||◌, Text, lit, List, [], ◌∷◌, first, rest_of, none, if◌then◌else◌,
}
use podman_bootc.Base.Int.{ℤ, pos}
use podman_bootc.Cmd.Ssh.{ssh_exit}
use podman_bootc.Cmd.Stop.{close_vm}
use podman_bootc.Config.{libvirt_uri_default}
use podman_bootc.Credentials.{generate_keys}
use podman_bootc.Disk.{BootcDisk, DiskImageConfig, new_bootc_disk}
use podman_bootc.Disk.Install.{install}
use podman_bootc.User.{new_user}
use podman_bootc.Utils.Net.{get_free_local_tcp_port}
use podman_bootc.Utils.Locks.{shared}
use podman_bootc.Utils.Machine.{get_machine_context}
use podman_bootc.Vm.Config.{write_config}
use podman_bootc.Vm.Platform.{BootcVm}
use podman_bootc.Vm.Ssh.{wait_for_ssh_to_be_ready}
use podman_bootc.World.Calls.{System}
use podman_bootc.World.Exec.{M, pure, context, or_crash, deferring, ◌>>=◌, ◌>>◌, pause}

-- `osVmConfig`, less the two fields that no code reads, and whether `--cloudinit` was given.
pub record OsVmConfig : Type 0 where
  pub user : Text
  pub cloud_init_dir : Text
  pub cloud_init_changed : Bool
  pub background : Bool
  pub remove_vm : Bool
  pub quiet : Bool

abbrev pub is_nil : {A : Type 0} → List A → Bool
is_nil [] = true
is_nil (x ∷ xs) = false

module _ {V : Type 0} (sys : System) (vm : BootcVm V) where
  -- The foreground part of `doRun`: wait for SSH, run it, and delete the VM if that was asked for.
  unfoldable pub attach : OsVmConfig → V → List Text → M ℤ
  attach config v cmd = do
    context (lit "WaitSshReady") (wait_for_ssh_to_be_ready sys (vm.common v))
    if config.quiet then pure tt else pause sys 1000
    code ← context (lit "ssh") (ssh_exit sys vm v cmd)
    if config.remove_vm || not (is_nil cmd)
        then (do context (lit "unable to remove VM from cache") (vm.delete v); pure code)
        else pure code

  -- `doRun` from the VM on: its key, its start, its configuration file.
  unfoldable pub start_vm : OsVmConfig → BootcDisk → V → ℕ → List Text → M ℤ
  start_vm config disk v port cmd = do
    identity ←
        context (lit "unable to generate ssh key") (generate_keys sys (vm.common v).cache_dir)
    v' ← context (lit "runBootcVM") (
        vm.run v (record {
          vm_user = config.user;
          cloud_init_dir = config.cloud_init_dir;
          cloud_init_data = config.cloud_init_changed;
          ssh_identity = identity;
          ssh_port = port;
          cmd = cmd;
          remove_vm = config.remove_vm;
          background = config.background;
        }))
    write_config sys (vm.common v') disk
    if config.background then pure (pos 0) else attach config v' cmd

  -- `doRun`, with its flags.
  unfoldable pub do_run : OsVmConfig → DiskImageConfig → List Text → M ℤ
  do_run config disk_config args = do
    user ← context (lit "unable to get user") (new_user sys)
    _ ← get_machine_context sys
    name ← or_crash (first args)
    disk ←
        context (lit "unable to install bootc image")
          (install sys (new_bootc_disk none name user) disk_config)
    port ← context (lit "unable to get free port for SSH") (get_free_local_tcp_port sys)
    v ← context (lit "unable to initialize VM") (
        vm.new_vm (record {
          image_id = disk.image_id;
          user = user;
          libvirt_uri = libvirt_uri_default;
          locking = shared;
        }))
    deferring (close_vm sys vm v) (start_vm config disk v port (rest_of args))
