-- ===== src/Cmd/Ssh.antt =====
-- cmd/ssh.go: `podman-bootc ssh ID [COMMAND]`.
use podman_bootc.Base.{Text, List, first, rest_of, Option, none, some}
use podman_bootc.Base.Int.{ℤ}
use podman_bootc.Cmd.Stop.{close_vm}
use podman_bootc.Config.{libvirt_uri_default}
use podman_bootc.Go.Errors.{Error}
use podman_bootc.User.{new_user}
use podman_bootc.Utils.Errors.{with_exit_code}
use podman_bootc.Utils.Locks.{shared}
use podman_bootc.Vm.Platform.{BootcVm}
use podman_bootc.Vm.Ssh.{set_user, run_ssh}
use podman_bootc.World.Calls.{System}
use podman_bootc.World.Exec.{M, pure, fail, branch, or_crash, deferring, ◌>>=◌}

-- The exit code that a command leaves for the process, or its error.
abbrev pub exit_with : ℤ × Option Error → M ℤ
exit_with (code, none) = pure code
exit_with (code, some e) = fail e

module _ {V : Type 0} (sys : System) (vm : BootcVm V) where
  -- `ExitCode, err = utils.WithExitCode(vm.RunSSH(cmd))`.
  unfoldable pub ssh_exit : V → List Text → M ℤ
  ssh_exit v cmd =
      branch (run_ssh sys (vm.common v) cmd) (λ _. exit_with (with_exit_code none))
        (λ e. exit_with (with_exit_code (some e)))

  -- `doSsh`, with the flag `--user`.
  unfoldable pub do_ssh : Text → List Text → M ℤ
  do_ssh ssh_user args = do
    user ← new_user sys
    id ← or_crash (first args)
    v ←
        vm.new_vm (record {
          image_id = id;
          user = user;
          libvirt_uri = libvirt_uri_default;
          locking = shared;
        })
    deferring (close_vm sys vm v) (do
      common ← set_user (vm.common v) ssh_user
      ssh_exit (vm.with_common v common) (rest_of args))
