-- ===== src/Vm/Ssh.antt =====
-- pkg/vm/vm.go: the SSH side of a VM, `SetUser`, `WaitForSSHToBeReady` and `RunSSH`.
use podman_bootc.Base.{ℕ, ◌/◌, ◌*◌, List, [], ◌∷◌, ◌++◌, Text, lit, is_empty, if◌then◌else◌}
use podman_bootc.Base.Int.{pos}
use podman_bootc.Go.Decimal.{format_int}
use podman_bootc.Go.Errors.{new_error, message}
use podman_bootc.Vm.{BootcVmCommon}
use podman_bootc.Vm.Config.{load_config_file}
use podman_bootc.World.Calls.{System, read_file, parse_private_key, dial_ssh, run_command}
use podman_bootc.World.Exec.{M, pure, fail, retry, context, on_error, ◌>>=◌, ◌>>◌, act, pause, read}

-- `(v *BootcVMCommon) SetUser(user)`.
unfoldable pub set_user : BootcVmCommon → Text → M BootcVmCommon
set_user v user =
    if is_empty user
    then fail (new_error (lit "user is required"))
    else pure (record v { vm_username = user })

-- The timeout and the interval of `WaitForSSHToBeReady`, in ms.
abbrev pub ssh_timeout : ℕ
ssh_timeout = 60 * 1000

abbrev pub ssh_interval : ℕ
ssh_interval = 500

-- The arguments of `ssh` before the command.
unfoldable pub ssh_options : Text → ℕ → Text → List Text
ssh_options identity port username =
    lit "-i"
    ∷ identity
    ∷ lit "-p"
    ∷ format_int (pos port)
    ∷ (username ++ lit "@localhost")
    ∷ lit "-o"
    ∷ lit "IdentitiesOnly=yes"
    ∷ lit "-o"
    ∷ lit "PasswordAuthentication=no"
    ∷ lit "-o"
    ∷ lit "StrictHostKeyChecking=no"
    ∷ lit "-o"
    ∷ lit "LogLevel=ERROR"
    ∷ lit "-o"
    ∷ lit "SetEnv=LC_ALL="
    ∷ lit "-o"
    ∷ lit "UserKnownHostsFile=/dev/null"
    ∷ []

module _ (sys : System) where
  -- The loop of `WaitForSSHToBeReady`. `rounds` is what is left of the timeout, in intervals: `elapsed`
  -- grows by one interval with each failed dial.
  unfoldable pub dial_rounds : ℕ → Text → ℕ → M (Unit {0})
  dial_rounds rounds user port =
      retry rounds (fail (new_error (lit "SSH did not become ready in 1m0s seconds")))
        (λ again. on_error (act sys (dial_ssh user port)) (λ _. do pause sys ssh_interval; again))

  -- `(v *BootcVMCommon) WaitForSSHToBeReady()`.
  unfoldable pub wait_for_ssh_to_be_ready : BootcVmCommon → M (Unit {0})
  wait_for_ssh_to_be_ready v = do
    key ←
        on_error (read sys (read_file v.ssh_identity))
          (λ e. fail (new_error (lit "failed to read private key file: " ++ message e)))
    on_error (act sys (parse_private_key key))
        (λ e. fail (new_error (lit "failed to parse private key: " ++ message e)))
    dial_rounds (ssh_timeout / ssh_interval) v.vm_username v.ssh_port

  -- `(v *BootcVMCommon) RunSSH(inputArgs)`: the port and the key are those of the configuration file.
  unfoldable pub run_ssh : BootcVmCommon → List Text → M (Unit {0})
  run_ssh v input_args = do
    cfg ← context (lit "failed to load VM config") (load_config_file sys v)
    act sys (
        run_command (lit "ssh")
          (ssh_options cfg.ssh_identity cfg.ssh_port v.vm_username ++ input_args))
