-- ===== src/Cmd/Root.antt =====
-- cmd/root.go and podman-bootc.go: one run of the program, from the parsed command line to the exit
-- status. Parsing, and the calls of cobra in between, are cobra's: it tests the arguments, runs
-- `preExec` and then the command, and stops at the first error.
use podman_bootc.Base.{Bool, Text, List, [], is_empty, if◌then◌else◌, Option}
use podman_bootc.Base.Int.{ℤ, pos}
use podman_bootc.Cmd.Images.Columns.{do_images}
use podman_bootc.Cmd.List.{do_list}
use podman_bootc.Cmd.Rm.{one_or_all, do_remove}
use podman_bootc.Cmd.Run.{OsVmConfig, do_run}
use podman_bootc.Cmd.Ssh.{do_ssh}
use podman_bootc.Cmd.Stop.{do_stop}
use podman_bootc.Cmd.Vmmon.{do_mon}
use podman_bootc.Disk.{BootcDisk, DiskImageConfig, new_bootc_disk, cleanup}
use podman_bootc.Go.Errors.{Result, ok, err, panic}
use podman_bootc.User.{new_user, init_osc_dirs}
use podman_bootc.Utils.Machine.{get_machine_context}
use podman_bootc.Vm.Platform.{BootcVm, mac_vm}
use podman_bootc.World.Calls.{System}
use podman_bootc.World.Exec.{M, pure, lift, answer, branch, ◌>>=◌, ◌>>◌}

-- A parsed command line: the command, its flags and its arguments. These are the commands that the
-- files without a build constraint register.
pub data Command : Type 0 where
  stop : List Text → Command
  ssh : Text → List Text → Command
  rm : Bool → Bool → List Text → Command
  list : List Text → Command
  images : List Text → Command
  run_image : OsVmConfig → DiskImageConfig → List Text → Command

-- A parsed command line in a build for macOS, where cmd/vmmon.go registers one more command.
pub data MacCommand : Type 0 where
  common : Command → MacCommand
  vmmon : List Text → MacCommand

-- The exit status of the process: `ExitCode`, 1 after an error, 2 after a panic.
unfoldable pub exit_status : Result ℤ → ℤ
exit_status (ok code) = code
exit_status (err e) = pos 1
exit_status panic = pos 2

module _ (sys : System) where
  -- The `Args` of each command.
  unfoldable pub check_args : Command → M (Unit {0})
  check_args (stop args) = answer (sys.exact_args 1 args)
  check_args (ssh user args) = answer (sys.minimum_args 1 args)
  check_args (rm everything force args) = lift (one_or_all everything args)
  check_args (list args) = pure tt
  check_args (images args) = pure tt
  check_args (run_image config disk_config args) = answer (sys.minimum_args 1 args)

  -- The same in a build for macOS.
  unfoldable pub check_args_on_mac : MacCommand → M (Unit {0})
  check_args_on_mac (common c) = check_args c
  check_args_on_mac (vmmon args) = answer (sys.exact_args 4 args)

  -- `preExec`, with the flag `--log-level`.
  unfoldable pub pre_exec : Text → M (Unit {0})
  pre_exec log_level = do
    if is_empty log_level then pure tt else answer (sys.parse_level log_level)
    user ← new_user sys
    init_osc_dirs sys user

  -- `cleanup`, which an interrupt starts, with the disk of the process, if there is one so far; its
  -- result is the exit status.
  unfoldable pub interrupted : Option BootcDisk → M ℤ
  interrupted disk =
      branch (new_user sys)
        (λ user.
          branch (get_machine_context sys)
            (λ _.
              branch (cleanup sys (new_bootc_disk disk [] user)) (λ _. pure (pos 1))
                (λ _. pure (pos 0)))
            (λ _. pure (pos 1)))
        (λ _. pure (pos 0))

module _ {V : Type 0} (sys : System) (vm : BootcVm V) where
  -- The `RunE` of each command, with the `ExitCode` that it leaves.
  unfoldable pub dispatch : Command → M ℤ
  dispatch (stop args) = do do_stop sys vm args; pure (pos 0)
  dispatch (ssh user args) = do_ssh sys vm user args
  dispatch (rm everything force args) = do do_remove sys vm everything force args; pure (pos 0)
  dispatch (list args) = do _ ← do_list sys vm; pure (pos 0)
  dispatch (images args) = do _ ← do_images sys; pure (pos 0)
  dispatch (run_image config disk_config args) = do_run sys vm config disk_config args

  -- `Execute`.
  unfoldable pub execute : Text → Command → M ℤ
  execute log_level c = do check_args sys c; pre_exec sys log_level; dispatch c

module _ (sys : System) where
  -- The `RunE` of each command of a build for macOS.
  unfoldable pub dispatch_on_mac : MacCommand → M ℤ
  dispatch_on_mac (common c) = dispatch sys (mac_vm sys) c
  dispatch_on_mac (vmmon args) = do do_mon sys args; pure (pos 0)

  -- `Execute`, in a build for macOS.
  unfoldable pub execute_on_mac : Text → MacCommand → M ℤ
  execute_on_mac log_level c = do check_args_on_mac sys c; pre_exec sys log_level; dispatch_on_mac c
