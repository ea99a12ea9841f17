-- ===== src/Cmd/Promises.antt =====
-- cmd: the locks over a whole run of the program, and over `stop` and `rm`.
use podman_bootc.Vm.Platform.{BootcVm, linux_vm, mac_vm}
use podman_bootc.Vm.Platform.Locks.{KeepsLocks, linux-KeepsLocks, mac-KeepsLocks}
use podman_bootc.Base.{◌≡◌, Bool, List, Text}
use podman_bootc.Cmd.Guards.{IsGuarded, stop-IsGuarded, remove-IsGuarded}
use podman_bootc.Cmd.Images.Columns.{write_rows, do_images}
use podman_bootc.Cmd.Locks.{
  new_user-IsNeutral, do_stop-Balances, do_ssh-Balances, do_remove-Balances, do_list-Balances,
  do_run-Balances, get_machine_context-IsNeutral,
}
use podman_bootc.Cmd.Rm.{do_remove}
use podman_bootc.Cmd.Root.{
  Command, MacCommand, common, vmmon, stop, ssh, rm, list, images, run_image, check_args, pre_exec,
  dispatch, execute, check_args_on_mac, dispatch_on_mac, execute_on_mac,
}
use podman_bootc.Cmd.Stop.{do_stop}
use podman_bootc.Cmd.Vmmon.Locks.{do_mon-IsNeutral}
use podman_bootc.User.{init_osc_dirs}
use podman_bootc.World.Brackets.{Balances, Balances-bind, Balances-Does}
use podman_bootc.World.Calls.{System, Trace}
use podman_bootc.World.Judged.{ExtendsBy}
use podman_bootc.World.Events.{Does, does_rules}
use podman_bootc.World.Locks.{held, IsNeutral}

module _ (sys : System) where
  check_args-IsNeutral : (c : Command) → Does IsNeutral (check_args sys c)
  unfolding check_args
  check_args-IsNeutral (stop args) = search does_rules
  check_args-IsNeutral (ssh user args) = search does_rules
  check_args-IsNeutral (rm everything force args) = search does_rules
  check_args-IsNeutral (list args) = search does_rules
  check_args-IsNeutral (images args) = search does_rules
  check_args-IsNeutral (run_image config disk_config args) = search does_rules

  pre_exec-IsNeutral : (level : Text) → Does IsNeutral (pre_exec sys level)
  unfolding pre_exec init_osc_dirs
  pre_exec-IsNeutral level = search (does_rules, new_user-IsNeutral) depth 20

  do_images-IsNeutral : Does IsNeutral (do_images sys)
  unfolding do_images write_rows
  do_images-IsNeutral = search (does_rules, get_machine_context-IsNeutral) depth 20

module _ {V : Type 0} (sys : System) (vm : BootcVm V) (laws : KeepsLocks vm) where
  dispatch-Balances : (c : Command) → Balances (dispatch sys vm c)
  unfolding dispatch
  dispatch-Balances (stop args) =
      Balances-bind (do_stop-Balances sys vm laws args) (λ _. Balances-Does (search does_rules))
  dispatch-Balances (ssh user args) = do_ssh-Balances sys vm laws user args
  dispatch-Balances (rm everything force args) =
      Balances-bind (do_remove-Balances sys vm laws everything force args)
        (λ _. Balances-Does (search does_rules))
  dispatch-Balances (list args) =
      Balances-bind (do_list-Balances sys vm laws) (λ _. Balances-Does (search does_rules))
  dispatch-Balances (images args) = Balances-Does (search (does_rules, do_images-IsNeutral) depth 6)
  dispatch-Balances (run_image config disk_config args) =
      do_run-Balances sys vm laws config disk_config args

  execute-Balances : (level : Text) (c : Command) → Balances (execute sys vm level c)
  unfolding execute
  execute-Balances level c =
      Balances-bind (Balances-Does (check_args-IsNeutral sys c))
        λ _. Balances-bind (Balances-Does (pre_exec-IsNeutral sys level)) λ _. dispatch-Balances c

module _ (sys : System) where
  check_args_on_mac-IsNeutral : (c : MacCommand) → Does IsNeutral (check_args_on_mac sys c)
  unfolding check_args_on_mac
  check_args_on_mac-IsNeutral (common c) = check_args-IsNeutral sys c
  check_args_on_mac-IsNeutral (vmmon args) = search does_rules

  dispatch_on_mac-Balances : (c : MacCommand) → Balances (dispatch_on_mac sys c)
  unfolding dispatch_on_mac
  dispatch_on_mac-Balances (common c) = dispatch-Balances sys (mac_vm sys) (mac-KeepsLocks sys) c
  dispatch_on_mac-Balances (vmmon args) =
      Balances-Does (search (does_rules, do_mon-IsNeutral) depth 6)

  execute_on_mac-Balances : (level : Text) (c : MacCommand) → Balances (execute_on_mac sys level c)
  unfolding execute_on_mac
  execute_on_mac-Balances level c =
      Balances-bind (Balances-Does (check_args_on_mac-IsNeutral c)) λ _.
        Balances-bind (Balances-Does (pre_exec-IsNeutral sys level)) λ _. dispatch_on_mac-Balances c

-- On Linux, for every system, log level, command with its flags and arguments, history and lock
-- file: when the command has ended, with success, an error or a panic, this process holds the lock
-- of the file as often as before, where an `Unlock` counts as giving it back whatever it answers.
pub execute-keeps_locks :
    (sys : System) (level : Text) (c : Command) (l : Text) (t : Trace)
    → held l (execute sys (linux_vm sys) level c t).1 ≡ held l t
execute-keeps_locks sys level c l t =
    (execute-Balances sys (linux_vm sys) (linux-KeepsLocks sys) level c).at l t

-- On macOS, for every system, log level, command with its flags and arguments, `vmmon` among them,
-- history and lock file: when the command has ended, with success, an error or a panic, this
-- process holds the lock of the file as often as before, where an `Unlock` counts as giving it back
-- whatever it answers.
pub execute-keeps_locks_on_mac :
    (sys : System) (level : Text) (c : MacCommand) (l : Text) (t : Trace)
    → held l (execute_on_mac sys level c t).1 ≡ held l t
execute-keeps_locks_on_mac sys level c l t = (execute_on_mac-Balances sys level c).at l t

-- On Linux, for every system, argument list and history: each call that `stop` makes to destroy or
-- undefine a domain is about a domain that libvirt returned under the VM name of an id, and is made
-- while this process holds exclusively the lock file of the directory of this id in the cache of a
-- user; each removal of a directory is made while it holds exclusively the lock file of that
-- directory.
pub do_stop-IsGuarded :
    (sys : System) (args : List Text) (t : Trace)
    → ExtendsBy (IsGuarded sys) t (do_stop sys (linux_vm sys) args t).1
do_stop-IsGuarded sys args t = (stop-IsGuarded sys args).on t tt

-- On Linux, for every system, setting of `--all` and `--force`, argument list and history: each call
-- that `rm` makes to destroy or undefine a domain is about a domain that libvirt returned under the VM
-- name of an id, and is made while this process holds exclusively the lock file of the directory of
-- this id in the cache of a user; each removal of a directory is made while it holds exclusively the
-- lock file of that directory.
pub do_remove-IsGuarded :
    (sys : System) (everything force : Bool) (args : List Text) (t : Trace)
    → ExtendsBy (IsGuarded sys) t (do_remove sys (linux_vm sys) everything force args t).1
do_remove-IsGuarded sys everything force args t =
    (remove-IsGuarded sys everything force args).on t tt
