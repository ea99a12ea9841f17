-- ===== src/Tests/Mac.antt =====
-- The properties of the macOS part and of several processes, on concrete inputs.
use podman_bootc.Base.{◌+◌, ◌≡◌, ◌≢◌, refl, true, false, lit, [], ◌∷◌, some, arith, List, Text}
use podman_bootc.Base.Int.{pos}
use podman_bootc.Cmd.MacGuards.{IsGuarded, do_remove-IsGuarded_on_mac, do_stop-IsGuarded_on_mac}
use podman_bootc.Cmd.Rm.{do_remove}
use podman_bootc.Cmd.Stop.{do_stop}
use podman_bootc.World.Judged.{ExtendsBy}
use podman_bootc.Cmd.Promises.{execute-keeps_locks_on_mac}
use podman_bootc.Cmd.Root.{vmmon, execute_on_mac}
use podman_bootc.Cmd.Vmmon.{do_mon}
use podman_bootc.Cmd.Vmmon.Calm.{do_mon-ne-panic}
use podman_bootc.Go.Errors.{ok, panic}
use podman_bootc.Tests.Sim.{calm, id_a, user_a}
use podman_bootc.Go.Decimal.{parse_int}
use podman_bootc.Utils.Files.{
  parse_pid, read_pid_file, file_exists, wait_rounds, wait_for_file_with_backoffs,
}
use podman_bootc.Utils.Locks.{exclusive}
use podman_bootc.Utils.Process.{send_interrupt}
use podman_bootc.Vm.{NewVmParameters}
use podman_bootc.Vm.Gvproxy.{GvproxyDaemon, new_gvproxy, cleanup_daemon, start_daemon}
use podman_bootc.Vm.Krunkit.{KrunkitCmdLine, as_slice, new_krunkit_cmd_line}
use podman_bootc.Vm.Krunkit.CommandLine.{parse_options, parse_options-as_slice}
use podman_bootc.Vm.Mac.{new_vm}
use podman_bootc.Vm.Mac.Locking.{lock_path, new_vm-locks}
use podman_bootc.Vm.Platform.{mac_vm}
use podman_bootc.Vm.Monitor.{
  MonitorParameters, get_binary_path, start_network_daemon, start_monitor,
}
use podman_bootc.Vm.Monitor.Processes.{start_monitor-ends}
use podman_bootc.World.Brackets.{gained}
use podman_bootc.World.Commands.{start_cmd}
use podman_bootc.World.Exec.{
  pure, fail, context, attempt, branch, ignore, if_nil, act, read, measure, ◌>>=◌,
}
use podman_bootc.World.Locks.{held}
use podman_bootc.World.Processes.{running}

abbrev monitor_a : MonitorParameters
monitor_a = record {
  cache_dir = lit "/cache/a";
  run_dir = lit "/run/a";
  username = lit "root";
  ssh_identity = lit "/key";
  ssh_port = pos 2222;
}

daemon_a : GvproxyDaemon
unfolding new_gvproxy
daemon_a =
    let d = new_gvproxy calm (lit "text") (lit "/run/a") (pos 2222) in
    record d { cmd = record d.cmd { process = some 100 } }

daemon_a-starts : (start_network_daemon calm (lit "/run/a") (pos 2222) []).0 ≡ ok daemon_a
unfolding daemon_a start_network_daemon get_binary_path start_daemon cleanup_daemon start_cmd
    read_pid_file file_exists wait_rounds wait_for_file_with_backoffs send_interrupt new_gvproxy
    pure fail context attempt branch ignore if_nil act read measure ◌>>=◌ parse_pid parse_int lit
daemon_a-starts = refl

start_monitor-ends_example : running 100 (start_monitor calm monitor_a []).1 ≡ running 100 []
start_monitor-ends_example = start_monitor-ends calm monitor_a 100 [] daemon_a daemon_a-starts

do_mon-ne-panic_example :
    (do_mon calm (id_a ∷ lit "root" ∷ lit "/key" ∷ lit "2222" ∷ []) []).0 ≢ panic
do_mon-ne-panic_example =
    do_mon-ne-panic calm id_a (lit "root") (lit "/key") (lit "2222") [] (omega arith)

abbrev two_devices : KrunkitCmdLine
two_devices = record {
  cpus = pos 4;
  memory = pos 2048;
  devices = lit "virtio-rng" ∷ lit "virtio-blk,path=/d" ∷ [];
  oem_strings = lit "oem" ∷ [];
}

parse_options-as_slice_example :
    parse_options (as_slice two_devices) (some (new_krunkit_cmd_line (pos 0) (pos 0)))
    ≡ some two_devices
parse_options-as_slice_example = parse_options-as_slice two_devices (omega arith) (omega arith)

abbrev vm_parameters_a : NewVmParameters
vm_parameters_a = record { image_id = id_a; user = user_a; libvirt_uri = []; locking = exclusive }

new_vm-locks_example :
    held (lit "/l") (new_vm calm vm_parameters_a []).1
    ≡ held (lit "/l") [] + gained lock_path (lit "/l") (new_vm calm vm_parameters_a []).0
new_vm-locks_example = new_vm-locks calm vm_parameters_a (lit "/l") []

abbrev monitor_arguments : List Text
monitor_arguments = id_a ∷ lit "root" ∷ lit "/key" ∷ lit "2222" ∷ []

execute-keeps_locks_on_mac_example :
    held (lit "/lock") (execute_on_mac calm [] (vmmon monitor_arguments) []).1
    ≡ held (lit "/lock") []
execute-keeps_locks_on_mac_example =
    execute-keeps_locks_on_mac calm [] (vmmon monitor_arguments) (lit "/lock") []

do_remove-IsGuarded_on_mac_example :
    ExtendsBy (IsGuarded calm) [] (do_remove calm (mac_vm calm) false true (id_a ∷ []) []).1
do_remove-IsGuarded_on_mac_example = do_remove-IsGuarded_on_mac calm false true (id_a ∷ []) []

do_stop-IsGuarded_on_mac_example :
    ExtendsBy (IsGuarded calm) [] (do_stop calm (mac_vm calm) (id_a ∷ []) []).1
do_stop-IsGuarded_on_mac_example = do_stop-IsGuarded_on_mac calm (id_a ∷ []) []
