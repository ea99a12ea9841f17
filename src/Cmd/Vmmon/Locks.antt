-- ===== src/Cmd/Vmmon/Locks.antt =====
-- cmd/vmmon.go and pkg/vm/monitor.go: the events of `vmmon`, none of which touches a lock.
use podman_bootc.Base.{ℕ, zero, suc, List, Text}
use podman_bootc.Base.Int.{ℤ}
use podman_bootc.Cmd.Locks.{new_user-IsNeutral}
use podman_bootc.Cmd.Vmmon.{do_mon}
use podman_bootc.Utils.Files.{
  read_pid_file, write_pid_file, file_exists, wait_rounds, wait_for_file_with_backoffs,
}
use podman_bootc.Utils.Process.{send_interrupt}
use podman_bootc.Vm.Gvproxy.{GvproxyDaemon, cleanup_daemon, start_daemon, stop_daemon}
use podman_bootc.Vm.Krunkit.{Krunkit, record_process, start_krunkit_process, wait_krunkit}
use podman_bootc.Vm.Monitor.{
  MonitorParameters, get_binary_path, start_network_daemon, start_krunkit, start_monitor,
}
use podman_bootc.Vm.Oem.{tmp_file_ssh_key, oem_string_systemd_credential}
use podman_bootc.World.Calls.{System}
use podman_bootc.World.Commands.{Cmd, start_cmd, cancel_cmd, wait_cmd}
use podman_bootc.World.Events.{Does, does_rules}
use podman_bootc.World.Locks.{IsNeutral}

module _ (sys : System) where
  start_cmd-IsNeutral : (cmd : Cmd) → Does IsNeutral (start_cmd sys cmd)
  unfolding start_cmd
  start_cmd-IsNeutral cmd = search does_rules depth 6

  cancel_cmd-IsNeutral : (cmd : Cmd) → Does IsNeutral (cancel_cmd sys cmd)
  unfolding cancel_cmd
  cancel_cmd-IsNeutral cmd = search does_rules depth 6

  wait_cmd-IsNeutral : (cmd : Cmd) → Does IsNeutral (wait_cmd sys cmd)
  unfolding wait_cmd
  wait_cmd-IsNeutral cmd = search does_rules depth 6

  wait_rounds-IsNeutral :
      (rounds backoff : ℕ) (path : Text) → Does IsNeutral (wait_rounds sys rounds backoff path)
  unfolding wait_rounds file_exists
  wait_rounds-IsNeutral zero backoff path = search does_rules
  wait_rounds-IsNeutral (suc rounds) backoff path =
      search (does_rules, wait_rounds-IsNeutral rounds) depth 12

  start_daemon-IsNeutral : (d : GvproxyDaemon) → Does IsNeutral (start_daemon sys d)
  unfolding start_daemon cleanup_daemon read_pid_file send_interrupt wait_for_file_with_backoffs
  start_daemon-IsNeutral d =
      search (does_rules, start_cmd-IsNeutral, wait_rounds-IsNeutral) depth 24

  start_network_daemon-IsNeutral :
      (dir : Text) (port : ℤ) → Does IsNeutral (start_network_daemon sys dir port)
  unfolding start_network_daemon get_binary_path
  start_network_daemon-IsNeutral dir port = search (does_rules, start_daemon-IsNeutral) depth 16

  start_krunkit_process-IsNeutral : (k : Krunkit) → Does IsNeutral (start_krunkit_process sys k)
  unfolding start_krunkit_process record_process write_pid_file
  start_krunkit_process-IsNeutral k =
      search (does_rules, start_cmd-IsNeutral, cancel_cmd-IsNeutral) depth 20

  start_krunkit-IsNeutral :
      (dir user identity socket : Text)
      → Does IsNeutral (start_krunkit sys dir user identity socket)
  unfolding start_krunkit get_binary_path oem_string_systemd_credential tmp_file_ssh_key
  start_krunkit-IsNeutral dir user identity socket =
      search (does_rules, start_krunkit_process-IsNeutral) depth 20

  start_monitor-IsNeutral : (params : MonitorParameters) → Does IsNeutral (start_monitor sys params)
  unfolding start_monitor stop_daemon wait_krunkit
  start_monitor-IsNeutral params =
      search
        (
          does_rules, start_network_daemon-IsNeutral, start_krunkit-IsNeutral, cancel_cmd-IsNeutral,
          wait_cmd-IsNeutral,
        )
        depth 20

  pub do_mon-IsNeutral : (args : List Text) → Does IsNeutral (do_mon sys args)
  unfolding do_mon
  do_mon-IsNeutral args = search (does_rules, new_user-IsNeutral, start_monitor-IsNeutral) depth 24
