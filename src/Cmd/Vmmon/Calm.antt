-- ===== src/Cmd/Vmmon/Calm.antt =====
-- cmd/vmmon.go and pkg/vm/monitor.go: panics.
use podman_bootc.Base.{
  ℕ, zero, suc, ◌≤◌, ◌≡◌, refl, ◌≢◌, true, [], ◌∷◌, Text, length, is_some, slice_to, slice_to-long,
}
use podman_bootc.Base.Int.{ℤ, pos}
use podman_bootc.Cmd.Calm.{new_user-Calm}
use podman_bootc.Cmd.Vmmon.{do_mon}
use podman_bootc.Go.Decimal.{parse_int}
use podman_bootc.Go.Errors.{panic}
use podman_bootc.Utils.Files.{
  read_pid_file, write_pid_file, file_exists, wait_rounds, wait_for_file_with_backoffs,
}
use podman_bootc.Utils.Process.{send_interrupt}
use podman_bootc.Vm.Gvproxy.{GvproxyDaemon, cleanup_daemon, start_daemon, stop_daemon}
use podman_bootc.Vm.Krunkit.{Krunkit, record_process, start_krunkit_process, wait_krunkit}
use podman_bootc.Vm.Monitor.{
  MonitorParameters, get_binary_path, start_network_daemon, start_krunkit, start_monitor,
}
use podman_bootc.Vm.Monitor.Processes.{start_network_daemon-runs}
use podman_bootc.Vm.Oem.{tmp_file_ssh_key, oem_string_systemd_credential}
use podman_bootc.World.Returns.{Returns, Returns-bind, Returns-context, Returns-pure}
use podman_bootc.World.Calls.{System, Trace}
use podman_bootc.World.Calm.{
  Calm, Calm-ne-panic, Calm-bind, Calm-then, Calm-context, Calm-deferring, Calm-ignore, Calm-pure,
  Calm-fail, Calm-on_error, Calm-or_crash, Calm-some, Calm-if_nil, Calm-act, calm_rules,
}
use podman_bootc.World.Commands.{Cmd, start_cmd, cancel_cmd, wait_cmd}

abbrev Runs : Cmd → Type 0
Runs cmd = is_some cmd.process ≡ true

module _ (sys : System) where
  start_cmd-Calm : (cmd : Cmd) → Calm (start_cmd sys cmd)
  unfolding start_cmd
  start_cmd-Calm cmd = search calm_rules depth 6

  cancel_cmd-Calm : (cmd : Cmd) → Runs cmd → Calm (cancel_cmd sys cmd)
  unfolding cancel_cmd
  cancel_cmd-Calm cmd h = Calm-bind (Calm-or_crash cmd.process h) (λ pid. search calm_rules)

  wait_cmd-Calm : (cmd : Cmd) → Calm (wait_cmd sys cmd)
  unfolding wait_cmd
  wait_cmd-Calm cmd = search calm_rules depth 6

  cleanup_daemon-Calm : (pid_file socket : Text) → Calm (cleanup_daemon sys pid_file socket)
  unfolding cleanup_daemon read_pid_file send_interrupt
  cleanup_daemon-Calm pid_file socket = search calm_rules depth 20

  wait_rounds-Calm : (rounds backoff : ℕ) (path : Text) → Calm (wait_rounds sys rounds backoff path)
  unfolding wait_rounds file_exists
  wait_rounds-Calm zero backoff path = search calm_rules
  wait_rounds-Calm (suc rounds) backoff path = search (calm_rules, wait_rounds-Calm rounds) depth 12

  start_daemon-Calm : (d : GvproxyDaemon) → Calm (start_daemon sys d)
  unfolding start_daemon wait_for_file_with_backoffs
  start_daemon-Calm d =
      search (calm_rules, cleanup_daemon-Calm, start_cmd-Calm, wait_rounds-Calm) depth 20

  get_binary_path-Calm : (name : Text) → Calm (get_binary_path sys name)
  unfolding get_binary_path
  get_binary_path-Calm name = search calm_rules depth 10

  start_network_daemon-Calm : (dir : Text) (port : ℤ) → Calm (start_network_daemon sys dir port)
  unfolding start_network_daemon
  start_network_daemon-Calm dir port =
      search (calm_rules, get_binary_path-Calm, start_daemon-Calm) depth 10

  write_pid_file-Calm : (path : Text) (pid : ℤ) → Calm (write_pid_file sys path pid)
  unfolding write_pid_file
  write_pid_file-Calm path pid = search calm_rules depth 10

  record_process-Calm : (k : Krunkit) → Runs k.cmd → Calm (record_process sys k)
  unfolding record_process
  record_process-Calm k h = Calm-bind (Calm-or_crash k.cmd.process h) λ pid.
      Calm-on_error (write_pid_file-Calm k.pid_file (pos pid))
        λ e. Calm-bind (Calm-ignore (cancel_cmd-Calm k.cmd h)) (λ _. Calm-fail _)

  start_cmd-Runs : (cmd : Cmd) → Returns Runs (start_cmd sys cmd)
  unfolding start_cmd
  start_cmd-Runs cmd = Returns-bind _ _ λ pid. Returns-pure Runs _ refl

  start_krunkit_process-Calm : (k : Krunkit) → Calm (start_krunkit_process sys k)
  unfolding start_krunkit_process
  start_krunkit_process-Calm k =
      Calm-then Runs (Calm-context _ (start_cmd-Calm k.cmd))
        (Returns-context Runs _ (start_cmd-Runs k.cmd))
        λ cmd h. Calm-bind (record_process-Calm (record k { cmd = cmd }) h) (λ _. Calm-pure _)

  start_krunkit-Calm :
      (dir user identity socket : Text) → Calm (start_krunkit sys dir user identity socket)
  unfolding start_krunkit oem_string_systemd_credential tmp_file_ssh_key
  start_krunkit-Calm dir user identity socket =
      search (calm_rules, get_binary_path-Calm, start_krunkit_process-Calm) depth 14

  start_monitor-Calm : (params : MonitorParameters) → Calm (start_monitor sys params)
  unfolding start_monitor stop_daemon wait_krunkit
  start_monitor-Calm params =
      Calm-then _ (start_network_daemon-Calm _ _) (start_network_daemon-runs sys _ _) λ d h.
        Calm-deferring (Calm-ignore (cancel_cmd-Calm d.cmd h))
          (Calm-bind (start_krunkit-Calm _ _ _ _) λ k. Calm-ignore (wait_cmd-Calm k.cmd))

  do_mon-Calm :
      (id user identity port : Text)
      → 12 ≤ length id
      → Calm (do_mon sys (id ∷ user ∷ identity ∷ port ∷ []))
  unfolding do_mon
  do_mon-Calm id user identity port long = Calm-bind (new_user-Calm sys) λ u. Calm-some id _ (
      Calm-some user _ (
        Calm-some identity _ (
          Calm-some port _ (
            Calm-if_nil (parse_int port) (Calm-fail _) λ ssh_port.
              Calm-bind (Calm-or_crash (slice_to 12 id) (slice_to-long 12 id long))
                λ short_id. Calm-bind (Calm-act sys _) λ _. start_monitor-Calm _))))

-- For every system, user name, SSH identity, port and history, and every image id of at least twelve
-- bytes: `vmmon` does not panic with these arguments.
pub do_mon-ne-panic :
    (sys : System) (id user identity port : Text) (t : Trace)
    → 12 ≤ length id
    → (do_mon sys (id ∷ user ∷ identity ∷ port ∷ []) t).0 ≢ panic
do_mon-ne-panic sys id user identity port t long =
    Calm-ne-panic (do_mon-Calm sys id user identity port long) t
