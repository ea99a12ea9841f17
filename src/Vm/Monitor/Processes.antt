-- ===== src/Vm/Monitor/Processes.antt =====
-- pkg/vm/monitor.go and gvproxy.go: what becomes of the processes that a monitor starts.
use podman_bootc.Base.{ℕ, zero, suc, ◌+◌, ◌≡◌, refl, ◌∙◌, Text, Option, is_some, true, ◌==◌, lit}
use podman_bootc.Base.Int.{ℤ}
use podman_bootc.Go.Errors.{ok}
use podman_bootc.Utils.Files.{read_pid_file, file_exists, wait_rounds, wait_for_file_with_backoffs}
use podman_bootc.Utils.Process.{send_interrupt}
use podman_bootc.Vm.Gvproxy.{
  max_backoffs, backoff, GvproxyDaemon, cleanup_daemon, start_daemon, stop_daemon,
}
use podman_bootc.Vm.Monitor.{MonitorParameters, start_network_daemon, start_monitor}
use podman_bootc.World.Returns.{Returns}
use podman_bootc.World.Calls.{System, Trace}
use podman_bootc.World.Ensures.{Ensures, Ensures-bind, Ensures-context, Ensures-pure}
use podman_bootc.World.Events.{Does, does_rules}
use podman_bootc.World.Exec.{M, pure, context, ignore, deferring, ◌>>=◌}
use podman_bootc.World.Locks.{one_if}
use podman_bootc.World.Outcomes.{Ends, Ends-Does, Ends-deferring, Ends-ignore, Ends-Ensures}
use podman_bootc.World.Processes.{running, running-Extends, IsAside}
use podman_bootc.Vm.Krunkit.Spawned.{
  Counts, Started, process_of, stays, start_cmd-Spawned, cancelled, get_binary_path-IsAside,
  krunkit-Ends,
}

abbrev daemon_process : GvproxyDaemon → Option ℕ
daemon_process d = d.cmd.process

module _ (sys : System) (p n : ℕ) where
  send-IsAside : (pid_file socket : Text) → Does IsAside (cleanup_daemon sys pid_file socket)
  unfolding cleanup_daemon read_pid_file send_interrupt
  send-IsAside pid_file socket = search does_rules depth 20

  wait_rounds-IsAside :
      (rounds backoff : ℕ) (path : Text) → Does IsAside (wait_rounds sys rounds backoff path)
  unfolding wait_rounds file_exists
  wait_rounds-IsAside zero backoff path = search does_rules
  wait_rounds-IsAside (suc rounds) backoff path =
      search (does_rules, wait_rounds-IsAside rounds) depth 12

  start_daemon-Ensures :
      (d : GvproxyDaemon)
      → Ensures (Counts p n) (start_daemon sys d) (λ e. Started p n (daemon_process e))
  unfolding start_daemon wait_for_file_with_backoffs
  start_daemon-Ensures d =
      Ensures-bind _ (λ _. Counts p n) _
        (Ends-Ensures _ (stays sys p n (send-IsAside d.pid_file d.socket_path)))
        λ _.
          Ensures-bind _ _ _
            (Ensures-context _ (λ cmd. Started p n (process_of cmd)) _
              (Ends-Ensures _ (start_cmd-Spawned sys p n d.cmd)))
            λ cmd. waited_for (record d { cmd = cmd })
    where
      waited_for :
          (e : GvproxyDaemon)
          → Ensures
              (Started p n (daemon_process e))
              (context
                  (lit "waiting for gvproxy socket")
                  (wait_rounds sys max_backoffs backoff d.socket_path)
                >>= λ _. pure e)
              (λ e. Started p n (daemon_process e))
      waited_for e =
          Ensures-bind _ (λ _. Started p n (daemon_process e)) _
            (Ends-Ensures _ (
              Ends-Does IsAside (λ t u x (q, same, h). (q, same, running-Extends p x ∙ h))
                (search (does_rules, wait_rounds-IsAside) depth 4)))
            (λ _. Ensures-pure _ _ e (λ t h. h))

  start_network_daemon-Ensures :
      (dir : Text) (port : ℤ)
      → Ensures
          (Counts p n)
          (start_network_daemon sys dir port)
          (λ e. Started p n (daemon_process e))
  unfolding start_network_daemon
  start_network_daemon-Ensures dir port =
      Ensures-bind _ (λ _. Counts p n) _
        (Ends-Ensures _ (stays sys p n (get_binary_path-IsAside sys p n _)))
        λ path. Ensures-context _ _ _ (start_daemon-Ensures _)

module _ (sys : System) (p n : ℕ) where
  monitored :
      (d : GvproxyDaemon) (m : M (Unit {0}))
      → ((k : ℕ) → Ends (Counts p k) m (λ _. Counts p k))
      → Ends
          (Started p n (daemon_process d))
          (deferring (ignore (stop_daemon sys d)) m)
          (λ _. Counts p n)
  unfolding stop_daemon
  monitored d m h = record {
    at = λ t (q, e, started).
        (Ends-deferring (λ _. Counts p (n + one_if (q == p))) (λ _. Counts p n)
            (h (n + one_if (q == p)))
            (λ r. Ends-ignore (Counts p n) (cancelled sys p n d.cmd q e))).at
          t started;
  }

pub start_network_daemon-runs :
    (sys : System) (dir : Text) (port : ℤ)
    → Returns (λ d. is_some d.cmd.process ≡ true) (start_network_daemon sys dir port)
start_network_daemon-runs sys dir port = record {
  at = λ t d e.
      let (q, same, _) =
        (start_network_daemon-Ensures sys 0 (running 0 t) dir port).at t refl d e in
      rw same refl;
}

-- For every system, parameters, process id and history: if gvproxy is started and its socket appears,
-- then, however `StartMonitor` ends, a process with this id that it started, gvproxy or krunkit, has
-- been killed or waited for: as many processes with this id run as before.
pub start_monitor-ends :
    (sys : System) (params : MonitorParameters) (p : ℕ) (t : Trace) (d : GvproxyDaemon)
    → (start_network_daemon sys params.run_dir params.ssh_port t).0 ≡ ok d
    → running p (start_monitor sys params t).1 ≡ running p t
unfolding start_monitor ◌>>=◌
start_monitor-ends sys params p t d e = rw e (
    (monitored sys p (running p t) d _ (λ k. krunkit-Ends sys p k _ _ _ _)).at _ (
      (start_network_daemon-Ensures sys p (running p t) params.run_dir params.ssh_port).at t refl d
        e))
