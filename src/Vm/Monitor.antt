-- ===== src/Vm/Monitor.antt =====
-- pkg/vm/monitor.go: the monitor of a VM on macOS. It runs gvproxy and krunkit, and ends when krunkit
-- does.
pub mod Processes
use podman_bootc.Base.{[], ◌∷◌, ◌++◌, Text, lit}
use podman_bootc.Base.Int.{ℤ}
use podman_bootc.Config.{disk_image, run_pid_file}
use podman_bootc.Go.Path.{join}
use podman_bootc.Vm.Gvproxy.{
  GvproxyDaemon, gvproxy_binary_name, new_gvproxy, start_daemon, stop_daemon,
}
use podman_bootc.Vm.Krunkit.{
  Krunkit, krunkit_binary_name, new_krunkit, start_krunkit_process, wait_krunkit,
}
use podman_bootc.Vm.Oem.{oem_string_systemd_credential}
use podman_bootc.World.Calls.{System, look_path, abs_path}
use podman_bootc.World.Exec.{M, pure, context, ignore, deferring, ◌>>=◌, read}

-- `MonitorParmeters`.
pub record MonitorParameters : Type 0 where
  pub cache_dir : Text
  pub run_dir : Text
  pub username : Text
  pub ssh_identity : Text
  pub ssh_port : ℤ

module _ (sys : System) where
  -- `getBinaryPath(binaryName)`. `filepath.Abs` returns no path with its error, so the message of the
  -- second error names none.
  unfoldable pub get_binary_path : Text → M Text
  get_binary_path binary_name = do
    binary_path ← context (lit "could not find " ++ binary_name) (read sys (look_path binary_name))
    context (lit "could not get absolut path of ") (read sys (abs_path binary_path))

  -- `startNetworkDaemon(ctx, runDir, sshPort)`: the daemon, of which the code returns the path of the
  -- socket and the method `stop`. The goroutine that waits for the daemon only logs, and is left out.
  unfoldable pub start_network_daemon : Text → ℤ → M GvproxyDaemon
  start_network_daemon run_dir ssh_port = do
    binary_path ← get_binary_path gvproxy_binary_name
    context (lit "could not start " ++ binary_path)
        (start_daemon sys (new_gvproxy sys binary_path run_dir ssh_port))

  -- `startKrunkit(ctx, cacheDir, username, sshIdentity, netSocketPath)`: the process, of which the code
  -- returns the method `wait`.
  unfoldable pub start_krunkit : Text → Text → Text → Text → M Krunkit
  start_krunkit cache_dir username ssh_identity net_socket_path = do
    binary_path ← get_binary_path krunkit_binary_name
    oem_string ←
        context (lit "creating oemstring systemd credential")
          (oem_string_systemd_credential sys username ssh_identity)
    start_krunkit_process sys (
        new_krunkit binary_path (record {
          disk = join (cache_dir ∷ disk_image ∷ []);
          net_socket = net_socket_path;
          oem_string = oem_string;
          pid_file = join (cache_dir ∷ run_pid_file ∷ []);
        }))

  -- `StartMonitor(ctx, params)`.
  unfoldable pub start_monitor : MonitorParameters → M (Unit {0})
  start_monitor params = do
    daemon ← start_network_daemon params.run_dir params.ssh_port
    deferring (ignore (stop_daemon sys daemon)) (do
      krunkit ←
          start_krunkit params.cache_dir params.username params.ssh_identity daemon.socket_path
      ignore (wait_krunkit sys krunkit))
