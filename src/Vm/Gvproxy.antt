-- ===== src/Vm/Gvproxy.antt =====
-- pkg/vm/gvproxy.go: the network daemon gvproxy.
use podman_bootc.Base.{ℕ, [], ◌∷◌, ◌++◌, Text, lit, none}
use podman_bootc.Base.Int.{ℤ}
use podman_bootc.Go.Path.{join}
use podman_bootc.Utils.Files.{read_pid_file, wait_for_file_with_backoffs}
use podman_bootc.Utils.Process.{send_interrupt}
use podman_bootc.World.Calls.{System, remove}
use podman_bootc.World.Commands.{Cmd, start_cmd, cancel_cmd, wait_cmd}
use podman_bootc.World.Exec.{M, pure, branch, context, ignore, ◌>>=◌, ◌>>◌, act}

abbrev pub gvproxy_binary_name : Text
gvproxy_binary_name = lit "gvproxy"

abbrev pub pid_file_name : Text
pid_file_name = lit "gvproxy.pid"

abbrev pub socket_file : Text
socket_file = lit "net.sock"

-- How long `start` waits for the socket, the backoff in ms.
abbrev pub max_backoffs : ℕ
max_backoffs = 5

abbrev pub backoff : ℕ
backoff = 200

-- `gvproxyDaemon`.
pub record GvproxyDaemon : Type 0 where
  pub socket_path : Text
  pub pid_file : Text
  pub cmd : Cmd

module _ (sys : System) where
  -- `newGvproxy(ctx, binaryPath, rundir, param)`, where `param` is the SSH port.
  unfoldable pub new_gvproxy : Text → Text → ℤ → GvproxyDaemon
  new_gvproxy binary_path rundir ssh_port =
      let socket_path = join (rundir ∷ socket_file ∷ []) in
      let pid_file = join (rundir ∷ pid_file_name ∷ []) in
      record {
        socket_path = socket_path;
        pid_file = pid_file;
        cmd = record {
          path = binary_path;
          args = sys.gvproxy_cmdline ssh_port pid_file (lit "unixgram://" ++ socket_path);
          process = none;
        };
      }

  -- `cleanup(pidFile, socketPath)`: a daemon that runs already is interrupted.
  unfoldable pub cleanup_daemon : Text → Text → M (Unit {0})
  cleanup_daemon pid_file socket_path = do
    branch (read_pid_file sys pid_file) (λ pid. ignore (send_interrupt sys pid)) (λ e. pure tt)
    ignore (act sys (remove pid_file))
    ignore (act sys (remove socket_path))

  -- `(d *gvproxyDaemon) start()`: the daemon with its process.
  unfoldable pub start_daemon : GvproxyDaemon → M GvproxyDaemon
  start_daemon d = do
    cleanup_daemon d.pid_file d.socket_path
    cmd ← context (lit "unable to start gvproxy") (start_cmd sys d.cmd)
    context (lit "waiting for gvproxy socket")
        (wait_for_file_with_backoffs sys max_backoffs backoff d.socket_path)
    pure (record d { cmd = cmd })

  -- `(d *gvproxyDaemon) stop()` and `wait()`.
  unfoldable pub stop_daemon : GvproxyDaemon → M (Unit {0})
  stop_daemon d = cancel_cmd sys d.cmd

  unfoldable pub wait_daemon : GvproxyDaemon → M (Unit {0})
  wait_daemon d = wait_cmd sys d.cmd
