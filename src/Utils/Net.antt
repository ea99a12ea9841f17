-- ===== src/Utils/Net.antt =====
-- pkg/utils/net.go: a free port, and whether a port is open.
use podman_bootc.Base.{ℕ, Bool, true, false}
use podman_bootc.World.Calls.{System, free_port, dial_tcp, close_socket}
use podman_bootc.World.Exec.{M, pure, branch, deferring, ignore, ◌>>=◌, act, measure}

module _ (sys : System) where
  -- `GetFreeLocalTcpPort()`: the port of a listener on a port that the system chooses.
  unfoldable pub get_free_local_tcp_port : M ℕ
  get_free_local_tcp_port = do
    port ← measure sys free_port
    deferring (ignore (act sys (close_socket port))) (pure port)

  -- `IsPortOpen(port)`.
  unfoldable pub is_port_open : ℕ → M Bool
  is_port_open port =
      branch (act sys (dial_tcp port))
        (λ _. deferring (ignore (act sys (close_socket port))) (pure true)) (λ _. pure false)
