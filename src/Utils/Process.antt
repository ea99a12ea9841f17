-- ===== src/Utils/Process.antt =====
-- pkg/utils/process.go: signals to a process.
use podman_bootc.Base.{ℕ, Bool, true, false}
use podman_bootc.Base.Int.{ℤ}
use podman_bootc.Go.Errors.{ok}
use podman_bootc.World.Calls.{System, find_process, signal_process}
use podman_bootc.World.Exec.{M, pure, attempt, ◌>>=◌, ◌>>◌, act}

-- `os.Interrupt`.
abbrev pub sigint : ℕ
sigint = 2

module _ (sys : System) where
  -- `IsProcessAlive(pid)`: signal 0 asks whether the process is there.
  unfoldable pub is_process_alive : ℤ → M Bool
  is_process_alive pid = do
    r ← attempt (do act sys (find_process pid); act sys (signal_process pid 0))
    pure (elim r [ ok _ ↦ true | _ ↦ false ])

  -- `SendInterrupt(pid)`.
  unfoldable pub send_interrupt : ℤ → M (Unit {0})
  send_interrupt pid = do act sys (find_process pid); act sys (signal_process pid sigint)
