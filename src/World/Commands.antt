-- ===== src/World/Commands.antt =====
-- The `exec.Cmd` values that pkg/vm makes by `exec.CommandContext`; their context is never cancelled.
use podman_bootc.Base.{ℕ, List, Text, lit, Option, some}
use podman_bootc.Go.Errors.{new_error}
use podman_bootc.World.Calls.{System, start_command, cancel_command, wait_command}
use podman_bootc.World.Exec.{M, pure, fail, or_crash, if_nil, ◌>>=◌, act, measure}

-- A command line, and the process once it was started.
pub record Cmd : Type 0 where
  pub path : Text
  pub args : List Text
  pub process : Option ℕ

module _ (sys : System) where
  -- `cmd.Start()`.
  unfoldable pub start_cmd : Cmd → M Cmd
  start_cmd cmd = do
    pid ← measure sys (start_command cmd.path cmd.args)
    pure (record cmd { process = some pid })

  -- `cmd.Cancel()`, which kills the process, and panics where there is none.
  unfoldable pub cancel_cmd : Cmd → M (Unit {0})
  cancel_cmd cmd = do pid ← or_crash cmd.process; act sys (cancel_command pid)

  -- `cmd.Wait()`.
  unfoldable pub wait_cmd : Cmd → M (Unit {0})
  wait_cmd cmd =
      if_nil cmd.process (fail (new_error (lit "exec: not started")))
        (λ pid. act sys (wait_command pid))
