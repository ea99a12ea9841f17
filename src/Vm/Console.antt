-- ===== src/Vm/Console.antt =====
-- pkg/vm/vm_linux.go: the console of a VM, printed until its stream ends.
pub mod Rounds
use podman_bootc.Base.{ℕ, Bool, lit, Option, none, some, ◌==◌, if◌then◌else◌}
use podman_bootc.Vm.Linux.{BootcVmLinux}
use podman_bootc.World.Calls.{System, new_stream, open_console, receive}
use podman_bootc.World.Exec.{M, pure, retry, or_crash, context, ◌>>=◌, ◌>>◌, act, measure}

module _ (sys : System) where
  -- The loop of `PrintConsole`, which has no bound of its own: at most `fuel` rounds, and `none` where
  -- they are not enough. What came is printed.
  unfoldable pub console_rounds : ℕ → ℕ → M (Option (Unit {0}))
  console_rounds fuel stream = retry fuel (pure none) (λ again. do
    got ← context (lit "unable to receive console output") (measure sys (receive stream))
    if got == 0 then pure (some tt) else again)

  -- `(v *BootcVMLinux) PrintConsole()`.
  unfoldable pub print_console : ℕ → BootcVmLinux → M (Option (Unit {0}))
  print_console fuel v = do
    conn ← or_crash v.libvirt_connection
    stream ← context (lit "unable to create console stream") (measure sys (new_stream conn))
    d ← or_crash v.domain
    context (lit "unable to open console") (act sys (open_console d stream))
    console_rounds fuel stream
