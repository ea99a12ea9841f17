-- ===== src/Utils/Errors.antt =====
-- pkg/utils/errors.go: the exit status of a command, out of its error.
use podman_bootc.Base.{Option, none, some, if◌then◌else◌}
use podman_bootc.Base.Int.{ℤ, pos}
use podman_bootc.Go.Errors.{Error, cause, is_exit_error, exit_status_of}

-- `WithExitCode(err)`; `none` is the nil error.
unfoldable pub with_exit_code : Option Error → ℤ × Option Error
with_exit_code none = (pos 0, none)
with_exit_code (some e) =
    if is_exit_error e then (exit_status_of (cause e) (pos 0), none) else (pos 1, some e)
