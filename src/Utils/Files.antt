-- ===== src/Utils/Files.antt =====
-- pkg/utils/file.go: pid files, and waiting for a file to appear.
use podman_bootc.Base.{
  ℕ, zero, suc, ◌*◌, Bool, true, false, Text, lit, [], ◌∷◌, ◌++◌, Option, none, some, ◌==◌,
  if◌then◌else◌,
}
use podman_bootc.Base.Int.{ℤ, pos, ltb_ℤ}
use podman_bootc.Go.Decimal.{format_int, parse_int}
use podman_bootc.Go.Errors.{Error, Result, ok, err, panic, new_error, is_not_exist}
use podman_bootc.World.Calls.{System, stat_size, read_file, write_file}
use podman_bootc.World.Exec.{M, pure, fail, if_nil, attempt, ◌>>=◌, ◌>>◌, measure, read, act, pause}
use mathlib.Core.List.{reverse}

-- `bytes.Trim(b, "\n")`.
unfoldable pub trim_left : Text → Text
trim_left [] = []
trim_left (c ∷ s) = if c == 10 then trim_left s else c ∷ s

unfoldable pub trim_newlines : Text → Text
unfolding trim_left
trim_newlines s = reverse (trim_left (reverse (trim_left s)))

-- The content of a pid file as a number.
unfoldable pub parse_pid : Text → Option ℤ
unfolding trim_newlines
parse_pid content = parse_int (trim_newlines content)

-- `FileExists(path)` returns a Boolean and an error.
abbrev pub exists_of : {A : Type 0} → Result A → Bool × Option Error
exists_of (ok a) = (true, none)
exists_of (err e) = (false, if is_not_exist e then none else some e)
exists_of panic = (false, none)

module _ (sys : System) where
  -- `ReadPidFile(pidFile)`; on an error its number is -1.
  unfoldable pub read_pid_file : Text → M ℤ
  read_pid_file pid_file = do
    _ ← measure sys (stat_size pid_file)
    content ← read sys (read_file pid_file)
    if_nil (parse_pid content) (fail (new_error (lit "strconv.ParseInt"))) pure

  -- `WritePidFile(pidFile, pid)`.
  unfoldable pub write_pid_file : Text → ℤ → M (Unit {0})
  write_pid_file pid_file pid =
      if ltb_ℤ pid (pos 1)
      then fail (new_error (lit "invalid negative PID " ++ format_int pid))
      else act sys (write_file pid_file (format_int pid))

  unfoldable pub file_exists : Text → M (Bool × Option Error)
  file_exists path = do r ← attempt (measure sys (stat_size path)); pure (exists_of r)

  -- The loop of `WaitForFileWithBackoffs`: `rounds` are left, and the next wait is `backoff` ms. A
  -- `time.Duration` would wrap around only after a wait of more than 140 years.
  unfoldable pub wait_rounds : ℕ → ℕ → Text → M (Unit {0})
  wait_rounds zero backoff path = fail (new_error (lit "unable to find file at " ++ path))
  wait_rounds (suc rounds) backoff path = do
    (e, _) ← file_exists path
    if e then pure tt else (do pause sys backoff; wait_rounds rounds (backoff * 2) path)

  -- `WaitForFileWithBackoffs(maxBackoffs, backoff, path)`.
  unfoldable pub wait_for_file_with_backoffs : ℕ → ℕ → Text → M (Unit {0})
  wait_for_file_with_backoffs max_backoffs backoff path = wait_rounds max_backoffs backoff path
