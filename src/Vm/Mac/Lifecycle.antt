-- ===== src/Vm/Mac/Lifecycle.antt =====
-- pkg/vm/krunkit.go and vm_darwin.go together: the process that the monitor starts is the one that the
-- VM asks about and interrupts.
use podman_bootc.Base.{ℕ, ◌^◌, ◌<◌, true, ◌≡◌, ◌∙◌, sym, [], ◌∷◌, Text, none, some}
use podman_bootc.Base.Int.{pos}
use podman_bootc.Config.{run_pid_file}
use podman_bootc.Go.Decimal.{format_int}
use podman_bootc.Go.Errors.{Error, ok}
use podman_bootc.Go.Path.{join}
use podman_bootc.Utils.Files.{write_pid_file}
use podman_bootc.Utils.PidFiles.{write_pid_file_lem}
use podman_bootc.Utils.Process.{sigint}
use podman_bootc.Vm.Krunkit.{Krunkit, new_krunkit, record_process, start_krunkit_process}
use podman_bootc.Vm.Mac.{BootcVmMac, is_running, delete}
use podman_bootc.Vm.Mac.Looks.{
  IsLook, Lives, Sees, Sees-context, Sees-bind, Finishes, Finishes-act, Finishes-bind, Sees-file,
  Sees-pid, Sees-found, runs_as-Sees,
}
use podman_bootc.Vm.Monitor.{start_krunkit}
use podman_bootc.World.Calls.{System, Trace, Answer, done, acted, signal_process, write_file}
use podman_bootc.World.Answers.{Ensures-mono}
use podman_bootc.World.Commands.{cancel_cmd}
use podman_bootc.World.Ensures.{
  Ensures, Any, Ensures-any, Ensures-bind, Ensures-fail, Ensures-on_error, Ensures-pure,
  Ensures-or_crash, Ensures-given,
}
use podman_bootc.World.Events.{Extends, same}
use podman_bootc.World.Exec.{fail, on_error, ignore, ◌>>◌}

module _ (sys : System) (b : BootcVmMac) (pid : ℕ) (u : Trace) (small : pid < 2 ^ 63)
    (h : Lives sys b.pid_file pid u) where
  is_running-Sees : Sees u (is_running sys b) true
  unfolding is_running
  is_running-Sees =
      Sees-bind (true, none) _ (Sees-file sys b.pid_file pid u h)
        (Sees-bind (pos pid) _ (Sees-context _ (Sees-pid sys b.pid_file pid u small h))
          (runs_as-Sees sys b.pid_file pid u h))

  delete-Finishes : Finishes u (delete sys b) (signal_process (pos pid) sigint)
  unfolding delete
  delete-Finishes = Finishes-bind true _ (Sees-context _ is_running-Sees) (
      Finishes-bind (pos pid) _ (Sees-context _ (Sees-pid sys b.pid_file pid u small h)) (
        Finishes-bind tt _ (Sees-context _ (Sees-found sys b.pid_file pid u h))
          (Finishes-act sys _)))

-- What was written, and by which process, when krunkit was started.
abbrev Recorded : Text → Krunkit → Trace → Type 0
Recorded path k t =
    (pid : ℕ) × (k.cmd.process ≡ some pid)
    × ((w : Trace) × (t ≡ acted (write_file path (format_int (pos pid))) (done tt) ∷ w))

module _ (sys : System) where
  write_pid_file-Ensures :
      (path : Text) (pid : ℕ)
      → Ensures Any
          (write_pid_file sys path (pos pid))
          (λ _ t. (w : Trace) × (t ≡ acted (write_file path (format_int (pos pid))) (done tt) ∷ w))
  write_pid_file-Ensures path pid = record {
    at = λ t _ _ e. (t, write_pid_file_lem sys path (pos pid) t e);
  }

  recording-Ensures :
      (k : Krunkit) (g : Error → Error) (pid : ℕ)
      → k.cmd.process ≡ some pid
      → Ensures Any
          (on_error
            (write_pid_file sys k.pid_file (pos pid))
            (λ e. do ignore (cancel_cmd sys k.cmd); fail (g e)))
          (λ _. Recorded k.pid_file k)
  recording-Ensures k g pid same_pid =
      Ensures-on_error Any _
        (Ensures-mono _ (λ _ t h. (pid, same_pid, h)) (write_pid_file-Ensures k.pid_file pid))
        (λ e. Ensures-bind _ (λ _ _. Unit {0}) _ (Ensures-any _ _) (λ _. Ensures-fail _ _ _))

  record_process-Ensures :
      (k : Krunkit) → Ensures Any (record_process sys k) (λ _. Recorded k.pid_file k)
  unfolding record_process
  record_process-Ensures k =
      Ensures-bind Any _ _ (Ensures-or_crash Any k.cmd.process)
        λ pid. Ensures-given _ λ same_pid. recording-Ensures k _ pid same_pid

  start_krunkit_process-Ensures :
      (k : Krunkit) → Ensures Any (start_krunkit_process sys k) (λ k'. Recorded k.pid_file k')
  unfolding start_krunkit_process
  start_krunkit_process-Ensures k =
      Ensures-bind Any (λ _. Any) _ (Ensures-any Any _)
        λ cmd.
          Ensures-bind Any (λ _. Recorded k.pid_file (record k { cmd = cmd })) _
            (record_process-Ensures (record k { cmd = cmd })) (λ _. Ensures-pure _ _ _ (λ t h. h))

  start_krunkit-Ensures :
      (dir user identity socket : Text)
      → Ensures Any
          (start_krunkit sys dir user identity socket)
          (λ k. Recorded (join (dir ∷ run_pid_file ∷ [])) k)
  unfolding start_krunkit new_krunkit
  start_krunkit-Ensures dir user identity socket =
      Ensures-bind Any (λ _. Any) _ (Ensures-any Any _)
        λ path.
          Ensures-bind Any (λ _. Any) _ (Ensures-any Any _) λ s. start_krunkit_process-Ensures _

-- After the writing of a pid file, whose content is kept, the process lives.
Lives-at :
    (sys : System) (path path' : Text) (pid q : ℕ) (u w : Trace)
    → ((q : ℕ) (w : Trace)
        → Lives sys path q (acted (write_file path (format_int (pos q))) (done tt) ∷ w))
    → path ≡ path'
    → some q ≡ some pid
    → u ≡ acted (write_file path' (format_int (pos q))) (done tt) ∷ w
    → Lives sys path pid u
Lives-at sys path path' pid q u w keeps same_path same_pid written =
    let same_q : q ≡ pid = cc in rw (written, ← same_path, same_q) (keeps pid w)

-- For every system, VM, directory, user, SSH identity, network socket, history, process and process
-- id: if `startKrunkit` returns this process, which has this id, below 2^63, the pid file of the VM
-- is the one in the directory, and from the writing of a pid file on, as long as it is only looked
-- at, the file keeps its content and the process with that id lives, then the VM is running, and
-- `Delete` only looks and then interrupts this process.
pub start_krunkit-delete :
    (sys : System) (b : BootcVmMac) (dir user identity socket : Text) (t : Trace) (k : Krunkit)
    (pid : ℕ)
    → (start_krunkit sys dir user identity socket t).0 ≡ ok k
    → k.cmd.process ≡ some pid
    → pid < 2 ^ 63
    → b.pid_file ≡ join (dir ∷ run_pid_file ∷ [])
    → ((q : ℕ) (w : Trace)
        → Lives sys b.pid_file q (acted (write_file b.pid_file (format_int (pos q))) (done tt) ∷ w))
    → let u = (start_krunkit sys dir user identity socket t).1 in
      ((is_running sys b u).0 ≡ ok true)
      × ((v : Trace) × (r : Answer (Unit {0})) × ((delete sys b u).1
            ≡ acted (signal_process (pos pid) sigint) r ∷ v)
          × Extends IsLook u v)
start_krunkit-delete sys b dir user identity socket t k pid e same_pid small same_file keeps =
    let u = (start_krunkit sys dir user identity socket t).1 in
    let (q, same_q, (w, written)) =
      (start_krunkit-Ensures sys dir user identity socket).at t tt k e in
    let lives =
      Lives-at sys b.pid_file _ pid q u w keeps same_file (sym same_q ∙ same_pid) written in
    (
      ((is_running-Sees sys b pid u small lives).at u same).0,
      (delete-Finishes sys b pid u small lives).at u same,
    )
