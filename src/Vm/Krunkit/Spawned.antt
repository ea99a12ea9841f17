-- ===== src/Vm/Krunkit/Spawned.antt =====
-- pkg/vm/krunkit.go and the part of monitor.go that starts krunkit: what becomes of its process.
use podman_bootc.Base.{ℕ, ◌+◌, ◌≡◌, refl, ◌∙◌, Text, Option, some, ◌==◌, ◌∷◌, arith}
use podman_bootc.Base.Int.{ℤ, pos}
use podman_bootc.Go.Errors.{Error, Result, ok, err, panic}
use podman_bootc.Utils.Files.{write_pid_file}
use podman_bootc.Vm.Krunkit.{Krunkit, record_process, start_krunkit_process, wait_krunkit}
use podman_bootc.Vm.Monitor.{get_binary_path, start_krunkit}
use podman_bootc.Vm.Oem.{tmp_file_ssh_key, oem_string_systemd_credential}
use podman_bootc.World.Calls.{System, Trace, Answer, done, failed, start_command, measured}
use podman_bootc.World.Calm.{Calm, IsCalm, calm_rules}
use podman_bootc.World.Commands.{Cmd, start_cmd, cancel_cmd, wait_cmd}
use podman_bootc.World.Events.{Does, does_rules}
use podman_bootc.World.Exec.{
  M, pure, fail, or_crash, if_nil, wrapped, ignore, given, continue, on_error, ◌>>=◌, ◌>>◌, act,
  measure,
}
use podman_bootc.World.Locks.{one_if}
use podman_bootc.World.Outcomes.{
  Ends, Ends-pure, Ends-fail, Ends-Does, Ends-context, Ends-on_error, Ends-bind, Ends-ignore,
  Ends-mono, Ends-or_crash,
}
use podman_bootc.World.Processes.{
  running, running-Extends, running-start, running-start_failed, running-cancel, running-wait,
  IsAside,
}

-- There are `n` processes with the id `p`; or one more if `o` is this process.
abbrev pub Counts : ℕ → ℕ → Trace → Type 0
Counts p n t = running p t ≡ n

abbrev pub Started : ℕ → ℕ → Option ℕ → Trace → Type 0
Started p n o t = (q : ℕ) × (o ≡ some q) × (running p t ≡ n + one_if (q == p))

-- A part that starts a process and returns it, or leaves none.
abbrev Spawned : {A : Type 0} → ℕ → ℕ → (A → Option ℕ) → Result A → Trace → Type 0
Spawned p n get (ok a) t = Started p n (get a) t
Spawned p n get _ t = Counts p n t

abbrev pub process_of : Cmd → Option ℕ
process_of cmd = cmd.process

abbrev krunkit_process : Krunkit → Option ℕ
krunkit_process k = k.cmd.process

module _ (sys : System) (p n : ℕ) where
  pub stays : {A : Type 0} {m : M A} → Does IsAside m → Ends (Counts p n) m (λ _. Counts p n)
  stays h = Ends-Does IsAside (λ t u x r. running-Extends p x ∙ r) h

  Spawned-wrapped :
      {A : Type 0} (get : A → Option ℕ) (s : Text) (r : Result A) (t : Trace)
      → Spawned p n get r t
      → Spawned p n get (wrapped s r) t
  Spawned-wrapped get s (ok a) t h = h
  Spawned-wrapped get s (err e) t h = h
  Spawned-wrapped get s panic t h = h

  started :
      (cmd : Cmd) (r : Answer ℕ) (t : Trace)
      → Counts p n t
      → let u = measured (start_command cmd.path cmd.args) r ∷ t in
        let x = continue (λ q. pure (record cmd { process = some q })) (given r) u in
        Spawned p n process_of x.0 x.1
  unfolding pure
  started cmd (done q) t h = (q, refl, running-start p cmd.path cmd.args q t ∙ omega (arith, h))
  started cmd (failed e) t h = running-start_failed p cmd.path cmd.args e t ∙ h

  pub start_cmd-Spawned :
      (cmd : Cmd) → Ends (Counts p n) (start_cmd sys cmd) (Spawned p n process_of)
  unfolding start_cmd measure ◌>>=◌
  start_cmd-Spawned cmd = record { at = λ t h. started cmd (sys.measure t _) t h }

  pub cancelled :
      (cmd : Cmd) (q : ℕ)
      → cmd.process ≡ some q
      → Ends (Counts p (n + one_if (q == p))) (cancel_cmd sys cmd) (λ _. Counts p n)
  unfolding cancel_cmd or_crash pure act ◌>>=◌
  cancelled cmd q e = record { at = λ t h. rw e (running-cancel p q _ t ∙ omega (arith, h)) }

  waited :
      (cmd : Cmd) (q : ℕ)
      → cmd.process ≡ some q
      → Ends (Counts p (n + one_if (q == p))) (wait_cmd sys cmd) (λ _. Counts p n)
  unfolding wait_cmd if_nil act
  waited cmd q e = record { at = λ t h. rw e (running-wait p q _ t ∙ omega (arith, h)) }

  write_pid_file-IsAside : (path : Text) (pid : ℤ) → Does IsAside (write_pid_file sys path pid)
  unfolding write_pid_file
  write_pid_file-IsAside path pid = search does_rules depth 10

  write_pid_file-Calm : (path : Text) (pid : ℤ) → Calm (write_pid_file sys path pid)
  unfolding write_pid_file
  write_pid_file-Calm path pid = search calm_rules depth 10

  -- Once krunkit was started, it stays if its id is written, and is killed if not.
  recorded :
      (k : Krunkit) (q : ℕ) (g : Error → Error)
      → k.cmd.process ≡ some q
      → Ends
          (Counts p (n + one_if (q == p)))
          (on_error
            (write_pid_file sys k.pid_file (pos q))
            (λ e. do ignore (cancel_cmd sys k.cmd); fail (g e)))
          (Spawned p n (λ _. some q))
  recorded k q g e =
      let m = n + one_if (q == p) in
      Ends-on_error (λ r t. IsCalm r × Counts p m t) _
        (record {
          at = λ t h. (
            (write_pid_file-Calm k.pid_file (pos q)).at t,
            running-Extends p ((write_pid_file-IsAside k.pid_file (pos q)).on t) ∙ h,
          );
        })
        (λ a u h. (q, refl, h.1))
        (λ x.
          Ends-bind (λ _. Counts p n) _
            (Ends-ignore (Counts p n) (record { at = λ t h. (cancelled k.cmd q e).at t h.1 }))
            (λ _. Ends-fail _ (g x) (λ t h. h)) (λ y u h. h) (λ u h. h))
        (λ u h. absurd h.0)

  record_process-Ends :
      (k : Krunkit) (q : ℕ)
      → k.cmd.process ≡ some q
      → Ends (Counts p (n + one_if (q == p))) (record_process sys k) (Spawned p n (λ _. some q))
  unfolding record_process
  record_process-Ends k q e = Ends-or_crash _ k.cmd.process q _ e (recorded k q _ e)

  start_krunkit_process-Spawned :
      (k : Krunkit) → Ends (Counts p n) (start_krunkit_process sys k) (Spawned p n krunkit_process)
  unfolding start_krunkit_process
  start_krunkit_process-Spawned k =
      Ends-bind (Spawned p n process_of) _
        (Ends-context _ _ (Ends-mono (Spawned-wrapped process_of _) (start_cmd-Spawned k.cmd)))
        (λ cmd. with_process (record k { cmd = cmd })) (λ e u h. h) (λ u h. h)
    where
      with_process :
          (k : Krunkit)
          → Ends
              (Started p n k.cmd.process)
              (record_process sys k >>= λ _. pure k)
              (Spawned p n krunkit_process)
      with_process k = record {
        at = λ t (q, e, h).
            (Ends-bind (Spawned p n (λ _. some q)) _ (record_process-Ends k q e)
                (λ _.
                  Ends-pure (Spawned p n krunkit_process) k (λ u (q', e', h'). (q', e ∙ e', h')))
                (λ x u h. h) (λ u h. h)).at
              t h;
      }

  pub get_binary_path-IsAside : (name : Text) → Does IsAside (get_binary_path sys name)
  unfolding get_binary_path
  get_binary_path-IsAside name = search does_rules depth 10

  oem_string-IsAside :
      (user identity : Text) → Does IsAside (oem_string_systemd_credential sys user identity)
  unfolding oem_string_systemd_credential tmp_file_ssh_key
  oem_string-IsAside user identity = search does_rules depth 10

  start_krunkit-Spawned :
      (dir user identity socket : Text)
      → Ends (Counts p n) (start_krunkit sys dir user identity socket) (Spawned p n krunkit_process)
  unfolding start_krunkit
  start_krunkit-Spawned dir user identity socket =
      Ends-bind (λ _. Counts p n) _ (stays (get_binary_path-IsAside _))
        (λ path.
          Ends-bind (λ _. Counts p n) _ (stays (search (does_rules, oem_string-IsAside) depth 4))
            (λ s. start_krunkit_process-Spawned _) (λ e u h. h) (λ u h. h))
        (λ e u h. h) (λ u h. h)

  -- The part of `StartMonitor` that the deferred call follows.
  pub krunkit-Ends :
      (dir user identity socket : Text)
      → Ends
          (Counts p n)
          (start_krunkit sys dir user identity socket >>= λ k. ignore (wait_krunkit sys k))
          (λ _. Counts p n)
  unfolding wait_krunkit
  krunkit-Ends dir user identity socket =
      Ends-bind (Spawned p n krunkit_process) _ (start_krunkit-Spawned dir user identity socket)
        (λ k. record { at = λ t (q, e, h). (Ends-ignore (Counts p n) (waited k.cmd q e)).at t h })
        (λ e u h. h) (λ u h. h)
