-- ===== src/Vm/Dials.antt =====
-- pkg/vm/vm.go: the loop of `WaitForSSHToBeReady`, by rounds.
use podman_bootc.Base.{ℕ, zero, suc, ◌+◌, ◌*◌, ◌≤◌, ◌≡◌, refl, ◌∷◌, Text, lit, arith}
use podman_bootc.Go.Errors.{Result, ok, err, new_error}
use podman_bootc.Vm.{BootcVmCommon}
use podman_bootc.Vm.Ssh.{ssh_timeout, ssh_interval, dial_rounds, wait_for_ssh_to_be_ready}
use podman_bootc.World.Calls.{
  System, Answer, done, failed, dial_ssh, read_file, parse_private_key, acted, answered, Trace,
}
use podman_bootc.World.Exec.{fail, retry, on_error, handled, given, act, read, pause, ◌>>=◌, ◌>>◌}
use podman_bootc.World.Events.{does_rules}
use podman_bootc.World.Sleeps.{slept, slept-bind, rested, pause_step}

module _ (sys : System) (user : Text) (port : ℕ) where
  -- The history after one dial.
  abbrev dialled : Trace → Trace
  dialled t = acted (dial_ssh user port) (sys.act t (dial_ssh user port)) ∷ t

  abbrev dial_result : ℕ → Trace → Answer (Unit {0}) → Result (Unit {0}) × Trace
  dial_result n t (done x) = (ok tt, t)
  dial_result n t (failed e) = dial_rounds sys n user port (rested sys ssh_interval t)

  -- One round of the loop.
  dial_step :
      (n : ℕ) (t : Trace)
      → dial_rounds sys (suc n) user port t
        ≡ dial_result n (dialled t) (sys.act t (dial_ssh user port))
  unfolding dial_rounds retry on_error act
  dial_step n t = by_answer (sys.act t (dial_ssh user port)) (dialled t)
    where
      by_answer :
          (r : Answer (Unit {0})) (u : Trace)
          → handled (λ _. do pause sys ssh_interval; dial_rounds sys n user port) (given r) u
            ≡ dial_result n u r
      by_answer (done x) u = refl
      by_answer (failed e) u = pause_step sys ssh_interval (dial_rounds sys n user port) u

  no_rounds :
      (t : Trace)
      → dial_rounds sys 0 user port t
        ≡ (err (new_error (lit "SSH did not become ready in 1m0s seconds")), t)
  unfolding dial_rounds retry fail
  no_rounds t = refl

  result-bounded :
      (n : ℕ) (t : Trace) (a r : Answer (Unit {0}))
      → let u = acted (dial_ssh user port) a ∷ t in
        (slept (dial_rounds sys n user port (rested sys ssh_interval u)).1
          ≤ slept (rested sys ssh_interval u) + n * ssh_interval)
        → slept (dial_result n u r).1 ≤ slept t + suc n * ssh_interval
  result-bounded n t a (done x) h = omega arith
  result-bounded n t a (failed e) h = omega (arith, h)

  dial_rounds-bounded :
      (n : ℕ) (t : Trace) → slept (dial_rounds sys n user port t).1 ≤ slept t + n * ssh_interval
  dial_rounds-bounded zero t = rw (no_rounds t) (omega arith)
  dial_rounds-bounded (suc n) t = rw (dial_step n t) (
      result-bounded n t (sys.act t (dial_ssh user port)) (sys.act t (dial_ssh user port))
        (dial_rounds-bounded n (rested sys ssh_interval (dialled t))))

  -- Once this time was slept, the server answers.
  abbrev pub AnswersAfter : ℕ → Type 0
  AnswersAfter ms = (u : Trace) → ms ≤ slept u → sys.act u (dial_ssh user port) ≡ done tt

  live_result :
      (n : ℕ) (t : Trace) (r : Answer (Unit {0}))
      → (dial_rounds sys n user port (rested sys ssh_interval t)).0 ≡ ok tt
      → (dial_result n t r).0 ≡ ok tt
  live_result n t (done x) h = refl
  live_result n t (failed e) h = h

  dial_rounds-live :
      (n : ℕ) (t : Trace) (ms : ℕ)
      → ms ≤ slept t + n * ssh_interval
      → AnswersAfter ms
      → (dial_rounds sys (suc n) user port t).0 ≡ ok tt
  dial_rounds-live zero t ms h answers = rw (dial_step 0 t, answers t (omega arith)) refl
  dial_rounds-live (suc n) t ms h answers = rw (dial_step (suc n) t) (
      live_result (suc n) (dialled t) (sys.act t (dial_ssh user port))
        (dial_rounds-live n (rested sys ssh_interval (dialled t)) ms (omega arith) answers))

-- For every system, VM and history: if the key file is read and parsed and the SSH server of the VM
-- answers whenever this process has slept at least `ms` since its start, and that is at most 59.5 s
-- more than it has slept before, waiting for SSH succeeds.
pub wait_for_ssh_to_be_ready-live :
    (sys : System) (v : BootcVmCommon) (key : Text) (ms : ℕ) (t : Trace)
    → sys.read t (read_file v.ssh_identity) ≡ done key
    → sys.act (answered (read_file v.ssh_identity) (done key) ∷ t) (parse_private_key key) ≡ done tt
    → ms ≤ slept t + 59500
    → AnswersAfter sys v.vm_username v.ssh_port ms
    → (wait_for_ssh_to_be_ready sys v t).0 ≡ ok tt
unfolding wait_for_ssh_to_be_ready on_error read act ◌>>=◌
wait_for_ssh_to_be_ready-live sys v key ms t e_key e_parsed h answers =
    rw (e_key, e_parsed)
      (dial_rounds-live sys v.vm_username v.ssh_port 119 _ ms (omega arith) answers)

-- For every system, VM and history: waiting for SSH sleeps at most the timeout of 60 s.
pub wait_for_ssh_to_be_ready-bounded :
    (sys : System) (v : BootcVmCommon) (t : Trace)
    → slept (wait_for_ssh_to_be_ready sys v t).1 ≤ slept t + ssh_timeout
unfolding wait_for_ssh_to_be_ready
wait_for_ssh_to_be_ready-bounded sys v t =
    slept-bind ssh_timeout _ _ t (search does_rules depth 10) λ key u.
      slept-bind ssh_timeout _ _ u (search does_rules depth 10)
        λ _ w. dial_rounds-bounded sys v.vm_username v.ssh_port 120 w
